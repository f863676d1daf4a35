-- ===== src/Workload.antt =====
-- internal/workload: the distribution of replicas and the rendering of child workloads.
pub mod Merge
pub mod Object
pub mod Render
pub mod Percent
pub mod Scaling
pub mod Distribution
pub mod Tests
