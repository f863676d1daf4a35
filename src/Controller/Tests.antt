-- ===== src/Controller/Tests.antt =====
-- Runs of the reconciler's parts and their theorems at concrete inputs.
pub mod ProbeTests
mod ProgressTests
pub mod ConditionTests
pub mod SweepTests
pub mod GroupTests
mod WatchTests
mod MetricsTests
mod EventTests
mod ReconcileTests
mod CacheTests
