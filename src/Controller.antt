-- ===== src/Controller.antt =====
-- internal/controller: the reconciler.
pub mod Timing
pub mod Probe
pub mod Progress
pub mod Conditions
pub mod Sweep
pub mod Errors
pub mod Events
pub mod Group
pub mod Watch
pub mod Reasons
pub mod Probing
pub mod Observe
pub mod Metrics
pub mod Loop
pub mod Reconcile
pub mod Cache
mod Tests
