-- ===== src/Webhook.antt =====
-- internal/webhook/v1alpha1/podpool_webhook.go: defaulting, validation and authorization of a pool.
pub mod Report
pub mod Defaulting
pub mod Groups
pub mod Template
pub mod Spec
pub mod Warnings
pub mod Rendered
pub mod Downgrade
pub mod Authorization
pub mod Admission
mod Tests
