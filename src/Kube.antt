-- ===== src/Kube.antt =====
-- pkg/kube: templates are parsed, applied and deleted.
pub mod Template
pub mod Client
pub mod Deleted
pub mod Settled
pub mod Applied
pub mod Again
pub mod Labels
