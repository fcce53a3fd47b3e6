-- ===== src/ClusterStackController.antt =====
-- internal/controller/clusterstack_controller.go: the controller of ClusterStack objects.
pub mod Diff
pub mod Select
pub mod Remote
pub mod LatestReady
pub mod Protected
pub mod Wanted
pub mod Partition
pub mod Provider
pub mod Settled
pub mod Loops
pub mod Reconcile
pub mod Names
pub mod Converged
pub mod Provided
pub mod Progress
pub mod Readable
pub mod Watch
