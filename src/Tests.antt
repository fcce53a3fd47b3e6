-- ===== src/Tests.antt =====
-- The theorems at concrete values, and the test data.
mod Versions
mod Stacks
mod Diffs
mod Protected
mod Kube
mod Webhooks
mod Conditions
mod Addons
mod Releases
mod Reconciled
mod Hooks
mod Synced
mod Staged
mod Saved
