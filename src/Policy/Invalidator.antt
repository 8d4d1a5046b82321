-- ===== src/Policy/Invalidator.antt =====
-- browser/policy/cloud/cloud_policy_invalidator.cc: which invalidations of a cloud policy lead to a
-- fetch. `Defs` has the state and its small methods, `Handling` the life of an invalidation, and
-- `Lifecycle` the callbacks of the core and the store.
pub mod Defs
pub mod Handling
pub mod Lifecycle
pub mod Verdict
pub mod Settled
pub mod Operations
pub mod Stored
pub mod Handled
pub mod Examples
