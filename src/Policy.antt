-- ===== src/Policy.antt =====
-- browser/policy: the fetching of policies from the cloud.
pub mod Invalidator
pub mod RemoteCommands
