-- ===== src/Banners.antt =====
-- browser/banners/: when a web site may show a banner for its app. `Parameters` has the bounds, and
-- `Settings` the settings helper.
pub mod Parameters
pub mod Settings
pub mod Record
pub mod Blocked
pub mod Limit
mod Examples
