-- ===== src/CaptivePortal/Examples.antt =====
-- Runs of the captive portal components, and their theorems at concrete inputs.
mod Tabs
mod Checks
mod Helpers
