-- ===== src/CaptivePortal.antt =====
-- browser/captive_portal: how a tab notices that a captive portal broke it, and the service that
-- looks for portals. Each component is a state record with one function for each method.
pub mod Portal
pub mod TabReloader
pub mod Service
pub mod LoginDetector
pub mod TabHelper
pub mod Examples
