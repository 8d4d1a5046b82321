-- ===== src/CaptivePortal/Portal.antt =====
-- captive_portal::CaptivePortalResult, which the components under browser/captive_portal exchange.
use chromium_log.Prelude.{Bool, true, false}

pub data CaptivePortalResult : Type 0 where
  internet_connected no_response behind_captive_portal : CaptivePortalResult

abbrev pub is_behind : CaptivePortalResult → Bool
is_behind behind_captive_portal = true
is_behind _ = false

abbrev pub same_result : CaptivePortalResult → CaptivePortalResult → Bool
same_result internet_connected internet_connected = true
same_result no_response no_response = true
same_result behind_captive_portal behind_captive_portal = true
same_result _ _ = false
