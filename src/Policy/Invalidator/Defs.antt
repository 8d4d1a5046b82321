-- ===== src/Policy/Invalidator/Defs.antt =====
-- browser/policy/cloud/cloud_policy_invalidator.cc and .h: the state, and the methods that one
-- invalidation does not pass through. What the invalidator tells the service, the client, the
-- scheduler and the histograms is in `calls`, newest first. `sound` says whether every DCHECK and
-- CHECK so far has held, and no null policy was read. Times are microseconds since the Unix epoch.
use chromium_log.Prelude.{
  ℕ, ◌-◌, ◌/◌, Bool, true, false, ◌&&◌, not, List, [], ◌∷◌, Option, none, some, ◌==◌, ltb, leb,
  if◌then◌else◌,
}
use chromium_log.Prelude.Int.{ℤ, pos, negsuc, ltb_ℤ}

pub data State : Type 0 where
  uninitialized stopped started shut_down : State

abbrev pub missing_payload_delay : ℕ  -- minutes
missing_payload_delay = 5

abbrev pub max_fetch_delay_default : ℕ  -- milliseconds
max_fetch_delay_default = 10000

abbrev pub max_fetch_delay_min : ℕ
max_fetch_delay_min = 1000

abbrev pub max_fetch_delay_max : ℕ
max_fetch_delay_max = 300000

abbrev pub invalidation_grace_period : ℕ  -- seconds
invalidation_grace_period = 10

abbrev pub unknown_version_ignore_period : ℕ  -- seconds
unknown_version_ignore_period = 30

abbrev pub max_invalidation_time_delta : ℕ  -- seconds
max_invalidation_time_delta = 300

abbrev pub second : ℕ
second = 1000000

pub record ObjectId : Type 0 where
  pub source : ℕ
  pub name : ℕ

abbrev pub same_id : ObjectId → ObjectId → Bool
same_id a b = a.source == b.source && a.name == b.name

-- A syncer::Invalidation; `ack` names its acknowledgement handle.
pub record Invalidation : Type 0 where
  pub is_unknown_version : Bool
  pub version : ℤ
  pub payload : List ℕ
  pub ack : ℕ

-- The fields of enterprise_management::PolicyData that are read. base::Hash of the policy's value is
-- a number here, `none` where there is no value.
pub record PolicyData : Type 0 where
  pub timestamp : ℕ  -- milliseconds
  pub policy_value_hash : Option ℕ
  pub invalidation_source : Option ℕ
  pub invalidation_name : Option ℕ

-- The CloudPolicyStore: its policy, and the delay of the policy map if it is an integer.
pub record Store : Type 0 where
  pub policy : Option PolicyData
  pub store_invalidation_version : ℤ
  pub delay_policy : Option ℤ

-- What a call reads of the outside: the clock, the store, the invalidation service's state, whether it
-- takes a registration, and the random delay.
pub record World : Type 0 where
  pub now : ℕ
  pub store : Store
  pub service_enabled : Bool
  pub ids_accepted : Bool
  pub random : ℕ

-- METRIC_POLICY_REFRESH_* and POLICY_INVALIDATION_TYPE_*.
pub data Metric : Type 0 where
  invalidated_changed changed changed_no_invalidations invalidated_unchanged unchanged : Metric
  no_payload_expired expired no_payload normal : Metric

pub data Call : Type 0 where
  set_invalidation_info : ℤ → List ℕ → Call
  acknowledge : ℕ → Call
  refresh_soon add_core_observer remove_core_observer add_store_observer remove_store_observer :
      Call
  register_handler unregister_handler : Call
  update_ids : Option ObjectId → Call
  set_availability : Bool → Call
  device_metric user_metric : Metric → Call

-- A posted refresh.
pub record Refresh : Type 0 where
  pub is_missing_payload : Bool
  pub delay : ℕ  -- milliseconds

pub record Invalidator : Type 0 where
  pub state : State
  pub is_device : Bool
  pub invalidations_enabled : Bool
  pub invalidations_enabled_time : ℕ
  pub invalidation_service_enabled : Bool
  pub is_registered : Bool
  pub object_id : ObjectId
  pub invalid : Bool
  pub invalidation_version : ℤ
  pub unknown_version_invalidation_count : ℕ
  pub highest_handled_invalidation_version : ℤ
  pub invalidation : Option Invalidation
  pub max_fetch_delay : ℕ
  pub policy_hash_value : ℕ
  pub refreshes : List Refresh  -- posted, and not cancelled with the weak pointers
  pub client_version : ℤ  -- what the client was last told
  pub calls : List Call
  pub sound : Bool

-- The highest handled version is not negative, as the constructor's DCHECK_LE wants.
unfoldable pub new_invalidator : Bool → ℕ → Invalidator
new_invalidator is_device highest_handled = record {
  state = uninitialized;
  is_device = is_device;
  invalidations_enabled = false;
  invalidations_enabled_time = 0;
  invalidation_service_enabled = false;
  is_registered = false;
  object_id = record { source = 0; name = 0 };
  invalid = false;
  invalidation_version = pos 0;
  unknown_version_invalidation_count = 0;
  highest_handled_invalidation_version = pos highest_handled;
  invalidation = none;
  max_fetch_delay = max_fetch_delay_default;
  policy_hash_value = 0;
  refreshes = [];
  client_version = pos 0;
  calls = [];
  sound = true;
}

abbrev pub call : Call → Invalidator → Invalidator
call c i = record i { calls = c ∷ i.calls }

abbrev pub check : Bool → Invalidator → Invalidator
check b i = record i { sound = b && i.sound }

abbrev pub leq_ℤ : ℤ → ℤ → Bool
leq_ℤ a b = not (ltb_ℤ b a)

abbrev pub eq_ℤ : ℤ → ℤ → Bool
eq_ℤ (pos a) (pos b) = a == b
eq_ℤ (negsuc a) (negsuc b) = a == b
eq_ℤ _ _ = false

abbrev pub is_started : State → Bool
is_started started = true
is_started _ = false

abbrev pub is_stopped : State → Bool
is_stopped stopped = true
is_stopped _ = false

abbrev pub is_uninitialized : State → Bool
is_uninitialized uninitialized = true
is_uninitialized _ = false

abbrev pub is_shut_down : State → Bool
is_shut_down shut_down = true
is_shut_down _ = false

abbrev pub set_client_info : ℤ → List ℕ → Invalidator → Invalidator
set_client_info version payload i =
    call (set_invalidation_info version payload) (record i { client_version = version })

unfoldable pub set_max_fetch_delay : ℤ → Invalidator → Invalidator
set_max_fetch_delay (negsuc _) i = record i { max_fetch_delay = max_fetch_delay_min }
set_max_fetch_delay (pos delay) i =
    if ltb delay max_fetch_delay_min
    then record i { max_fetch_delay = max_fetch_delay_min }
    else if ltb max_fetch_delay_max delay
    then record i { max_fetch_delay = max_fetch_delay_max }
    else record i { max_fetch_delay = delay }

unfoldable pub update_max_fetch_delay : Option ℤ → Invalidator → Invalidator
unfolding set_max_fetch_delay
update_max_fetch_delay none i = set_max_fetch_delay (pos max_fetch_delay_default) i
update_max_fetch_delay (some delay) i = set_max_fetch_delay delay i

abbrev same_bool : Bool → Bool → Bool
same_bool true b = b
same_bool false b = not b

unfoldable pub update_invalidations_enabled : ℕ → Invalidator → Invalidator
update_invalidations_enabled now i =
    let enabled = i.invalidation_service_enabled && i.is_registered in
    if same_bool i.invalidations_enabled enabled
    then i
    else call (set_availability enabled) (record i {
      invalidations_enabled = enabled;
      invalidations_enabled_time = if enabled then now else i.invalidations_enabled_time;
    })

unfoldable pub get_invalidations_enabled : ℕ → Invalidator → Bool
get_invalidations_enabled now i =
    if not i.invalidations_enabled
    then false
    else leb invalidation_grace_period ((now - i.invalidations_enabled_time) / second)

unfoldable pub get_policy_refresh_metric : ℕ → Bool → Invalidator → Metric
unfolding get_invalidations_enabled
get_policy_refresh_metric now policy_changed i =
    if policy_changed
    then (if i.invalid
        then invalidated_changed
        else if get_invalidations_enabled now i
        then changed
        else changed_no_invalidations)
    else if i.invalid
    then invalidated_unchanged
    else unchanged

unfoldable pub get_invalidation_metric : Bool → Bool → Metric
get_invalidation_metric is_missing_payload is_expired =
    if is_expired
    then if is_missing_payload then no_payload_expired else expired
    else if is_missing_payload
    then no_payload
    else normal

abbrev pub record_metric : Metric → Invalidator → Invalidator
record_metric m i = if i.is_device then call (device_metric m) i else call (user_metric m) i

abbrev pub hash_of : Option PolicyData → ℕ
hash_of none = 0
hash_of (some policy) = elim (policy.policy_value_hash) [ none ↦ 0 | some h ↦ h ]

-- The flag says whether the policy's hash changed.
unfoldable pub is_policy_changed : Option PolicyData → Invalidator → Invalidator × Bool
is_policy_changed policy i =
    (record i { policy_hash_value = hash_of policy }, not (hash_of policy == i.policy_hash_value))
