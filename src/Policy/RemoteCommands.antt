-- ===== src/Policy/RemoteCommands.antt =====
-- browser/policy/cloud/remote_commands_invalidator.cc: when the invalidations of remote commands are heard.
-- What the invalidator asks of the invalidation service and of its subclass is in `calls`, newest first.
pub mod Registration
mod Examples
use chromium_log.Prelude.{
  ℕ, zero, suc, Bool, true, false, ◌&&◌, ◌||◌, not, List, [], ◌∷◌, Option, none, some, ◌==◌,
  if◌then◌else◌,
}

pub data State : Type 0 where
  shut_down stopped started : State

pub record ObjectId : Type 0 where
  pub source : ℕ
  pub name : ℕ

-- The two fields of the policy that name the object.
pub record PolicyData : Type 0 where
  pub command_invalidation_source : Option ℕ
  pub command_invalidation_name : Option ℕ

-- `update_registered_ids` has the one identifier, or none.
pub data Call : Type 0 where
  on_initialize on_shutdown on_start on_stop do_remote_commands_fetch acknowledge : Call
  register_handler unregister_handler : Call
  update_registered_ids : Option ObjectId → Call

pub record Invalidator : Type 0 where
  pub state : State
  pub invalidations_enabled : Bool
  pub invalidation_service_enabled : Bool
  pub is_registered : Bool
  pub object_id : ObjectId
  pub calls : List Call
  pub checks : Bool

abbrev pub new_invalidator : Invalidator
new_invalidator = record {
  state = shut_down;
  invalidations_enabled = false;
  invalidation_service_enabled = false;
  is_registered = false;
  object_id = record { source = 0; name = 0 };
  calls = [];
  checks = true;
}

-- What the invalidation service says during a call: whether it is enabled, and whether it takes the
-- identifiers.
pub record Answers : Type 0 where
  pub enabled : Bool
  pub accepted : Bool

abbrev pub same_state : State → State → Bool
same_state shut_down shut_down = true
same_state stopped stopped = true
same_state started started = true
same_state _ _ = false

abbrev pub same_id : ObjectId → ObjectId → Bool
same_id a b = a.source == b.source && a.name == b.name

abbrev pub call : Call → Invalidator → Invalidator
call c i = record i { calls = c ∷ i.calls }

abbrev pub check : Bool → Invalidator → Invalidator
check b i = record i { checks = b && i.checks }

abbrev pub update_invalidations_enabled : Invalidator → Invalidator
update_invalidations_enabled i = record i {
  invalidations_enabled = i.invalidation_service_enabled && i.is_registered;
}

unfoldable pub on_invalidator_state_change : Bool → Invalidator → Invalidator
on_invalidator_state_change enabled i =
    update_invalidations_enabled
      (record (check (same_state i.state started) i) { invalidation_service_enabled = enabled })

unfoldable pub unregister : Answers → Invalidator → Invalidator
unregister w i =
    if i.is_registered
    then update_invalidations_enabled
        (record (call unregister_handler (check w.accepted (call (update_registered_ids none) i))) {
          is_registered = false;
        })
    else i

-- The registration of the handler, where there is none.
unfoldable pub ensure_handler : Answers → Invalidator → Invalidator
unfolding on_invalidator_state_change
ensure_handler w i =
    if i.is_registered
    then i
    else record (call register_handler (on_invalidator_state_change w.enabled i)) {
      is_registered = true;
    }

unfoldable pub register : Answers → ObjectId → Invalidator → Invalidator
unfolding ensure_handler
register w object_id i = check w.accepted (
    call (update_registered_ids (some object_id))
      (update_invalidations_enabled (record (ensure_handler w i) { object_id = object_id })))

unfoldable pub initialize : Invalidator → Invalidator
initialize i =
    call on_initialize (record (check (same_state i.state shut_down) i) { state = stopped })

unfoldable pub start : Invalidator → Invalidator
start i = call on_start (record (check (same_state i.state stopped) i) { state = started })

unfoldable pub stop : Answers → Invalidator → Invalidator
unfolding unregister
stop w i =
    let j = check (not (same_state i.state shut_down)) i in
    if same_state i.state started
    then call on_stop (record (unregister w j) { state = stopped })
    else j

unfoldable pub shutdown : Answers → Invalidator → Invalidator
unfolding stop
shutdown w i =
    call on_shutdown
      (record (stop w (check (not (same_state i.state shut_down)) i)) { state = shut_down })

-- The loop over so many invalidations of the object.
abbrev pub acknowledge_all : ℕ → Invalidator → Invalidator
acknowledge_all zero i = i
acknowledge_all (suc n) i = acknowledge_all n (call acknowledge i)

unfoldable pub on_incoming_invalidation : ℕ → Invalidator → Invalidator
on_incoming_invalidation zero i = check false (check (same_state i.state started) i)
on_incoming_invalidation (suc n) i =
    call do_remote_commands_fetch (acknowledge_all (suc n) (check (same_state i.state started) i))

-- The object that the policy names.
abbrev pub named_object : Option PolicyData → Option ObjectId
named_object none = none
named_object (some policy) = elim policy.command_invalidation_source [
  | none ↦ none
  | some source ↦ elim policy.command_invalidation_name [
    | none ↦ none
    | some name ↦ some (record { source = source; name = name })
  ]
]

-- `ReloadPolicyData` of a started invalidator.
unfoldable pub follow_policy : Answers → Option ObjectId → Invalidator → Invalidator
unfolding register unregister
follow_policy w none i = unregister w i
follow_policy w (some object_id) i =
    if not i.is_registered || not (same_id object_id i.object_id) then register w object_id i else i

unfoldable pub reload_policy_data : Answers → Option PolicyData → Invalidator → Invalidator
unfolding follow_policy
reload_policy_data w policy i =
    if not (same_state i.state started) then i else follow_policy w (named_object policy) i

pub data Event : Type 0 where
  initializes starts : Event
  stops shuts_down : Answers → Event
  state_changes : Bool → Event
  invalidations_come : ℕ → Event
  policy_comes : Answers → Option PolicyData → Event

unfoldable pub step : Invalidator → Event → Invalidator
unfolding initialize start stop shutdown on_invalidator_state_change on_incoming_invalidation
    reload_policy_data
step i initializes = initialize i
step i starts = start i
step i (stops w) = stop w i
step i (shuts_down w) = shutdown w i
step i (state_changes enabled) = on_invalidator_state_change enabled i
step i (invalidations_come n) = on_incoming_invalidation n i
step i (policy_comes w policy) = reload_policy_data w policy i
