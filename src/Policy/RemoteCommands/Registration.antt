-- ===== src/Policy/RemoteCommands/Registration.antt =====
-- remote_commands_invalidator.cc: the invalidator and the invalidation service agree on its registration.
use chromium_log.Prelude.{
  ℕ, zero, suc, ◌≢◌, ◌≡◌, refl, inl, inr, Bool, true, false, ◌&&◌, ◌||◌, not, List, [], ◌∷◌, Option,
  none, some, if◌then◌else◌, Bool-cases, arith, run, run_inv, Possible,
}
use chromium_log.Policy.RemoteCommands.{
  shut_down, stopped, started, ObjectId, Call, acknowledge, register_handler, unregister_handler,
  update_registered_ids, Invalidator, new_invalidator, Answers, same_state, same_id, call, check,
  on_invalidator_state_change, unregister, ensure_handler, register, initialize, start, stop,
  shutdown, acknowledge_all, on_incoming_invalidation, named_object, follow_policy,
  reload_policy_data, Event, initializes, starts, stops, shuts_down, state_changes,
  invalidations_come, policy_comes, step,
}

-- What the invalidation service has of the handler: whether it is registered, and for which object; and
-- whether it was asked only for what it allows: to register a handler once, to change the objects of a
-- handler that is registered, and to take a handler off that has no objects left.
pub record Service : Type 0 where
  pub registered : Bool
  pub object : Option ObjectId
  pub allowed : Bool

abbrev is_none {ℓ} : {A : Type ℓ} → Option A → Bool
is_none none = true
is_none (some _) = false

abbrev pub serve : Call → Service → Service
serve register_handler v = record v { registered = true; allowed = not v.registered && v.allowed }
serve unregister_handler v = record v {
  registered = false;
  allowed = v.registered && (is_none v.object && v.allowed);
}
serve (update_registered_ids object) v = record v {
  object = object;
  allowed = v.registered && v.allowed;
}
serve _ v = v

-- The service after the calls, newest first.
abbrev pub served : List Call → Service
served [] = record { registered = false; object = none; allowed = true }
served (c ∷ cs) = serve c (served cs)

abbrev pub agreed : Bool → ObjectId → Service
agreed registered object_id = record {
  registered = registered;
  object = if registered then some object_id else none;
  allowed = true;
}

-- The service agrees with the invalidator, only a started invalidator is registered, invalidations are
-- enabled if it is and the service is enabled, and no check has failed.
abbrev pub Agrees : Invalidator → Type 0
Agrees i =
    (served i.calls ≡ agreed i.is_registered i.object_id)
    × (not i.is_registered || same_state i.state started ≡ true)
    × (i.invalidations_enabled ≡ i.invalidation_service_enabled && i.is_registered)
    × (i.checks ≡ true)

-- When each method may be called: the service takes the identifiers, tells only a registered handler of
-- its state and of invalidations, and of no empty set of them.
abbrev pub CanHappen : Invalidator → Event → Type 0
CanHappen i initializes = i.state ≡ shut_down
CanHappen i starts = i.state ≡ stopped
CanHappen i (stops w) = (i.state ≢ shut_down) × (w.accepted ≡ true)
CanHappen i (shuts_down w) = (i.state ≢ shut_down) × (w.accepted ≡ true)
CanHappen i (state_changes enabled) = i.is_registered ≡ true
CanHappen i (invalidations_come n) = (i.is_registered ≡ true) × (n ≢ 0)
CanHappen i (policy_comes w policy) = w.accepted ≡ true

unregister-Agrees :
    (w : Answers) (i : Invalidator)
    → w.accepted ≡ true
    → Agrees i
    → Agrees (unregister w i)
      × ((unregister w i).is_registered ≡ false)
      × ((unregister w i).state ≡ i.state)
unfolding unregister
unregister-Agrees w i a h = ground arith

register-Agrees :
    (w : Answers) (object_id : ObjectId) (i : Invalidator)
    → w.accepted ≡ true
    → i.state ≡ started
    → Agrees i
    → Agrees (register w object_id i)
unfolding register ensure_handler on_invalidator_state_change
register-Agrees w object_id i a s h = ground arith

on_invalidator_state_change-Agrees :
    (enabled : Bool) (i : Invalidator)
    → i.is_registered ≡ true
    → Agrees i
    → Agrees (on_invalidator_state_change enabled i)
unfolding on_invalidator_state_change
on_invalidator_state_change-Agrees enabled i r h = ground arith

acknowledge_all-Agrees : (n : ℕ) (i : Invalidator) → Agrees i → Agrees (acknowledge_all n i)
acknowledge_all-Agrees zero i h = h
acknowledge_all-Agrees (suc n) i h = acknowledge_all-Agrees n (call acknowledge i) h

on_incoming_invalidation-Agrees :
    (n : ℕ) (i : Invalidator)
    → i.is_registered ≡ true
    → n ≢ 0
    → Agrees i
    → Agrees (on_incoming_invalidation n i)
unfolding on_incoming_invalidation
on_incoming_invalidation-Agrees zero i r n h = absurd (n refl)
on_incoming_invalidation-Agrees (suc m) i r n h =
    acknowledge_all-Agrees (suc m) (check (same_state i.state started) i) (ground arith)

stop-Agrees :
    (w : Answers) (i : Invalidator)
    → i.state ≢ shut_down
    → w.accepted ≡ true
    → Agrees i
    → Agrees (stop w i) × ((stop w i).is_registered ≡ false)
unfolding stop unregister
stop-Agrees w i n a h = ground arith

follow_policy-Agrees :
    (w : Answers) (named : Option ObjectId) (i : Invalidator)
    → w.accepted ≡ true
    → i.state ≡ started
    → Agrees i
    → Agrees (follow_policy w named i)
unfolding follow_policy
follow_policy-Agrees w none i a s h = (unregister-Agrees w i a h).0
follow_policy-Agrees w (some object_id) i a s h =
    let again = register-Agrees w object_id i a s h in
    elim (Bool-cases (not i.is_registered || not (same_id object_id i.object_id))) [
      | inl changed ↦ rw changed again
      | inr same ↦ rw same h
    ]

shutdown-Agrees :
    (w : Answers) (i : Invalidator)
    → i.state ≢ shut_down
    → w.accepted ≡ true
    → Agrees i
    → Agrees (shutdown w i)
unfolding shutdown
shutdown-Agrees w i n a h =
    let j = check (not (same_state i.state shut_down)) i in
    let left = stop-Agrees w j n a (ground arith) in ground arith

step-Agrees : (i : Invalidator) (e : Event) → CanHappen i e → Agrees i → Agrees (step i e)
unfolding step initialize start reload_policy_data
step-Agrees i initializes c h = ground arith
step-Agrees i starts c h = ground arith
step-Agrees i (stops w) c h = (stop-Agrees w i c.0 c.1 h).0
step-Agrees i (shuts_down w) c h = shutdown-Agrees w i c.0 c.1 h
step-Agrees i (state_changes enabled) c h = on_invalidator_state_change-Agrees enabled i c h
step-Agrees i (invalidations_come n) c h = on_incoming_invalidation-Agrees n i c.0 c.1 h
step-Agrees i (policy_comes w policy) c h = elim (Bool-cases (same_state i.state started)) [
  | inl s ↦ rw s (follow_policy-Agrees w (named_object policy) i c (ground arith) h)
  | inr s ↦ rw s h
]

-- After every history of a new invalidator in which each method is called when it may be: the
-- invalidation service has the invalidator registered if the invalidator thinks so, for the object it
-- thinks of, and was asked only for what it allows; only a started invalidator is registered;
-- invalidations are enabled if it is registered and the service is enabled; and no check has failed.
pub run-Agrees :
    (events : List Event)
    → Possible step CanHappen new_invalidator events
    → let i = run step new_invalidator events in
      (served i.calls ≡ agreed i.is_registered i.object_id)
      × (not i.is_registered || same_state i.state started ≡ true)
      × (i.invalidations_enabled ≡ i.invalidation_service_enabled && i.is_registered)
      × (i.checks ≡ true)
run-Agrees events possible =
    run_inv step CanHappen Agrees step-Agrees new_invalidator events possible
      (refl, refl, refl, refl)
