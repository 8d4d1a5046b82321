-- ===== src/Budget/Reservations/Runs.antt =====
-- browser/budget_service/budget_manager.cc: the reservations of an origin over a history.
use chromium_log.Prelude.{
  ℕ, ◌+◌, ◌≡◌, ◌≢◌, refl, sym, ap, subst, ◌∙◌, inl, inr, Bool, true, false, ◌&&◌, List, [], ◌∷◌,
  Option, none, some, ◌==◌, if◌then◌else◌, Bool-cases, arith, run,
}
use chromium_log.Budget.Defs.{
  Scale, Origin, Budget, no_error, database_error, not_supported, did_reserve, did_consume, World,
  OperationType,
}
use chromium_log.Budget.Database.{
  After, get_budget, Posted, get_entry, sync_update, spend_update, Answer, budget_answer,
  spend_answer, Database, spend_budget_after_write, sync_cache, get_budget_details, spend, answered,
  on_answer,
}
use chromium_log.Budget.Manager.{
  Manager, new_manager, reply, consumed, Event, reserve, consume, database_answers, pass_on,
  deliver, did_spend_reply, did_get_budget_reply, did_reserve_reply, did_consume_reply,
  on_get_budget, on_reserve, on_consume, consume_or_spend, consume_reserved, on_database_answers,
  step, is_refused, count_of,
}
use chromium_log.Budget.Reservations.{
  grants, sync_cache-grants, add_to_cache-grants, run_after-grants,
}

-- Whether the answer of the database to its oldest call grants a reservation to the origin.
abbrev granted_by : ℕ → Bool → List Posted → ℕ
granted_by o success [] = 0
granted_by o success (get_entry _ _ ∷ _) = 0
granted_by o success (sync_update _ _ _ ∷ _) = 0
granted_by o success (spend_update _ _ (did_consume _) ∷ _) = 0
granted_by o success (spend_update _ _ (did_reserve origin _) ∷ _) =
    if success && o == origin.serialized then 1 else 0

abbrev pub granted : ℕ → Manager → World × Event → ℕ
granted o m (w, database_answers success message) = granted_by o success m.db.posted
granted o m (w, _) = 0

abbrev redeemed_of : ℕ → Origin → Option ℕ → ℕ
redeemed_of o origin none = 0
redeemed_of o origin (some _) =
    if is_refused origin then 0 else if o == origin.serialized then 1 else 0

-- Whether the event is a Consume of the origin that finds a reservation.
abbrev pub redeemed : ℕ → Manager → World × Event → ℕ
redeemed o m (w, consume origin _ _) = redeemed_of o origin (m.reservation_map origin.serialized)
redeemed o m (w, _) = 0

-- The sum over a history.
abbrev pub in_all :
    (Manager → World × Event → Manager)
    → (Manager → World × Event → ℕ)
    → Manager
    → List (World × Event)
    → ℕ
in_all next f m [] = 0
in_all next f m (e ∷ es) = f m e + in_all next f (next m e) es

abbrev pub held : ℕ → Manager → ℕ
held o m = count_of (m.reservation_map o)

redeemed_of-refused :
    (o : ℕ) (origin : Origin) (found : Option ℕ)
    → is_refused origin ≡ true
    → redeemed_of o origin found ≡ 0
redeemed_of-refused o origin none r = refl
redeemed_of-refused o origin (some _) r = rw r refl

module _ (scale : Scale) (o : ℕ) where
  -- The reservations change by so much, and none is left at a count of 0.
  abbrev Gains : ℕ → ℕ → Manager → Manager → Type 0
  Gains more less m n = (held o n + less ≡ held o m + more) × (n.reservation_map o ≢ some 0)

  deliver-Gains :
      (answer : Option Answer) (m : Manager)
      → m.reservation_map o ≢ some 0
      → Gains (grants o answer) 0 m (deliver answer m)
  unfolding deliver did_get_budget_reply did_spend_reply did_reserve_reply did_consume_reply
  deliver-Gains none m h = (omega arith, h)
  deliver-Gains (some (budget_answer callback error budget)) m h = (omega arith, h)
  deliver-Gains (some (spend_answer (did_reserve origin callback) no_error true)) m h =
      elim (Bool-cases (o == origin.serialized)) [
        | inl e ↦ let same : o ≡ origin.serialized = ground arith in rw e (ground arith)
        | inr e ↦ rw e (omega arith, h)
      ]
  deliver-Gains (some (spend_answer (did_reserve origin callback) no_error false)) m h =
      (omega arith, h)
  deliver-Gains (some (spend_answer (did_reserve origin callback) database_error true)) m h =
      (omega arith, h)
  deliver-Gains (some (spend_answer (did_reserve origin callback) database_error false)) m h =
      (omega arith, h)
  deliver-Gains (some (spend_answer (did_reserve origin callback) not_supported true)) m h =
      (omega arith, h)
  deliver-Gains (some (spend_answer (did_reserve origin callback) not_supported false)) m h =
      (omega arith, h)
  deliver-Gains (some (spend_answer (did_consume callback) error success)) m h = ground arith

  pass_on-Gains :
      (r : Database × Option Answer) (m : Manager)
      → m.reservation_map o ≢ some 0
      → grants o r.1 ≡ 0
      → Gains 0 0 m (pass_on r m)
  pass_on-Gains (db, answer) m h e =
      let delivered = deliver-Gains answer (record m { db = db }) h in
      (omega (arith, delivered.0, e), delivered.1)

  sync_cache-Gains :
      (w : World) (p : ℕ) (after : After) (m : Manager)
      → m.reservation_map o ≢ some 0
      → Gains 0 0 m (pass_on (sync_cache scale w p after m.db) m)
  sync_cache-Gains w p after m h = pass_on-Gains _ m h (sync_cache-grants scale o w p after m.db)

  consume_or_spend-Gains :
      (w : World) (origin : Origin) (type : OperationType) (callback : ℕ) (m : Manager)
      → is_refused origin ≡ false
      → m.reservation_map o ≢ some 0
      → (found : Option ℕ) → m.reservation_map origin.serialized ≡ found
      → Gains 0
          (redeemed_of o origin found)
          m
          (consume_or_spend scale w origin type callback found m)
  unfolding consume_or_spend consume_reserved spend
  consume_or_spend-Gains w origin type callback m r h none f =
      sync_cache-Gains w origin.serialized _ m h
  consume_or_spend-Gains w origin type callback m r h (some count) f =
      elim (Bool-cases (o == origin.serialized)) [
        | inl e ↦
            let same : o ≡ origin.serialized = ground arith in
            let at_o : m.reservation_map o ≡ some count = ap m.reservation_map same ∙ f in
            let positive : count ≢ 0 = λ z. h (at_o ∙ ap some z) in rw (r, e) (ground arith)
        | inr e ↦ rw (r, e) (omega arith, h)
      ]

  on_answer-Gains :
      (w : World) (success : Bool) (message : Option Budget) (m : Manager) (calls : List Posted)
      → m.reservation_map o ≢ some 0
      → Gains
          (granted_by o success calls)
          0
          m
          (pass_on (on_answer scale w success message calls m.db) m)
  unfolding on_answer answered spend_budget_after_write
  on_answer-Gains w success message m [] h = pass_on-Gains _ m h refl
  on_answer-Gains w success message m (get_entry p after ∷ calls) h =
      pass_on-Gains _ m h (add_to_cache-grants scale o w p after success message _)
  on_answer-Gains w success message m (sync_update p _ after ∷ calls) h =
      pass_on-Gains _ m h (run_after-grants o w p after success _)
  on_answer-Gains w true message m (spend_update p _ (did_reserve origin callback) ∷ calls) h =
      deliver-Gains (some (spend_answer (did_reserve origin callback) no_error true))
        (record m { db = record (m.db) { posted = calls } }) h
  on_answer-Gains w true message m (spend_update p _ (did_consume callback) ∷ calls) h =
      pass_on-Gains _ m h refl
  on_answer-Gains w false message m (spend_update p _ (did_reserve origin callback) ∷ calls) h =
      pass_on-Gains _ m h refl
  on_answer-Gains w false message m (spend_update p _ (did_consume callback) ∷ calls) h =
      pass_on-Gains _ m h refl

  step-Gains :
      (m : Manager) (e : World × Event)
      → m.reservation_map o ≢ some 0
      → Gains (granted o m e) (redeemed o m e) m (step scale m e)
  unfolding step on_get_budget on_reserve on_consume on_database_answers get_budget_details spend
  step-Gains m (w, Event.get_budget origin callback) h = elim (Bool-cases (is_refused origin)) [
    | inl r ↦ rw r (omega arith, h)
    | inr r ↦ rw r (sync_cache-Gains w origin.serialized (get_budget callback) m h)
  ]
  step-Gains m (w, reserve origin type callback) h = elim (Bool-cases (is_refused origin)) [
    | inl r ↦ rw r (omega arith, h)
    | inr r ↦ rw r (sync_cache-Gains w origin.serialized _ m h)
  ]
  step-Gains m (w, consume origin type callback) h = elim (Bool-cases (is_refused origin)) [
    | inl r ↦
        let nothing = redeemed_of-refused o origin (m.reservation_map origin.serialized) r in
        rw r (omega (arith, nothing), h)
    | inr r ↦
        subst
          (λ b. Gains 0 (redeemed_of o origin (m.reservation_map origin.serialized)) m (
            if b
            then reply (consumed callback false) m
            else consume_or_spend scale w origin type callback (m.reservation_map origin.serialized)
                m))
          (sym r) (consume_or_spend-Gains w origin type callback m r h _ refl)
  ]
  step-Gains m (w, database_answers success message) h =
      on_answer-Gains w success message m m.db.posted h

run-Gains :
    (scale : Scale) (o : ℕ) (m : Manager) (es : List (World × Event))
    → m.reservation_map o ≢ some 0
    → (held o (run (step scale) m es) + in_all (step scale) (redeemed o) m es
        ≡ held o m + in_all (step scale) (granted o) m es)
      × ((run (step scale) m es).reservation_map o ≢ some 0)
unfolding run
run-Gains scale o m [] h = (omega arith, h)
run-Gains scale o m (e ∷ es) h =
    let once = step-Gains scale o m e h in
    let rest = run-Gains scale o (step scale m e) es once.1 in (omega arith, rest.1)

-- Reservations are neither lost nor made up: in every history of a new manager, an origin holds as many as
-- the database has granted it by the successful writes of its Reserve calls, less those that its Consume
-- calls have redeemed, and a count of 0 is never kept.
pub run-reservations :
    (scale : Scale) (o : ℕ) (events : List (World × Event))
    → let m = run (step scale) new_manager events in
      (held o m + in_all (step scale) (redeemed o) new_manager events
        ≡ in_all (step scale) (granted o) new_manager events)
      × (m.reservation_map o ≢ some 0)
run-reservations scale o events =
    let all = run-Gains scale o new_manager events (ground arith) in (omega arith, all.1)
