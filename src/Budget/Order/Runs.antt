-- ===== src/Budget/Order/Runs.antt =====
-- The order of the chunks over the events of a manager and its database.
use chromium_log.Prelude.{
  ℕ, ◌≤◌, ◌≡◌, refl, sym, subst, Bool, List, [], ◌∷◌, Option, none, some, arith, All, run, run_inv,
  Possible, Bool-cases, inl, inr,
}
use chromium_log.Budget.Defs.{
  Scale, Origin, Budget, BudgetInfo, Client, World, Error, did_reserve, did_consume, OperationType,
  from_message,
}
use chromium_log.Budget.Database.{
  Answer, budget_answer, spend_answer, Posted, get_entry, sync_update, spend_update, Database,
}
use chromium_log.Budget.Manager.{
  Manager, new_manager, Event, get_budget, reserve, consume, database_answers, pass_on, deliver,
  did_spend_reply, did_get_budget_reply, did_reserve_reply, did_consume_reply, on_get_budget,
  on_reserve, on_consume, consume_or_spend, consume_reserved, on_database_answers, step, is_refused,
}
use chromium_log.Budget.Order.{MaybeOrdered}
use chromium_log.Budget.Order.Steps.{
  HasOrder, MaybeMessage, PostedOrdered, get_budget_details-HasOrder, spend-HasOrder,
  on_answer-HasOrder,
}

did_spend_reply-db :
    (client : Client) (error : Error) (success : Bool) (m : Manager)
    → (did_spend_reply client error success m).db ≡ m.db
unfolding did_spend_reply did_reserve_reply did_consume_reply
did_spend_reply-db (did_reserve origin callback) error success m = refl
did_spend_reply-db (did_consume callback) error success m = ground arith

deliver-db : (answer : Option Answer) (m : Manager) → (deliver answer m).db ≡ m.db
unfolding deliver did_get_budget_reply
deliver-db none m = refl
deliver-db (some (budget_answer callback error budget)) m = refl
deliver-db (some (spend_answer client error success)) m = did_spend_reply-db client error success m

pass_on-HasOrder :
    (now : ℕ) (r : Database × Option Answer) (m : Manager)
    → HasOrder now r.0
    → HasOrder now (pass_on r m).db
pass_on-HasOrder now (db, answer) m h =
    subst (HasOrder now) (sym (deliver-db answer (record m { db = db }))) h

MaybeOrdered-later :
    (t now : ℕ) (info : Option BudgetInfo) → t ≤ now → MaybeOrdered t info → MaybeOrdered now info
MaybeOrdered-later t now none h v = tt
MaybeOrdered-later t now (some info) h v = (omega (arith, v.0), v.1)

MaybeMessage-later :
    (t now : ℕ) (message : Option Budget)
    → t ≤ now
    → MaybeMessage t message
    → MaybeMessage now message
unfolding from_message
MaybeMessage-later t now none h v = tt
MaybeMessage-later t now (some message) h v = (omega (arith, v.0), v.1)

PostedOrdered-later :
    (t now : ℕ) (calls : List Posted)
    → t ≤ now
    → All (PostedOrdered t) calls
    → All (PostedOrdered now) calls
PostedOrdered-later t now [] h v = tt
PostedOrdered-later t now (get_entry o after ∷ calls) h v =
    (tt, PostedOrdered-later t now calls h v.1)
PostedOrdered-later t now (sync_update o message after ∷ calls) h v =
    (MaybeMessage-later t now message h v.0, PostedOrdered-later t now calls h v.1)
PostedOrdered-later t now (spend_update o message client ∷ calls) h v =
    (MaybeMessage-later t now message h v.0, PostedOrdered-later t now calls h v.1)

HasOrder-later : (t now : ℕ) (db : Database) → t ≤ now → HasOrder t db → HasOrder now db
HasOrder-later t now db h v = record {
  cached = λ o. MaybeOrdered-later t now (db.budget_map o) h (v.cached o);
  written = PostedOrdered-later t now db.posted h v.written;
}

module _ (scale : Scale) where
  -- A manager with the time of its last event.
  abbrev pub timed_step : ℕ × Manager → World × Event → ℕ × Manager
  timed_step (t, m) (w, e) = (w.now, step scale m (w, e))

  -- The clock does not go back, and the database gives back budgets in the order in which they were
  -- written to it.
  abbrev pub CanHappen : ℕ × Manager → World × Event → Type 0
  CanHappen (t, m) (w, database_answers success message) = (t ≤ w.now) × MaybeMessage w.now message
  CanHappen (t, m) (w, _) = t ≤ w.now

  abbrev HasOrderAt : ℕ × Manager → Type 0
  HasOrderAt (t, m) = HasOrder t m.db

  consume_or_spend-HasOrder :
      (w : World) (origin : Origin) (type : OperationType) (callback : ℕ) (held : Option ℕ)
      (m : Manager)
      → HasOrder w.now m.db
      → HasOrder w.now (consume_or_spend scale w origin type callback held m).db
  unfolding consume_or_spend consume_reserved
  consume_or_spend-HasOrder w origin type callback (some count) m h = h
  consume_or_spend-HasOrder w origin type callback none m h =
      pass_on-HasOrder w.now _ m (spend-HasOrder scale w origin.serialized _ _ m.db h)

  step-HasOrder :
      (m : Manager) (w : World) (e : Event) (t : ℕ)
      → CanHappen (t, m) (w, e)
      → HasOrder w.now m.db
      → HasOrder w.now (step scale m (w, e)).db
  unfolding step on_get_budget on_reserve on_consume on_database_answers
  step-HasOrder m w (get_budget origin callback) t c h = elim (Bool-cases (is_refused origin)) [
    | inl r ↦ rw r h
    | inr r ↦ rw (r) (
        pass_on-HasOrder w.now _ m (get_budget_details-HasOrder scale w origin.serialized _ m.db h))
  ]
  step-HasOrder m w (reserve origin type callback) t c h = elim (Bool-cases (is_refused origin)) [
    | inl r ↦ rw r h
    | inr r ↦
        rw r (pass_on-HasOrder w.now _ m (spend-HasOrder scale w origin.serialized _ _ m.db h))
  ]
  step-HasOrder m w (consume origin type callback) t c h = elim (Bool-cases (is_refused origin)) [
    | inl r ↦ rw r h
    | inr r ↦ rw r (consume_or_spend-HasOrder w origin type callback _ m h)
  ]
  step-HasOrder m w (database_answers success message) t c h =
      pass_on-HasOrder w.now _ m
        (on_answer-HasOrder scale w success message m.db m.db.posted refl h c.1)

  CanHappen-later :
      (t : ℕ) (m : Manager) (w : World) (e : Event) → CanHappen (t, m) (w, e) → t ≤ w.now
  CanHappen-later t m w (get_budget _ _) c = c
  CanHappen-later t m w (reserve _ _ _) c = c
  CanHappen-later t m w (consume _ _ _) c = c
  CanHappen-later t m w (database_answers _ _) c = c.0

  -- After every history of a new manager in which the clock does not go back and the database gives back
  -- budgets in order: the chunks of every budget, in the cache and on its way to the database, expire one
  -- after the other, each at most four days after the last award, which is not in the future, however
  -- the machine rounds amounts.
  pub run-HasOrder :
      (t : ℕ) (events : List (World × Event))
      → Possible timed_step CanHappen (t, new_manager) events
      → let (now, m) = run timed_step (t, new_manager) events in HasOrder now m.db
  run-HasOrder t events possible =
      run_inv timed_step CanHappen HasOrderAt
        (λ s e c h.
          step-HasOrder s.1 e.0 e.1 s.0 c
            (HasOrder-later s.0 e.0.now s.1.db (CanHappen-later s.0 s.1 e.0 e.1 c) h))
        (t, new_manager) events possible (record { cached = λ o. tt; written = tt })
