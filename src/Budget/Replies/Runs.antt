-- ===== src/Budget/Replies/Runs.antt =====
-- browser/budget_service/budget_manager.cc: every call of a site is answered once, over a history.
use chromium_log.Prelude.{
  ℕ, ◌+◌, ◌≡◌, refl, inl, inr, List, [], ◌∷◌, Option, none, some, Bool-cases, arith, run,
}
use chromium_log.Budget.Defs.{Scale, Origin, did_reserve, did_consume, World, OperationType}
use chromium_log.Budget.Database.{
  After, get_budget, Answer, budget_answer, spend_answer, Database, sync_cache, get_budget_details,
  spend, on_answer,
}
use chromium_log.Budget.Manager.{
  Manager, new_manager, Event, reserve, consume, database_answers, pass_on, deliver,
  did_spend_reply, did_get_budget_reply, did_reserve_reply, did_consume_reply, on_get_budget,
  on_reserve, on_consume, consume_or_spend, consume_reserved, on_database_answers, step, is_refused,
}
use chromium_log.Budget.Replies.{
  one, after_callback, answer_callbacks, event_callbacks, count_pending, count_replies,
  count_requests, owed, sync_cache-owed, on_answer-owed,
}

module _ (scale : Scale) (k : ℕ) where
  -- How often the callback waits or was answered.
  abbrev accounted : Manager → ℕ
  accounted m = count_pending k m.db.posted + count_replies k m.replies

  deliver-accounted :
      (answer : Option Answer) (m : Manager)
      → accounted (deliver answer m) ≡ answer_callbacks k answer + accounted m
  unfolding deliver did_get_budget_reply did_spend_reply did_reserve_reply did_consume_reply
  deliver-accounted none m = omega arith
  deliver-accounted (some (budget_answer callback error budget)) m = omega arith
  deliver-accounted (some (spend_answer (did_reserve origin callback) error success)) m =
      omega arith
  deliver-accounted (some (spend_answer (did_consume callback) error success)) m = ground arith

  pass_on-accounted :
      (r : Database × Option Answer) (m : Manager)
      → accounted (pass_on r m) ≡ owed k r + count_replies k m.replies
  pass_on-accounted (db, answer) m = omega (arith, deliver-accounted answer (record m { db = db }))

  sync_cache-accounted :
      (w : World) (o : ℕ) (after : After) (m : Manager)
      → accounted (pass_on (sync_cache scale w o after m.db) m)
        ≡ one k (after_callback after) + accounted m
  sync_cache-accounted w o after m = omega (
    arith,
    pass_on-accounted (sync_cache scale w o after m.db) m,
    sync_cache-owed scale k w o after m.db,
  )

  consume_or_spend-accounted :
      (w : World) (origin : Origin) (type : OperationType) (callback : ℕ) (held : Option ℕ)
      (m : Manager)
      → accounted (consume_or_spend scale w origin type callback held m)
        ≡ one k callback + accounted m
  unfolding consume_or_spend consume_reserved spend
  consume_or_spend-accounted w origin type callback (some count) m = omega arith
  consume_or_spend-accounted w origin type callback none m =
      sync_cache-accounted w origin.serialized _ m

  step-accounted :
      (m : Manager) (e : World × Event)
      → accounted (step scale m e) ≡ event_callbacks k e.1 + accounted m
  unfolding step on_get_budget on_reserve on_consume on_database_answers get_budget_details spend
  step-accounted m (w, Event.get_budget origin callback) = elim (Bool-cases (is_refused origin)) [
    | inl r ↦ rw r (omega arith)
    | inr r ↦ rw r (sync_cache-accounted w origin.serialized (get_budget callback) m)
  ]
  step-accounted m (w, reserve origin type callback) = elim (Bool-cases (is_refused origin)) [
    | inl r ↦ rw r (omega arith)
    | inr r ↦ rw r (sync_cache-accounted w origin.serialized _ m)
  ]
  step-accounted m (w, consume origin type callback) = elim (Bool-cases (is_refused origin)) [
    | inl r ↦ rw r (omega arith)
    | inr r ↦ rw r (consume_or_spend-accounted w origin type callback _ m)
  ]
  step-accounted m (w, database_answers success message) = omega (
    arith,
    pass_on-accounted (on_answer scale w success message m.db.posted m.db) m,
    on_answer-owed scale k w success message m.db.posted m.db refl,
  )

  run-accounted :
      (m : Manager) (events : List (World × Event))
      → accounted (run (step scale) m events) ≡ count_requests k events + accounted m
  unfolding run
  run-accounted m [] = omega arith
  run-accounted m (e ∷ es) = omega (arith, run-accounted (step scale m e) es, step-accounted m e)

-- Every request is answered once: after every history of a new manager, each callback has been answered,
-- or waits for an answer of the database, exactly as often in all as callers have passed it in.
pub requests_answered :
    (scale : Scale) (k : ℕ) (events : List (World × Event))
    → let m = run (step scale) new_manager events in
      count_pending k m.db.posted + count_replies k m.replies ≡ count_requests k events
requests_answered scale k events = omega (arith, run-accounted scale k new_manager events)
