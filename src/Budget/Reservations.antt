-- ===== src/Budget/Reservations.antt =====
-- browser/budget_service/budget_manager.cc: what is reserved, and what is redeemed.
pub mod Runs
use chromium_log.Prelude.{
  ℕ, zero, suc, ◌+◌, ◌-◌, ◌≤◌, ◌<◌, ◌≡◌, ◌≢◌, refl, sym, ap, subst, ◌∙◌, inl, inr, Bool, true,
  false, ◌&&◌, ◌||◌, not, List, [], ◌∷◌, Option, none, some, ◌==◌, ltb, ==-refl, if◌then◌else◌,
  Bool-cases, Option-cases, arith, run,
}
use chromium_log.Budget.Defs.{
  Scale, Origin, Budget, Error, no_error, BudgetState, Client, did_reserve, did_consume, World,
  OperationType, total,
}
use chromium_log.Budget.Database.{
  After, get_budget, spend_budget, Posted, get_entry, sync_update, spend_update, Answer,
  budget_answer, spend_answer, Database, is_cached, info_or_empty, set_at, get_budget_after_sync,
  spend_budget_after_sync, spend_budget_after_write, run_after, write_or_run, sync_loaded_cache,
  sync_cache, add_to_cache, get_budget_details, spend, answered, on_answer,
}
use chromium_log.Budget.Manager.{
  Manager, new_manager, Event, reserve, consume, database_answers, pass_on, deliver,
  did_spend_reply, did_get_budget_reply, did_reserve_reply, did_consume_reply, on_get_budget,
  on_reserve, on_consume, consume_or_spend, consume_reserved, on_database_answers, step, is_refused,
  is_no_error, count_of,
}

-- How many reservations the origin gains by an answer of the database.
abbrev grants : ℕ → Option Answer → ℕ
grants o (some (spend_answer (did_reserve origin _) no_error true)) =
    if o == origin.serialized then 1 else 0
grants o _ = 0

run_after-grants :
    (o : ℕ) (w : World) (p : ℕ) (after : After) (success : Bool) (db : Database)
    → grants o (run_after w p after success db).1 ≡ 0
unfolding run_after get_budget_after_sync spend_budget_after_sync
run_after-grants o w p (get_budget callback) false db = refl
run_after-grants o w p (get_budget callback) true db = refl
run_after-grants o w p (spend_budget amount (did_reserve _ _)) false db = refl
run_after-grants o w p (spend_budget amount (did_consume _)) false db = refl
run_after-grants o w p (spend_budget amount (did_reserve _ _)) true db =
    elim (Bool-cases
      (w.arithmetic.less (total w.arithmetic (info_or_empty (db.budget_map p)).chunks) amount)) [
        | inl few ↦ rw few refl
        | inr enough ↦ rw enough refl
      ]
run_after-grants o w p (spend_budget amount (did_consume _)) true db =
    elim (Bool-cases
      (w.arithmetic.less (total w.arithmetic (info_or_empty (db.budget_map p)).chunks) amount)) [
        | inl few ↦ rw few refl
        | inr enough ↦ rw enough refl
      ]

write_or_run-grants :
    (o : ℕ) (w : World) (p : ℕ) (after : After) (needs_write : Bool) (db : Database)
    → grants o (write_or_run w p after needs_write db).1 ≡ 0
unfolding write_or_run
write_or_run-grants o w p after true db = refl
write_or_run-grants o w p after false db = run_after-grants o w p after true db

module _ (scale : Scale) (o : ℕ) where
  sync_loaded_cache-grants :
      (w : World) (p : ℕ) (after : After) (success : Bool) (db : Database)
      → grants o (sync_loaded_cache scale w p after success db).1 ≡ 0
  unfolding sync_loaded_cache
  sync_loaded_cache-grants w p after false db = run_after-grants o w p after false db
  sync_loaded_cache-grants w p after true db = write_or_run-grants o w p after _ _

  sync_cache-grants :
      (w : World) (p : ℕ) (after : After) (db : Database)
      → grants o (sync_cache scale w p after db).1 ≡ 0
  unfolding sync_cache
  sync_cache-grants w p after db = elim (Bool-cases (is_cached p db)) [
    | inl c ↦ rw (c, sync_cache) (sync_loaded_cache-grants w p after true db)
    | inr c ↦ rw (c, sync_cache) refl
  ]

  add_to_cache-grants :
      (w : World) (p : ℕ) (after : After) (success : Bool) (message : Option Budget) (db : Database)
      → grants o (add_to_cache scale w p after success message db).1 ≡ 0
  unfolding add_to_cache
  add_to_cache-grants w p after success none db = sync_loaded_cache-grants w p after success db
  add_to_cache-grants w p after success (some message) db =
      sync_loaded_cache-grants w p after success _
