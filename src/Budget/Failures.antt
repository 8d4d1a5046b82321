-- ===== src/Budget/Failures.antt =====
-- browser/budget_service: what a failure of the database does.
use chromium_log.Prelude.{ℕ, ◌≡◌, refl, subst, sym, false, List, [], ◌∷◌, Option, none, some}
use chromium_log.Budget.Defs.{
  Scale, Budget, World, Client, did_reserve, did_consume, database_error,
}
use chromium_log.Budget.Database.{
  After, get_budget, spend_budget, Posted, get_entry, sync_update, spend_update, Answer,
  budget_answer, spend_answer, Database, get_budget_after_sync, spend_budget_after_sync,
  spend_budget_after_write, run_after, sync_loaded_cache, add_to_cache, answered, on_answer,
}
use chromium_log.Budget.Manager.{
  Reply, budget_given, reserved, consumed, Manager, deliver, pass_on, did_get_budget_reply,
  did_spend_reply, did_reserve_reply, did_consume_reply, on_database_answers,
}

abbrev client_answer : Client → Answer
client_answer client = spend_answer client database_error false

abbrev after_answer : After → Answer
after_answer (get_budget callback) = budget_answer callback database_error []
after_answer (spend_budget _ client) = client_answer client

abbrev failure_answer : Posted → Answer
failure_answer (get_entry _ after) = after_answer after
failure_answer (sync_update _ _ after) = after_answer after
failure_answer (spend_update _ _ client) = client_answer client

abbrev client_failure : Client → Reply
client_failure (did_reserve _ callback) = reserved callback database_error false
client_failure (did_consume callback) = consumed callback false

abbrev after_failure : After → Reply
after_failure (get_budget callback) = budget_given callback database_error []
after_failure (spend_budget _ client) = client_failure client

-- What the caller of a failed call hears.
abbrev pub failure : Posted → Reply
failure (get_entry _ after) = after_failure after
failure (sync_update _ _ after) = after_failure after
failure (spend_update _ _ client) = client_failure client

run_after-failed :
    (w : World) (o : ℕ) (after : After) (db : Database)
    → run_after w o after false db ≡ (db, some (after_answer after))
unfolding run_after get_budget_after_sync spend_budget_after_sync
run_after-failed w o (get_budget callback) db = refl
run_after-failed w o (spend_budget amount client) db = refl

answered-failed :
    (scale : Scale) (w : World) (message : Option Budget) (call : Posted) (db : Database)
    → answered scale w false message call db ≡ (db, some (failure_answer call))
unfolding answered add_to_cache sync_loaded_cache spend_budget_after_write
answered-failed scale w none (get_entry o after) db = run_after-failed w o after db
answered-failed scale w (some message) (get_entry o after) db = run_after-failed w o after db
answered-failed scale w message (sync_update o _ after) db = run_after-failed w o after db
answered-failed scale w message (spend_update o _ client) db = refl

deliver-failed :
    (call : Posted) (m : Manager)
    → deliver (some (failure_answer call)) m ≡ record m { replies = failure call ∷ m.replies }
unfolding deliver did_get_budget_reply did_spend_reply did_reserve_reply did_consume_reply
deliver-failed (get_entry _ (get_budget callback)) m = refl
deliver-failed (get_entry _ (spend_budget _ (did_reserve _ callback))) m = refl
deliver-failed (get_entry _ (spend_budget _ (did_consume callback))) m = refl
deliver-failed (sync_update _ _ (get_budget callback)) m = refl
deliver-failed (sync_update _ _ (spend_budget _ (did_reserve _ callback))) m = refl
deliver-failed (sync_update _ _ (spend_budget _ (did_consume callback))) m = refl
deliver-failed (spend_update _ _ (did_reserve _ callback)) m = refl
deliver-failed (spend_update _ _ (did_consume callback)) m = refl

-- When the oldest call of the database fails, be it a read or a write, the caller for whom it was made
-- hears of the error, and once; nothing is reserved, awarded or spent, and no call is made again: the
-- budgets of the cache and the reservations stay as they were, a budget already spent included.
pub database_failed :
    (scale : Scale) (w : World) (message : Option Budget) (call : Posted) (calls : List Posted)
    (m : Manager)
    → m.db.posted ≡ call ∷ calls
    → on_database_answers scale w false message m
      ≡ record m { db = record (m.db) { posted = calls }; replies = failure call ∷ m.replies }
unfolding on_database_answers on_answer
database_failed scale w message call calls m e =
    let left = record (m.db) { posted = calls } in
    subst
      (λ ps.
        pass_on (on_answer scale w false message ps m.db) m
        ≡ record m { db = left; replies = failure call ∷ m.replies })
      (sym e)
      (subst (λ r. pass_on r m ≡ record m { db = left; replies = failure call ∷ m.replies })
        (sym (answered-failed scale w message call left))
        (deliver-failed call (record m { db = left })))
