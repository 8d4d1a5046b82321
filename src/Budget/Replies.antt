-- ===== src/Budget/Replies.antt =====
-- browser/budget_service/budget_manager.cc: every call of a site is answered once.
pub mod Runs
use chromium_log.Prelude.{
  ℕ, zero, suc, ◌+◌, ◌-◌, ◌*◌, ◌≤◌, ◌<◌, ◌≡◌, ◌≢◌, refl, sym, ap, subst, ◌∙◌, inl, inr, Bool, true,
  false, ◌&&◌, ◌||◌, not, List, [], ◌∷◌, ◌++◌, Option, none, some, ◌==◌, ltb, if◌then◌else◌,
  Bool-cases, Option-cases, arith, run,
}
use chromium_log.Budget.Defs.{
  Double, Arithmetic, Scale, Origin, BudgetInfo, Budget, Error, BudgetState, Client, did_reserve,
  did_consume, World, OperationType, total, time_to_award, from_message,
}
use chromium_log.Budget.Database.{
  After, get_budget, spend_budget, Posted, get_entry, sync_update, spend_update, Answer,
  budget_answer, spend_answer, Database, put, is_cached, info_or_empty, sample, low_budget_origin,
  get_budget_after_sync, charge, spend_budget_after_sync, spend_budget_after_write, run_after,
  write_or_run, cleanup_expired_budget, add_engagement_budget, sync_loaded_cache, sync_cache,
  add_to_cache, get_budget_details, spend, answered, on_answer,
}
use chromium_log.Budget.Manager.{
  Reply, budget_given, reserved, consumed, Manager, new_manager, Event, reserve, consume,
  database_answers, pass_on, deliver, did_spend_reply, did_get_budget_reply, did_reserve_reply,
  did_consume_reply, on_get_budget, on_reserve, on_consume, consume_or_spend, consume_reserved,
  on_database_answers, step, is_refused, get_cost,
}

abbrev pub one : ℕ → ℕ → ℕ
one k callback = if callback == k then 1 else 0

abbrev client_callback : Client → ℕ
client_callback (did_reserve _ callback) = callback
client_callback (did_consume callback) = callback

abbrev after_callback : After → ℕ
after_callback (get_budget callback) = callback
after_callback (spend_budget _ client) = client_callback client

abbrev posted_callback : Posted → ℕ
posted_callback (get_entry _ after) = after_callback after
posted_callback (sync_update _ _ after) = after_callback after
posted_callback (spend_update _ _ client) = client_callback client

abbrev answer_callbacks : ℕ → Option Answer → ℕ
answer_callbacks k none = 0
answer_callbacks k (some (budget_answer callback _ _)) = one k callback
answer_callbacks k (some (spend_answer client _ _)) = one k (client_callback client)

abbrev reply_callback : Reply → ℕ
reply_callback (budget_given callback _ _) = callback
reply_callback (reserved callback _ _) = callback
reply_callback (consumed callback _) = callback

-- How often the callback waits for the database, was answered, and was passed in by a caller.
abbrev pub count_pending : ℕ → List Posted → ℕ
count_pending k [] = 0
count_pending k (p ∷ ps) = one k (posted_callback p) + count_pending k ps

abbrev pub count_replies : ℕ → List Reply → ℕ
count_replies k [] = 0
count_replies k (r ∷ rs) = one k (reply_callback r) + count_replies k rs

abbrev event_callbacks : ℕ → Event → ℕ
event_callbacks k (Event.get_budget _ callback) = one k callback
event_callbacks k (reserve _ _ callback) = one k callback
event_callbacks k (consume _ _ callback) = one k callback
event_callbacks k (database_answers _ _) = 0

abbrev pub count_requests : ℕ → List (World × Event) → ℕ
count_requests k [] = 0
count_requests k ((w, e) ∷ es) = event_callbacks k e + count_requests k es

-- The callbacks that a call of the database leaves: those that wait, and the one that is answered.
abbrev owed : ℕ → Database × Option Answer → ℕ
owed k (db, answer) = count_pending k db.posted + answer_callbacks k answer

count_pending_snoc :
    (k : ℕ) (ps : List Posted) (p : Posted)
    → count_pending k (ps ++ p ∷ []) ≡ count_pending k ps + one k (posted_callback p)
count_pending_snoc k [] p = omega arith
count_pending_snoc k (q ∷ ps) p = omega (arith, count_pending_snoc k ps p)

charge-pending :
    (m : Arithmetic) (k o : ℕ) (amount : Double) (client : Client) (info : BudgetInfo)
    (db : Database)
    → count_pending k (charge m o amount client info db).posted
      ≡ count_pending k db.posted + one k (client_callback client)
unfolding charge
charge-pending m k o amount client info db = count_pending_snoc k db.posted _

run_after-owed :
    (k : ℕ) (w : World) (o : ℕ) (after : After) (success : Bool) (db : Database)
    → owed k (run_after w o after success db)
      ≡ count_pending k db.posted + one k (after_callback after)
unfolding run_after get_budget_after_sync spend_budget_after_sync
run_after-owed k w o (get_budget callback) false db = refl
run_after-owed k w o (get_budget callback) true db = refl
run_after-owed k w o (spend_budget amount client) false db = refl
run_after-owed k w o (spend_budget amount client) true db =
    let info = info_or_empty (db.budget_map o) in
    let found = put o (some info) db in
    let seen =
      (if w.arithmetic.less (total w.arithmetic info.chunks)
          (w.arithmetic.multiply amount (w.arithmetic.of_int 2))
        then sample (low_budget_origin w.score) found
        else found) in
    let same : seen.posted ≡ db.posted = ground arith in
    let charged = charge-pending w.arithmetic k o amount client info seen in
    elim (Bool-cases (w.arithmetic.less (total w.arithmetic info.chunks) amount)) [
      | inl few ↦ rw few refl
      | inr enough ↦ rw enough (omega (arith, charged, ap (count_pending k) same))
    ]

add_engagement_budget-posted :
    (scale : Scale) (w : World) (o : ℕ) (db : Database)
    → (add_engagement_budget scale w o db).posted ≡ db.posted
unfolding add_engagement_budget
add_engagement_budget-posted scale w o db =
    elim (Option-cases (time_to_award w.now (db.budget_map o))) [
      | inl early ↦ rw (early, add_engagement_budget) refl
      | inr (elapsed, due) ↦ rw (due, add_engagement_budget) refl
    ]

write_or_run-owed :
    (k : ℕ) (w : World) (o : ℕ) (after : After) (needs_write : Bool) (db : Database)
    → owed k (write_or_run w o after needs_write db)
      ≡ count_pending k db.posted + one k (after_callback after)
unfolding write_or_run
write_or_run-owed k w o after true db = omega (arith, count_pending_snoc k db.posted)
write_or_run-owed k w o after false db = run_after-owed k w o after true db

module _ (scale : Scale) (k : ℕ) where
  sync_loaded_cache-owed :
      (w : World) (o : ℕ) (after : After) (success : Bool) (db : Database)
      → owed k (sync_loaded_cache scale w o after success db)
        ≡ count_pending k db.posted + one k (after_callback after)
  unfolding sync_loaded_cache cleanup_expired_budget
  sync_loaded_cache-owed w o after false db = run_after-owed k w o after false db
  sync_loaded_cache-owed w o after true db =
      let same = add_engagement_budget-posted scale w o (cleanup_expired_budget w.now o db).0 in
      write_or_run-owed k w o after _ _
      ∙ ap (λ ps. count_pending k ps + one k (after_callback after)) same

  sync_cache-owed :
      (w : World) (o : ℕ) (after : After) (db : Database)
      → owed k (sync_cache scale w o after db)
        ≡ count_pending k db.posted + one k (after_callback after)
  unfolding sync_cache
  sync_cache-owed w o after db = elim (Bool-cases (is_cached o db)) [
    | inl c ↦ rw (c, sync_cache) (sync_loaded_cache-owed w o after true db)
    | inr c ↦ rw (c, sync_cache) (omega (arith, count_pending_snoc k db.posted (get_entry o after)))
  ]

  add_to_cache-owed :
      (w : World) (o : ℕ) (after : After) (success : Bool) (message : Option Budget) (db : Database)
      → owed k (add_to_cache scale w o after success message db)
        ≡ count_pending k db.posted + one k (after_callback after)
  unfolding add_to_cache
  add_to_cache-owed w o after success none db = sync_loaded_cache-owed w o after success db
  add_to_cache-owed w o after success (some message) db =
      let loaded =
        (if success && not (is_cached o db) then put o (some (from_message message)) db else db) in
      let same : loaded.posted ≡ db.posted = ground arith in
      sync_loaded_cache-owed w o after success loaded
      ∙ ap (λ ps. count_pending k ps + one k (after_callback after)) same

  on_answer-owed :
      (w : World) (success : Bool) (message : Option Budget) (calls : List Posted) (db : Database)
      → db.posted ≡ calls
      → owed k (on_answer scale w success message calls db) ≡ count_pending k db.posted
  unfolding on_answer answered spend_budget_after_write
  on_answer-owed w success message [] db e = omega arith
  on_answer-owed w success message (get_entry o after ∷ calls) db e = omega (
    arith,
    add_to_cache-owed w o after success message (record db { posted = calls }),
    ap (count_pending k) e,
  )
  on_answer-owed w success message (sync_update o _ after ∷ calls) db e = omega (
    arith,
    run_after-owed k w o after success (record db { posted = calls }),
    ap (count_pending k) e,
  )
  on_answer-owed w true message (spend_update o _ client ∷ calls) db e =
      omega (arith, ap (count_pending k) e)
  on_answer-owed w false message (spend_update o _ client ∷ calls) db e =
      omega (arith, ap (count_pending k) e)
