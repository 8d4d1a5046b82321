-- ===== src/Budget/Order/Steps.antt =====
-- browser/budget_service/budget_database.cc: every call of the database keeps the order of the chunks.
use chromium_log.Prelude.{
  ℕ, ◌≡◌, subst, inl, inr, Bool, true, false, ◌&&◌, not, List, [], ◌∷◌, ◌++◌, Option, none, some,
  ◌==◌, if◌then◌else◌, Bool-cases, Option-cases, arith, All,
}
use chromium_log.Budget.Defs.{
  Double, Arithmetic, nought, Scale, BudgetInfo, Budget, Client, World, total, pay, time_to_award,
  from_message, to_message,
}
use chromium_log.Budget.Database.{
  After, get_budget, spend_budget, Posted, get_entry, sync_update, spend_update, Database,
  cleanup_info, info_or_empty, put, post, set_at, is_cached, message_of, get_budget_after_sync,
  spend_budget_after_sync, run_after, write_or_run, charge, Sample, sample, no_budget_origin,
  low_budget_origin, cleanup_expired_budget, add_engagement_budget, sync_loaded_cache, sync_cache,
  add_to_cache, get_budget_details, spend, answered, on_answer,
}
use chromium_log.Budget.Order.{
  IsOrdered, MaybeOrdered, pay-IsOrdered, cleanup_info-MaybeOrdered, award-IsOrdered,
}

abbrev pub MaybeMessage : ℕ → Option Budget → Type 0
MaybeMessage now none = Unit
MaybeMessage now (some message) = IsOrdered now (from_message message)

abbrev pub PostedOrdered : ℕ → Posted → Type 0
PostedOrdered now (get_entry o after) = Unit
PostedOrdered now (sync_update o message after) = MaybeMessage now message
PostedOrdered now (spend_update o message client) = MaybeMessage now message

-- Every budget of the cache is in order, and so is every budget on its way to the database.
pub record HasOrder (now : ℕ) (db : Database) : Type 0 where
  pub cached : (o : ℕ) → MaybeOrdered now (db.budget_map o)
  pub written : All (PostedOrdered now) db.posted

All-snoc :
    {A : Type 0} (P : A → Type 0) (xs : List A) (x : A) → All P xs → P x → All P (xs ++ x ∷ [])
All-snoc P [] x h p = (p, tt)
All-snoc P (y ∷ xs) x h p = (h.0, All-snoc P xs x h.1 p)

set_at-MaybeOrdered :
    (now o : ℕ) (info : Option BudgetInfo) (f : ℕ → Option BudgetInfo)
    → ((p : ℕ) → MaybeOrdered now (f p))
    → MaybeOrdered now info
    → (p : ℕ) → MaybeOrdered now (set_at o info f p)
set_at-MaybeOrdered now o info f all v p = elim (Bool-cases (p == o)) [
  | inl e ↦ rw e v
  | inr e ↦ rw e (all p)
]

put-HasOrder :
    (now o : ℕ) (info : Option BudgetInfo) (db : Database)
    → HasOrder now db
    → MaybeOrdered now info
    → HasOrder now (put o info db)
put-HasOrder now o info db h v = record {
  cached = set_at-MaybeOrdered now o info db.budget_map h.cached v;
  written = h.written;
}

info_or_empty-IsOrdered :
    (now : ℕ) (info : Option BudgetInfo)
    → MaybeOrdered now info
    → IsOrdered now (info_or_empty info)
info_or_empty-IsOrdered now none v = (omega arith, tt)
info_or_empty-IsOrdered now (some info) v = v

post-HasOrder :
    (now : ℕ) (call : Posted) (db : Database)
    → HasOrder now db
    → PostedOrdered now call
    → HasOrder now (post call db)
post-HasOrder now call db h v = record {
  cached = h.cached;
  written = All-snoc (PostedOrdered now) db.posted call h.written v;
}

message_of-MaybeMessage :
    (now : ℕ) (info : Option BudgetInfo)
    → MaybeOrdered now info
    → MaybeMessage now (message_of info)
unfolding to_message from_message
message_of-MaybeMessage now none v = tt
message_of-MaybeMessage now (some info) v = v

get_budget_after_sync-HasOrder :
    (w : World) (o : ℕ) (callback : ℕ) (success : Bool) (db : Database)
    → HasOrder w.now db
    → HasOrder w.now (get_budget_after_sync w o callback success db).0
unfolding get_budget_after_sync
get_budget_after_sync-HasOrder w o callback false db h = h
get_budget_after_sync-HasOrder w o callback true db h =
    put-HasOrder w.now o (some (info_or_empty (db.budget_map o))) db h
      (info_or_empty-IsOrdered w.now (db.budget_map o) (h.cached o))

charge-HasOrder :
    (m : Arithmetic) (now o : ℕ) (amount : Double) (client : Client) (info : BudgetInfo)
    (db : Database)
    → HasOrder now db
    → IsOrdered now info
    → HasOrder now (charge m o amount client info db)
unfolding charge
charge-HasOrder m now o amount client info db h v =
    let (bill, chunks) = pay m amount info.chunks in
    let paid = record info { chunks = chunks } in
    let ordered = pay-IsOrdered m now amount info v in
    post-HasOrder now (spend_update o (some (to_message paid)) client)
      (record (put o (some paid) db) { dchecks = m.equal bill (nought m) && db.dchecks })
      (record {
        cached = set_at-MaybeOrdered now o (some paid) db.budget_map h.cached ordered;
        written = h.written;
      })
      (message_of-MaybeMessage now (some paid) ordered)

sample_if-HasOrder :
    (now : ℕ) (b : Bool) (s : Sample) (db : Database)
    → HasOrder now db
    → HasOrder now (if b then sample s db else db)
sample_if-HasOrder now true s db h = record { cached = h.cached; written = h.written }
sample_if-HasOrder now false s db h = h

spend_budget_after_sync-HasOrder :
    (w : World) (o : ℕ) (amount : Double) (client : Client) (success : Bool) (db : Database)
    → HasOrder w.now db
    → HasOrder w.now (spend_budget_after_sync w o amount client success db).0
unfolding spend_budget_after_sync
spend_budget_after_sync-HasOrder w o amount client false db h = h
spend_budget_after_sync-HasOrder w o amount client true db h =
    let info = info_or_empty (db.budget_map o) in
    let m = w.arithmetic in
    let sum = total m info.chunks in
    let v = info_or_empty-IsOrdered w.now (db.budget_map o) (h.cached o) in
    let found = put-HasOrder w.now o (some info) db h v in
    elim (Bool-cases (m.less sum amount)) [
      | inl few ↦
          rw few
            (sample_if-HasOrder w.now true (no_budget_origin w.score) (put o (some info) db) found)
      | inr enough ↦ rw (enough) (
          charge-HasOrder m w.now o amount client info _
            (sample_if-HasOrder w.now (m.less sum (m.multiply amount (m.of_int 2)))
              (low_budget_origin w.score) _ found)
            v)
    ]

put_if-HasOrder :
    (now : ℕ) (b : Bool) (o : ℕ) (info : BudgetInfo) (db : Database)
    → HasOrder now db
    → IsOrdered now info
    → HasOrder now (if b then put o (some info) db else db)
put_if-HasOrder now true o info db h v = put-HasOrder now o (some info) db h v
put_if-HasOrder now false o info db h v = h

run_after-HasOrder :
    (w : World) (o : ℕ) (after : After) (success : Bool) (db : Database)
    → HasOrder w.now db
    → HasOrder w.now (run_after w o after success db).0
unfolding run_after
run_after-HasOrder w o (get_budget callback) success db h =
    get_budget_after_sync-HasOrder w o callback success db h
run_after-HasOrder w o (spend_budget amount client) success db h =
    spend_budget_after_sync-HasOrder w o amount client success db h

add_engagement_budget-HasOrder :
    (scale : Scale) (w : World) (o : ℕ) (db : Database)
    → HasOrder w.now db
    → HasOrder w.now (add_engagement_budget scale w o db)
unfolding add_engagement_budget
add_engagement_budget-HasOrder scale w o db h =
    elim (Option-cases (time_to_award w.now (db.budget_map o))) [
      | inl early ↦ rw (early, add_engagement_budget) h
      | inr (elapsed, due) ↦
          rw (due, add_engagement_budget)
            (sample_if-HasOrder w.now true _ _ (
              put-HasOrder w.now o _ db h
                (award-IsOrdered scale w elapsed (db.budget_map o) (h.cached o) due)))
    ]

write_or_run-HasOrder :
    (w : World) (o : ℕ) (after : After) (needs_write : Bool) (db : Database)
    → HasOrder w.now db
    → HasOrder w.now (write_or_run w o after needs_write db).0
unfolding write_or_run
write_or_run-HasOrder w o after true db h =
    post-HasOrder w.now _ db h (message_of-MaybeMessage w.now (db.budget_map o) (h.cached o))
write_or_run-HasOrder w o after false db h = run_after-HasOrder w o after true db h

module _ (scale : Scale) (w : World) where
  sync_loaded_cache-HasOrder :
      (o : ℕ) (after : After) (success : Bool) (db : Database)
      → HasOrder w.now db
      → HasOrder w.now (sync_loaded_cache scale w o after success db).0
  unfolding sync_loaded_cache cleanup_expired_budget
  sync_loaded_cache-HasOrder o after false db h = run_after-HasOrder w o after false db h
  sync_loaded_cache-HasOrder o after true db h =
      let clean =
        put-HasOrder w.now o (cleanup_info w.now (db.budget_map o)).0 db h
          (cleanup_info-MaybeOrdered w.now (db.budget_map o) (h.cached o)) in
      write_or_run-HasOrder w o after _ _ (add_engagement_budget-HasOrder scale w o _ clean)

  sync_cache-HasOrder :
      (o : ℕ) (after : After) (db : Database)
      → HasOrder w.now db
      → HasOrder w.now (sync_cache scale w o after db).0
  unfolding sync_cache
  sync_cache-HasOrder o after db h = elim (Bool-cases (is_cached o db)) [
    | inl c ↦ rw (c, sync_cache) (sync_loaded_cache-HasOrder o after true db h)
    | inr c ↦ rw (c, sync_cache) (post-HasOrder w.now (get_entry o after) db h tt)
  ]

  add_to_cache-HasOrder :
      (o : ℕ) (after : After) (success : Bool) (message : Option Budget) (db : Database)
      → HasOrder w.now db
      → MaybeMessage w.now message
      → HasOrder w.now (add_to_cache scale w o after success message db).0
  unfolding add_to_cache
  add_to_cache-HasOrder o after success none db h v =
      sync_loaded_cache-HasOrder o after success db h
  add_to_cache-HasOrder o after success (some message) db h v =
      sync_loaded_cache-HasOrder o after success _
        (put_if-HasOrder w.now (success && not (is_cached o db)) o (from_message message) db h v)

  pub get_budget_details-HasOrder :
      (o : ℕ) (callback : ℕ) (db : Database)
      → HasOrder w.now db
      → HasOrder w.now (get_budget_details scale w o callback db).0
  unfolding get_budget_details
  get_budget_details-HasOrder o callback db h = sync_cache-HasOrder o (get_budget callback) db h

  pub spend-HasOrder :
      (o : ℕ) (amount : Double) (client : Client) (db : Database)
      → HasOrder w.now db
      → HasOrder w.now (spend scale w o amount client db).0
  unfolding spend
  spend-HasOrder o amount client db h = sync_cache-HasOrder o (spend_budget amount client) db h

  answered-HasOrder :
      (success : Bool) (message : Option Budget) (call : Posted) (db : Database)
      → HasOrder w.now db
      → MaybeMessage w.now message
      → HasOrder w.now (answered scale w success message call db).0
  unfolding answered
  answered-HasOrder success message (get_entry o after) db h v =
      add_to_cache-HasOrder o after success message db h v
  answered-HasOrder success message (sync_update o _ after) db h v =
      run_after-HasOrder w o after success db h
  answered-HasOrder success message (spend_update o _ client) db h v = h

  pub on_answer-HasOrder :
      (success : Bool) (message : Option Budget) (db : Database) (calls : List Posted)
      → db.posted ≡ calls
      → HasOrder w.now db
      → MaybeMessage w.now message
      → HasOrder w.now (on_answer scale w success message calls db).0
  unfolding on_answer
  on_answer-HasOrder success message db [] e h v = h
  on_answer-HasOrder success message db (call ∷ calls) e h v =
      let rest : All (PostedOrdered w.now) (call ∷ calls) =
        subst (All (PostedOrdered w.now)) e h.written in
      answered-HasOrder success message call (record db { posted = calls })
        (record { cached = h.cached; written = rest.1 }) v
