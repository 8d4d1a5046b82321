-- ===== src/Budget/Database.antt =====
-- browser/budget_service/budget_database.cc: BudgetDatabase. A call of the leveldb_proto database is
-- posted, and its answers come in the order of the calls. The callbacks that the code binds for it are
-- `After` and the constructors of `Posted`. A method gives the answer that it passes to its client at
-- once, if it passes one.
use chromium_log.Prelude.{
  ℕ, ◌+◌, ◌-◌, ◌*◌, ◌/◌, Bool, true, false, ◌&&◌, not, List, [], ◌∷◌, ◌++◌, Option, none, some,
  ◌==◌, ltb, if◌then◌else◌,
}
use chromium_log.Budget.Defs.{
  budget_duration_in_days, hour, day, Double, Arithmetic, nought, Scale, BudgetInfo, empty_info,
  Budget, BudgetState, Error, no_error, database_error, Client, World, total, hourly_budget,
  drop_expired, pay, time_to_award, predict, to_message, from_message,
}

-- What follows `SyncCache`.
pub data After : Type 0 where
  get_budget : ℕ → After
  spend_budget : Double → Client → After

pub data Posted : Type 0 where
  get_entry : ℕ → After → Posted
  sync_update : ℕ → Option Budget → After → Posted
  spend_update : ℕ → Option Budget → Client → Posted

pub data Sample : Type 0 where
  no_budget_origin low_budget_origin background_budget : Double → Sample

pub data Answer : Type 0 where
  budget_answer : ℕ → Error → List BudgetState → Answer
  spend_answer : Client → Error → Bool → Answer

-- The cache by the serialized origin, and the posted calls, the oldest first.
pub record Database : Type 0 where
  pub budget_map : ℕ → Option BudgetInfo
  pub posted : List Posted
  pub samples : List Sample
  pub dchecks : Bool

abbrev pub new_database : Database
new_database = record { budget_map = λ o. none; posted = []; samples = []; dchecks = true }

abbrev pub set_at {ℓ} : {V : Type ℓ} → ℕ → V → (ℕ → V) → ℕ → V
set_at o v f p = if p == o then v else f p

abbrev pub put : ℕ → Option BudgetInfo → Database → Database
put o info db = record db { budget_map = set_at o info db.budget_map }

abbrev pub post : Posted → Database → Database
post call db = record db { posted = db.posted ++ call ∷ [] }

abbrev pub sample : Sample → Database → Database
sample s db = record db { samples = s ∷ db.samples }

abbrev pub is_some {ℓ} : {A : Type ℓ} → Option A → Bool
is_some none = false
is_some (some _) = true

abbrev pub is_cached : ℕ → Database → Bool
is_cached o db = is_some (db.budget_map o)

-- `budget_map_[origin]`, with the entry that this makes of a missing one.
abbrev pub info_or_empty : Option BudgetInfo → BudgetInfo
info_or_empty none = empty_info
info_or_empty (some info) = info

abbrev pub total_of : Arithmetic → Option BudgetInfo → Double
total_of m none = nought m
total_of m (some info) = total m info.chunks

abbrev pub message_of : Option BudgetInfo → Option Budget
message_of none = none
message_of (some info) = some (to_message info)

-- Without an answer.
abbrev pub quietly : Database → Database × Option Answer
quietly db = (db, none)

unfoldable pub get_budget_after_sync : World → ℕ → ℕ → Bool → Database → Database × Option Answer
unfolding predict
get_budget_after_sync w o callback false db = (db, some (budget_answer callback database_error []))
get_budget_after_sync w o callback true db =
    let now_left = total_of w.arithmetic (db.budget_map o) in
    let info = info_or_empty (db.budget_map o) in
    (
      put o (some info) db,
      some (
          budget_answer callback no_error (
            record { budget_at = now_left; time = w.now }
            ∷ predict w.arithmetic now_left info.chunks)),
    )

-- The end of `SpendBudgetAfterSync`, where there is enough budget.
unfoldable pub charge : Arithmetic → ℕ → Double → Client → BudgetInfo → Database → Database
unfolding pay to_message
charge m o amount client info db =
    let (bill, chunks) = pay m amount info.chunks in
    let paid = record info { chunks = chunks } in
    post (spend_update o (some (to_message paid)) client)
      (record (put o (some paid) db) { dchecks = m.equal bill (nought m) && db.dchecks })

unfoldable pub spend_budget_after_sync :
    World → ℕ → Double → Client → Bool → Database → Database × Option Answer
unfolding charge
spend_budget_after_sync w o amount client false db =
    (db, some (spend_answer client database_error false))
spend_budget_after_sync w o amount client true db =
    let info = info_or_empty (db.budget_map o) in
    let m = w.arithmetic in
    let sum = total m info.chunks in
    let found = put o (some info) db in
    if m.less sum amount
    then (sample (no_budget_origin w.score) found, some (spend_answer client no_error false))
    else quietly (
        charge m o amount client info (
          if m.less sum (m.multiply amount (m.of_int 2))
          then sample (low_budget_origin w.score) found
          else found))

unfoldable pub spend_budget_after_write : Client → Bool → Option Answer
spend_budget_after_write client false = some (spend_answer client database_error false)
spend_budget_after_write client true = some (spend_answer client no_error true)

-- The callback of `SyncCache`.
unfoldable pub run_after : World → ℕ → After → Bool → Database → Database × Option Answer
unfolding get_budget_after_sync spend_budget_after_sync
run_after w o (get_budget callback) success db = get_budget_after_sync w o callback success db
run_after w o (spend_budget amount client) success db =
    spend_budget_after_sync w o amount client success db

-- Whether the origin was removed is the Boolean of the result.
unfoldable pub cleanup_info : ℕ → Option BudgetInfo → Option BudgetInfo × Bool
unfolding drop_expired
cleanup_info now none = (none, false)
cleanup_info now (some info) =
    let chunks = drop_expired now info.chunks in
    let expired = ltb info.last_engagement_award (now - budget_duration_in_days * day) in
    elim chunks [
      | [] ↦ if expired then (none, true) else (some (record info { chunks = [] }), false)
      | c ∷ cs ↦ (some (record info { chunks = c ∷ cs }), false)
    ]

unfoldable pub cleanup_expired_budget : ℕ → ℕ → Database → Database × Bool
unfolding cleanup_info
cleanup_expired_budget now o db =
    let (info, removed) = cleanup_info now (db.budget_map o) in (put o info db, removed)

-- A new chunk of so much time's budget.
unfoldable pub award : Scale → World → ℕ → BudgetInfo → BudgetInfo
unfolding hourly_budget
award scale w elapsed info = record {
  last_engagement_award = w.now;
  chunks =
      info.chunks
      ++ record {
        amount =
            w.arithmetic.multiply (w.arithmetic.of_int (elapsed / hour)) (hourly_budget scale w);
        expiration = w.now + budget_duration_in_days * day;
      }
        ∷ [];
}

unfoldable pub add_engagement_budget : Scale → World → ℕ → Database → Database
unfolding time_to_award award
add_engagement_budget scale w o db = elim (time_to_award w.now (db.budget_map o)) [
  | none ↦ db
  | some elapsed ↦
      let info = award scale w elapsed (info_or_empty (db.budget_map o)) in
      sample (background_budget (total w.arithmetic info.chunks)) (put o (some info) db)
]

-- The end of `SyncLoadedCache`: write the origin's budget first, or go on at once.
unfoldable pub write_or_run : World → ℕ → After → Bool → Database → Database × Option Answer
unfolding run_after
write_or_run w o after true db =
    quietly (post (sync_update o (message_of (db.budget_map o)) after) db)
write_or_run w o after false db = run_after w o after true db

module _ (scale : Scale) where
  unfoldable pub sync_loaded_cache : World → ℕ → After → Bool → Database → Database × Option Answer
  sync_loaded_cache w o after false db = run_after w o after false db
  sync_loaded_cache w o after true db =
      let (clean, needs_write) = cleanup_expired_budget w.now o db in
      write_or_run w o after needs_write (add_engagement_budget scale w o clean)

  unfoldable pub sync_cache : World → ℕ → After → Database → Database × Option Answer
  unfolding sync_loaded_cache
  sync_cache w o after db =
      if not (is_cached o db)
      then quietly (post (get_entry o after) db)
      else sync_loaded_cache w o after true db

  unfoldable pub add_to_cache :
      World → ℕ → After → Bool → Option Budget → Database → Database × Option Answer
  unfolding sync_loaded_cache from_message
  add_to_cache w o after success none db = sync_loaded_cache w o after success db
  add_to_cache w o after success (some message) db =
      sync_loaded_cache w o after success
        (if success && not (is_cached o db) then put o (some (from_message message)) db else db)

  unfoldable pub get_budget_details : World → ℕ → ℕ → Database → Database × Option Answer
  unfolding sync_cache
  get_budget_details w o callback db = sync_cache w o (get_budget callback) db

  unfoldable pub spend : World → ℕ → Double → Client → Database → Database × Option Answer
  unfolding sync_cache
  spend w o amount client db = sync_cache w o (spend_budget amount client) db

  -- The database answers its oldest call: with whether it worked, and for a read with the entry.
  unfoldable pub answered :
      World → Bool → Option Budget → Posted → Database → Database × Option Answer
  unfolding add_to_cache run_after spend_budget_after_write
  answered w success message (get_entry o after) db = add_to_cache w o after success message db
  answered w success message (sync_update o _ after) db = run_after w o after success db
  answered w success message (spend_update o _ client) db =
      (db, spend_budget_after_write client success)

  unfoldable pub on_answer :
      World → Bool → Option Budget → List Posted → Database → Database × Option Answer
  unfolding answered
  on_answer w success message [] db = quietly db
  on_answer w success message (call ∷ calls) db =
      answered w success message call (record db { posted = calls })
