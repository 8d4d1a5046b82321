-- ===== src/Budget/Tokens/Refinement.antt =====
-- browser/budget_service/budget_database.cc: spending on the queue of tokens.
use chromium_log.Prelude.{
  ℕ, ◌^◌, ◌≤◌, ◌≡◌, ◌≢◌, refl, inl, inr, true, false, List, [], ◌∷◌, ◌++◌, Option, none, some, ltb,
  if◌then◌else◌, length, drop, Bool-cases, arith, ==-refl,
}
use chromium_log.Budget.Defs.{Double, BudgetInfo, no_error, Client, World, total}
use chromium_log.Budget.Database.{
  spend_answer, spend_update, Database, info_or_empty, message_of, charge, spend_budget_after_sync,
}
use chromium_log.Budget.Tokens.{
  IsExact, Units, sum_of, in_units, tokens, length-tokens, total-in_units, pay-drop,
}

-- What paying does to a queue of tokens.
abbrev pub spent : ℕ → List ℕ → List ℕ
spent amount ts = if ltb (length ts) amount then ts else drop amount ts

-- The budget's chunks are so many units each, and their tokens are these.
abbrev pub HasTokens : (ℕ → Double) → Option BudgetInfo → List ℕ → Type 0
HasTokens units info ts =
    (us : Units) × ((info_or_empty info).chunks ≡ in_units units us) × (tokens us ≡ ts)

-- `SpendBudgetAfterSync`, where the amounts of the chunks and of the bill are whole numbers of one unit
-- with which the machine computes exactly, and at most 2 ^ 53 of it: it takes the bill from the front
-- of the origin's tokens if there are as many, and then posts the write of what is left, for the client
-- to hear of; if there are fewer it takes none, posts nothing, and tells the client so. Other origins
-- keep their budgets, and the bill is covered: no DCHECK fails.
pub spend-refines :
    (w : World) (o amount : ℕ) (client : Client) (db : Database) (units : ℕ → Double) (us : Units)
    → IsExact w.arithmetic units
    → (info_or_empty (db.budget_map o)).chunks ≡ in_units units us
    → sum_of us ≤ 2 ^ 53
    → amount ≤ 2 ^ 53
    → let (after, answer) = spend_budget_after_sync w o (units amount) client true db in
      let before = tokens us in
      HasTokens units (after.budget_map o) (spent amount before)
      × (answer ≡ (
          if ltb (length before) amount then some (spend_answer client no_error false) else none))
      × (after.posted ≡ (
          if ltb (length before) amount
          then db.posted
          else db.posted ++ spend_update o (message_of (after.budget_map o)) client ∷ []))
      × ((p : ℕ) → p ≢ o → after.budget_map p ≡ db.budget_map p)
      × (after.dchecks ≡ db.dchecks)
unfolding spend_budget_after_sync charge
spend-refines w o amount client db units us exact whole h ha =
    let m = w.arithmetic in
    let info = info_or_empty (db.budget_map o) in
    let size = length-tokens us in
    let few : m.less (total m info.chunks) (units amount) ≡ ltb (sum_of us) amount =
      rw (whole, total-in_units m units exact us h) (exact.compares (sum_of us) amount h ha) in
    elim (Bool-cases (ltb (sum_of us) amount)) [
      | inl f ↦
          rw (few, f, size, f, ==-refl o)
            ((us, whole, refl), refl, refl, (λ p ne. ground arith), refl)
      | inr e ↦
          let (left, paid, dropped) = pay-drop m units exact amount us h (ground arith) in
          rw (few, e, size, e, ==-refl o, whole, paid, exact.is_nought)
            ((left, refl, dropped), refl, ground arith, (λ p ne. ground arith), ground arith)
    ]
