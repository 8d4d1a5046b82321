-- ===== src/Budget/Forecast.antt =====
-- browser/budget_service/budget_database.cc: what GetBudgetDetails foretells.
use chromium_log.Prelude.{
  ℕ, ◌≡◌, ◌⊎◌, Bool, true, false, List, [], ◌∷◌, ◌++◌, Option, none, some, length, All,
}
use chromium_log.Budget.Defs.{
  to_message, Chunk, BudgetInfo, BudgetState, no_error, World, total, drop_expired,
}
use chromium_log.Budget.Database.{get_budget, Posted, sync_update, Answer, budget_answer, Database}
use chromium_log.Budget.Predictions.{ForecastAfter}

-- The client hears of the budget now, and then of what is left when each chunk has expired: each budget
-- that it hears of is the one that there will be at that time, if none is spent or awarded.
abbrev pub Foretells : World → ℕ → List Chunk → Option Answer → Type 0
Foretells w callback chunks answer =
    (states : List BudgetState) × (answer
      ≡ some (
          budget_answer callback no_error
            (record { budget_at = total w.arithmetic chunks; time = w.now } ∷ states)))
    × (length states ≡ length chunks)
    × (total w.arithmetic chunks ≡ total w.arithmetic (drop_expired w.now chunks))
    × All (ForecastAfter w.arithmetic w.now chunks) states

-- The client hears a forecast of the origin's budget at once, and nothing is written; or, if the old
-- budget is forgotten, its new budget is written first.
abbrev pub ForetellsOrWrites :
    World → ℕ → ℕ → Bool → BudgetInfo → List Posted → Database × Option Answer → Type 0
ForetellsOrWrites w o callback forgotten fresh before (db, answer) =
    ((forgotten ≡ false)
      × ((info : BudgetInfo) × (db.budget_map o ≡ some info)
          × Foretells w callback info.chunks answer
          × (db.posted ≡ before)))
    ⊎ ((forgotten ≡ true)
        × (db.budget_map o ≡ some fresh)
        × (answer ≡ none)
        × (db.posted
            ≡ before ++ sync_update o (some (to_message fresh)) (get_budget callback) ∷ []))
