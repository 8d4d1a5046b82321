-- ===== src/Budget/Predictions.antt =====
-- browser/budget_service/budget_database.cc: the loop that predicts a budget at the times of expiry.
use chromium_log.Prelude.{
  ℕ, suc, ◌+◌, ◌^◌, ◌≤◌, ◌<◌, ◌≡◌, refl, sym, ap, ◌∙◌, List, [], ◌∷◌, length, arith, All,
}
use chromium_log.Budget.Defs.{Double, Arithmetic, Chunk, BudgetState, total, drop_expired, predict}
use chromium_log.Budget.Tokens.{IsExact, Units, sum_of, in_units, total-in_units}
use chromium_log.Budget.Order.{Between}

-- At its time there will be so much budget, if none is spent or awarded until then.
abbrev pub IsForecast : Arithmetic → List Chunk → BudgetState → Type 0
IsForecast m chunks s = s.budget_at ≡ total m (drop_expired s.time chunks)

pub drop_expired-none :
    (now high : ℕ) (chunks : List Chunk)
    → Between now high chunks
    → drop_expired now chunks ≡ chunks
unfolding drop_expired
drop_expired-none now high [] b = refl
drop_expired-none now high (chunk ∷ chunks) b = ground arith

abbrev pub ForecastAfter : Arithmetic → ℕ → List Chunk → BudgetState → Type 0
ForecastAfter m low chunks s = IsForecast m chunks s × (low < s.time)

-- One more chunk, which has expired by then, makes no difference.
forecast_cons :
    (m : Arithmetic) (low : ℕ) (chunk : Chunk) (chunks : List Chunk) (states : List BudgetState)
    → low < chunk.expiration
    → All (ForecastAfter m chunk.expiration chunks) states
    → All (ForecastAfter m low (chunk ∷ chunks)) states
unfolding drop_expired
forecast_cons m low chunk chunks [] h v = tt
forecast_cons m low chunk chunks (s ∷ states) h v =
    (ground arith, forecast_cons m low chunk chunks states h v.1)

drop_expired_here :
    (high : ℕ) (chunk : Chunk) (chunks : List Chunk)
    → Between chunk.expiration high chunks
    → drop_expired chunk.expiration (chunk ∷ chunks) ≡ chunks
unfolding drop_expired
drop_expired_here high chunk chunks b =
    let kept = drop_expired-none chunk.expiration high chunks b in ground arith

pub predict-forecast :
    (m : Arithmetic) (units : ℕ → Double) (exact : IsExact m units) (left : Double) (low high : ℕ)
    (us : Units)
    → left ≡ units (sum_of us)
    → sum_of us ≤ 2 ^ 53
    → Between low high (in_units units us)
    → All (ForecastAfter m low (in_units units us)) (predict m left (in_units units us))
unfolding predict
predict-forecast m units exact left low high [] e h b = tt
predict-forecast m units exact left low high ((n, t) ∷ us) e h b =
    let chunk : Chunk = record { amount = units n; expiration = t } in
    let rest : m.subtract left (units n) ≡ units (sum_of us) =
      ap (λ x. m.subtract x (units n)) e
      ∙ exact.subtracts (n + sum_of us) n h (omega arith)
      ∙ ap units (omega arith) in
    (
      (
        rest
            ∙ sym (total-in_units m units exact us (omega arith))
            ∙ ap (total m) (sym (drop_expired_here high chunk (in_units units us) b.2)),
        b.0,
      ),
      forecast_cons m low chunk (in_units units us) _ b.0 (
          predict-forecast m units exact (m.subtract left (units n)) t high us rest (omega arith)
            b.2),
    )

pub length-predict :
    (m : Arithmetic) (left : Double) (chunks : List Chunk)
    → length (predict m left chunks) ≡ length chunks
unfolding predict
length-predict m left [] = refl
length-predict m left (chunk ∷ chunks) =
    ap suc (length-predict m (m.subtract left chunk.amount) chunks)
