-- ===== src/Budget/Order.antt =====
-- browser/budget_service/budget_database.cc: the chunks of a budget are in the order of their expiry, as
-- `CleanupExpiredBudget` wants them.
pub mod Steps
pub mod Runs
use chromium_log.Prelude.{
  ℕ, zero, suc, ◌+◌, ◌-◌, ◌*◌, ◌/◌, ◌≤◌, ◌<◌, ◌≡◌, ◌≢◌, refl, sym, ap, ◌∙◌, inl, inr, Bool, true,
  false, ◌&&◌, List, [], ◌∷◌, ◌++◌, Option, none, some, ◌==◌, ltb, leb, ==-refl, if◌then◌else◌,
  length, drop, Bool-cases, Option-cases, arith,
}
use chromium_log.Budget.Defs.{
  budget_duration_in_days, hour, day, Double, Arithmetic, Scale, Chunk, BudgetInfo, Budget, World,
  total, drop_expired, pay, time_to_award, from_message, to_message,
}
use chromium_log.Budget.Database.{cleanup_info, award, info_or_empty}

-- The chunks expire after the first time, one after the other, and not after the second.
abbrev pub Between : ℕ → ℕ → List Chunk → Type 0
Between low high [] = Unit
Between low high (chunk ∷ chunks) =
    (low < chunk.expiration) × (chunk.expiration ≤ high) × Between chunk.expiration high chunks

-- At the time: the last award is not in the future, and the chunks expire at most the duration of a
-- budget after it.
abbrev pub IsOrdered : ℕ → BudgetInfo → Type 0
IsOrdered now info =
    (info.last_engagement_award ≤ now)
    × Between 0 (info.last_engagement_award + budget_duration_in_days * day) info.chunks

abbrev pub MaybeOrdered : ℕ → Option BudgetInfo → Type 0
MaybeOrdered now none = Unit
MaybeOrdered now (some info) = IsOrdered now info

Between-lower :
    (low' low high : ℕ) (chunks : List Chunk)
    → low' ≤ low
    → Between low high chunks
    → Between low' high chunks
Between-lower low' low high [] h b = tt
Between-lower low' low high (chunk ∷ chunks) h b = (omega (arith, b.0), b.1, b.2)

pub Between-append :
    (low high : ℕ) (amount : Double) (expiration : ℕ) (chunks : List Chunk)
    → low < expiration
    → high < expiration
    → Between low high chunks
    → Between low expiration (chunks ++ record { amount = amount; expiration = expiration } ∷ [])
Between-append low high amount expiration [] l h b = (l, omega arith, tt)
Between-append low high amount expiration (chunk ∷ chunks) l h b = (
  b.0,
  omega (arith, b.1),
  Between-append chunk.expiration high amount expiration chunks (omega (arith, b.1)) h b.2,
)

-- What is left after the clean-up has not expired.
pub drop_expired-Between :
    (now low high : ℕ) (chunks : List Chunk)
    → Between low high chunks
    → Between now high (drop_expired now chunks) × Between low high (drop_expired now chunks)
unfolding drop_expired
drop_expired-Between now low high [] b = (tt, tt)
drop_expired-Between now low high (chunk ∷ chunks) b =
    let rest = drop_expired-Between now chunk.expiration high chunks b.2 in
    let lower =
      Between-lower low chunk.expiration high (drop_expired now chunks) (omega (arith, b.0))
        rest.1 in
    elim (Bool-cases (leb chunk.expiration now)) [
      | inl e ↦ rw e (rest.0, lower)
      | inr v ↦ rw v (ground arith)
    ]

pay-Between :
    (m : Arithmetic) (bill : Double) (low high : ℕ) (chunks : List Chunk)
    → Between low high chunks
    → Between low high (pay m bill chunks).1
unfolding pay
pay-Between m bill low high [] b = tt
pay-Between m bill low high (chunk ∷ chunks) b =
    let rest = pay-Between m (m.subtract bill chunk.amount) chunk.expiration high chunks b.2 in
    let lower =
      Between-lower low chunk.expiration high (pay m (m.subtract bill chunk.amount) chunks).1
        (omega (arith, b.0)) rest in
    elim (Bool-cases (m.less bill chunk.amount)) [ inl e ↦ rw e b | inr v ↦ rw v lower ]

pay-IsOrdered :
    (m : Arithmetic) (now : ℕ) (bill : Double) (info : BudgetInfo)
    → IsOrdered now info
    → IsOrdered now (record info { chunks = (pay m bill info.chunks).1 })
pay-IsOrdered m now bill info v = (v.0, pay-Between m bill 0 _ info.chunks v.1)

cleanup_info-MaybeOrdered :
    (now : ℕ) (info : Option BudgetInfo)
    → MaybeOrdered now info
    → MaybeOrdered now (cleanup_info now info).0
unfolding cleanup_info
cleanup_info-MaybeOrdered now none v = tt
cleanup_info-MaybeOrdered now (some info) v =
    let kept =
      drop_expired-Between now 0 (info.last_engagement_award + budget_duration_in_days * day)
        info.chunks v.1 in
    ground arith

award-IsOrdered :
    (scale : Scale) (w : World) (elapsed : ℕ) (info : Option BudgetInfo)
    → MaybeOrdered w.now info
    → time_to_award w.now info ≡ some elapsed
    → IsOrdered w.now (award scale w elapsed (info_or_empty info))
unfolding award time_to_award
award-IsOrdered scale w elapsed none v e = ground arith
award-IsOrdered scale w elapsed (some info) v e = (
  omega arith,
  Between-append 0 (info.last_engagement_award + budget_duration_in_days * day) _
      (w.now + budget_duration_in_days * day) info.chunks (omega arith) (ground arith) v.1,
)
