-- ===== src/Budget/Tokens.antt =====
-- browser/budget_service/budget_database.cc, the abstract view: a budget is a queue of tokens of one unit
-- each, of which only the times of expiry are known. Paying takes tokens from the front.
pub mod Refinement
use chromium_log.Prelude.{
  ℕ, zero, suc, ◌+◌, ◌-◌, ◌^◌, ◌≤◌, ◌<◌, ◌≡◌, refl, sym, ap, ◌∙◌, inl, inr, true, List, [], ◌∷◌,
  ◌++◌, ltb, if◌then◌else◌, length, length-append, drop, Bool-cases, arith,
}
use chromium_log.Budget.Defs.{Double, Arithmetic, nought, Chunk, total_from, pay}

-- Doubles `units n` that are a number of times one unit. Up to 2 ^ 53 units, if the unit is a power of
-- two, the machine computes with them without rounding.
pub record IsExact (m : Arithmetic) (units : ℕ → Double) : Type 0 where
  pub no_units : units 0 ≡ nought m
  pub adds : (a b : ℕ) → a + b ≤ 2 ^ 53 → m.add (units a) (units b) ≡ units (a + b)
  pub subtracts : (a b : ℕ) → a ≤ 2 ^ 53 → b ≤ a → m.subtract (units a) (units b) ≡ units (a - b)
  pub compares : (a b : ℕ) → a ≤ 2 ^ 53 → b ≤ 2 ^ 53 → m.less (units a) (units b) ≡ ltb a b
  pub is_nought : m.equal (nought m) (nought m) ≡ true

-- For each chunk its units and its time of expiry.
abbrev pub Units : Type 0
Units = List (ℕ × ℕ)

abbrev pub sum_of : Units → ℕ
sum_of [] = 0
sum_of ((n, t) ∷ us) = n + sum_of us

abbrev pub in_units : (ℕ → Double) → Units → List Chunk
in_units units [] = []
in_units units ((n, t) ∷ us) = record { amount = units n; expiration = t } ∷ in_units units us

abbrev pub replicate : ℕ → ℕ → List ℕ
replicate zero x = []
replicate (suc n) x = x ∷ replicate n x

abbrev pub tokens : Units → List ℕ
tokens [] = []
tokens ((n, t) ∷ us) = replicate n t ++ tokens us

length-replicate : (n x : ℕ) → length (replicate n x) ≡ n
length-replicate zero x = refl
length-replicate (suc n) x = omega (arith, length-replicate n x)

pub length-tokens : (us : Units) → length (tokens us) ≡ sum_of us
length-tokens [] = refl
length-tokens ((n, t) ∷ us) =
    omega (arith, length-append (replicate n t) (tokens us), length-replicate n t, length-tokens us)

drop-replicate_lt :
    (k n x : ℕ) (ys : List ℕ) → k < n → drop k (replicate n x ++ ys) ≡ replicate (n - k) x ++ ys
drop-replicate_lt k zero x ys h = absurd (omega arith)
drop-replicate_lt zero (suc n) x ys h = ground arith
drop-replicate_lt (suc k) (suc n) x ys h =
    let smaller = drop-replicate_lt k n x ys (omega arith) in ground arith

drop-replicate_le :
    (k n x : ℕ) (ys : List ℕ) → n ≤ k → drop k (replicate n x ++ ys) ≡ drop (k - n) ys
drop-replicate_le k zero x ys h = ground arith
drop-replicate_le zero (suc n) x ys h = absurd (omega arith)
drop-replicate_le (suc k) (suc n) x ys h =
    let smaller = drop-replicate_le k n x ys (omega arith) in ground arith

module _ (m : Arithmetic) (units : ℕ → Double) (exact : IsExact m units) where
  total_from-in_units :
      (s : ℕ) (us : Units)
      → s + sum_of us ≤ 2 ^ 53
      → total_from m (units s) (in_units units us) ≡ units (s + sum_of us)
  total_from-in_units s [] h = ap units (omega arith)
  total_from-in_units s ((n, t) ∷ us) h =
      ap (λ x. total_from m x (in_units units us)) (exact.adds s n (omega arith))
      ∙ total_from-in_units (s + n) us (omega arith)
      ∙ ap units (omega arith)

  pub total-in_units :
      (us : Units)
      → sum_of us ≤ 2 ^ 53
      → total_from m (nought m) (in_units units us) ≡ units (sum_of us)
  total-in_units us h =
      ap (λ s. total_from m s (in_units units us)) (sym exact.no_units)
      ∙ total_from-in_units 0 us (omega arith)
      ∙ ap units (omega arith)

  -- Paying drops tokens from the front, and leaves nothing of a bill that is covered.
  pub pay-drop :
      (bill : ℕ) (us : Units)
      → sum_of us ≤ 2 ^ 53
      → bill ≤ sum_of us
      → (left : Units) × (pay m (units bill) (in_units units us) ≡ (nought m, in_units units left))
        × (tokens left ≡ drop bill (tokens us))
  unfolding pay
  pay-drop zero [] h c = ([], ap (λ x. (x, [])) exact.no_units, refl)
  pay-drop (suc bill) [] h c = absurd (omega arith)
  pay-drop bill ((n, t) ∷ us) h c = elim (Bool-cases (ltb bill n)) [
    | inl less ↦ (
      (n - bill, t) ∷ us,
      rw
          (
            exact.compares bill n (omega arith) (omega arith),
            less,
            exact.subtracts n bill (omega arith) (ground arith),
          )
          refl,
      sym (drop-replicate_lt bill n t (tokens us) (ground arith)),
    )
    | inr enough ↦
        let le : n ≤ bill = ground arith in
        let (left, paid, dropped) = pay-drop (bill - n) us (omega arith) (omega arith) in
        (
          left,
          rw
              (
                exact.compares bill n (omega arith) (omega arith),
                enough,
                exact.subtracts bill n (omega arith) le,
              )
              paid,
          dropped ∙ sym (drop-replicate_le bill n t (tokens us) le),
        )
  ]
