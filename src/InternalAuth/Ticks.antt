-- ===== src/InternalAuth/Ticks.antt =====
-- The deques of used ticks, which the services keep in order. The head of a list is the back of the
-- deque, which holds the largest tick.
use chromium_log.Prelude.{
  ℕ, suc, ◌≤◌, ◌<◌, ◌≡◌, refl, Bool, true, false, ◌||◌, List, [], ◌∷◌, arith, ◌==◌, ltb,
  if◌then◌else◌, length,
}

-- `used_ticks_.insert(std::lower_bound(…, tick), tick)`.
unfoldable pub insert_tick : ℕ → List ℕ → List ℕ
insert_tick tick [] = tick ∷ []
insert_tick tick (t ∷ ts) = if ltb t tick then tick ∷ t ∷ ts else t ∷ insert_tick tick ts

-- `std::binary_search(used_ticks_.begin(), used_ticks_.end(), tick)`.
unfoldable pub has_tick : ℕ → List ℕ → Bool
has_tick tick [] = false
has_tick tick (t ∷ ts) = if ltb t tick then false else t == tick || has_tick tick ts

-- `used_ticks_.erase(used_ticks_.begin(), std::lower_bound(…, bound))`.
unfoldable pub forget_below : ℕ → List ℕ → List ℕ
forget_below bound [] = []
forget_below bound (t ∷ ts) =
    let rest = forget_below bound ts in if ltb t bound then [] else t ∷ rest

-- Strictly falling, and below a bound.
abbrev pub Below : ℕ → List ℕ → Type 0
Below n [] = Unit {0}
Below n (t ∷ ts) = (t < n) × Below t ts

abbrev pub IsFalling : List ℕ → Type 0
IsFalling [] = Unit {0}
IsFalling (t ∷ ts) = Below t ts

pub IsFalling-of_Below : (n : ℕ) (ts : List ℕ) → Below n ts → IsFalling ts
IsFalling-of_Below n [] h = tt
IsFalling-of_Below n (t ∷ ts) h = h.1

pub Below-mono : (m n : ℕ) (ts : List ℕ) → m ≤ n → Below m ts → Below n ts
Below-mono m n [] h b = tt
Below-mono m n (t ∷ ts) h b = (omega arith, b.1)

pub insert_tick-Below :
    (n tick : ℕ) (ts : List ℕ)
    → tick < n
    → has_tick tick ts ≡ false
    → Below n ts
    → Below n (insert_tick tick ts)
unfolding insert_tick has_tick
insert_tick-Below n tick [] h f b = ground arith
insert_tick-Below n tick (t ∷ ts) h f b = ground (arith, insert_tick-Below t tick ts)

pub insert_tick-IsFalling :
    (tick : ℕ) (ts : List ℕ)
    → has_tick tick ts ≡ false
    → IsFalling ts
    → IsFalling (insert_tick tick ts)
unfolding insert_tick has_tick
insert_tick-IsFalling tick [] f b = tt
insert_tick-IsFalling tick (t ∷ ts) f b = ground (arith, insert_tick-Below t tick ts)

has_tick-above : (n tick : ℕ) (ts : List ℕ) → n ≤ tick → Below n ts → has_tick tick ts ≡ false
unfolding has_tick
has_tick-above n tick [] h b = refl
has_tick-above n tick (t ∷ ts) h b = ground arith

-- In order, an inserted tick is found, and the others are found as before.
pub has_tick-insert_tick :
    (s tick : ℕ) (ts : List ℕ) → has_tick s (insert_tick tick ts) ≡ (s == tick || has_tick s ts)
unfolding has_tick insert_tick
has_tick-insert_tick s tick [] = ground arith
has_tick-insert_tick s tick (t ∷ ts) = ground (arith, has_tick-insert_tick s tick ts)

pub has_tick-forget_below :
    (bound tick : ℕ) (ts : List ℕ)
    → bound ≤ tick
    → has_tick tick (forget_below bound ts) ≡ has_tick tick ts
unfolding has_tick forget_below
has_tick-forget_below bound tick [] h = refl
has_tick-forget_below bound tick (t ∷ ts) h = ground (arith, has_tick-forget_below bound tick ts)

pub has_tick-of_forget_below :
    (bound tick : ℕ) (ts : List ℕ)
    → has_tick tick (forget_below bound ts) ≡ true
    → has_tick tick ts ≡ true
unfolding has_tick forget_below
has_tick-of_forget_below bound tick [] h = h
has_tick-of_forget_below bound tick (t ∷ ts) h =
    ground (arith, has_tick-of_forget_below bound tick ts)

pub forget_below-Below : (n bound : ℕ) (ts : List ℕ) → Below n ts → Below n (forget_below bound ts)
unfolding forget_below
forget_below-Below n bound [] b = tt
forget_below-Below n bound (t ∷ ts) b = ground (arith, forget_below-Below t bound ts)

pub forget_below-IsFalling :
    (bound : ℕ) (ts : List ℕ) → IsFalling ts → IsFalling (forget_below bound ts)
unfolding forget_below
forget_below-IsFalling bound [] b = tt
forget_below-IsFalling bound (t ∷ ts) b = ground (arith, forget_below-Below t bound ts)

pub length-forget_below : (bound : ℕ) (ts : List ℕ) → length (forget_below bound ts) ≤ length ts
unfolding forget_below
length-forget_below bound [] = omega arith
length-forget_below bound (t ∷ ts) = ground (arith, length-forget_below bound ts)

pub length-insert_tick : (tick : ℕ) (ts : List ℕ) → length (insert_tick tick ts) ≡ suc (length ts)
unfolding insert_tick
length-insert_tick tick [] = refl
length-insert_tick tick (t ∷ ts) = ground (arith, length-insert_tick tick ts)
