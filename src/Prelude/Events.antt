-- ===== src/Prelude/Events.antt =====
-- A component driven by events: the run of a list of events, and the induction rule for it.
use mathlib.Core.List.{List, [], ◌∷◌, ◌++◌}
use mathlib.Core.Path.{◌≡◌, refl}

module _ {ℓ κ} {S : Type ℓ} {E : Type κ} where
  -- The state after the events, oldest event first.
  unfoldable pub run : (S → E → S) → S → List E → S
  run step s [] = s
  run step s (e ∷ es) = run step (step s e) es

  pub run-append :
      (step : S → E → S) (s : S) (es fs : List E)
      → run step s (es ++ fs) ≡ run step (run step s es) fs
  unfolding run
  run-append step s [] fs = refl
  run-append step s (e ∷ es) fs = run-append step (step s e) es fs

  -- The events of the list, each of which was possible when it came.
  abbrev pub Possible {ι} : (S → E → S) → (S → E → Type ι) → S → List E → Type ι
  Possible step Can s [] = Unit
  Possible step Can s (e ∷ es) = Can s e × Possible step Can (step s e) es

  -- An invariant that each possible event keeps holds after every run of possible events.
  pub run_inv {ι ν} :
      (step : S → E → S) (Can : S → E → Type ι) (Inv : S → Type ν)
      → ((s : S) (e : E) → Can s e → Inv s → Inv (step s e))
      → (s : S) (es : List E) → Possible step Can s es
      → Inv s
      → Inv (run step s es)
  unfolding run
  run_inv step Can Inv keep s [] p h = h
  run_inv step Can Inv keep s (e ∷ es) p h =
      run_inv step Can Inv keep (step s e) es p.1 (keep s e p.0 h)

  -- The same where every event is always possible.
  pub run_inv_all {ν} :
      (step : S → E → S) (Inv : S → Type ν)
      → ((s : S) (e : E) → Inv s → Inv (step s e))
      → (s : S) (es : List E) → Inv s
      → Inv (run step s es)
  unfolding run
  run_inv_all step Inv keep s [] h = h
  run_inv_all step Inv keep s (e ∷ es) h = run_inv_all step Inv keep (step s e) es (keep s e h)
