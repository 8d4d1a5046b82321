-- ===== src/Budget/Renewal.antt =====
-- browser/budget_service/budget_database.cc: what the clean-up and the award make of a budget.
use chromium_log.Prelude.{
  ℕ, ◌+◌, ◌-◌, ◌*◌, ◌&&◌, ltb, leb, Bool-cases, ◌≡◌, ◌⊎◌, refl, ap, subst, inl, inr, Bool, true,
  false, List, [], ◌∷◌, Option, none, some, ==-refl, Option-cases, arith,
}
use chromium_log.Budget.Defs.{
  budget_duration_in_days, day, empty_info, Scale, Chunk, BudgetInfo, World, drop_expired,
  time_to_award,
}
use chromium_log.Budget.Database.{
  Database, cleanup_info, award, info_or_empty, add_engagement_budget,
}
use chromium_log.Budget.Order.{Between, MaybeOrdered, drop_expired-Between, Between-append}

-- What has been cleaned up expires later.
abbrev pub IsFresh : ℕ → Option BudgetInfo → Type 0
IsFresh now none = Unit
IsFresh now (some info) =
    Between now (info.last_engagement_award + budget_duration_in_days * day) info.chunks

pub cleanup_info-IsFresh :
    (now : ℕ) (info : Option BudgetInfo)
    → MaybeOrdered now info
    → IsFresh now (cleanup_info now info).0
unfolding cleanup_info
cleanup_info-IsFresh now none v = tt
cleanup_info-IsFresh now (some info) v =
    let kept =
      drop_expired-Between now 0 (info.last_engagement_award + budget_duration_in_days * day)
        info.chunks v.1 in
    ground arith

award-IsFresh :
    (scale : Scale) (w : World) (elapsed : ℕ) (info : Option BudgetInfo)
    → IsFresh w.now info
    → time_to_award w.now info ≡ some elapsed
    → IsFresh w.now (some (award scale w elapsed (info_or_empty info)))
unfolding award time_to_award
award-IsFresh scale w elapsed none v e = ground arith
award-IsFresh scale w elapsed (some info) v e =
    Between-append w.now (info.last_engagement_award + budget_duration_in_days * day) _
      (w.now + budget_duration_in_days * day) info.chunks (omega arith) (ground arith) v

time_to_award-some :
    (now : ℕ) (info : Option BudgetInfo)
    → time_to_award now info ≡ none
    → (known : BudgetInfo) × (info ≡ some known)
unfolding time_to_award
time_to_award-some now none e = absurd (ground arith)
time_to_award-some now (some info) e = (info, refl)

pub add_engagement_budget-IsFresh :
    (scale : Scale) (w : World) (o : ℕ) (db : Database)
    → IsFresh w.now (db.budget_map o)
    → (info : BudgetInfo) × ((add_engagement_budget scale w o db).budget_map o ≡ some info)
      × IsFresh w.now (some info)
unfolding add_engagement_budget
add_engagement_budget-IsFresh scale w o db v =
    elim (Option-cases (time_to_award w.now (db.budget_map o))) [
      | inl early ↦
          let known = time_to_award-some w.now (db.budget_map o) early in
          rw (early, add_engagement_budget) (known.0, known.1, subst (IsFresh w.now) known.1 v)
      | inr (elapsed, due) ↦
          let info = award scale w elapsed (info_or_empty (db.budget_map o)) in
          rw (due, add_engagement_budget)
            (info, rw (==-refl o) refl, award-IsFresh scale w elapsed (db.budget_map o) v due)
    ]

pub add_engagement_budget-posted :
    (scale : Scale) (w : World) (o : ℕ) (db : Database)
    → (add_engagement_budget scale w o db).posted ≡ db.posted
unfolding add_engagement_budget
add_engagement_budget-posted scale w o db =
    elim (Option-cases (time_to_award w.now (db.budget_map o))) [
      | inl early ↦ rw (early, add_engagement_budget) refl
      | inr (elapsed, due) ↦ rw (due, add_engagement_budget) refl
    ]

-- Every chunk has expired.
abbrev all_expired : ℕ → List Chunk → Bool
all_expired now [] = true
all_expired now (chunk ∷ chunks) = leb chunk.expiration now && all_expired now chunks

-- The budget is over, and its last award was more than the duration of a budget ago.
abbrev pub is_forgotten : ℕ → Option BudgetInfo → Bool
is_forgotten now none = false
is_forgotten now (some info) =
    all_expired now info.chunks
    && ltb info.last_engagement_award (now - budget_duration_in_days * day)

drop_expired-all_expired :
    (now : ℕ) (chunks : List Chunk)
    → ((all_expired now chunks ≡ true) × (drop_expired now chunks ≡ []))
      ⊎ ((all_expired now chunks ≡ false)
          × ((chunk : Chunk) × (rest : List Chunk) × (drop_expired now chunks ≡ chunk ∷ rest)))
unfolding drop_expired
drop_expired-all_expired now [] = inl (refl, refl)
drop_expired-all_expired now (chunk ∷ chunks) = elim (Bool-cases (leb chunk.expiration now)) [
  | inl e ↦ rw e (drop_expired-all_expired now chunks)
  | inr e ↦ rw e (inr (refl, (chunk, chunks, refl)))
]

pub cleanup_info-is_forgotten :
    (now : ℕ) (info : Option BudgetInfo)
    → ((cleanup_info now info).1 ≡ is_forgotten now info)
      × (is_forgotten now info ≡ true → (cleanup_info now info).0 ≡ none)
unfolding cleanup_info
cleanup_info-is_forgotten now none = (refl, λ h. refl)
cleanup_info-is_forgotten now (some info) = elim (drop_expired-all_expired now info.chunks) [
  | inl (all, nothing) ↦ rw (nothing, cleanup_info) (ground arith)
  | inr (not_all, (_, _, left)) ↦ rw (left, cleanup_info) (ground arith)
]

pub add_engagement_budget-fresh :
    (scale : Scale) (w : World) (o : ℕ) (db : Database)
    → db.budget_map o ≡ none
    → (add_engagement_budget scale w o db).budget_map o
      ≡ some (award scale w (budget_duration_in_days * day) empty_info)
unfolding add_engagement_budget time_to_award
add_engagement_budget-fresh scale w o db e =
    rw (e, add_engagement_budget)
      (rw (==-refl o)
        (ap (λ i. some (award scale w (budget_duration_in_days * day) (info_or_empty i))) e))
