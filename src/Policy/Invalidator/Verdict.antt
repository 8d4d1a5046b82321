-- ===== src/Policy/Invalidator/Verdict.antt =====
-- browser/policy/cloud/cloud_policy_invalidator.cc: what becomes of an invalidation.
use chromium_log.Prelude.{
  ℕ, ◌+◌, ◌==◌, ◌≡◌, ◌≢◌, sym, subst, ◌⊎◌, inl, inr, refl, Bool, true, false, ◌&&◌, ◌||◌, not, List,
  [], ◌∷◌, Option, none, some, if◌then◌else◌, arith, Bool-cases, ==-refl,
}
use chromium_log.Prelude.Int.{ℤ, negsuc, ◌≤ℤ◌}
use chromium_log.Policy.Invalidator.Defs.{
  Invalidation, PolicyData, World, Invalidator, Call, Metric, acknowledge, leq_ℤ,
  get_invalidation_metric, record_metric,
}
use chromium_log.Policy.Invalidator.Handling.{
  acknowledge_invalidation, accept, consider, consider_version, handle_invalidation, is_expired_at,
  is_empty,
}
use chromium_log.Policy.Invalidator.Settled.{HasInvalidation}

abbrev is_acknowledged_by : ℕ → Call → Bool
is_acknowledged_by ack (acknowledge n) = n == ack
is_acknowledged_by _ _ = false

abbrev pub is_acknowledged : ℕ → List Call → Bool
is_acknowledged ack [] = false
is_acknowledged ack (c ∷ cs) = is_acknowledged_by ack c || is_acknowledged ack cs

-- The invalidation is pending or acknowledged.
abbrev pub IsAnswered : Invalidation → Invalidator → Type 0
IsAnswered invalidation i =
    (i.invalidation ≡ some invalidation) ⊎ (is_acknowledged invalidation.ack i.calls ≡ true)

pub acknowledge-answers :
    (i : Invalidator) (pending : Invalidation)
    → i.invalidation ≡ some pending
    → is_acknowledged pending.ack (acknowledge_invalidation i).calls ≡ true
unfolding acknowledge_invalidation
acknowledge-answers i pending p = ground arith

accept-answers :
    (w : World) (invalidation : Invalidation) (version : ℤ) (payload : List ℕ) (i : Invalidator)
    → (accept w invalidation version payload i).invalidation ≡ some invalidation
unfolding accept
accept-answers w invalidation version payload i = ground arith

accept-remembers :
    (w : World) (invalidation : Invalidation) (version : ℤ) (payload : List ℕ) (i : Invalidator)
    (ack : ℕ)
    → is_acknowledged ack i.calls ≡ true
    → is_acknowledged ack (accept w invalidation version payload i).calls ≡ true
unfolding accept
accept-remembers w invalidation version payload i ack p = elim (Bool-cases (is_empty payload)) [
  | inl e ↦ rw (e, p)
  | inr e ↦ rw (e, p)
]

pub record_metric-remembers :
    (m : Metric) (i : Invalidator) (ack : ℕ)
    → is_acknowledged ack i.calls ≡ true
    → is_acknowledged ack (record_metric m i).calls ≡ true
record_metric-remembers m i ack p = elim (Bool-cases (i.is_device)) [
  | inl e ↦ rw (e, p)
  | inr e ↦ rw (e, p)
]

consider-answers :
    (w : World) (invalidation : Invalidation) (version : ℤ) (payload : List ℕ)
    (policy : Option PolicyData) (i : Invalidator)
    → policy ≢ none
    → IsAnswered invalidation (consider w invalidation version payload policy i)
unfolding consider
consider-answers w invalidation version payload none i p = absurd (p refl)
consider-answers w invalidation version payload (some policy) i p =
    elim (Bool-cases (is_expired_at w.now version policy.timestamp)) [
      | inl e ↦ inr (rw (e, ==-refl invalidation.ack))
      | inr e ↦
          let taken =
            accept-answers w invalidation version payload
              (record_metric (get_invalidation_metric (is_empty payload) false) i) in
          inl (rw (e, taken))
    ]

consider-remembers :
    (w : World) (invalidation : Invalidation) (version : ℤ) (payload : List ℕ)
    (policy : Option PolicyData) (i : Invalidator) (ack : ℕ)
    → is_acknowledged ack i.calls ≡ true
    → is_acknowledged ack (consider w invalidation version payload policy i).calls ≡ true
unfolding consider
consider-remembers w invalidation version payload none i ack p = p
consider-remembers w invalidation version payload (some policy) i ack p =
    let m =
      get_invalidation_metric (is_empty payload) (is_expired_at w.now version policy.timestamp) in
    let recorded = record_metric-remembers m i ack p in
    elim (Bool-cases (is_expired_at w.now version policy.timestamp)) [
      | inl e ↦ ground arith
      | inr e ↦
          let taken =
            accept-remembers w invalidation version payload (record_metric m i) ack recorded in
          ground arith
    ]

if_either :
    (P : Invalidator → Type 0) (b : Bool) (i j : Invalidator) → P i → P j → P (if b then i else j)
if_either P true i j p q = p
if_either P false i j p q = q

consider_version-answers :
    (w : World) (invalidation : Invalidation) (i : Invalidator)
    → w.store.policy ≢ none
    → IsAnswered invalidation (consider_version w invalidation i)
unfolding consider_version
consider_version-answers w invalidation i p =
    if_either (IsAnswered invalidation) invalidation.is_unknown_version _ _
      (consider-answers w invalidation (negsuc i.unknown_version_invalidation_count) []
        w.store.policy
        (record i { unknown_version_invalidation_count = i.unknown_version_invalidation_count + 1 })
        p)
      (consider-answers w invalidation invalidation.version invalidation.payload w.store.policy i p)

consider_version-remembers :
    (w : World) (invalidation : Invalidation) (i : Invalidator) (ack : ℕ)
    → is_acknowledged ack i.calls ≡ true
    → is_acknowledged ack (consider_version w invalidation i).calls ≡ true
unfolding consider_version
consider_version-remembers w invalidation i ack p =
    if_either (λ j. is_acknowledged ack j.calls ≡ true) invalidation.is_unknown_version _ _
      (consider-remembers w invalidation (negsuc i.unknown_version_invalidation_count) []
        w.store.policy
        (record i { unknown_version_invalidation_count = i.unknown_version_invalidation_count + 1 })
        ack p)
      (consider-remembers w invalidation invalidation.version invalidation.payload w.store.policy i
        ack p)

-- What `HandleInvalidation` owes to an invalidation that comes, with the invalidator before and after.
abbrev pub IsServed : Invalidation → Invalidator → Invalidator → Type 0
IsServed invalidation i j =
    IsAnswered invalidation j
    ⊎ ((j ≡ i) × (i.invalid ≡ true) × (invalidation.version ≤ℤ i.invalidation_version))

old-IsServed :
    (invalidation : Invalidation) (i j : Invalidator) (old : Bool)
    → (old ≡ true → (i.invalid ≡ true) × (invalidation.version ≤ℤ i.invalidation_version))
    → IsAnswered invalidation j
    → IsServed invalidation i (if old then i else j)
old-IsServed invalidation i j true f a = inr (refl, (f refl).0, (f refl).1)
old-IsServed invalidation i j false f a = inl a

pending-acknowledged :
    (i : Invalidator) (pending : Invalidation)
    → HasInvalidation i
    → i.invalidation ≡ some pending
    → is_acknowledged pending.ack (if i.invalid then acknowledge_invalidation i else i).calls ≡ true
pending-acknowledged i pending v was =
    let invalid : i.invalid ≡ true = ground arith in
    subst
      (λ b. is_acknowledged pending.ack (if b then acknowledge_invalidation i else i).calls ≡ true)
      (sym invalid) (acknowledge-answers i pending was)

-- No invalidation is lost while the store has a policy: after `HandleInvalidation` the one that came is
-- pending or acknowledged, or nothing has changed and a pending one has its version or a higher one;
-- and the one that was pending before is pending or acknowledged.
pub no_invalidation_lost :
    (w : World) (invalidation : Invalidation) (i : Invalidator)
    → w.store.policy ≢ none
    → HasInvalidation i
    → IsServed invalidation i (handle_invalidation w invalidation i)
      × ((pending : Invalidation)
          → i.invalidation ≡ some pending
          → IsAnswered pending (handle_invalidation w invalidation i))
unfolding handle_invalidation
no_invalidation_lost w invalidation i p v =
    let handled =
      not invalidation.is_unknown_version
      && leq_ℤ invalidation.version i.highest_handled_invalidation_version in
    let rest = if i.invalid then acknowledge_invalidation i else i in
    (
      old-IsServed invalidation i _ _ (λ old. ground arith)
          (if_either (IsAnswered invalidation) handled _ _
            (inr (rw (==-refl invalidation.ack) refl))
            (consider_version-answers w invalidation rest p)),
      λ pending was. if_either (IsAnswered pending) _ i _ (inl was) (
          if_either (IsAnswered pending) handled _ _ (inl was) (
            inr (
              consider_version-remembers w invalidation rest pending.ack
                (pending-acknowledged i pending v was)))),
    )
