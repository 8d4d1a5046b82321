-- ===== src/Policy/Invalidator/Settled.antt =====
-- What holds of an invalidator between two events: its invalidation, its refresh and its registration.
use chromium_log.Prelude.{
  ℕ, ◌+◌, ◌≤◌, ◌≡◌, ◌≢◌, ◌⊎◌, inl, inr, refl, Bool, true, false, ◌&&◌, List, [], ◌∷◌, Option, none,
  some, length, arith, Bool-cases,
}
use chromium_log.Prelude.Int.{ℤ, pos, negsuc}
use chromium_log.Policy.Invalidator.Defs.{
  started, shut_down, Invalidation, PolicyData, World, Invalidator, Metric, record_metric,
  acknowledge, call, check, get_invalidation_metric, max_fetch_delay_min, max_fetch_delay_max,
  is_started,
}
use chromium_log.Policy.Invalidator.Handling.{
  acknowledge_invalidation, accept, consider, consider_version, handle_invalidation,
  acknowledge_all, on_incoming_invalidation, is_empty, is_expired_at,
}

abbrev pub is_pending : Option Invalidation → Bool
is_pending none = false
is_pending (some _) = true

-- An invalidation is kept exactly while the policy is invalid, at most one refresh is posted and none
-- while the policy is valid, and the client was told no version but that of the invalidation.
pub record HasInvalidation (i : Invalidator) : Type 0 where
  pub kept : i.invalid ≡ is_pending i.invalidation
  pub one_refresh : length i.refreshes ≤ 1
  pub no_refresh : i.invalid ≡ false → i.refreshes ≡ []
  pub told : (i.client_version ≡ pos 0) ⊎ (i.client_version ≡ i.invalidation_version)
  pub told_nothing : i.invalid ≡ false → i.client_version ≡ pos 0
  pub delay_min : max_fetch_delay_min ≤ i.max_fetch_delay
  pub delay_max : i.max_fetch_delay ≤ max_fetch_delay_max
  pub checked : i.sound ≡ true

-- Invalidations are enabled exactly while the service is and the invalidator is registered with it; it
-- registers only once started; and the policy is invalid only while it is registered.
pub record HasRegistration (i : Invalidator) : Type 0 where
  pub enabled : i.invalidations_enabled ≡ (i.invalidation_service_enabled && i.is_registered)
  pub started_first : i.is_registered ≡ true → (i.state ≡ started) ⊎ (i.state ≡ shut_down)
  pub invalid_registered : i.invalid ≡ true → i.is_registered ≡ true

-- The fields that the registration looks at are the same.
pub record SameRegistration (i j : Invalidator) : Type 0 where
  pub same_state : j.state ≡ i.state
  pub same_enabled : j.invalidations_enabled ≡ i.invalidations_enabled
  pub same_service : j.invalidation_service_enabled ≡ i.invalidation_service_enabled
  pub same_registered : j.is_registered ≡ i.is_registered

pub acknowledge-HasInvalidation :
    (i : Invalidator)
    → i.invalid ≡ true
    → HasInvalidation i
    → HasInvalidation (acknowledge_invalidation i)
unfolding acknowledge_invalidation
acknowledge-HasInvalidation i h v = ground arith

pub acknowledge-keeps :
    (i : Invalidator)
    → SameRegistration i (acknowledge_invalidation i)
      × ((acknowledge_invalidation i).invalid ≡ false)
unfolding acknowledge_invalidation
acknowledge-keeps i = ground arith

accept-HasInvalidation :
    (w : World) (invalidation : Invalidation) (version : ℤ) (payload : List ℕ) (i : Invalidator)
    → i.invalid ≡ false
    → HasInvalidation i
    → HasInvalidation (accept w invalidation version payload i)
unfolding accept
accept-HasInvalidation w invalidation version payload i h v = ground arith

accept-keeps :
    (w : World) (invalidation : Invalidation) (version : ℤ) (payload : List ℕ) (i : Invalidator)
    → SameRegistration i (accept w invalidation version payload i)
unfolding accept
accept-keeps w invalidation version payload i = ground arith

pub record_metric-HasInvalidation :
    (m : Metric) (i : Invalidator) → HasInvalidation i → HasInvalidation (record_metric m i)
record_metric-HasInvalidation m i v = ground arith

pub record_metric-same :
    (m : Metric) (i : Invalidator)
    → SameRegistration i (record_metric m i) × ((record_metric m i).invalid ≡ i.invalid)
record_metric-same m i = ground arith

consider-HasInvalidation :
    (w : World) (invalidation : Invalidation) (version : ℤ) (payload : List ℕ)
    (policy : Option PolicyData) (i : Invalidator)
    → policy ≢ none
    → i.invalid ≡ false
    → HasInvalidation i
    → HasInvalidation (consider w invalidation version payload policy i)
unfolding consider
consider-HasInvalidation w invalidation version payload none i p h v = absurd (p refl)
consider-HasInvalidation w invalidation version payload (some policy) i p h v =
    let m =
      get_invalidation_metric (is_empty payload) (is_expired_at w.now version policy.timestamp) in
    let recorded = record_metric-HasInvalidation m i v in
    let same = record_metric-same m i in
    let accepted =
      accept-HasInvalidation w invalidation version payload (record_metric m i) (ground arith)
        recorded in
    ground arith

consider-keeps :
    (w : World) (invalidation : Invalidation) (version : ℤ) (payload : List ℕ)
    (policy : Option PolicyData) (i : Invalidator)
    → SameRegistration i (consider w invalidation version payload policy i)
unfolding consider
consider-keeps w invalidation version payload none i = ground arith
consider-keeps w invalidation version payload (some policy) i =
    let m =
      get_invalidation_metric (is_empty payload) (is_expired_at w.now version policy.timestamp) in
    let same = record_metric-same m i in
    let accepted = accept-keeps w invalidation version payload (record_metric m i) in ground arith

consider_version-HasInvalidation :
    (w : World) (invalidation : Invalidation) (i : Invalidator)
    → w.store.policy ≢ none
    → i.invalid ≡ false
    → HasInvalidation i
    → HasInvalidation (consider_version w invalidation i)
unfolding consider_version
consider_version-HasInvalidation w invalidation i p h v =
    let counted = record i {
      unknown_version_invalidation_count = i.unknown_version_invalidation_count + 1;
    } in
    let unknown =
      consider-HasInvalidation w invalidation (negsuc i.unknown_version_invalidation_count) []
        w.store.policy counted p h (ground arith) in
    let known =
      consider-HasInvalidation w invalidation invalidation.version invalidation.payload
        w.store.policy i p h v in
    ground arith

consider_version-keeps :
    (w : World) (invalidation : Invalidation) (i : Invalidator)
    → SameRegistration i (consider_version w invalidation i)
unfolding consider_version
consider_version-keeps w invalidation i =
    let counted = record i {
      unknown_version_invalidation_count = i.unknown_version_invalidation_count + 1;
    } in
    let unknown =
      consider-keeps w invalidation (negsuc i.unknown_version_invalidation_count) [] w.store.policy
        counted in
    let known =
      consider-keeps w invalidation invalidation.version invalidation.payload w.store.policy i in
    ground arith

handle_invalidation-HasInvalidation :
    (w : World) (invalidation : Invalidation) (i : Invalidator)
    → w.store.policy ≢ none
    → HasInvalidation i
    → HasInvalidation (handle_invalidation w invalidation i)
unfolding handle_invalidation
handle_invalidation-HasInvalidation w invalidation i p v = elim (Bool-cases i.invalid) [
  | inr valid ↦
      let considered = consider_version-HasInvalidation w invalidation i p valid v in ground arith
  | inl pending ↦
      let gone = acknowledge-keeps i in
      let considered =
        consider_version-HasInvalidation w invalidation (acknowledge_invalidation i) p gone.1
          (acknowledge-HasInvalidation i pending v) in
      ground arith
]

handle_invalidation-keeps :
    (w : World) (invalidation : Invalidation) (i : Invalidator)
    → SameRegistration i (handle_invalidation w invalidation i)
unfolding handle_invalidation
handle_invalidation-keeps w invalidation i =
    let gone = acknowledge-keeps i in
    let after = consider_version-keeps w invalidation (acknowledge_invalidation i) in
    let considered = consider_version-keeps w invalidation i in ground arith

acknowledge_all-HasInvalidation :
    (invalidations : List Invalidation) (i : Invalidator)
    → HasInvalidation i
    → HasInvalidation (acknowledge_all invalidations i)
acknowledge_all-HasInvalidation [] i v = v
acknowledge_all-HasInvalidation (invalidation ∷ rest) i v =
    acknowledge_all-HasInvalidation rest (call (acknowledge invalidation.ack) i) (ground arith)

acknowledge_all-keeps :
    (invalidations : List Invalidation) (i : Invalidator)
    → SameRegistration i (acknowledge_all invalidations i)
acknowledge_all-keeps [] i = ground arith
acknowledge_all-keeps (invalidation ∷ rest) i =
    let tail = acknowledge_all-keeps rest (call (acknowledge invalidation.ack) i) in ground arith

pub on_incoming_invalidation-HasInvalidation :
    (w : World) (highest : Invalidation) (others : List Invalidation) (i : Invalidator)
    → w.store.policy ≢ none
    → i.state ≡ started
    → HasInvalidation i
    → HasInvalidation (on_incoming_invalidation w (highest ∷ others) i)
unfolding on_incoming_invalidation
on_incoming_invalidation-HasInvalidation w highest others i p s v =
    handle_invalidation-HasInvalidation w highest
      (acknowledge_all others (check (is_started i.state) i)) p
      (acknowledge_all-HasInvalidation others (check (is_started i.state) i) (ground arith))

pub on_incoming_invalidation-keeps :
    (w : World) (highest : Invalidation) (others : List Invalidation) (i : Invalidator)
    → SameRegistration i (on_incoming_invalidation w (highest ∷ others) i)
unfolding on_incoming_invalidation
on_incoming_invalidation-keeps w highest others i =
    let checked = check (is_started i.state) i in
    let acknowledged = acknowledge_all-keeps others checked in
    let handled = handle_invalidation-keeps w highest (acknowledge_all others checked) in
    ground arith
