-- ===== src/Policy/Invalidator/Handling.antt =====
-- browser/policy/cloud/cloud_policy_invalidator.cc: an invalidation from its arrival to its
-- acknowledgement, and the refresh that it posts.
use chromium_log.Prelude.{
  ℕ, ◌+◌, ◌-◌, ◌*◌, ◌/◌, Bool, true, false, ◌&&◌, not, List, [], ◌∷◌, Option, none, some, ltb,
  if◌then◌else◌,
}
use chromium_log.Prelude.Int.{ℤ, pos, negsuc}
use chromium_log.Policy.Invalidator.Defs.{
  missing_payload_delay, unknown_version_ignore_period, max_invalidation_time_delta, second,
  Invalidation, PolicyData, World, Invalidator, acknowledge, refresh_soon, call, check, leq_ℤ,
  is_started, set_client_info, get_invalidation_metric, record_metric,
}

abbrev pub is_empty : List ℕ → Bool
is_empty [] = true
is_empty (_ ∷ _) = false

-- `invalidation_->Acknowledge()`, which wants an invalidation.
abbrev pub acknowledge_pending : Option Invalidation → Invalidator → Invalidator
acknowledge_pending none i = check false i
acknowledge_pending (some invalidation) i = call (acknowledge invalidation.ack) i

-- The last step cancels every posted refresh.
unfoldable pub acknowledge_invalidation : Invalidator → Invalidator
acknowledge_invalidation i =
    let j = set_client_info (pos 0) [] (record (check i.invalid i) { invalid = false }) in
    record (acknowledge_pending i.invalidation j) { invalidation = none; refreshes = [] }

-- A version below 0 is unknown; another is a time in microseconds. A negative elapsed time is below
-- the period too.
unfoldable pub is_expired_at : ℕ → ℤ → ℕ → Bool
is_expired_at now (negsuc _) timestamp =
    ltb ((now - timestamp * 1000) / second) unknown_version_ignore_period
is_expired_at now (pos version) timestamp =
    ltb (version + max_invalidation_time_delta * second) (timestamp * 1000)

-- The state update and the posting of the refresh.
unfoldable pub accept : World → Invalidation → ℤ → List ℕ → Invalidator → Invalidator
accept w invalidation version payload i =
    let j = record i {
      invalid = true;
      invalidation = some invalidation;
      invalidation_version = version;
    } in
    let k = if not (is_empty payload) then set_client_info version payload j else j in
    record k {
      refreshes =
          record {
            is_missing_payload = is_empty payload;
            delay =
                if not (is_empty payload)
                then w.random
                else w.random + missing_payload_delay * 60 * 1000;
          }
          ∷ k.refreshes;
    }

-- From the test for expiry on. The code reads the policy's timestamp without a test for null.
unfoldable pub consider :
    World → Invalidation → ℤ → List ℕ → Option PolicyData → Invalidator → Invalidator
unfolding is_expired_at accept get_invalidation_metric
consider w invalidation version payload none i = check false i
consider w invalidation version payload (some policy) i =
    let is_expired = is_expired_at w.now version policy.timestamp in
    let j = record_metric (get_invalidation_metric (is_empty payload) is_expired) i in
    if is_expired
    then call (acknowledge invalidation.ack) j
    else accept w invalidation version payload j

-- An unknown version is replaced by the next negative number.
unfoldable pub consider_version : World → Invalidation → Invalidator → Invalidator
unfolding consider
consider_version w invalidation i =
    if invalidation.is_unknown_version
    then consider w invalidation (negsuc i.unknown_version_invalidation_count) [] w.store.policy
        (record i { unknown_version_invalidation_count = i.unknown_version_invalidation_count + 1 })
    else consider w invalidation invalidation.version invalidation.payload w.store.policy i

unfoldable pub handle_invalidation : World → Invalidation → Invalidator → Invalidator
unfolding acknowledge_invalidation consider_version
handle_invalidation w invalidation i =
    if i.invalid
      && not invalidation.is_unknown_version
      && leq_ℤ invalidation.version i.invalidation_version
    then i
    else if not invalidation.is_unknown_version
        && leq_ℤ invalidation.version i.highest_handled_invalidation_version
    then call (acknowledge invalidation.ack) i
    else consider_version w invalidation (if i.invalid then acknowledge_invalidation i else i)

-- `OnIncomingInvalidation`: the list comes with the highest version first. All others are
-- acknowledged, from the second highest on; an empty list is NOTREACHED.
abbrev pub acknowledge_all : List Invalidation → Invalidator → Invalidator
acknowledge_all [] i = i
acknowledge_all (invalidation ∷ rest) i =
    acknowledge_all rest (call (acknowledge invalidation.ack) i)

unfoldable pub on_incoming_invalidation : World → List Invalidation → Invalidator → Invalidator
unfolding handle_invalidation
on_incoming_invalidation w [] i = check false (check (is_started i.state) i)
on_incoming_invalidation w (highest ∷ others) i =
    handle_invalidation w highest (acknowledge_all others (check (is_started i.state) i))

-- A posted refresh runs, and is posted no longer.
unfoldable pub refresh_policy : Bool → Invalidator → Invalidator
refresh_policy is_missing_payload i =
    call refresh_soon
      (if is_missing_payload then set_client_info i.invalidation_version [] i else i)
