-- ===== src/Bitmap/Observers.antt =====
-- bitmap_fetcher_service.cc: who owns an observer, and how often it hears of an image.
use chromium_log.Prelude.{
  ℕ, ◌+◌, ◌≤◌, ◌≡◌, refl, ap, inl, inr, Bool, true, false, List, [], ◌∷◌, ◌++◌, Option, none, some,
  ◌==◌, ltb, if◌then◌else◌, length, Bool-cases, Option-cases, arith, run,
}
use chromium_log.Bitmap.Service.{
  max_requests, Bitmap, Fetcher, Request, Service, CacheOps, find_fetcher, find_fetcher_for_url,
  take_request, Call, image_changed, destroyed, call, notify_image_changed, cancel_request,
  ensure_fetcher, ensure_fetcher_for_url, notify_attached, remove_fetcher, Event, request_image,
  cancel, prefetch, url_fetched, image_decoded, decode_failed, new_service, attach_request,
  request_found, on_request_image, on_prefetch, put_image, complete, on_fetch_complete,
  report_failure, on_url_fetch_complete, on_image_decoded, of_fetcher, step,
}

module _ (k : ℕ) where
  abbrev one : ℕ → ℕ
  one observer = if observer == k then 1 else 0

  -- The requests that own the observer.
  abbrev pub count_waiting : List Request → ℕ
  count_waiting [] = 0
  count_waiting (r ∷ rs) = one r.observer + count_waiting rs

  abbrev is_destroyed : Call → ℕ
  is_destroyed (destroyed observer) = one observer
  is_destroyed _ = 0

  abbrev is_told : Call → ℕ
  is_told (image_changed observer _ _) = one observer
  is_told _ = 0

  abbrev pub count_destroyed : List Call → ℕ
  count_destroyed [] = 0
  count_destroyed (c ∷ cs) = is_destroyed c + count_destroyed cs

  -- How often the observer has heard of an image.
  abbrev pub count_told : List Call → ℕ
  count_told [] = 0
  count_told (c ∷ cs) = is_told c + count_told cs

  abbrev is_given : Event → ℕ
  is_given (request_image url observer address) = one observer
  is_given _ = 0

  -- How often callers have handed the observer over.
  abbrev pub count_given : List Event → ℕ
  count_given [] = 0
  count_given (e ∷ es) = is_given e + count_given es

  count_waiting_snoc :
      (rs : List Request) (r : Request)
      → count_waiting (rs ++ r ∷ []) ≡ count_waiting rs + one r.observer
  count_waiting_snoc [] r = omega arith
  count_waiting_snoc (q ∷ rs) r = omega (arith, count_waiting_snoc rs r)

  abbrev found_waiting : Option Request → ℕ
  found_waiting none = 0
  found_waiting (some r) = one r.observer

  take_request-count :
      (id : ℕ) (rs : List Request)
      → count_waiting rs
        ≡ found_waiting (take_request id rs).0 + count_waiting (take_request id rs).1
  unfolding take_request
  take_request-count id [] = refl
  take_request-count id (r ∷ rs) =
      let rest = take_request-count id rs in
      elim (Bool-cases (r.request_id == id)) [
        | inl e ↦ rw e (omega arith)
        | inr d ↦ rw d (omega (arith, rest))
      ]

  module _ {ℓ} {C : Type ℓ} where
    -- From one state to the other so many more are owned or destroyed, and for each notice one is
    -- destroyed.
    abbrev Accounts : ℕ → Service C → Service C → Type 0
    Accounts n s t =
        (count_waiting t.requests + count_destroyed t.calls
          ≡ n + count_waiting s.requests + count_destroyed s.calls)
        × (count_told t.calls + count_destroyed s.calls
            ≤ count_told s.calls + count_destroyed t.calls)

    -- Without one that is destroyed.
    abbrev Tells : ℕ → Service C → Service C → Type 0
    Tells observer s t =
        (t.requests ≡ s.requests)
        × (count_destroyed t.calls ≡ count_destroyed s.calls)
        × (count_told t.calls ≤ one observer + count_told s.calls)

    notify-Tells :
        (observer id : ℕ) (bitmap : Option Bitmap) (s : Service C)
        → Tells observer s (notify_image_changed observer id bitmap s)
    unfolding notify_image_changed
    notify-Tells observer id none s = (refl, refl, omega arith)
    notify-Tells observer id (some bitmap) s = elim (Bool-cases bitmap.is_empty) [
      | inl e ↦ rw e (refl, refl, omega arith)
      | inr d ↦ rw d (refl, omega arith, omega arith)
    ]

    notify_attached-Accounts :
        (address : ℕ) (bitmap : Option Bitmap) (rs : List Request) (s : Service C)
        → Accounts (count_waiting rs) s (notify_attached address bitmap rs s)
    unfolding notify_attached
    notify_attached-Accounts address bitmap [] s = (omega arith, omega arith)
    notify_attached-Accounts address bitmap (r ∷ rs) s = elim (Bool-cases (r.fetcher == address)) [
      | inl e ↦
          let told = notify_image_changed r.observer r.request_id bitmap s in
          let tells = notify-Tells r.observer r.request_id bitmap s in
          let rest =
            notify_attached-Accounts address bitmap rs (call (destroyed r.observer) told) in
          rw e (omega (arith, rest, tells, ap count_waiting tells.0), omega (arith, rest, tells))
      | inr d ↦
          let rest = notify_attached-Accounts address bitmap rs s in
          rw d (omega (arith, rest), omega (arith, rest))
    ]

    put_image-same :
        (ops : CacheOps C) (url : ℕ) (bitmap : Option Bitmap) (s : Service C)
        → ((put_image ops url bitmap s).requests ≡ s.requests)
          × ((put_image ops url bitmap s).calls ≡ s.calls)
    unfolding put_image
    put_image-same ops url none s = (refl, refl)
    put_image-same ops url (some bitmap) s = ground arith

    on_fetch_complete-Accounts :
        (ops : CacheOps C) (url : ℕ) (bitmap : Option Bitmap) (s : Service C)
        → Accounts 0 s (on_fetch_complete ops url bitmap s)
    unfolding on_fetch_complete complete remove_fetcher
    on_fetch_complete-Accounts ops url bitmap s =
        elim (Option-cases (find_fetcher_for_url url s.active_fetchers)) [
          | inl e ↦ rw e (omega arith, omega arith)
          | inr (f, e) ↦
              let t = notify_attached f.address bitmap s.requests (record s { requests = [] }) in
              let rest =
                notify_attached-Accounts f.address bitmap s.requests (record s { requests = [] }) in
              let same = put_image-same ops f.url bitmap t in
              rw (e, same.0, same.1) (omega (arith, rest), omega (arith, rest))
        ]

    cancel_request-Accounts : (id : ℕ) (s : Service C) → Accounts 0 s (cancel_request id s)
    unfolding cancel_request
    cancel_request-Accounts id s =
        let rest = take_request-count id s.requests in
        elim (Option-cases (take_request id s.requests).0) [
          | inl e ↦ rw e (omega (arith, rest, ap found_waiting e), omega arith)
          | inr (r, e) ↦ rw e (omega (arith, rest, ap found_waiting e), omega arith)
        ]

    ensure_fetcher-Tells :
        (url address : ℕ) (found : Option Fetcher) (s : Service C)
        → let t = (ensure_fetcher url address found s).1 in
          (t.requests ≡ s.requests)
          × (count_destroyed t.calls ≡ count_destroyed s.calls)
          × (count_told t.calls ≡ count_told s.calls)
    unfolding ensure_fetcher
    ensure_fetcher-Tells url address none s = (refl, omega arith, omega arith)
    ensure_fetcher-Tells url address (some f) s = (refl, refl, refl)

    request_found-Accounts :
        (id url observer address : ℕ) (found : Option Bitmap) (s : Service C)
        → Accounts (one observer) s (request_found id url observer address found s).1
    unfolding request_found attach_request ensure_fetcher_for_url
    request_found-Accounts id url observer address (some bitmap) s =
        let tells = notify-Tells observer id (some bitmap) s in
        (omega (arith, tells, ap count_waiting tells.0), omega (arith, tells))
    request_found-Accounts id url observer address none s =
        let found = find_fetcher_for_url url s.active_fetchers in
        let tells = ensure_fetcher-Tells url address found s in
        let last : Request = record {
          request_id = id;
          observer = observer;
          fetcher = (ensure_fetcher url address found s).0;
        } in
        let owned = count_waiting_snoc (ensure_fetcher url address found s).1.requests last in
        elim (Bool-cases (ltb max_requests (length s.requests))) [
          | inl full ↦ rw full (omega arith, omega arith)
          | inr room ↦
              rw room (omega (arith, tells, ap count_waiting tells.0, owned), omega (arith, tells))
        ]

    of_fetcher-Accounts :
        (act : Fetcher → Service C → Service C) (found : Option Fetcher) (s : Service C)
        → ((f : Fetcher) → Accounts 0 s (act f s))
        → Accounts 0 s (of_fetcher act found s)
    of_fetcher-Accounts act none s h = (omega arith, omega arith)
    of_fetcher-Accounts act (some f) s h = h f

    module _ (ops : CacheOps C) (is_valid : ℕ → Bool) where
      on_request_image-Accounts :
          (url observer address : ℕ) (s : Service C)
          → Accounts (one observer) s (on_request_image ops is_valid url observer address s).1
      unfolding on_request_image
      on_request_image-Accounts url observer address s = elim (Bool-cases (is_valid url)) [
        | inl v ↦ rw v (request_found-Accounts _ url observer address _ _)
        | inr v ↦ rw v (omega arith, omega arith)
      ]

      step-Accounts : (s : Service C) (e : Event) → Accounts (is_given e) s (step ops is_valid s e)
      unfolding step on_prefetch ensure_fetcher_for_url on_url_fetch_complete on_image_decoded
          report_failure
      step-Accounts s (request_image url observer address) =
          on_request_image-Accounts url observer address s
      step-Accounts s (cancel id) = cancel_request-Accounts id s
      step-Accounts s (prefetch url address) =
          let tells =
            ensure_fetcher-Tells url address (find_fetcher_for_url url s.active_fetchers) s in
          elim (Bool-cases (is_valid url)) [
            | inl v ↦ rw v (omega (arith, tells, ap count_waiting tells.0), omega (arith, tells))
            | inr v ↦ rw v (omega arith, omega arith)
          ]
      step-Accounts s (url_fetched address true) =
          of_fetcher-Accounts (on_url_fetch_complete ops true)
            (find_fetcher address s.active_fetchers) s (λ f. (omega arith, omega arith))
      step-Accounts s (url_fetched address false) =
          of_fetcher-Accounts (on_url_fetch_complete ops false)
            (find_fetcher address s.active_fetchers) s
            (λ f. on_fetch_complete-Accounts ops f.url none s)
      step-Accounts s (image_decoded address bitmap) =
          of_fetcher-Accounts (on_image_decoded ops bitmap) (find_fetcher address s.active_fetchers)
            s (λ f. on_fetch_complete-Accounts ops f.url (some bitmap) s)
      step-Accounts s (decode_failed address) =
          of_fetcher-Accounts (report_failure ops) (find_fetcher address s.active_fetchers) s
            (λ f. on_fetch_complete-Accounts ops f.url none s)

      run-Accounts :
          (s : Service C) (events : List Event)
          → Accounts (count_given events) s (run (step ops is_valid) s events)
      unfolding run
      run-Accounts s [] = (omega arith, omega arith)
      run-Accounts s (e ∷ es) =
          let first = step-Accounts s e in
          let rest = run-Accounts (step ops is_valid s e) es in
          (omega (arith, first, rest), omega (arith, first, rest))

-- Every observer that is handed over to the service is owned by one waiting request or has been
-- destroyed, each as often as it was handed over; and it hears of an image at most once before it is
-- destroyed, so at most as often as that.
pub observers_owned {ℓ} :
    {C : Type ℓ} (ops : CacheOps C) (is_valid : ℕ → Bool) (k : ℕ) (events : List Event)
    → let s = run (step ops is_valid) (new_service ops) events in
      (count_waiting k s.requests + count_destroyed k s.calls ≡ count_given k events)
      × (count_told k s.calls ≤ count_destroyed k s.calls)
observers_owned ops is_valid k events =
    let all = run-Accounts k ops is_valid (new_service ops) events in
    (omega (arith, all), omega (arith, all))
