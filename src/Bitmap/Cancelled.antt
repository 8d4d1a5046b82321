-- ===== src/Bitmap/Cancelled.antt =====
-- bitmap_fetcher_service.cc: the identifiers of requests, and what `CancelRequest` promises.
pub mod Runs
use chromium_log.Prelude.{
  ℕ, suc, ◌+◌, ◌-◌, ◌^◌, ◌%◌, ◌≤◌, ◌<◌, ◌≡◌, ◌≢◌, refl, sym, ap, subst, ◌∙◌, inl, inr, Bool, true,
  false, List, [], ◌∷◌, ◌++◌, Option, none, some, ◌==◌, ltb, not, if◌then◌else◌, length, Bool-cases,
  Option-cases, arith, run,
}
use chromium_log.Bitmap.Service.{
  max_requests, Bitmap, Fetcher, Request, Service, CacheOps, find_fetcher, find_fetcher_for_url,
  take_request, Call, image_changed, destroyed, fetch, decode, call, release, notify_image_changed,
  cancel_request, ensure_fetcher, ensure_fetcher_for_url, notify_attached, remove_fetcher, Event,
  request_image, cancel, prefetch, url_fetched, image_decoded, decode_failed, new_service,
  attach_request, request_found, on_request_image, on_prefetch, put_image, complete,
  on_fetch_complete, report_failure, on_url_fetch_complete, on_image_decoded, of_fetcher, step,
  next_request_id,
}

next_request_id-suc : (current : ℕ) → current + 1 < 2 ^ 32 → next_request_id current ≡ current + 1
unfolding next_request_id
next_request_id-suc current h = ground arith

module _ (id : ℕ) where
  abbrev one : ℕ → ℕ
  one n = if n == id then 1 else 0

  -- How many requests have the identifier.
  abbrev count_id : List Request → ℕ
  count_id [] = 0
  count_id (r ∷ rs) = one r.request_id + count_id rs

  abbrev names_id : Call → ℕ
  names_id (image_changed _ n _) = one n
  names_id _ = 0

  -- How often an observer has heard of an image for the request of that identifier.
  abbrev pub told_id : List Call → ℕ
  told_id [] = 0
  told_id (c ∷ cs) = names_id c + told_id cs

  count_id_snoc :
      (rs : List Request) (r : Request) → count_id (rs ++ r ∷ []) ≡ count_id rs + one r.request_id
  count_id_snoc [] r = omega arith
  count_id_snoc (q ∷ rs) r = omega (arith, count_id_snoc rs r)

  take_request-fewer : (n : ℕ) (rs : List Request) → count_id (take_request n rs).1 ≤ count_id rs
  unfolding take_request
  take_request-fewer n [] = omega arith
  take_request-fewer n (r ∷ rs) =
      let rest = take_request-fewer n rs in
      elim (Bool-cases (r.request_id == n)) [
        | inl e ↦ rw e (omega arith)
        | inr d ↦ rw d (omega (arith, rest))
      ]

  take_request-one_less : (rs : List Request) → count_id (take_request id rs).1 ≡ count_id rs - 1
  unfolding take_request
  take_request-one_less [] = refl
  take_request-one_less (r ∷ rs) =
      let rest = take_request-one_less rs in
      elim (Bool-cases (r.request_id == id)) [
        | inl e ↦ rw e (omega arith)
        | inr d ↦
            let not_this : one r.request_id ≡ 0 = rw d refl in rw d (omega (arith, rest, not_this))
      ]

  module _ {ℓ} {C : Type ℓ} where
    -- From one state to the other: requests may go, a notice takes a request, and so many are new.
    abbrev Effect : ℕ → Service C → Service C → Type 0
    Effect new s t =
        (count_id t.requests + told_id t.calls ≤ new + count_id s.requests + told_id s.calls)
        × (count_id t.requests ≤ new + count_id s.requests)
        × (told_id s.calls ≤ told_id t.calls)

    abbrev Quiet : Service C → Service C → Type 0
    Quiet s t = Effect 0 s t × (t.current_request_id ≡ s.current_request_id)

    notify-Effect :
        (observer n : ℕ) (bitmap : Option Bitmap) (s : Service C)
        → let t = notify_image_changed observer n bitmap s in
          (t.requests ≡ s.requests)
          × (told_id t.calls ≤ one n + told_id s.calls)
          × (told_id s.calls ≤ told_id t.calls)
          × (t.current_request_id ≡ s.current_request_id)
    unfolding notify_image_changed
    notify-Effect observer n none s = (refl, omega arith, omega arith, refl)
    notify-Effect observer n (some bitmap) s = elim (Bool-cases bitmap.is_empty) [
      | inl e ↦ rw e (refl, omega arith, omega arith, refl)
      | inr d ↦ rw d (refl, omega arith, omega arith, refl)
    ]

    notify_attached-Effect :
        (address : ℕ) (bitmap : Option Bitmap) (rs : List Request) (s : Service C)
        → Effect (count_id rs) s (notify_attached address bitmap rs s)
          × ((notify_attached address bitmap rs s).current_request_id ≡ s.current_request_id)
    unfolding notify_attached
    notify_attached-Effect address bitmap [] s = ((omega arith, omega arith, omega arith), refl)
    notify_attached-Effect address bitmap (r ∷ rs) s = elim (Bool-cases (r.fetcher == address)) [
      | inl e ↦
          let told = notify_image_changed r.observer r.request_id bitmap s in
          let tells = notify-Effect r.observer r.request_id bitmap s in
          let rest = notify_attached-Effect address bitmap rs (call (destroyed r.observer) told) in
          let same = ap count_id tells.0 in
          rw e (
            (
              omega (arith, rest, tells, same),
              omega (arith, rest, tells, same),
              omega (arith, rest, tells),
            ),
            omega (arith, rest, tells),
          )
      | inr d ↦
          let rest = notify_attached-Effect address bitmap rs s in
          rw d ((omega (arith, rest), omega (arith, rest), omega (arith, rest)), rest.1)
    ]

    put_image-same :
        (ops : CacheOps C) (url : ℕ) (bitmap : Option Bitmap) (s : Service C)
        → let t = put_image ops url bitmap s in
          (t.requests ≡ s.requests)
          × (t.calls ≡ s.calls)
          × (t.current_request_id ≡ s.current_request_id)
    unfolding put_image
    put_image-same ops url none s = (refl, refl, refl)
    put_image-same ops url (some bitmap) s = ground arith

    on_fetch_complete-Quiet :
        (ops : CacheOps C) (url : ℕ) (bitmap : Option Bitmap) (s : Service C)
        → Quiet s (on_fetch_complete ops url bitmap s)
    unfolding on_fetch_complete complete remove_fetcher
    on_fetch_complete-Quiet ops url bitmap s =
        elim (Option-cases (find_fetcher_for_url url s.active_fetchers)) [
          | inl e ↦ rw e ((omega arith, omega arith, omega arith), refl)
          | inr (f, e) ↦
              let t = notify_attached f.address bitmap s.requests (record s { requests = [] }) in
              let rest =
                notify_attached-Effect f.address bitmap s.requests (record s { requests = [] }) in
              let same = put_image-same ops f.url bitmap t in
              rw (e, same.0, same.1, same.2)
                ((omega (arith, rest), omega (arith, rest), omega (arith, rest)), rest.1)
        ]

    cancel_request-Quiet : (n : ℕ) (s : Service C) → Quiet s (cancel_request n s)
    unfolding cancel_request
    cancel_request-Quiet n s =
        let rest = take_request-fewer n s.requests in
        elim (Option-cases (take_request n s.requests).0) [
          | inl e ↦ rw e ((omega (arith, rest), omega (arith, rest), omega arith), refl)
          | inr (r, e) ↦ rw e ((omega (arith, rest), omega (arith, rest), omega arith), refl)
        ]

    cancel_request-gone :
        (s : Service C)
        → (count_id (cancel_request id s).requests ≡ count_id s.requests - 1)
          × (told_id (cancel_request id s).calls ≡ told_id s.calls)
          × ((cancel_request id s).current_request_id ≡ s.current_request_id)
    unfolding cancel_request
    cancel_request-gone s =
        let rest = take_request-one_less s.requests in
        elim (Option-cases (take_request id s.requests).0) [
          | inl e ↦ rw e (rest, refl, refl)
          | inr (r, e) ↦ rw e (rest, omega arith, refl)
        ]

    ensure_fetcher-Quiet :
        (url address : ℕ) (found : Option Fetcher) (s : Service C)
        → let t = (ensure_fetcher url address found s).1 in
          (t.requests ≡ s.requests)
          × (told_id t.calls ≡ told_id s.calls)
          × (t.current_request_id ≡ s.current_request_id)
    unfolding ensure_fetcher
    ensure_fetcher-Quiet url address none s = (refl, omega arith, refl)
    ensure_fetcher-Quiet url address (some f) s = (refl, refl, refl)

    request_found-Effect :
        (n url observer address : ℕ) (found : Option Bitmap) (s : Service C)
        → Effect (one n) s (request_found n url observer address found s).1
          × ((request_found n url observer address found s).1.current_request_id
              ≡ s.current_request_id)
    unfolding request_found attach_request ensure_fetcher_for_url
    request_found-Effect n url observer address (some bitmap) s =
        let tells = notify-Effect observer n (some bitmap) s in
        let same = ap count_id tells.0 in
        ((omega (arith, tells, same), omega (arith, tells, same), omega (arith, tells)), tells.3)
    request_found-Effect n url observer address none s =
        let found = find_fetcher_for_url url s.active_fetchers in
        let quiet = ensure_fetcher-Quiet url address found s in
        let same = ap count_id quiet.0 in
        let last : Request = record {
          request_id = n;
          observer = observer;
          fetcher = (ensure_fetcher url address found s).0;
        } in
        let owned = count_id_snoc (ensure_fetcher url address found s).1.requests last in
        elim (Bool-cases (ltb max_requests (length s.requests))) [
          | inl full ↦ rw full ((omega arith, omega arith, omega arith), refl)
          | inr room ↦ rw room (
            (
              omega (arith, quiet, same, owned),
              omega (arith, quiet, same, owned),
              omega (arith, quiet),
            ),
            quiet.2,
          )
        ]

    of_fetcher-Quiet :
        (act : Fetcher → Service C → Service C) (found : Option Fetcher) (s : Service C)
        → ((f : Fetcher) → Quiet s (act f s))
        → Quiet s (of_fetcher act found s)
    of_fetcher-Quiet act none s h = ((omega arith, omega arith, omega arith), refl)
    of_fetcher-Quiet act (some f) s h = h f
