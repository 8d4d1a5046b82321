-- ===== src/Bitmap/Sound/Runs.antt =====
-- bitmap_fetcher_service.cc: what holds of the service after every history.
use chromium_log.Prelude.{
  ℕ, ◌+◌, ◌≤◌, ◌≡◌, refl, ap, ◌∙◌, inl, inr, Bool, true, false, ◌&&◌, List, [], ◌∷◌, ◌++◌,
  append-nil, Option, none, some, ◌==◌, ltb, if◌then◌else◌, length, length-append, All, Bool-cases,
  Option-cases, arith, run, run_inv, Possible,
}
use chromium_log.Bitmap.Service.{
  max_requests, Bitmap, Fetcher, Request, Service, CacheOps, find_fetcher, find_fetcher_for_url,
  without_fetcher, take_request, call, release, notify_image_changed, cancel_request, image_changed,
  destroyed, ensure_fetcher, ensure_fetcher_for_url, notify_attached, remove_fetcher, Event,
  request_image, cancel, prefetch, url_fetched, image_decoded, decode_failed, new_service,
  attach_request, request_found, on_request_image, on_prefetch, put_image, complete,
  on_fetch_complete, report_failure, on_url_fetch_complete, on_image_decoded, of_fetcher, step,
}
use chromium_log.Bitmap.Sound.{
  is_active, Apart, All-append, All-map, Apart-append, find_none-Fresh, find_url-is_active,
  is_active-append, is_active-last, is_active-without, All-without, Apart-without, find_own,
}

-- The request's fetcher is active.
abbrev pub Attached : List Fetcher → Request → Type 0
Attached fs r = is_active r.fetcher fs ≡ true

-- The requests that do not wait for the fetcher at the address.
abbrev pub others : ℕ → List Request → List Request
others address [] = []
others address (r ∷ rs) = if r.fetcher == address then others address rs else r ∷ others address rs

pub record Sound (is_valid : ℕ → Bool) (fs : List Fetcher) (rs : List Request) (checked : Bool)
    : Type 0 where
  pub attached : All (Attached fs) rs
  pub apart : Apart fs
  pub valid : All (λ f. is_valid f.url ≡ true) fs
  pub limited : length rs ≤ max_requests + 1
  pub checks_hold : checked ≡ true

take_request-All :
    (P : Request → Type 0) (id : ℕ) (rs : List Request)
    → All P rs
    → All P (take_request id rs).1 × (length (take_request id rs).1 ≤ length rs)
unfolding take_request
take_request-All P id [] h = (tt, omega arith)
take_request-All P id (r ∷ rs) h =
    let rest = take_request-All P id rs h.1 in
    elim (Bool-cases (r.request_id == id)) [
      | inl e ↦ rw e (h.1, omega arith)
      | inr d ↦ rw d ((h.0, rest.0), omega arith)
    ]

others-Attached :
    (address : ℕ) (fs : List Fetcher) (rs : List Request)
    → All (Attached fs) rs
    → All (Attached (without_fetcher address fs)) (others address rs)
      × (length (others address rs) ≤ length rs)
others-Attached address fs [] h = (tt, omega arith)
others-Attached address fs (r ∷ rs) h =
    let rest = others-Attached address fs rs h.1 in
    elim (Bool-cases (r.fetcher == address)) [
      | inl e ↦ rw e (rest.0, omega arith)
      | inr d ↦
          rw d ((is_active-without r.fetcher address fs (ground arith) h.0, rest.0), omega arith)
    ]

Sound-remove :
    (is_valid : ℕ → Bool) (address : ℕ) (fs : List Fetcher) (rs : List Request) (checked : Bool)
    → Sound is_valid fs rs checked
    → Sound is_valid (without_fetcher address fs) (others address rs) checked
Sound-remove is_valid address fs rs checked h =
    let rest = others-Attached address fs rs h.attached in
    record {
      attached = rest.0;
      apart = Apart-without address fs h.apart;
      valid = All-without _ address fs h.valid;
      limited = omega (arith, rest.1, h.limited);
      checks_hold = h.checks_hold;
    }

module _ {ℓ} {C : Type ℓ} where
  notify-parts :
      (observer id : ℕ) (bitmap : Option Bitmap) (s : Service C)
      → ((notify_image_changed observer id bitmap s).active_fetchers ≡ s.active_fetchers)
        × ((notify_image_changed observer id bitmap s).requests ≡ s.requests)
        × ((notify_image_changed observer id bitmap s).dchecks ≡ s.dchecks)
  unfolding notify_image_changed
  notify-parts observer id none s = (refl, refl, refl)
  notify-parts observer id (some bitmap) s = ground arith

  pub notify_attached-parts :
      (address : ℕ) (bitmap : Option Bitmap) (rs : List Request) (s : Service C)
      → ((notify_attached address bitmap rs s).active_fetchers ≡ s.active_fetchers)
        × ((notify_attached address bitmap rs s).requests ≡ others address rs ++ s.requests)
        × ((notify_attached address bitmap rs s).dchecks ≡ s.dchecks)
  unfolding notify_attached
  notify_attached-parts address bitmap [] s = (refl, refl, refl)
  notify_attached-parts address bitmap (r ∷ rs) s = elim (Bool-cases (r.fetcher == address)) [
    | inl e ↦
        let told =
          call (destroyed r.observer) (notify_image_changed r.observer r.request_id bitmap s) in
        let rest = notify_attached-parts address bitmap rs told in
        let parts = notify-parts r.observer r.request_id bitmap s in
        rw e (rest.0 ∙ parts.0, rest.1 ∙ ap (λ q. others address rs ++ q) parts.1, rest.2 ∙ parts.2)
    | inr d ↦
        let rest = notify_attached-parts address bitmap rs s in
        rw d (rest.0, ap (λ q. r ∷ q) rest.1, rest.2)
  ]

  put_image-parts :
      (ops : CacheOps C) (url : ℕ) (bitmap : Option Bitmap) (s : Service C)
      → ((put_image ops url bitmap s).active_fetchers ≡ s.active_fetchers)
        × ((put_image ops url bitmap s).requests ≡ s.requests)
        × ((put_image ops url bitmap s).dchecks ≡ s.dchecks)
  unfolding put_image
  put_image-parts ops url none s = (refl, refl, refl)
  put_image-parts ops url (some bitmap) s = ground arith

  pub complete-parts :
      (ops : CacheOps C) (bitmap : Option Bitmap) (f : Fetcher) (s : Service C)
      → let t = complete ops bitmap (some f) s in
        (t.active_fetchers ≡ without_fetcher f.address s.active_fetchers)
        × (t.requests ≡ others f.address s.requests)
        × (t.dchecks ≡ is_active f.address s.active_fetchers && s.dchecks)
  unfolding complete remove_fetcher
  complete-parts ops bitmap f s =
      let told = notify_attached f.address bitmap s.requests (record s { requests = [] }) in
      let first = notify_attached-parts f.address bitmap s.requests (record s { requests = [] }) in
      let then_put = put_image-parts ops f.url bitmap told in
      let active = then_put.0 ∙ first.0 in
      (
        ap (without_fetcher f.address) active,
        then_put.1 ∙ first.1 ∙ append-nil (others f.address s.requests),
        rw (active, then_put.2, first.2) refl,
      )

module _ {ℓ} {C : Type ℓ} (ops : CacheOps C) (is_valid : ℕ → Bool) where
  abbrev pub IsSound : Service C → Type 0
  IsSound s = Sound is_valid s.active_fetchers s.requests s.dchecks

  -- The allocator gives an address that is free, and only a live fetcher calls.
  abbrev pub CanHappen : Service C → Event → Type 0
  CanHappen s (request_image url observer address) = find_fetcher address s.active_fetchers ≡ none
  CanHappen s (cancel id) = Unit
  CanHappen s (prefetch url address) = find_fetcher address s.active_fetchers ≡ none
  CanHappen s (url_fetched address success) = is_active address s.active_fetchers ≡ true
  CanHappen s (image_decoded address bitmap) = is_active address s.active_fetchers ≡ true
  CanHappen s (decode_failed address) = is_active address s.active_fetchers ≡ true

  IsSound-if : (b : Bool) (s t : Service C) → IsSound s → IsSound t → IsSound (if b then s else t)
  IsSound-if true s t h k = h
  IsSound-if false s t h k = k

  notify-IsSound :
      (observer id : ℕ) (bitmap : Option Bitmap) (s : Service C)
      → IsSound s
      → IsSound (notify_image_changed observer id bitmap s)
  unfolding notify_image_changed
  notify-IsSound observer id none s h = h
  notify-IsSound observer id (some bitmap) s h =
      IsSound-if bitmap.is_empty s (call (image_changed observer id bitmap) s) h h

  release-IsSound : (found : Option Request) (s : Service C) → IsSound s → IsSound (release found s)
  release-IsSound none s h = h
  release-IsSound (some r) s h = h

  cancel_request-IsSound : (id : ℕ) (s : Service C) → IsSound s → IsSound (cancel_request id s)
  unfolding cancel_request
  cancel_request-IsSound id s h =
      let rest = take_request-All (Attached s.active_fetchers) id s.requests h.attached in
      release-IsSound (take_request id s.requests).0
        (record s { requests = (take_request id s.requests).1 })
        (record {
          attached = rest.0;
          apart = h.apart;
          valid = h.valid;
          limited = omega (arith, rest.1, h.limited);
          checks_hold = h.checks_hold;
        })

  -- The fetcher that is made or found is active, and the requests stay.
  abbrev Ensured : Service C → ℕ × Service C → Type 0
  Ensured s (fetcher, t) =
      IsSound t × (is_active fetcher t.active_fetchers ≡ true) × (t.requests ≡ s.requests)

  ensure_fetcher-Ensured :
      (url address : ℕ) (found : Option Fetcher) (s : Service C)
      → find_fetcher_for_url url s.active_fetchers ≡ found
      → find_fetcher address s.active_fetchers ≡ none
      → is_valid url ≡ true
      → IsSound s
      → Ensured s (ensure_fetcher url address found s)
  unfolding ensure_fetcher
  ensure_fetcher-Ensured url address (some f) s e free v h =
      (h, find_url-is_active url f s.active_fetchers e, refl)
  ensure_fetcher-Ensured url address none s e free v h =
      let f : Fetcher = record { address = address; url = url } in
      (
        record {
          attached =
              All-map (Attached s.active_fetchers) _ s.requests
                (λ r a. is_active-append r.fetcher s.active_fetchers f a) h.attached;
          apart =
              Apart-append s.active_fetchers f h.apart (find_none-Fresh f s.active_fetchers e free);
          valid = All-append _ s.active_fetchers f h.valid v;
          limited = h.limited;
          checks_hold = h.checks_hold;
        },
        is_active-last s.active_fetchers f,
        refl,
      )

  attach_request-IsSound :
      (id url observer address : ℕ) (s : Service C)
      → find_fetcher address s.active_fetchers ≡ none
      → is_valid url ≡ true
      → length s.requests ≤ max_requests
      → IsSound s
      → IsSound (attach_request id url observer address s).1
  unfolding attach_request ensure_fetcher_for_url
  attach_request-IsSound id url observer address s free v l h =
      let made =
        ensure_fetcher-Ensured url address (find_fetcher_for_url url s.active_fetchers) s refl free
          v h in
      let t = (ensure_fetcher url address (find_fetcher_for_url url s.active_fetchers) s).1 in
      record {
        attached = All-append (Attached t.active_fetchers) t.requests _ made.0.attached made.1;
        apart = made.0.apart;
        valid = made.0.valid;
        limited = omega (arith, length-append t.requests (_ ∷ []), ap length made.2, l);
        checks_hold = made.0.checks_hold;
      }

  request_found-IsSound :
      (id url observer address : ℕ) (found : Option Bitmap) (s : Service C)
      → find_fetcher address s.active_fetchers ≡ none
      → is_valid url ≡ true
      → IsSound s
      → IsSound (request_found id url observer address found s).1
  unfolding request_found
  request_found-IsSound id url observer address (some bitmap) s free v h =
      notify-IsSound observer id (some bitmap) s h
  request_found-IsSound id url observer address none s free v h =
      elim (Bool-cases (ltb max_requests (length s.requests))) [
        | inl full ↦ rw full h
        | inr room ↦
            rw room (attach_request-IsSound id url observer address s free v (ground arith) h)
      ]

  complete-IsSound :
      (bitmap : Option Bitmap) (f : Fetcher) (s : Service C)
      → is_active f.address s.active_fetchers ≡ true
      → IsSound s
      → IsSound (complete ops bitmap (some f) s)
  complete-IsSound bitmap f s a h =
      let parts = complete-parts ops bitmap f s in
      rw (parts.0, parts.1, parts.2, a)
        (Sound-remove is_valid f.address s.active_fetchers s.requests s.dchecks h)

  on_fetch_complete-IsSound :
      (bitmap : Option Bitmap) (address : ℕ) (f : Fetcher) (s : Service C)
      → find_fetcher address s.active_fetchers ≡ some f
      → IsSound s
      → IsSound (on_fetch_complete ops f.url bitmap s)
  unfolding on_fetch_complete
  on_fetch_complete-IsSound bitmap address f s e h =
      let own = find_own address f s.active_fetchers h.apart e in
      rw (own.1)
        (complete-IsSound bitmap f s (find_url-is_active f.url f s.active_fetchers own.1) h)

  of_fetcher-IsSound :
      (act : Fetcher → Service C → Service C) (address : ℕ) (s : Service C)
      → ((f : Fetcher) → find_fetcher address s.active_fetchers ≡ some f → IsSound (act f s))
      → IsSound s
      → IsSound (of_fetcher act (find_fetcher address s.active_fetchers) s)
  of_fetcher-IsSound act address s k h =
      elim (Option-cases (find_fetcher address s.active_fetchers)) [
        | inl e ↦ rw e h
        | inr (f, e) ↦ rw e (k f e)
      ]

  on_request_image-IsSound :
      (url observer address : ℕ) (s : Service C)
      → find_fetcher address s.active_fetchers ≡ none
      → IsSound s
      → IsSound (on_request_image ops is_valid url observer address s).1
  unfolding on_request_image
  on_request_image-IsSound url observer address s free h = elim (Bool-cases (is_valid url)) [
    | inl v ↦ rw v (request_found-IsSound _ url observer address _ _ free v h)
    | inr v ↦ rw v h
  ]

  step-IsSound :
      (s : Service C) (e : Event) → CanHappen s e → IsSound s → IsSound (step ops is_valid s e)
  unfolding step on_request_image on_prefetch ensure_fetcher_for_url on_url_fetch_complete
      on_image_decoded report_failure
  step-IsSound s (request_image url observer address) free h =
      on_request_image-IsSound url observer address s free h
  step-IsSound s (cancel id) c h = cancel_request-IsSound id s h
  step-IsSound s (prefetch url address) free h = elim (Bool-cases (is_valid url)) [
    | inl v ↦ rw v (ensure_fetcher-Ensured url address _ s refl free v h).0
    | inr v ↦ rw v h
  ]
  step-IsSound s (url_fetched address true) c h = of_fetcher-IsSound _ address s (λ f e. h) h
  step-IsSound s (url_fetched address false) c h =
      of_fetcher-IsSound _ address s (λ f e. on_fetch_complete-IsSound none address f s e h) h
  step-IsSound s (image_decoded address bitmap) c h =
      of_fetcher-IsSound _ address s
        (λ f e. on_fetch_complete-IsSound (some bitmap) address f s e h) h
  step-IsSound s (decode_failed address) c h =
      of_fetcher-IsSound _ address s (λ f e. on_fetch_complete-IsSound none address f s e h) h

  -- After every history of a new service, where the allocator gives free addresses and only live fetchers
  -- call: every request waits for a fetcher that is alive, no two fetchers share a URL or an address, every
  -- URL that is fetched is valid, at most 26 requests wait, and no DCHECK has failed.
  pub run-IsSound :
      (events : List Event)
      → Possible (step ops is_valid) CanHappen (new_service ops) events
      → let s = run (step ops is_valid) (new_service ops) events in
        Sound is_valid s.active_fetchers s.requests s.dchecks
  run-IsSound events possible =
      run_inv (step ops is_valid) CanHappen IsSound step-IsSound (new_service ops) events possible
        (record {
          attached = tt;
          apart = tt;
          valid = tt;
          limited = omega arith;
          checks_hold = refl;
        })
