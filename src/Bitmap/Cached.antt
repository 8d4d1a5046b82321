-- ===== src/Bitmap/Cached.antt =====
-- bitmap_fetcher_service.cc: what follows the arrival of an image.
use chromium_log.Prelude.{
  ℕ, ◌≡◌, refl, sym, ap, ◌∙◌, inl, inr, Bool, true, false, List, [], ◌∷◌, ◌++◌, append_assoc,
  append-nil, some, ◌==◌, if◌then◌else◌, Bool-cases, arith,
}
use chromium_log.Bitmap.Service.{
  request_id_invalid, Bitmap, Fetcher, Request, Service, CacheOps, find_fetcher, without_fetcher,
  Call, image_changed, destroyed, call, notify_image_changed, notify_attached, remove_fetcher,
  request_found, on_request_image, put_image, complete, on_fetch_complete, on_image_decoded,
  next_request_id,
}
use chromium_log.Bitmap.Sound.{All-found, find_own}
use chromium_log.Bitmap.Sound.Runs.{Sound, others, complete-parts}

-- What base::MRUCache promises: an entry that was just put is found.
pub record Remembers {ℓ} {C : Type ℓ} (ops : CacheOps C) : Type ℓ where
  pub get-put :
      (url : ℕ) (bitmap : Bitmap) (c : C) → (ops.get url (ops.put url bitmap c)).0 ≡ some bitmap

-- Each request that waits for the fetcher is told of the image and let go of, in their order.
abbrev pub answers : ℕ → Bitmap → List Request → List Call
answers address bitmap [] = []
answers address bitmap (r ∷ rs) =
    answers address bitmap rs
    ++ (if r.fetcher == address
        then destroyed r.observer ∷ image_changed r.observer r.request_id bitmap ∷ []
        else [])

if_false {ℓ} : {A : Type ℓ} (b : Bool) (x y : A) → b ≡ false → (if b then x else y) ≡ y
if_false true x y h = absurd (ground arith)
if_false false x y h = refl

module _ {ℓ} {C : Type ℓ} where
  notify-call :
      (observer id : ℕ) (bitmap : Bitmap) (s : Service C)
      → bitmap.is_empty ≡ false
      → notify_image_changed observer id (some bitmap) s ≡ call (image_changed observer id bitmap) s
  unfolding notify_image_changed
  notify-call observer id bitmap s d =
      if_false bitmap.is_empty s (call (image_changed observer id bitmap) s) d

  notify_attached-answers :
      (address : ℕ) (bitmap : Bitmap) (rs : List Request) (s : Service C)
      → bitmap.is_empty ≡ false
      → (notify_attached address (some bitmap) rs s).calls ≡ answers address bitmap rs ++ s.calls
  unfolding notify_attached
  notify_attached-answers address bitmap [] s d = refl
  notify_attached-answers address bitmap (r ∷ rs) s d =
      let told = notify_image_changed r.observer r.request_id (some bitmap) s in
      let rest = notify_attached-answers address bitmap rs (call (destroyed r.observer) told) d in
      let first = notify-call r.observer r.request_id bitmap s d in
      let kept = notify_attached-answers address bitmap rs s d in
      elim (Bool-cases (r.fetcher == address)) [
        | inl e ↦ rw e (
            rest
            ∙ ap (λ t. answers address bitmap rs ++ destroyed r.observer ∷ t.calls) first
            ∙ sym (
                append_assoc (answers address bitmap rs)
                  (destroyed r.observer ∷ image_changed r.observer r.request_id bitmap ∷ [])
                  s.calls))
        | inr e ↦
            rw e (kept ∙ ap (λ cs. cs ++ s.calls) (sym (append-nil (answers address bitmap rs))))
      ]

  put_image-cache :
      (ops : CacheOps C) (url : ℕ) (bitmap : Bitmap) (s : Service C)
      → bitmap.is_null ≡ false
      → put_image ops url (some bitmap) s ≡ record s { cache = ops.put url bitmap s.cache }
  unfolding put_image
  put_image-cache ops url bitmap s n =
      if_false bitmap.is_null s (record s { cache = ops.put url bitmap s.cache }) n

  -- The state after the fetch, but for the checks.
  module _ (ops : CacheOps C) (bitmap : Bitmap) (f : Fetcher) (s : Service C) where
    abbrev told : Service C
    told = notify_attached f.address (some bitmap) s.requests (record s { requests = [] })

    complete-image :
        bitmap.is_empty ≡ false
        → bitmap.is_null ≡ false
        → ((complete ops (some bitmap) (some f) s).calls
            ≡ answers f.address bitmap s.requests ++ s.calls)
          × ((complete ops (some bitmap) (some f) s).cache ≡ ops.put f.url bitmap told.cache)
    unfolding complete remove_fetcher
    complete-image d n =
        let put = put_image-cache ops f.url bitmap told n in
        (
          ap (λ t. t.calls) put
              ∙ notify_attached-answers f.address bitmap s.requests (record s { requests = [] }) d,
          ap (λ t. t.cache) put,
        )

  -- The answer at once to a request for an image that the cache has.
  abbrev pub AnswersAtOnce : ℕ → ℕ → Bitmap → Service C → ℕ × Service C → Type 0
  AnswersAtOnce observer next bitmap s (id, t) =
      (id ≡ request_id_invalid)
      × (t.calls ≡ destroyed observer ∷ image_changed observer next bitmap ∷ s.calls)
      × (t.requests ≡ s.requests)
      × (t.active_fetchers ≡ s.active_fetchers)

  request_found-hit :
      (n url observer free : ℕ) (bitmap : Bitmap) (s : Service C)
      → bitmap.is_empty ≡ false
      → AnswersAtOnce observer n bitmap s (request_found n url observer free (some bitmap) s)
  unfolding request_found
  request_found-hit n url observer free bitmap s d =
      let first = notify-call observer n bitmap s d in
      (
        refl,
        ap (λ t. destroyed observer ∷ t.calls) first,
        ap (λ t. t.requests) first,
        ap (λ t. t.active_fetchers) first,
      )

  cached_request :
      (ops : CacheOps C) (is_valid : ℕ → Bool) (url observer free : ℕ) (bitmap : Bitmap)
      (s : Service C)
      → is_valid url ≡ true
      → (ops.get url s.cache).0 ≡ some bitmap
      → bitmap.is_empty ≡ false
      → AnswersAtOnce observer
          (next_request_id s.current_request_id)
          bitmap
          s
          (on_request_image ops is_valid url observer free s)
  unfolding on_request_image
  cached_request ops is_valid url observer free bitmap s v hit d =
      rw (v, hit)
        (request_found-hit (next_request_id s.current_request_id) url observer free bitmap _ d)

  -- Let an image arrive at a fetcher of a sound service. Each request that waits for the fetcher is told of
  -- it and let go of, in the order of the requests; the other requests stay, and the fetcher goes. Whoever
  -- asks for the same URL next is told at once, if the cache remembers what was put last: the request has
  -- no identifier, and nothing is fetched.
  pub image_arrives :
      (ops : CacheOps C) (is_valid : ℕ → Bool) (address : ℕ) (bitmap : Bitmap) (f : Fetcher)
      (observer free : ℕ) (s : Service C)
      → Remembers ops
      → Sound is_valid s.active_fetchers s.requests s.dchecks
      → find_fetcher address s.active_fetchers ≡ some f
      → bitmap.is_empty ≡ false
      → bitmap.is_null ≡ false
      → let t = on_image_decoded ops bitmap f s in
        (t.calls ≡ answers address bitmap s.requests ++ s.calls)
        × (t.requests ≡ others address s.requests)
        × (t.active_fetchers ≡ without_fetcher address s.active_fetchers)
        × AnswersAtOnce observer
            (next_request_id t.current_request_id)
            bitmap
            t
            (on_request_image ops is_valid f.url observer free t)
  unfolding on_image_decoded on_fetch_complete
  image_arrives ops is_valid address bitmap f observer free s remembers sound found d n =
      let own = find_own address f s.active_fetchers sound.apart found in
      let t = complete ops (some bitmap) (some f) s in
      let image = complete-image ops bitmap f s d n in
      let parts = complete-parts ops (some bitmap) f s in
      let hit =
        ap (λ c. (ops.get f.url c).0) image.1
        ∙ remembers.get-put f.url bitmap (told ops bitmap f s).cache in
      let valid =
        All-found (λ g. is_valid g.url ≡ true) address f s.active_fetchers sound.valid found in
      rw⁻¹ (own.0) (
        rw (own.1) (
          image.0,
          parts.1,
          parts.0,
          cached_request ops is_valid f.url observer free bitmap t valid hit d,
        ))
