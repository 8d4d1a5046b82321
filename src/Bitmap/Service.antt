-- ===== src/Bitmap/Service.antt =====
-- browser/bitmap_fetcher/bitmap_fetcher_service.cc, with the fetcher of bitmap_fetcher.cc. A URL is the
-- number of its text, and an observer is a number. A fetcher's address is given by the allocator, which
-- may give it again when the fetcher is gone. What the service and its fetchers do to others is in
-- `calls`, newest first. An observer's answer to a call is a later event.
use chromium_log.Prelude.{
  ℕ, ◌+◌, ◌^◌, ◌%◌, Bool, true, false, ◌&&◌, not, List, [], ◌∷◌, ◌++◌, Option, none, some, ◌==◌,
  ltb, if◌then◌else◌, length,
}

abbrev pub max_requests : ℕ
max_requests = 25

abbrev pub request_id_invalid : ℕ
request_id_invalid = 0

-- An SkBitmap with what its empty() and isNull() say.
pub record Bitmap : Type 0 where
  pub pixels : ℕ
  pub is_empty : Bool
  pub is_null : Bool

pub record Fetcher : Type 0 where
  pub address : ℕ
  pub url : ℕ

pub record Request : Type 0 where
  pub request_id : ℕ
  pub observer : ℕ
  pub fetcher : ℕ

-- `image_changed` names the observer, the request and the image.
pub data Call : Type 0 where
  image_changed : ℕ → ℕ → Bitmap → Call
  destroyed : ℕ → Call
  fetch decode : Fetcher → Call

-- The two operations of base::MRUCache that the service uses: `Get` also moves the entry to the front.
pub record CacheOps {ℓ} (C : Type ℓ) : Type ℓ where
  pub empty_cache : C
  pub get : ℕ → C → Option Bitmap × C
  pub put : ℕ → Bitmap → C → C

pub record Service {ℓ} (C : Type ℓ) : Type ℓ where
  pub active_fetchers : List Fetcher
  pub requests : List Request
  pub cache : C
  pub current_request_id : ℕ
  pub calls : List Call
  pub dchecks : Bool

-- The next identifier, an int that wraps around, as its residue.
unfoldable pub next_request_id : ℕ → ℕ
next_request_id current =
    let next = (current + 1) % 2 ^ 32 in
    if next == request_id_invalid then (next + 1) % 2 ^ 32 else next

unfoldable pub find_fetcher_for_url : ℕ → List Fetcher → Option Fetcher
find_fetcher_for_url url [] = none
find_fetcher_for_url url (f ∷ fs) = if url == f.url then some f else find_fetcher_for_url url fs

-- The object at an address.
unfoldable pub find_fetcher : ℕ → List Fetcher → Option Fetcher
find_fetcher address [] = none
find_fetcher address (f ∷ fs) = if f.address == address then some f else find_fetcher address fs

-- The loop of `RemoveFetcher` and its erase.
unfoldable pub without_fetcher : ℕ → List Fetcher → List Fetcher
without_fetcher address [] = []
without_fetcher address (f ∷ fs) =
    if f.address == address then fs else f ∷ without_fetcher address fs

-- The loop of `CancelRequest`: the request that it finds, and the others.
unfoldable pub take_request : ℕ → List Request → Option Request × List Request
take_request id [] = (none, [])
take_request id (r ∷ rs) =
    let (found, rest) = take_request id rs in
    if r.request_id == id then (some r, rs) else (found, r ∷ rest)

abbrev pub is_some {ℓ} : {A : Type ℓ} → Option A → Bool
is_some none = false
is_some (some _) = true

module _ {ℓ} {C : Type ℓ} where
  abbrev pub call : Call → Service C → Service C
  call c s = record s { calls = c ∷ s.calls }

  unfoldable pub notify_image_changed : ℕ → ℕ → Option Bitmap → Service C → Service C
  notify_image_changed observer id none s = s
  notify_image_changed observer id (some bitmap) s =
      if bitmap.is_empty then s else call (image_changed observer id bitmap) s

  -- A request that is let go of destroys its observer.
  abbrev pub release : Option Request → Service C → Service C
  release none s = s
  release (some r) s = call (destroyed r.observer) s

  unfoldable pub cancel_request : ℕ → Service C → Service C
  unfolding take_request
  cancel_request id s =
      let (found, rest) = take_request id s.requests in release found (record s { requests = rest })

  -- `EnsureFetcherForUrl`, given what `FindFetcherForUrl` has found.
  unfoldable pub ensure_fetcher : ℕ → ℕ → Option Fetcher → Service C → ℕ × Service C
  ensure_fetcher url address (some f) s = (f.address, s)
  ensure_fetcher url address none s =
      let f : Fetcher = record { address = address; url = url } in
      (address, call (fetch f) (record s { active_fetchers = s.active_fetchers ++ f ∷ [] }))

  unfoldable pub ensure_fetcher_for_url : ℕ → ℕ → Service C → ℕ × Service C
  unfolding ensure_fetcher find_fetcher_for_url
  ensure_fetcher_for_url url address s =
      ensure_fetcher url address (find_fetcher_for_url url s.active_fetchers) s

  -- The loop of `OnFetchComplete` over the requests; those that stay are left in `requests`.
  unfoldable pub notify_attached : ℕ → Option Bitmap → List Request → Service C → Service C
  unfolding notify_image_changed
  notify_attached address bitmap [] s = s
  notify_attached address bitmap (r ∷ rs) s =
      let attached = r.fetcher == address in
      let told =
        (if attached
          then call (destroyed r.observer) (notify_image_changed r.observer r.request_id bitmap s)
          else s) in
      let rest = notify_attached address bitmap rs told in
      if attached then rest else record rest { requests = r ∷ rest.requests }

  unfoldable pub remove_fetcher : ℕ → Service C → Service C
  unfolding without_fetcher find_fetcher
  remove_fetcher address s = record s {
    active_fetchers = without_fetcher address s.active_fetchers;
    dchecks = is_some (find_fetcher address s.active_fetchers) && s.dchecks;
  }

  -- The end of `RequestImage`, for an image that is not in the cache.
  unfoldable pub attach_request : ℕ → ℕ → ℕ → ℕ → Service C → ℕ × Service C
  unfolding ensure_fetcher_for_url
  attach_request id url observer address s =
      let (fetcher, t) = ensure_fetcher_for_url url address s in
      let r : Request = record { request_id = id; observer = observer; fetcher = fetcher } in
      (id, record t { requests = t.requests ++ r ∷ [] })

  -- `RequestImage` for a valid URL, with what the cache has.
  unfoldable pub request_found : ℕ → ℕ → ℕ → ℕ → Option Bitmap → Service C → ℕ × Service C
  unfolding attach_request notify_image_changed
  request_found id url observer address (some bitmap) s = (
    request_id_invalid,
    call (destroyed observer) (notify_image_changed observer id (some bitmap) s),
  )
  request_found id url observer address none s =
      if ltb max_requests (length s.requests)
      then (request_id_invalid, call (destroyed observer) s)
      else attach_request id url observer address s

  -- An event of the fetcher at the address.
  abbrev pub of_fetcher : (Fetcher → Service C → Service C) → Option Fetcher → Service C → Service C
  of_fetcher act none s = s
  of_fetcher act (some f) s = act f s

  unfoldable pub on_prefetch : (ℕ → Bool) → ℕ → ℕ → Service C → Service C
  unfolding ensure_fetcher_for_url
  on_prefetch is_valid url address s =
      if is_valid url then (ensure_fetcher_for_url url address s).1 else s

-- The allocator's next address is an argument of the calls that may make a fetcher.
pub data Event : Type 0 where
  request_image : ℕ → ℕ → ℕ → Event
  cancel : ℕ → Event
  prefetch : ℕ → ℕ → Event
  url_fetched : ℕ → Bool → Event
  image_decoded : ℕ → Bitmap → Event
  decode_failed : ℕ → Event

module _ {ℓ} {C : Type ℓ} (ops : CacheOps C) where
  abbrev pub new_service : Service C
  new_service = record {
    active_fetchers = [];
    requests = [];
    cache = ops.empty_cache;
    current_request_id = 1;
    calls = [];
    dchecks = true;
  }

  unfoldable pub put_image : ℕ → Option Bitmap → Service C → Service C
  put_image url none s = s
  put_image url (some bitmap) s =
      if bitmap.is_null then s else record s { cache = ops.put url bitmap s.cache }

  -- `OnFetchComplete`, given the fetcher of the URL.
  unfoldable pub complete : Option Bitmap → Option Fetcher → Service C → Service C
  unfolding notify_attached put_image remove_fetcher
  complete bitmap none s = record s { dchecks = false }
  complete bitmap (some f) s = remove_fetcher f.address (
      put_image f.url bitmap
        (notify_attached f.address bitmap s.requests (record s { requests = [] })))

  unfoldable pub on_fetch_complete : ℕ → Option Bitmap → Service C → Service C
  unfolding complete find_fetcher_for_url
  on_fetch_complete url bitmap s = complete bitmap (find_fetcher_for_url url s.active_fetchers) s

  -- The methods of the fetcher.
  unfoldable pub report_failure : Fetcher → Service C → Service C
  unfolding on_fetch_complete
  report_failure f s = on_fetch_complete f.url none s

  unfoldable pub on_url_fetch_complete : Bool → Fetcher → Service C → Service C
  unfolding report_failure
  on_url_fetch_complete false f s = report_failure f s
  on_url_fetch_complete true f s = call (decode f) s

  unfoldable pub on_image_decoded : Bitmap → Fetcher → Service C → Service C
  unfolding on_fetch_complete
  on_image_decoded bitmap f s = on_fetch_complete f.url (some bitmap) s

module _ {ℓ} {C : Type ℓ} (ops : CacheOps C) (is_valid : ℕ → Bool) where
  unfoldable pub on_request_image : ℕ → ℕ → ℕ → Service C → ℕ × Service C
  unfolding next_request_id request_found
  on_request_image url observer address s =
      let id = next_request_id s.current_request_id in
      let (found, cache) = ops.get url s.cache in
      if not (is_valid url)
      then (request_id_invalid, call (destroyed observer) (record s { current_request_id = id }))
      else request_found id url observer address found
          (record s { current_request_id = id; cache = cache })

  unfoldable pub step : Service C → Event → Service C
  unfolding find_fetcher on_request_image cancel_request on_prefetch on_url_fetch_complete
      on_image_decoded report_failure
  step s (request_image url observer address) = (on_request_image url observer address s).1
  step s (cancel id) = cancel_request id s
  step s (prefetch url address) = on_prefetch is_valid url address s
  step s (url_fetched address success) =
      of_fetcher (on_url_fetch_complete ops success) (find_fetcher address s.active_fetchers) s
  step s (image_decoded address bitmap) =
      of_fetcher (on_image_decoded ops bitmap) (find_fetcher address s.active_fetchers) s
  step s (decode_failed address) =
      of_fetcher (report_failure ops) (find_fetcher address s.active_fetchers) s
