-- ===== src/Bitmap/Examples.antt =====
-- A cache of five images, and two observers of one image: the theorems at concrete inputs.
use chromium_log.Prelude.{
  ℕ, ◌+◌, ◌≤◌, ◌≡◌, refl, Bool, true, false, List, [], ◌∷◌, ◌++◌, Option, none, some, ◌==◌, ==-refl,
  if◌then◌else◌, take, arith, run,
}
use chromium_log.Bitmap.Service.{
  Bitmap, Fetcher, Service, CacheOps, Event, request_image, prefetch, image_decoded, url_fetched,
  new_service, step, cancel_request, on_image_decoded, on_request_image, without_fetcher,
  next_request_id,
}
use chromium_log.Bitmap.Sound.Runs.{Sound, others, run-IsSound}
use chromium_log.Bitmap.Observers.{
  count_waiting, count_destroyed, count_told, count_given, observers_owned,
}
use chromium_log.Bitmap.Cached.{Remembers, answers, AnswersAtOnce, image_arrives}
use chromium_log.Bitmap.Cancelled.{told_id}
use chromium_log.Bitmap.Cancelled.Runs.{cancelled_not_told}

abbrev take_entry : ℕ → List (ℕ × Bitmap) → Option Bitmap × List (ℕ × Bitmap)
take_entry url [] = (none, [])
take_entry url ((key, bitmap) ∷ entries) =
    let (found, rest) = take_entry url entries in
    if url == key then (some bitmap, entries) else (found, (key, bitmap) ∷ rest)

abbrev to_front : ℕ → Option Bitmap × List (ℕ × Bitmap) → Option Bitmap × List (ℕ × Bitmap)
to_front url (none, entries) = (none, entries)
to_front url (some bitmap, entries) = (some bitmap, (url, bitmap) ∷ entries)

-- The entries that were used last, newest first.
abbrev five_images : CacheOps (List (ℕ × Bitmap))
five_images = record {
  empty_cache = [];
  get = λ url entries. to_front url (take_entry url entries);
  put = λ url bitmap entries. take 5 ((url, bitmap) ∷ (take_entry url entries).1);
}

five_images-Remembers : Remembers five_images
five_images-Remembers = record { get-put = λ url bitmap c. rw (==-refl url) refl }

abbrev any_url : ℕ → Bool
any_url url = true

abbrev picture : Bitmap
picture = record { pixels = 9; is_empty = false; is_null = false }

-- Two observers wait for the image of one URL, and a second image is on its way.
abbrev two_waiting : List Event
two_waiting =
    request_image 7 1 100 ∷ request_image 7 2 101 ∷ prefetch 8 102 ∷ url_fetched 100 true ∷ []

abbrev waiting : Service (List (ℕ × Bitmap))
waiting = run (step five_images any_url) (new_service five_images) two_waiting

waiting-Sound : Sound any_url waiting.active_fetchers waiting.requests waiting.dchecks
unfolding step run
waiting-Sound = run-IsSound five_images any_url two_waiting (refl, (refl, (refl, (refl, tt))))

run-IsSound_example : Sound any_url waiting.active_fetchers waiting.requests waiting.dchecks
unfolding step run
run-IsSound_example = run-IsSound five_images any_url two_waiting (refl, (refl, (refl, (refl, tt))))

observers_owned_example :
    (count_waiting 2 waiting.requests + count_destroyed 2 waiting.calls ≡ count_given 2 two_waiting)
    × (count_told 2 waiting.calls ≤ count_destroyed 2 waiting.calls)
observers_owned_example = observers_owned five_images any_url 2 two_waiting

image_arrives_example :
    let f : Fetcher = record { address = 100; url = 7 } in
    let t = on_image_decoded five_images picture f waiting in
    (t.calls ≡ answers 100 picture waiting.requests ++ waiting.calls)
    × (t.requests ≡ others 100 waiting.requests)
    × (t.active_fetchers ≡ without_fetcher 100 waiting.active_fetchers)
    × AnswersAtOnce 3
        (next_request_id t.current_request_id)
        picture
        t
        (on_request_image five_images any_url 7 3 103 t)
unfolding step run
image_arrives_example =
    image_arrives five_images any_url 100 picture (record { address = 100; url = 7 }) 3 103 waiting
      five_images-Remembers waiting-Sound refl refl refl

cancelled_not_told_example :
    let s =
      run (step five_images any_url) (cancel_request 2 waiting) (image_decoded 100 picture ∷ []) in
    told_id 2 s.calls ≡ told_id 2 waiting.calls
unfolding step run
cancelled_not_told_example =
    cancelled_not_told five_images any_url 2 two_waiting (image_decoded 100 picture ∷ [])
      (omega arith) (omega arith)
