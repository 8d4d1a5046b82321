-- ===== src/Bitmap/Cancelled/Runs.antt =====
-- bitmap_fetcher_service.cc: a cancelled request over the rest of a history.
use chromium_log.Prelude.{
  ℕ, ◌+◌, ◌^◌, ◌≤◌, ◌<◌, ◌≡◌, ◌⊎◌, refl, sym, ap, ◌∙◌, inl, inr, Bool, true, false, List, [], ◌∷◌,
  none, some, ◌==◌, length, Bool-cases, arith, run,
}
use chromium_log.Bitmap.Service.{
  Service, CacheOps, find_fetcher, find_fetcher_for_url, cancel_request, ensure_fetcher_for_url,
  Event, request_image, cancel, prefetch, url_fetched, image_decoded, decode_failed, new_service,
  on_request_image, on_prefetch, report_failure, on_url_fetch_complete, on_image_decoded, step,
  next_request_id,
}
use chromium_log.Bitmap.Cancelled.{
  next_request_id-suc, one, count_id, told_id, Effect, Quiet, request_found-Effect,
  of_fetcher-Quiet, ensure_fetcher-Quiet, cancel_request-Quiet, cancel_request-gone,
  on_fetch_complete-Quiet,
}

module _ {ℓ} {C : Type ℓ} (ops : CacheOps C) (is_valid : ℕ → Bool) (id : ℕ) where
  abbrev new_id : Service C → Event → ℕ
  new_id s (request_image url observer address) = one id (next_request_id s.current_request_id)
  new_id s _ = 0

  on_request_image-Effect :
      (url observer address : ℕ) (s : Service C)
      → let t = (on_request_image ops is_valid url observer address s).1 in
        Effect id (one id (next_request_id s.current_request_id)) s t
        × (t.current_request_id ≡ next_request_id s.current_request_id)
  unfolding on_request_image
  on_request_image-Effect url observer address s = elim (Bool-cases (is_valid url)) [
    | inl v ↦ rw v (request_found-Effect id _ url observer address _ _)
    | inr v ↦ rw v ((omega arith, omega arith, omega arith), refl)
  ]

  on_prefetch-Quiet :
      (url address : ℕ) (s : Service C) → Quiet id s (on_prefetch is_valid url address s)
  unfolding on_prefetch ensure_fetcher_for_url
  on_prefetch-Quiet url address s =
      let quiet =
        ensure_fetcher-Quiet id url address (find_fetcher_for_url url s.active_fetchers) s in
      let same = ap (count_id id) quiet.0 in
      elim (Bool-cases (is_valid url)) [
        | inl v ↦
            rw v ((omega (arith, quiet, same), omega (arith, same), omega (arith, quiet)), quiet.2)
        | inr v ↦ rw v ((omega arith, omega arith, omega arith), refl)
      ]

  -- So many requests of the identifier are new: none, or one and it is the last identifier given.
  abbrev IsNew : ℕ → Service C → Service C → Type 0
  IsNew n s t = (n ≡ 0) ⊎ ((n ≡ 1) × (id ≡ t.current_request_id) × (s.current_request_id < id))

  on_request_image-IsNew :
      (current : ℕ) (s t : Service C)
      → s.current_request_id + 1 ≡ current
      → t.current_request_id ≡ current
      → IsNew (one id current) s t
  on_request_image-IsNew current s t a b = elim (Bool-cases (current == id)) [
    | inl e ↦ inr (rw e refl, ground arith, ground arith)
    | inr d ↦ inl (rw d refl)
  ]

  step-Effect :
      (s : Service C) (e : Event)
      → s.current_request_id + 1 < 2 ^ 32
      → let t = step ops is_valid s e in
        Effect id (new_id s e) s t
        × (s.current_request_id ≤ t.current_request_id)
        × (t.current_request_id ≤ s.current_request_id + 1)
        × IsNew (new_id s e) s t
  unfolding step on_url_fetch_complete on_image_decoded report_failure
  step-Effect s (request_image url observer address) h =
      let effect = on_request_image-Effect url observer address s in
      let next = next_request_id-suc s.current_request_id h in
      (
        effect.0,
        omega (arith, effect.1, next),
        omega (arith, effect.1, next),
        on_request_image-IsNew (next_request_id s.current_request_id) s
            (on_request_image ops is_valid url observer address s).1 (sym next) effect.1,
      )
  step-Effect s (cancel n) h =
      let quiet = cancel_request-Quiet id n s in
      (quiet.0, omega (arith, quiet.1), omega (arith, quiet.1), inl refl)
  step-Effect s (prefetch url address) h =
      let quiet = on_prefetch-Quiet url address s in
      (quiet.0, omega (arith, quiet.1), omega (arith, quiet.1), inl refl)
  step-Effect s (url_fetched address true) h =
      let quiet =
        of_fetcher-Quiet id (on_url_fetch_complete ops true)
          (find_fetcher address s.active_fetchers) s
          (λ f. ((omega arith, omega arith, omega arith), refl)) in
      (quiet.0, omega (arith, quiet.1), omega (arith, quiet.1), inl refl)
  step-Effect s (url_fetched address false) h =
      let quiet =
        of_fetcher-Quiet id (on_url_fetch_complete ops false)
          (find_fetcher address s.active_fetchers) s
          (λ f. on_fetch_complete-Quiet id ops f.url none s) in
      (quiet.0, omega (arith, quiet.1), omega (arith, quiet.1), inl refl)
  step-Effect s (image_decoded address bitmap) h =
      let quiet =
        of_fetcher-Quiet id (on_image_decoded ops bitmap) (find_fetcher address s.active_fetchers) s
          (λ f. on_fetch_complete-Quiet id ops f.url (some bitmap) s) in
      (quiet.0, omega (arith, quiet.1), omega (arith, quiet.1), inl refl)
  step-Effect s (decode_failed address) h =
      let quiet =
        of_fetcher-Quiet id (report_failure ops) (find_fetcher address s.active_fetchers) s
          (λ f. on_fetch_complete-Quiet id ops f.url none s) in
      (quiet.0, omega (arith, quiet.1), omega (arith, quiet.1), inl refl)

  -- Before the identifier is given there is no such request, and afterwards there is at most one.
  abbrev AtMostOne : Service C → Type 0
  AtMostOne s =
      (count_id id s.requests ≤ 1) × (count_id id s.requests ≡ 0 ⊎ id ≤ s.current_request_id)

  step-AtMostOne :
      (s : Service C) (e : Event)
      → s.current_request_id + 1 < 2 ^ 32
      → AtMostOne s
      → AtMostOne (step ops is_valid s e)
  step-AtMostOne s e h v =
      let effect = step-Effect s e h in
      elim effect.3 [
        | inl old ↦ (
          omega (arith, effect.0, v.0),
          elim v.1 [
            | inl none_yet ↦ inl (omega (arith, effect.0))
            | inr given ↦ inr (omega (arith, effect.1))
          ],
        )
        | inr fresh ↦ elim v.1 [
          | inl none_yet ↦ (omega (arith, effect.0, fresh.0), inr (omega (arith, fresh)))
          | inr given ↦ absurd (omega (arith, fresh))
        ]
      ]

  -- The request is gone, and its identifier given.
  abbrev IsGone : Service C → Type 0
  IsGone s = (count_id id s.requests ≡ 0) × (id ≤ s.current_request_id)

  step-IsGone :
      (s : Service C) (e : Event)
      → s.current_request_id + 1 < 2 ^ 32
      → IsGone s
      → IsGone (step ops is_valid s e)
        × (told_id id (step ops is_valid s e).calls ≡ told_id id s.calls)
  step-IsGone s e h v =
      let effect = step-Effect s e h in
      elim effect.3 [
        | inl old ↦
            ((omega (arith, effect.0, v), omega (arith, effect.1, v)), omega (arith, effect.0, v))
        | inr fresh ↦ absurd (omega (arith, fresh, v))
      ]

  run-AtMostOne :
      (s : Service C) (events : List Event)
      → s.current_request_id + length events < 2 ^ 32
      → AtMostOne s
      → AtMostOne (run (step ops is_valid) s events)
        × ((run (step ops is_valid) s events).current_request_id
            ≤ s.current_request_id + length events)
  unfolding run
  run-AtMostOne s [] h v = (v, omega arith)
  run-AtMostOne s (e ∷ es) h v =
      let once = step-AtMostOne s e (omega (arith, h)) v in
      let effect = step-Effect s e (omega (arith, h)) in
      let rest = run-AtMostOne (step ops is_valid s e) es (omega (arith, h, effect.2)) once in
      (rest.0, omega (arith, rest.1, effect.2))

  run-IsGone :
      (s : Service C) (events : List Event)
      → s.current_request_id + length events < 2 ^ 32
      → IsGone s
      → told_id id (run (step ops is_valid) s events).calls ≡ told_id id s.calls
  unfolding run
  run-IsGone s [] h v = refl
  run-IsGone s (e ∷ es) h v =
      let once = step-IsGone s e (omega (arith, h)) v in
      let effect = step-Effect s e (omega (arith, h)) in
      run-IsGone (step ops is_valid s e) es (omega (arith, h, effect.2)) once.0 ∙ once.1

  -- In a history of a new service that is too short for identifiers to wrap around, a request is cancelled
  -- by an identifier that has been given. From then on no observer hears of an image for the request of
  -- that identifier: neither when its fetcher is done, nor by a later request.
  pub cancelled_not_told :
      (before after : List Event)
      → length before + length after + 1 < 2 ^ 32
      → id ≤ (run (step ops is_valid) (new_service ops) before).current_request_id
      → let s = run (step ops is_valid) (new_service ops) before in
        told_id id (run (step ops is_valid) (cancel_request id s) after).calls ≡ told_id id s.calls
  cancelled_not_told before after h given =
      let s = run (step ops is_valid) (new_service ops) before in
      let first =
        run-AtMostOne (new_service ops) before (omega (arith, h)) (omega arith, inl refl) in
      let gone = cancel_request-gone id s in
      run-IsGone (cancel_request id s) after (omega (arith, h, first.1, gone.2))
        (omega (arith, gone.0, first.0), omega (arith, gone.2, given))
      ∙ gone.1
