-- ===== src/Commands/Observers.antt =====
-- command_updater.cc: an observer hears of every change.
use chromium_log.Prelude.{
  ℕ, ◌≡◌, refl, ◌∙◌, inl, inr, Bool, true, false, ◌&&◌, List, [], ◌∷◌, ◌++◌, Option, none, some,
  ◌==◌, ==-refl, if◌then◌else◌, Bool-cases, Option-cases, arith, run, run_inv, Possible,
}
use chromium_log.Commands.{
  Command, Call, execute, enabled_state_changed, CommandUpdater, is_command_enabled,
  execute_command_with_disposition, get_command, contains, without, notify, add_command_observer,
  remove_command_observer, remove_from_all, update_found, update_command_enabled, Event, executes,
  adds_observer, removes_observer, removes_everywhere, updates, step,
}

contains-snoc : (o x : ℕ) (os : List ℕ) → contains o os ≡ true → contains o (os ++ x ∷ []) ≡ true
contains-snoc o x [] h = absurd (ground arith)
contains-snoc o x (y ∷ os) h = elim (Bool-cases (y == o)) [
  | inl e ↦ rw e refl
  | inr n ↦ let rest = contains-snoc o x os (ground arith) in ground arith
]

contains-without :
    (o x : ℕ) (os : List ℕ)
    → (x == o) ≡ false
    → contains o os ≡ true
    → contains o (without x os) ≡ true
contains-without o x [] n h = h
contains-without o x (y ∷ os) n h = elim (Bool-cases (y == o)) [
  | inl e ↦ ground arith
  | inr d ↦ let rest = contains-without o x os n (ground arith) in ground arith
]

-- The last that the observer has heard of the command, or what it knew before.
abbrev pub heard : ℕ → ℕ → Bool → List Call → Bool
heard o id known [] = known
heard o id known (execute k disposition ∷ calls) = heard o id known calls
heard o id known (enabled_state_changed x k enabled ∷ calls) =
    let rest = heard o id known calls in if x == o && k == id then enabled else rest

heard-notify :
    (o id : ℕ) (known enabled : Bool) (os : List ℕ) (calls : List Call)
    → heard o id known (notify id enabled os calls)
      ≡ (if contains o os then enabled else heard o id known calls)
heard-notify o id known enabled [] calls = refl
heard-notify o id known enabled (x ∷ os) calls =
    let rest = heard-notify o id known enabled os (enabled_state_changed x id enabled ∷ calls) in
    let same = ==-refl id in rest ∙ ground arith

heard-notify_other :
    (o id k : ℕ) (known enabled : Bool) (os : List ℕ) (calls : List Call)
    → (k == id) ≡ false
    → heard o id known (notify k enabled os calls) ≡ heard o id known calls
heard-notify_other o id k known enabled [] calls n = refl
heard-notify_other o id k known enabled (x ∷ os) calls n =
    heard-notify_other o id k known enabled os (enabled_state_changed x k enabled ∷ calls) n
    ∙ ground arith

abbrev pub watches : ℕ → Option Command → Bool
watches o none = false
watches o (some command) = contains o command.observers

-- The observer is not taken off the command.
abbrev pub Stays : ℕ → ℕ → CommandUpdater → Event → Type 0
Stays o id u (removes_observer k x) = (k == id && x == o) ≡ false
Stays o id u (removes_everywhere x) = (x == o) ≡ false
Stays o id u _ = Unit

-- The observer watches the command, and knows whether it is enabled.
abbrev pub Knows : ℕ → ℕ → Bool → CommandUpdater → Type 0
Knows o id known u =
    (watches o (u.commands id) ≡ true) × (heard o id known u.calls ≡ is_command_enabled id u)

module _ (o id : ℕ) (known : Bool) where
  add_command_observer-Knows :
      (k x : ℕ) (u : CommandUpdater)
      → Knows o id known u
      → Knows o id known (add_command_observer k x u)
  unfolding add_command_observer get_command
  add_command_observer-Knows k x u h = elim (Option-cases (u.commands k)) [
    | inl e ↦ elim (Bool-cases (id == k)) [
      | inl same ↦ absurd (ground arith)
      | inr n ↦ ground arith
    ]
    | inr (c, e) ↦ elim (Bool-cases (id == k)) [
      | inl same ↦ let kept = contains-snoc o x c.observers (ground arith) in ground arith
      | inr n ↦ ground arith
    ]
  ]

  remove_command_observer-Knows :
      (k x : ℕ) (u : CommandUpdater)
      → (k == id && x == o) ≡ false
      → Knows o id known u
      → Knows o id known (remove_command_observer k x u)
  unfolding remove_command_observer get_command
  remove_command_observer-Knows k x u n h = elim (Option-cases (u.commands k)) [
    | inl e ↦ elim (Bool-cases (id == k)) [
      | inl same ↦ absurd (ground arith)
      | inr n ↦ ground arith
    ]
    | inr (c, e) ↦ elim (Bool-cases (id == k)) [
      | inl same ↦
          let kept = contains-without o x c.observers (ground arith) (ground arith) in ground arith
      | inr n ↦ ground arith
    ]
  ]

  remove_from_all-Knows :
      (x : ℕ) (u : CommandUpdater)
      → (x == o) ≡ false
      → Knows o id known u
      → Knows o id known (remove_from_all x u)
  unfolding remove_from_all
  remove_from_all-Knows x u n h = elim (Option-cases (u.commands id)) [
    | inl e ↦ absurd (ground arith)
    | inr (c, e) ↦ let kept = contains-without o x c.observers n (ground arith) in ground arith
  ]

  update_command_enabled-Knows :
      (k : ℕ) (enabled : Bool) (u : CommandUpdater)
      → Knows o id known u
      → Knows o id known (update_command_enabled k enabled u)
  unfolding update_command_enabled get_command update_found
  update_command_enabled-Knows k enabled u h = elim (Option-cases (u.commands k)) [
    | inl e ↦ elim (Bool-cases (id == k)) [
      | inl same ↦ absurd (ground arith)
      | inr n ↦ ground arith
    ]
    | inr (c, e) ↦ elim (Bool-cases (id == k)) [
      | inl same ↦ let told = heard-notify o id known enabled c.observers u.calls in ground arith
      | inr n ↦
          let told = heard-notify_other o id k known enabled c.observers u.calls (ground arith) in
          ground arith
    ]
  ]

  step-Knows :
      (u : CommandUpdater) (e : Event)
      → Stays o id u e
      → Knows o id known u
      → Knows o id known (step u e)
  unfolding step execute_command_with_disposition
  step-Knows u (executes k disposition) c h = ground arith
  step-Knows u (adds_observer k x) c h = add_command_observer-Knows k x u h
  step-Knows u (removes_observer k x) c h = remove_command_observer-Knows k x u c h
  step-Knows u (removes_everywhere x) c h = remove_from_all-Knows x u c h
  step-Knows u (updates k enabled) c h = update_command_enabled-Knows k enabled u h

  -- Let an observer watch a command and know whether it is enabled. As long as it is not taken off the
  -- command it is told of every change: after every history, what it has heard last of the command, or
  -- what it knew if it has heard nothing, is whether the command is enabled.
  pub run-Knows :
      (u : CommandUpdater) (es : List Event)
      → Possible step (Stays o id) u es
      → watches o (u.commands id) ≡ true
      → heard o id known u.calls ≡ is_command_enabled id u
      → let v = run step u es in
        (watches o (v.commands id) ≡ true) × (heard o id known v.calls ≡ is_command_enabled id v)
  run-Knows u es possible watching right =
      run_inv step (Stays o id) (Knows o id known) step-Knows u es possible (watching, right)
