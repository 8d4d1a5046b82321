-- ===== src/Bitmap/Sound.antt =====
-- bitmap_fetcher_service.cc: the fetchers and the requests that wait for them.
pub mod Runs
use chromium_log.Prelude.{
  ℕ, suc, ◌+◌, ◌≤◌, ◌≡◌, ◌≢◌, refl, sym, ap, subst, ◌∙◌, inl, inr, Bool, true, false, List, [], ◌∷◌,
  ◌++◌, Option, none, some, ◌==◌, ==→eq, ==-refl, if◌then◌else◌, length, length-append, All,
  Bool-cases, Option-cases, arith,
}
use chromium_log.Bitmap.Service.{
  Fetcher, Request, Service, is_some, find_fetcher, find_fetcher_for_url, without_fetcher,
}

abbrev pub is_active : ℕ → List Fetcher → Bool
is_active address fs = is_some (find_fetcher address fs)

-- Neither the address nor the URL.
abbrev pub DiffersFrom : Fetcher → Fetcher → Type 0
DiffersFrom f g = (g.address ≢ f.address) × (g.url ≢ f.url)

-- No two fetchers share an address or a URL.
abbrev pub Apart : List Fetcher → Type 0
Apart [] = Unit
Apart (f ∷ fs) = All (DiffersFrom f) fs × Apart fs

-- The URL is not being fetched, and the address is not taken.
abbrev pub Fresh : Fetcher → List Fetcher → Type 0
Fresh f fs = All (λ g. (f.address ≢ g.address) × (f.url ≢ g.url)) fs

All-append {ℓ κ} :
    {A : Type ℓ} (P : A → Type κ) (xs : List A) (x : A) → All P xs → P x → All P (xs ++ x ∷ [])
All-append P [] x h p = (p, tt)
All-append P (y ∷ xs) x h p = (h.0, All-append P xs x h.1 p)

All-map {ℓ κ ι} :
    {A : Type ℓ} (P : A → Type κ) (Q : A → Type ι) (xs : List A)
    → ((x : A) → P x → Q x)
    → All P xs
    → All Q xs
All-map P Q [] f h = tt
All-map P Q (x ∷ xs) f h = (f x h.0, All-map P Q xs f h.1)

Apart-append : (fs : List Fetcher) (f : Fetcher) → Apart fs → Fresh f fs → Apart (fs ++ f ∷ [])
Apart-append [] f a n = (tt, tt)
Apart-append (g ∷ fs) f a n = (All-append (DiffersFrom g) fs f a.0 n.0, Apart-append fs f a.1 n.1)

find_none-Fresh :
    (f : Fetcher) (fs : List Fetcher)
    → find_fetcher_for_url f.url fs ≡ none
    → find_fetcher f.address fs ≡ none
    → Fresh f fs
unfolding find_fetcher_for_url find_fetcher
find_none-Fresh f [] e a = tt
find_none-Fresh f (g ∷ fs) e a = elim (Bool-cases (f.url == g.url)) [
  | inl same ↦ absurd (ground arith)
  | inr d ↦ elim (Bool-cases (g.address == f.address)) [
    | inl same ↦ absurd (ground arith)
    | inr other ↦ ((ground arith, ground arith), find_none-Fresh f fs (ground arith) (ground arith))
  ]
]

find_url-is_active :
    (url : ℕ) (f : Fetcher) (fs : List Fetcher)
    → find_fetcher_for_url url fs ≡ some f
    → is_active f.address fs ≡ true
unfolding find_fetcher_for_url find_fetcher
find_url-is_active url f [] e = ground arith
find_url-is_active url f (g ∷ fs) e = elim (Bool-cases (url == g.url)) [
  | inl same ↦ ground arith
  | inr d ↦ let rest = find_url-is_active url f fs (ground arith) in ground arith
]

is_active-append :
    (address : ℕ) (fs : List Fetcher) (f : Fetcher)
    → is_active address fs ≡ true
    → is_active address (fs ++ f ∷ []) ≡ true
unfolding find_fetcher
is_active-append address [] f h = ground arith
is_active-append address (g ∷ fs) f h = elim (Bool-cases (g.address == address)) [
  | inl e ↦ rw e refl
  | inr d ↦ let rest = is_active-append address fs f (ground arith) in rw d rest
]

is_active-last : (fs : List Fetcher) (f : Fetcher) → is_active f.address (fs ++ f ∷ []) ≡ true
unfolding find_fetcher
is_active-last [] f = rw (==-refl f.address) refl
is_active-last (g ∷ fs) f = let rest = is_active-last fs f in ground arith

is_active-without :
    (address removed : ℕ) (fs : List Fetcher)
    → address ≢ removed
    → is_active address fs ≡ true
    → is_active address (without_fetcher removed fs) ≡ true
unfolding find_fetcher without_fetcher
is_active-without address removed [] n h = h
is_active-without address removed (g ∷ fs) n h = elim (Bool-cases (g.address == address)) [
  | inl same ↦ ground arith
  | inr d ↦ let rest = is_active-without address removed fs n (ground arith) in ground arith
]

All-without {κ} :
    (P : Fetcher → Type κ) (address : ℕ) (fs : List Fetcher)
    → All P fs
    → All P (without_fetcher address fs)
unfolding without_fetcher
All-without P address [] h = tt
All-without P address (f ∷ fs) h = elim (Bool-cases (f.address == address)) [
  | inl e ↦ rw e h.1
  | inr d ↦ rw d (h.0, All-without P address fs h.1)
]

Apart-without : (address : ℕ) (fs : List Fetcher) → Apart fs → Apart (without_fetcher address fs)
unfolding without_fetcher
Apart-without address [] a = tt
Apart-without address (f ∷ fs) a = elim (Bool-cases (f.address == address)) [
  | inl e ↦ rw e a.1
  | inr d ↦ rw d (All-without (DiffersFrom f) address fs a.0, Apart-without address fs a.1)
]

pub All-found {κ} :
    (P : Fetcher → Type κ) (address : ℕ) (f : Fetcher) (fs : List Fetcher)
    → All P fs
    → find_fetcher address fs ≡ some f
    → P f
unfolding find_fetcher
All-found P address f [] h e = absurd (ground arith)
All-found P address f (g ∷ fs) h e = elim (Bool-cases (g.address == address)) [
  | inl same ↦ subst P (ground arith) h.0
  | inr d ↦ All-found P address f fs h.1 (ground arith)
]

-- The fetcher at an address is the one that is found for its URL.
pub find_own :
    (address : ℕ) (f : Fetcher) (fs : List Fetcher)
    → Apart fs
    → find_fetcher address fs ≡ some f
    → (f.address ≡ address) × (find_fetcher_for_url f.url fs ≡ some f)
unfolding find_fetcher find_fetcher_for_url
find_own address f [] a e = ground arith
find_own address f (g ∷ fs) a e = elim (Bool-cases (g.address == address)) [
  | inl same ↦ ground arith
  | inr d ↦
      let rest = find_own address f fs a.1 (ground arith) in
      let other = All-found (DiffersFrom g) address f fs a.0 (ground arith) in ground arith
]
