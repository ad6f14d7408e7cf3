-- ===== src/Base/Lists.antt =====
-- Lists measured and indexed by native numbers, with the tests that iterators make.
use Prim.Native.Nat.{ℕ, zero, suc, ◌+◌}
use mathlib.Core.Path.{◌≡◌, refl, sym, ap, ◌∙◌}
use mathlib.Core.Logic.{◌⊎◌, inl, inr}
use mathlib.Core.Bool.{Bool, true, false, ◌&&◌, ◌||◌}
use mathlib.Core.List.{List, [], ◌∷◌, ◌++◌}
use mathlib.Core.Option.{Option, none, some}
use native.Mathlib.Omega.{arith}
use lfp_pipe.Base.Tests.{if◌then◌else◌, Bool-cases}

module _ {ℓ} {A : Type ℓ} where
  abbrev pub length : List A → ℕ
  length [] = 0
  length (x ∷ xs) = suc (length xs)

  abbrev pub get_elem? : List A → ℕ → Option A
  get_elem? [] i = none
  get_elem? (x ∷ xs) zero = some x
  get_elem? (x ∷ xs) (suc i) = get_elem? xs i

  abbrev pub take : ℕ → List A → List A
  take zero xs = []
  take (suc n) [] = []
  take (suc n) (x ∷ xs) = x ∷ take n xs

  abbrev pub drop : ℕ → List A → List A
  drop zero xs = xs
  drop (suc n) [] = []
  drop (suc n) (x ∷ xs) = drop n xs

  -- `Iterator::any`, `all`, `find`, `filter`.
  abbrev pub any : (A → Bool) → List A → Bool
  any p [] = false
  any p (x ∷ xs) = p x || any p xs

  abbrev pub all : (A → Bool) → List A → Bool
  all p [] = true
  all p (x ∷ xs) = p x && all p xs

  abbrev pub find : (A → Bool) → List A → Option A
  find p [] = none
  find p (x ∷ xs) = if p x then some x else find p xs

  abbrev pub filter : (A → Bool) → List A → List A
  filter p [] = []
  filter p (x ∷ xs) = let rest = filter p xs in if p x then x ∷ rest else rest

  abbrev pub All {κ} : (A → Type κ) → List A → Type κ
  All P [] = Unit
  All P (x ∷ xs) = P x × All P xs

module _ {ℓ} {A : Type ℓ} where
  pub length-append : (xs ys : List A) → length (xs ++ ys) ≡ length xs + length ys
  length-append [] ys = omega arith
  length-append (x ∷ xs) ys = omega (arith, length-append xs ys)

  pub take-append-drop : (n : ℕ) (xs : List A) → take n xs ++ drop n xs ≡ xs
  take-append-drop zero xs = refl
  take-append-drop (suc n) [] = refl
  take-append-drop (suc n) (x ∷ xs) = ap (◌∷◌ x) (take-append-drop n xs)

  pub drop-append : (xs ys : List A) → drop (length xs) (xs ++ ys) ≡ ys
  drop-append [] ys = refl
  drop-append (x ∷ xs) ys = drop-append xs ys

-- An element of a list.
abbrev pub In : {A : Type 0} → A → List A → Type 0
In a [] = ⊥
In a (x ∷ xs) = (a ≡ x) ⊎ In a xs

module _ {A : Type 0} (p : A → Bool) where
  -- What `find` returns is an element that passes the test.
  pub find-some : (xs : List A) {a : A} → find p xs ≡ some a → In a xs × (p a ≡ true)
  find-some [] h = cc
  find-some (x ∷ xs) {a} h = elim (Bool-cases (p x)) [
    | inl t ↦ let e : some x ≡ some a = rw t at h in (inl cc, ground arith)
    | inr f ↦ let (i, q) = find-some xs (rw f at h) in (inr i, q)
  ]

  -- It returns nothing only if no element passes.
  pub find-none : (xs : List A) → find p xs ≡ none → any p xs ≡ false
  find-none [] h = refl
  find-none (x ∷ xs) h = ground (arith, find-none xs)

  pub any-In : {a : A} (xs : List A) → In a xs → p a ≡ true → any p xs ≡ true
  any-In [] i h = elim i [ ]
  any-In (x ∷ xs) (inl e) h = ground arith
  any-In (x ∷ xs) (inr i) h = ground (arith, any-In xs i h)

  In-filter-cons : (a x : A) (xs : List A) → In a (filter p xs) → In a (filter p (x ∷ xs))
  In-filter-cons a x xs i = elim (Bool-cases (p x)) [ inl t ↦ rw t (inr i) | inr f ↦ rw f i ]

  pub In-filter : {a : A} (xs : List A) → In a xs → p a ≡ true → In a (filter p xs)
  In-filter [] i h = elim i [ ]
  In-filter (x ∷ xs) (inl e) h = rw (ap p (sym e) ∙ h) (inl e)
  In-filter (x ∷ xs) (inr i) h = In-filter-cons _ x xs (In-filter xs i h)

  pub filter-In : (xs : List A) {a : A} → In a (filter p xs) → In a xs × (p a ≡ true)
  filter-In [] i = elim i [ ]
  filter-In (x ∷ xs) {a} i = elim (Bool-cases (p x)) [
    | inl t ↦ elim (rw t at i) [
      | inl e ↦ (inl e, ap p e ∙ t)
      | inr j ↦ let (k, q) = filter-In xs j in (inr k, q)
    ]
    | inr f ↦ let (j, q) = filter-In xs (rw f at i) in (inr j, q)
  ]

module _ {A : Type 0} where
  pub In-append : (a : A) (xs ys : List A) → In a (xs ++ ys) → In a xs ⊎ In a ys
  In-append a [] ys i = inr i
  In-append a (x ∷ xs) ys (inl e) = inl (inl e)
  In-append a (x ∷ xs) ys (inr i) = elim (In-append a xs ys i) [
    | inl j ↦ inl (inr j)
    | inr j ↦ inr j
  ]

  pub append-In_left : (a : A) (xs ys : List A) → In a xs → In a (xs ++ ys)
  append-In_left a [] ys i = elim i [ ]
  append-In_left a (x ∷ xs) ys (inl e) = inl e
  append-In_left a (x ∷ xs) ys (inr i) = inr (append-In_left a xs ys i)

  pub append-In_right : (a : A) (xs ys : List A) → In a ys → In a (xs ++ ys)
  append-In_right a [] ys i = i
  append-In_right a (x ∷ xs) ys i = inr (append-In_right a xs ys i)
