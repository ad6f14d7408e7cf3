-- ===== src/Text/Split.antt =====
-- Splitting a text at a character, and joining the pieces.
use lfp_pipe.Base.{
  ℕ, ◌≡◌, refl, ap, ◌∙◌, false, Option, none, some, List, [], ◌∷◌, ◌++◌, arith, ◌==◌, if◌then◌else◌,
  Bool-cases, inl, inr, All,
}
use lfp_pipe.Text.Ascii.{Str}
use lfp_pipe.Text.Affix.{contains}

-- One more byte in front of the first piece.
unfoldable pub cons_first : ℕ → List Str → List Str
cons_first x [] = (x ∷ []) ∷ []
cons_first x (w ∷ ws) = (x ∷ w) ∷ ws

-- `s.split(c)`: at least one piece, and one more for each `c`.
unfoldable pub split : ℕ → Str → List Str
unfolding cons_first
split c [] = [] ∷ []
split c (x ∷ s) = let rest = split c s in if x == c then [] ∷ rest else cons_first x rest

-- `pieces.join(sep)`.
unfoldable pub join : Str → List Str → Str
join sep [] = []
join sep (w ∷ []) = w
join sep (w ∷ v ∷ ws) = w ++ (sep ++ join sep (v ∷ ws))

-- `s.split_once(c)`.
unfoldable pub split_once : ℕ → Str → Option (Str × Str)
split_once c [] = none
split_once c (x ∷ s) =
    if x == c
    then some ([], s)
    else elim (split_once c s) [ none ↦ none | some (a, b) ↦ some (x ∷ a, b) ]

-- A list of pieces that has a first one.
abbrev pub NonEmpty : List Str → Type 0
NonEmpty [] = ⊥
NonEmpty (w ∷ ws) = Unit

NonEmpty-cons_first : (x : ℕ) (ws : List Str) → NonEmpty (cons_first x ws)
unfolding cons_first
NonEmpty-cons_first x [] = tt
NonEmpty-cons_first x (w ∷ ws) = tt

pub NonEmpty-split : (c : ℕ) (s : Str) → NonEmpty (split c s)
unfolding split
NonEmpty-split c [] = tt
NonEmpty-split c (x ∷ s) = elim (Bool-cases (x == c)) [
  | inl e ↦ rw e tt
  | inr e ↦ rw e (NonEmpty-cons_first x (split c s))
]

join-cons_nil :
    (c : ℕ) (ws : List Str) → NonEmpty ws → join (c ∷ []) ([] ∷ ws) ≡ c ∷ join (c ∷ []) ws
unfolding join
join-cons_nil c [] h = elim h [ ]
join-cons_nil c (w ∷ ws) h = refl

join-cons_first :
    (sep : Str) (x : ℕ) (ws : List Str) → NonEmpty ws → join sep (cons_first x ws) ≡ x ∷ join sep ws
unfolding join cons_first
join-cons_first sep x [] h = elim h [ ]
join-cons_first sep x (w ∷ []) h = refl
join-cons_first sep x (w ∷ v ∷ ws) h = refl

-- Joining the pieces gives the text back.
pub join-split : (c : ℕ) (s : Str) → join (c ∷ []) (split c s) ≡ s
unfolding split
join-split c [] = unfold join in refl
join-split c (x ∷ s) = elim (Bool-cases (x == c)) [
  | inl e ↦ rw (e, join-cons_nil c (split c s) (NonEmpty-split c s), join-split c s) (ground arith)
  | inr e ↦ rw (e, join-cons_first (c ∷ []) x (split c s) (NonEmpty-split c s), join-split c s) refl
]

-- No piece holds the character.
abbrev pub Free : ℕ → Str → Type 0
Free c w = contains c w ≡ false

Free-cons_first :
    (c x : ℕ) (ws : List Str) → (x == c) ≡ false → All (Free c) ws → All (Free c) (cons_first x ws)
unfolding cons_first contains
Free-cons_first c x [] e h = ground arith
Free-cons_first c x (w ∷ ws) e h = (ground arith, h.1)

Free-cons_nil : (c : ℕ) (ws : List Str) → All (Free c) ws → All (Free c) ([] ∷ ws)
unfolding contains
Free-cons_nil c ws h = (refl, h)

pub Free-split : (c : ℕ) (s : Str) → All (Free c) (split c s)
unfolding split
Free-split c [] = Free-cons_nil c [] tt
Free-split c (x ∷ s) = elim (Bool-cases (x == c)) [
  | inl e ↦ rw e (Free-cons_nil c (split c s) (Free-split c s))
  | inr e ↦ rw e (Free-cons_first c x (split c s) e (Free-split c s))
]

split-Free : (c : ℕ) (w : Str) → Free c w → split c w ≡ w ∷ []
unfolding split contains cons_first
split-Free c [] h = refl
split-Free c (x ∷ w) h = ground (arith, split-Free c w)

split-append : (c : ℕ) (w s : Str) → Free c w → split c (w ++ c ∷ s) ≡ w ∷ split c s
unfolding split contains cons_first
split-append c [] s h = ground arith
split-append c (x ∷ w) s h = ground (arith, split-append c w s)

-- Splitting what was joined gives the pieces back.
pub split-join :
    (c : ℕ) (ws : List Str) → NonEmpty ws → All (Free c) ws → split c (join (c ∷ []) ws) ≡ ws
unfolding join
split-join c [] n h = elim n [ ]
split-join c (w ∷ []) n h = split-Free c w h.0
split-join c (w ∷ v ∷ ws) n h =
    split-append c w (join (c ∷ []) (v ∷ ws)) h.0 ∙ ap (◌∷◌ w) (split-join c (v ∷ ws) tt h.1)
