-- ===== src/Text/Affix.antt =====
-- Prefixes and suffixes of a text, and the trimming of one character.
use lfp_pipe.Base.{
  ℕ, ◌-◌, ◌≡◌, ◌≢◌, refl, sym, ap, ◌∙◌, ◌↔◌, Bool, true, false, ◌&&◌, ◌||◌, Option, none, some, [],
  ◌∷◌, ◌++◌, arith, leb, ◌==◌, if◌then◌else◌, length, drop, take, take-append-drop, length-append,
  drop-append,
}
use lfp_pipe.Text.Ascii.{Str, str_eq, str_eq_sound, str_eq_refl}

-- `s.starts_with(p)`.
unfoldable pub starts_with : Str → Str → Bool
starts_with s [] = true
starts_with [] (x ∷ p) = false
starts_with (y ∷ s) (x ∷ p) = y == x && starts_with s p

-- `s.strip_prefix(p)`.
unfoldable pub strip_prefix : Str → Str → Option Str
strip_prefix s [] = some s
strip_prefix [] (x ∷ p) = none
strip_prefix (y ∷ s) (x ∷ p) = if y == x then strip_prefix s p else none

-- `s.ends_with(p)`: the last bytes, as many as `p` has.
unfoldable pub ends_with : Str → Str → Bool
ends_with s p = leb (length p) (length s) && str_eq (drop (length s - length p) s) p

-- One byte in front of a text that has been trimmed at its end.
unfoldable pub trim_cons : ℕ → ℕ → Str → Str
trim_cons c x [] = if x == c then [] else x ∷ []
trim_cons c x (y ∷ r) = x ∷ y ∷ r

-- `s.trim_end_matches(c)`.
unfoldable pub trim_end_matches : ℕ → Str → Str
unfolding trim_cons
trim_end_matches c [] = []
trim_end_matches c (x ∷ s) = trim_cons c x (trim_end_matches c s)

-- `s.contains(c)`.
unfoldable pub contains : ℕ → Str → Bool
contains c [] = false
contains c (x ∷ s) = x == c || contains c s

starts_with-strip_prefix :
    (s p : Str) → starts_with s p ≡ true → (r : Str) × (strip_prefix s p ≡ some r)
unfolding starts_with strip_prefix
starts_with-strip_prefix s [] h = (s, refl)
starts_with-strip_prefix [] (x ∷ p) h = cc
starts_with-strip_prefix (y ∷ s) (x ∷ p) h =
    let (r, e) = starts_with-strip_prefix s p (ground arith) in (r, ground arith)

-- What is left is the text behind the prefix.
pub strip_prefix-some : (s p r : Str) → strip_prefix s p ≡ some r → s ≡ p ++ r
unfolding strip_prefix
strip_prefix-some s [] r h = cc
strip_prefix-some [] (x ∷ p) r h = cc
strip_prefix-some (y ∷ s) (x ∷ p) r h = ground (arith, strip_prefix-some s p r)

pub strip_prefix-append : (p r : Str) → strip_prefix (p ++ r) p ≡ some r
unfolding strip_prefix
strip_prefix-append [] r = refl
strip_prefix-append (x ∷ p) r = ground (arith, strip_prefix-append p r)

pub starts_with-append : (p r : Str) → starts_with (p ++ r) p ≡ true
unfolding starts_with
starts_with-append [] r = refl
starts_with-append (x ∷ p) r = ground (arith, starts_with-append p r)

pub starts_with_iff : (s p : Str) → (starts_with s p ≡ true) ↔ ((r : Str) × (s ≡ p ++ r))
starts_with_iff s p = (to, from)
  where
    to : starts_with s p ≡ true → (r : Str) × (s ≡ p ++ r)
    to h = let (r, e) = starts_with-strip_prefix s p h in (r, strip_prefix-some s p r e)

    from : (r : Str) × (s ≡ p ++ r) → starts_with s p ≡ true
    from (r, e) = rw e (starts_with-append p r)

pub ends_with-append : (r p : Str) → ends_with (r ++ p) p ≡ true
unfolding ends_with
ends_with-append r p =
    let e : length (r ++ p) - length p ≡ length r = omega (arith, length-append r p) in
    rw (e, drop-append r p, str_eq_refl p) (ground (arith, length-append r p))

pub ends_with-some : (s p : Str) → ends_with s p ≡ true → (r : Str) × (s ≡ r ++ p)
unfolding ends_with
ends_with-some s p h =
    let n : ℕ = length s - length p in
    let e : drop n s ≡ p = str_eq_sound (drop n s) p (ground arith) in
    (take n s, sym (ap (λ t. take n s ++ t) (sym e) ∙ take-append-drop n s))

-- The text ends in some byte that is not `c`, or is empty.
abbrev pub LastNe : ℕ → Str → Type 0
LastNe c [] = Unit
LastNe c (x ∷ []) = x ≢ c
LastNe c (x ∷ y ∷ s) = LastNe c (y ∷ s)

-- A text that does not end in the character stays as it is.
pub trim_end_matches_self : (c : ℕ) (s : Str) → LastNe c s → trim_end_matches c s ≡ s
unfolding trim_end_matches trim_cons
trim_end_matches_self c [] h = refl
trim_end_matches_self c (x ∷ []) h = ground arith
trim_end_matches_self c (x ∷ y ∷ s) h = ground (arith, trim_end_matches_self c (y ∷ s) h)
