-- ===== src/Text/White.antt =====
-- `str::trim`: white space at the two ends, by the Unicode property, read from the UTF-8 bytes.
use lfp_pipe.Base.{
  ℕ, zero, suc, Bool, true, false, ◌&&◌, ◌||◌, List, [], ◌∷◌, leb, ◌==◌, if◌then◌else◌, length,
  reverse,
}
use lfp_pipe.Text.Ascii.{Str}

-- U+0009 to U+000D and U+0020.
unfoldable pub is_white_1 : ℕ → Bool
is_white_1 a = leb 9 a && leb a 13 || a == 32

-- U+0085 and U+00A0.
unfoldable pub is_white_2 : ℕ → ℕ → Bool
is_white_2 a b = a == 0xc2 && (b == 0x85 || b == 0xa0)

-- U+1680, U+2000 to U+200A, U+2028, U+2029, U+202F, U+205F and U+3000.
unfoldable pub is_white_3 : ℕ → ℕ → ℕ → Bool
is_white_3 a b c =
    a == 0xe1 && b == 0x9a && c == 0x80
    || a == 0xe2 && b == 0x80 && (leb 0x80 c && leb c 0x8a || c == 0xa8 || c == 0xa9 || c == 0xaf)
    || a == 0xe2 && b == 0x81 && c == 0x9f
    || a == 0xe3 && b == 0x80 && c == 0x80

-- `n` rounds take at most `n` characters off; a text of `n` bytes has no more.
trim_start_from : ℕ → Str → Str
trim_start_from zero s = s
trim_start_from (suc n) [] = []
trim_start_from (suc n) (a ∷ []) = if is_white_1 a then [] else a ∷ []
trim_start_from (suc n) (a ∷ b ∷ []) =
    let one = trim_start_from n (b ∷ []) in
    if is_white_1 a then one else if is_white_2 a b then [] else a ∷ b ∷ []
trim_start_from (suc n) (a ∷ b ∷ c ∷ s) =
    let one = trim_start_from n (b ∷ c ∷ s) in
    let two = trim_start_from n (c ∷ s) in
    let three = trim_start_from n s in
    if is_white_1 a
    then one
    else if is_white_2 a b
    then two
    else if is_white_3 a b c
    then three
    else a ∷ b ∷ c ∷ s

-- The same from the end, over the reversed bytes.
trim_end_from : ℕ → Str → Str
trim_end_from zero s = s
trim_end_from (suc n) [] = []
trim_end_from (suc n) (a ∷ []) = if is_white_1 a then [] else a ∷ []
trim_end_from (suc n) (b ∷ a ∷ []) =
    let one = trim_end_from n (a ∷ []) in
    if is_white_1 b then one else if is_white_2 a b then [] else b ∷ a ∷ []
trim_end_from (suc n) (c ∷ b ∷ a ∷ s) =
    let one = trim_end_from n (b ∷ a ∷ s) in
    let two = trim_end_from n (a ∷ s) in
    let three = trim_end_from n s in
    if is_white_1 c
    then one
    else if is_white_2 b c
    then two
    else if is_white_3 a b c
    then three
    else c ∷ b ∷ a ∷ s

unfoldable pub trim_start : Str → Str
unfolding trim_start_from is_white_1 is_white_2 is_white_3
trim_start s = trim_start_from (length s) s

unfoldable pub trim_end : Str → Str
unfolding trim_end_from is_white_1 is_white_2 is_white_3
trim_end s = reverse (trim_end_from (length s) (reverse s))

unfoldable pub trim : Str → Str
unfolding trim_start trim_end
trim s = trim_end (trim_start s)

abbrev pub is_empty {ℓ} : {A : Type ℓ} → List A → Bool
is_empty [] = true
is_empty (x ∷ xs) = false

-- `s.trim().is_empty()`.
abbrev pub is_blank : Str → Bool
is_blank s = is_empty (trim s)
