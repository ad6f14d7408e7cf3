-- ===== src/Text/Utf8.antt =====
-- `std::str::from_utf8`: whether bytes are well-formed UTF-8 (RFC 3629, table 3-7 of Unicode).
use lfp_pipe.Base.{ℕ, zero, suc, Bool, true, false, ◌&&◌, [], ◌∷◌, leb, ◌==◌, if◌then◌else◌}
use lfp_pipe.Text.Ascii.{Str}

-- After a lead byte: how many bytes must follow, and the range of the next one.
pub data Expect : Type 0 where
  lead : Expect
  more : ℕ → ℕ → ℕ → Expect
  bad : Expect

abbrev between : ℕ → ℕ → ℕ → Bool
between lo hi b = leb lo b && leb b hi

unfoldable pub after_lead : ℕ → Expect
after_lead b =
    if leb b 0x7f
    then lead
    else if between 0xc2 0xdf b
    then more 0 0x80 0xbf
    else if b == 0xe0
    then more 1 0xa0 0xbf
    else if b == 0xed
    then more 1 0x80 0x9f
    else if between 0xe1 0xef b
    then more 1 0x80 0xbf
    else if b == 0xf0
    then more 2 0x90 0xbf
    else if between 0xf1 0xf3 b
    then more 2 0x80 0xbf
    else if b == 0xf4
    then more 2 0x80 0x8f
    else bad

unfoldable pub next_byte : Expect → ℕ → Expect
unfolding after_lead
next_byte lead b = after_lead b
next_byte (more zero lo hi) b = if between lo hi b then lead else bad
next_byte (more (suc n) lo hi) b = if between lo hi b then more n 0x80 0xbf else bad
next_byte bad b = bad

unfoldable pub valid_from : Expect → Str → Bool
unfolding next_byte
valid_from lead [] = true
valid_from (more n lo hi) [] = false
valid_from bad [] = false
valid_from e (b ∷ s) = valid_from (next_byte e b) s

unfoldable pub is_utf8 : Str → Bool
unfolding valid_from
is_utf8 = valid_from lead
