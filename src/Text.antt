-- ===== src/Text.antt =====
-- The text of the program: `String`, `&str` and `&[u8]` are lists of bytes, and a `String` holds
-- UTF-8. The children model what the program uses of `core::str`.
pub mod Ascii
pub mod Affix
pub mod Split
pub mod White
pub mod Utf8
use Prim.Native.Char.{code}
use Prim.Native.String.{String}
use lfp_pipe.Base.{ℕ, List, [], ◌∷◌}

-- The bytes of an ASCII literal.
abbrev pub codes : String → List ℕ
codes String.[] = []
codes (String.◌∷◌ c s) = code c ∷ codes s
