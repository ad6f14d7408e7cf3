-- ===== src/Http.antt =====
-- shared/src/http.rs: the host of a plaintext request, read from the first bytes of a connection.
pub mod Stable
use lfp_pipe.Base.{
  ℕ, zero, suc, ◌+◌, Bool, true, false, ◌&&◌, ◌||◌, Option, none, some, List, [], ◌∷◌, map, any,
  take, drop, ◌==◌, if◌then◌else◌,
}
use lfp_pipe.Text.{codes}
use lfp_pipe.Text.Ascii.{Str, eq_ignore_ascii_case}
use lfp_pipe.Text.Affix.{starts_with, strip_prefix, trim_end_matches}
use lfp_pipe.Text.Split.{split, split_once}
use lfp_pipe.Text.White.{trim, is_empty}
use lfp_pipe.Text.Utf8.{is_utf8}

abbrev pub one_later : Option ℕ → Option ℕ
one_later none = none
one_later (some i) = some (suc i)

-- `payload.windows(4).position(|window| window == b"\r\n\r\n")`, for any pattern.
unfoldable pub position : Str → Str → Option ℕ
position pattern [] = none
position pattern (b ∷ bytes) =
    if starts_with (b ∷ bytes) pattern then some 0 else one_later (position pattern bytes)

abbrev pub header_end : Str
header_end = b'\r' ∷ b'\n' ∷ b'\r' ∷ b'\n' ∷ []

abbrev pub methods : List Str
methods =
    codes "GET "
    ∷ codes "POST "
    ∷ codes "HEAD "
    ∷ codes "PUT "
    ∷ codes "PATCH "
    ∷ codes "DELETE "
    ∷ codes "OPTIONS "
    ∷ codes "TRACE "
    ∷ codes "CONNECT "
    ∷ codes "PRI * HTTP/2.0"
    ∷ []

-- One of two texts goes on where the other ends.
unfoldable pub comparable : Str → Str → Bool
comparable payload method = starts_with method payload || starts_with payload method

unfoldable pub looks_like_http_prefix : Str → Bool
looks_like_http_prefix payload = any (comparable payload) methods

-- `text.lines()`: the pieces between newlines, each without one carriage return at its end. A last
-- piece with no newline behind it stays as it is, and is dropped where it is empty.
unfoldable pub strip_cr : Str → Str
strip_cr [] = []
strip_cr (c ∷ []) = if c == b'\r' then [] else c ∷ []
strip_cr (c ∷ d ∷ s) = c ∷ strip_cr (d ∷ s)

unfoldable pub lines_of : List Str → List Str
lines_of [] = []
lines_of (w ∷ []) = if is_empty w then [] else w ∷ []
lines_of (w ∷ v ∷ ws) = strip_cr w ∷ lines_of (v ∷ ws)

abbrev pub lines : Str → List Str
lines s = lines_of (split b'\n' s)

-- `text.split(c).next()`.
abbrev first_piece : List Str → Str
first_piece [] = []
first_piece (w ∷ ws) = w

unfoldable pub strip_port : Str → Str
strip_port host = elim (strip_prefix host (codes "[")) [
  | some stripped ↦ first_piece (split b']' stripped)
  | none ↦ first_piece (split b':' host)
]

-- The loop over the header lines. An empty `Host` ends it as well.
unfoldable pub host_of_lines : List Str → Option Str
host_of_lines [] = none
host_of_lines (line ∷ more) = elim (split_once b':' (trim_end_matches b'\r' line)) [
  | none ↦ host_of_lines more
  | some (name, value) ↦
      let rest = host_of_lines more in
      let host = trim value in
      if eq_ignore_ascii_case name (codes "host")
      then (if is_empty host then none else some (strip_port host))
      else rest
]

-- The host in a header block.
unfoldable pub host_of_headers : Str → Option Str
host_of_headers headers = if is_utf8 headers then host_of_lines (drop 1 (lines headers)) else none

unfoldable pub extract_http_host : Str → Option Str
extract_http_host payload =
    if looks_like_http_prefix payload
    then elim (position header_end payload) [
      | none ↦ none
      | some index ↦ host_of_headers (take (index + 4) payload)
    ]
    else none
