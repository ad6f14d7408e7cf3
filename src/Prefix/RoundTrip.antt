-- ===== src/Prefix/RoundTrip.antt =====
-- `encode_line` and `decode_line` (shared/src/prefix.rs) together.
use lfp_pipe.Base.{
  ℕ, ◌≡◌, ◌≢◌, refl, ap, ◌∙◌, Bool, true, false, not, ◌||◌, some, [], ◌∷◌, ◌++◌, arith, all, ◌==◌,
  ok,
}
use lfp_pipe.Text.Ascii.{Str, is_ascii_alphanumeric}
use lfp_pipe.Text.Affix.{trim_cons, trim_end_matches, LastNe, trim_end_matches_self}
use lfp_pipe.Text.White.{is_empty}
use lfp_pipe.Text.Utf8.{lead, next_byte, valid_from, is_utf8}
use lfp_pipe.Prefix.{PrefixEnvelope, Codec, current_version, encode_line, decode_line, trim_line}

-- The bytes of a base64 text: letters, digits, `+`, `/` and `=`.
unfoldable pub is_base64_byte : ℕ → Bool
is_base64_byte c = is_ascii_alphanumeric c || c == b'+' || c == b'/' || c == b'='

-- What the crates do with one envelope: its JSON reads back, and the base64 of that is text of the
-- alphabet which decodes to it.
pub record Carries (codec : Codec) (e : PrefixEnvelope) (json : Str) : Type 0 where
  pub writes : codec.to_json e ≡ some json
  pub reads : codec.from_json json ≡ some e
  pub decodes : codec.decode64 (codec.encode64 json) ≡ some json
  pub alphabet : all is_base64_byte (codec.encode64 json) ≡ true
  pub given : codec.encode64 json ≢ []

trim_end_matches-concat :
    (c : ℕ) (s : Str) → trim_end_matches c (s ++ c ∷ []) ≡ trim_end_matches c s
unfolding trim_end_matches trim_cons
trim_end_matches-concat c [] = ground arith
trim_end_matches-concat c (x ∷ s) = ap (trim_cons c x) (trim_end_matches-concat c s)

all-LastNe : (c : ℕ) (p : ℕ → Bool) (s : Str) → p c ≡ false → all p s ≡ true → LastNe c s
all-LastNe c p [] n h = tt
all-LastNe c p (x ∷ []) n h = λ e. let t : p x ≡ true = ground arith in cc (n, ap p e, t)
all-LastNe c p (x ∷ y ∷ s) n h = all-LastNe c p (y ∷ s) n (ground arith)

base64-ascii : (c : ℕ) → is_base64_byte c ≡ true → next_byte lead c ≡ lead
unfolding is_base64_byte is_ascii_alphanumeric next_byte
base64-ascii c h = ground arith

utf8-line : (s : Str) → all is_base64_byte s ≡ true → valid_from lead (s ++ b'\n' ∷ []) ≡ true
unfolding valid_from
utf8-line [] h = refl
utf8-line (c ∷ s) h =
    ap (λ e. valid_from e (s ++ b'\n' ∷ [])) (base64-ascii c (ground arith))
    ∙ utf8-line s (ground arith)

pub not_newline : is_base64_byte b'\n' ≡ false
unfolding is_base64_byte is_ascii_alphanumeric
not_newline = refl

not_return : is_base64_byte b'\r' ≡ false
unfolding is_base64_byte is_ascii_alphanumeric
not_return = refl

trim_line-line : (s : Str) → all is_base64_byte s ≡ true → trim_line (s ++ b'\n' ∷ []) ≡ s
trim_line-line s h =
    ap (trim_end_matches b'\r') (
      trim_end_matches-concat b'\n' s
      ∙ trim_end_matches_self b'\n' s (all-LastNe b'\n' is_base64_byte s not_newline h))
    ∙ trim_end_matches_self b'\r' s (all-LastNe b'\r' is_base64_byte s not_return h)

module _ (codec : Codec) (e : PrefixEnvelope) (json : Str) (carried : Carries codec e json) where
  pub encode_line_lem : encode_line codec e ≡ ok (codec.encode64 json ++ b'\n' ∷ [])
  unfolding encode_line
  encode_line_lem = rw carried.writes refl

  utf8 : is_utf8 (codec.encode64 json ++ b'\n' ∷ []) ≡ true
  unfolding is_utf8
  utf8 = utf8-line (codec.encode64 json) carried.alphabet

  not_empty : not (is_empty (codec.encode64 json)) ≡ true
  not_empty = ground (arith, carried.given)

  -- The line that a client writes for an envelope of this version decodes to that envelope.
  pub decode_line-encode_line :
      e.version ≡ current_version → decode_line codec (codec.encode64 json ++ b'\n' ∷ []) ≡ ok e
  unfolding decode_line
  decode_line-encode_line v =
      rw
        (
          utf8,
          trim_line-line (codec.encode64 json) carried.alphabet,
          not_empty,
          carried.decodes,
          carried.reads,
          v,
        )
        refl

-- A line is accepted only for an envelope of this version.
pub decode_line-version :
    (codec : Codec) (line : Str) (e : PrefixEnvelope)
    → decode_line codec line ≡ ok e
    → e.version ≡ current_version
unfolding decode_line
decode_line-version codec line e h = ground arith
