-- ===== src/Ingress/Callback/Bounds.antt =====
-- What `read_prefix` takes from the socket.
use lfp_pipe.Base.{
  ℕ, suc, ◌+◌, ◌≤◌, ◌≡◌, refl, ap, ◌∙◌, true, false, [], ◌∷◌, ◌++◌, arith, length, length-append,
  ltb, ◌==◌, Result, ok, err, bind-eq-ok, Bool-cases, inl, inr, all,
}
use mathlib.Core.List.{append_assoc, append-nil}
use lfp_pipe.Text.Ascii.{Str}
use lfp_pipe.Text.Affix.{contains}
use lfp_pipe.Prefix.{
  PrefixEnvelope, PrefixError, Codec, current_version, encode_line, decode_line, line_too_large,
}
use lfp_pipe.Prefix.RoundTrip.{
  Carries, is_base64_byte, not_newline, encode_line_lem, decode_line-encode_line,
  decode_line-version,
}
use lfp_pipe.Ingress.Callback.{Ending, max_line, read_line, read_prefix}

append-snoc : (l : Str) (b : ℕ) (w : Str) → (l ++ b ∷ []) ++ w ≡ l ++ b ∷ w
append-snoc l b w = append_assoc l (b ∷ []) w

length-snoc : (l : Str) (b : ℕ) → length (l ++ b ∷ []) ≡ length l + 1
length-snoc l b = length-append l (b ∷ [])

module _ (ending : Ending) where
  read_line-line :
      (line w rest : Str)
      → contains b'\n' w ≡ false
      → length line + length w ≤ max_line
      → read_line ending line (w ++ b'\n' ∷ rest) ≡ ok (line ++ w ++ b'\n' ∷ [], rest)
  unfolding read_line contains
  read_line-line line [] rest f h = rw (append-nil {A = ℕ} line) refl
  read_line-line line (b ∷ w) rest f h =
      let other : (b == b'\n') ≡ false = ground arith in
      let fits : ltb max_line (length (line ++ b ∷ [])) ≡ false =
        ground (arith, length-snoc line b) in
      rw (other, fits)
        (read_line-line (line ++ b ∷ []) w rest (ground arith) (omega (arith, length-snoc line b))
          ∙ ap (λ t. ok (t ++ b'\n' ∷ [], rest)) (append-snoc line b w))

  -- A line without a newline in its first 4097 bytes is refused there, whatever follows.
  read_line-long :
      (line w rest : Str)
      → contains b'\n' w ≡ false
      → length line ≤ max_line
      → length line + length w ≡ suc max_line
      → read_line ending line (w ++ rest) ≡ err line_too_large
  unfolding read_line contains
  read_line-long line [] rest f h e = absurd (omega arith)
  read_line-long line (b ∷ w) rest f h e =
      elim (Bool-cases (ltb max_line (length (line ++ b ∷ [])))) [
        | inl big ↦ let other : (b == b'\n') ≡ false = ground arith in rw (other, big) refl
        | inr small ↦
            let other : (b == b'\n') ≡ false = ground arith in
            rw (other, small)
              (read_line-long (line ++ b ∷ []) w rest (ground arith) (ground arith)
                (omega (arith, length-snoc line b)))
      ]

  -- What is read and what is left are the bytes that came, and the line has at most 4097 of them.
  read_line-parts :
      (line stream read rest : Str)
      → length line ≤ max_line
      → read_line ending line stream ≡ ok (read, rest)
      → (read ++ rest ≡ line ++ stream) × (length read ≤ suc max_line)
  unfolding read_line
  read_line-parts line [] read rest h e = cc
  read_line-parts line (b ∷ stream) read rest h e = elim (Bool-cases (b == b'\n')) [
    | inl newline ↦
        let q : ◌≡◌ {A = Result PrefixError (Str × Str)} (ok (line ++ b ∷ [], stream))
            (ok (read, rest)) =
          rw newline at e in
        let r : line ++ b ∷ [] ≡ read = cc in
        let t : stream ≡ rest = cc in
        (rw (← r, ← t) (append-snoc line b stream), rw (← r) (omega (arith, length-snoc line b)))
    | inr other ↦ elim (Bool-cases (ltb max_line (length (line ++ b ∷ [])))) [
      | inl big ↦ cc (rw (other, big) at e)
      | inr small ↦
          let (p, q) =
            read_line-parts (line ++ b ∷ []) stream read rest (ground arith)
              (rw (other, small) at e) in
          (p ∙ append-snoc line b stream, q)
    ]
  ]

-- A callback whose line exceeds 4096 bytes is refused, whatever it goes on with.
read_prefix-long :
    (codec : Codec) (ending : Ending) (w rest : Str)
    → contains b'\n' w ≡ false
    → length w ≡ suc max_line
    → read_prefix codec ending (w ++ rest) ≡ err line_too_large
unfolding read_prefix
read_prefix-long codec ending w rest f e =
    rw (read_line-long ending [] w rest f (omega arith) (omega arith)) refl

-- An accepted callback has the version of this build, and took a line of at most 4097 bytes off the
-- socket: that line and what is left are the bytes that came.
pub read_prefix-bounded :
    (codec : Codec) (ending : Ending) (stream : Str) (e : PrefixEnvelope) (rest : Str)
    → read_prefix codec ending stream ≡ ok (e, rest)
    → (e.version ≡ current_version)
      × ((line : Str) × (line ++ rest ≡ stream) × (length line ≤ suc max_line))
unfolding read_prefix
read_prefix-bounded codec ending stream e rest h =
    let (read, r, k) = bind-eq-ok (read_line ending [] stream) _ h in
    let (envelope, d, q) = bind-eq-ok (decode_line codec read.0) _ k in
    let same : envelope ≡ e = cc in
    let left : read.1 ≡ rest = cc in
    let (p, b) = read_line-parts ending [] stream read.0 read.1 (omega arith) r in
    (decode_line-version codec read.0 e (d ∙ ap ok same), (read.0, rw (← left) p, b))

no_newline : (s : Str) → all is_base64_byte s ≡ true → contains b'\n' s ≡ false
unfolding contains
no_newline [] h = refl
no_newline (c ∷ s) h = ground (arith, not_newline, no_newline s)

-- The ingress reads the envelope that a client wrote, and leaves every byte behind its line to the
-- relay. The encoded envelope has at most 4096 bytes.
pub read_prefix-encode_line :
    (codec : Codec) (ending : Ending) (e : PrefixEnvelope) (json rest : Str)
    → Carries codec e json
    → e.version ≡ current_version
    → length (codec.encode64 json) ≤ max_line
    → (line : Str) × (encode_line codec e ≡ ok line)
      × (read_prefix codec ending (line ++ rest) ≡ ok (e, rest))
unfolding read_prefix
read_prefix-encode_line codec ending e json rest c v h = (
  codec.encode64 json ++ b'\n' ∷ [],
  encode_line_lem codec e json c,
  rw
      (
        append-snoc (codec.encode64 json) b'\n' rest,
        read_line-line ending [] (codec.encode64 json) rest
            (no_newline (codec.encode64 json) c.alphabet) (omega arith),
        decode_line-encode_line codec e json c v,
      )
      refl,
)
