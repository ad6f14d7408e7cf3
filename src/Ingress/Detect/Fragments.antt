-- ===== src/Ingress/Detect/Fragments.antt =====
-- `detect_hostname` (ingress/src/lib.rs) and the reads that bring it the bytes of a connection.
use lfp_pipe.Base.{
  ℕ, zero, suc, ◌≤◌, ◌<◌, ◌≡◌, ◌≢◌, ◌⊎◌, refl, sym, ap, subst, ◌∙◌, true, false, Option, none, some,
  List, [], ◌∷◌, ◌++◌, arith, length, length-append, take, drop, take-append-drop, Bool-cases, inl,
  inr, All, Result, ok, err, ok-injective,
}
use mathlib.Core.List.{append-nil, append_assoc}
use lfp_pipe.Text.Ascii.{Str}
use lfp_pipe.Text.White.{is_empty}
use lfp_pipe.Ingress.Detect.{
  SniParser, Decision, more, done, fail, DetectError, read_failed, timed_out, ReadEvent, ready,
  broken, Detected, detected, decide, follow, chunk_len, detect_hostname, max_preface_bytes,
}
use lfp_pipe.Ingress.Detect.Decide.{decide-stable, decide-full}

-- Where the loop ended by itself, what it decided.
abbrev pub verdict_of : Result DetectError Detected → Option Decision
verdict_of (ok d) = some (done d.hostname d.tls)
verdict_of (err timed_out) = none
verdict_of (err read_failed) = none
verdict_of (err e) = some (fail e)

-- A read that returns bytes, or fails.
abbrev pub Arrives : ReadEvent → Type 0
Arrives (ready n) = 0 < n
Arrives broken = Unit

-- The decision that a whole stream has: that of a prefix which decides, or none at the end of the stream.
data Settles (extract_sni : SniParser) (stream : Str) (verdict : Decision) : Type 0 where
  early :
      (p r : Str)
      → stream ≡ p ++ r
      → length p ≤ max_preface_bytes
      → decide extract_sni p ≡ verdict
      → verdict ≢ more
      → Settles extract_sni stream verdict
  at_end :
      decide extract_sni stream ≡ more
      → length stream ≤ max_preface_bytes
      → verdict ≡ done none false
      → Settles extract_sni stream verdict

prefixes_compare :
    (p q r s : Str) → p ++ r ≡ q ++ s → ((x : Str) × (q ≡ p ++ x)) ⊎ ((x : Str) × (p ≡ q ++ x))
prefixes_compare [] q r s e = inl (q, refl)
prefixes_compare (a ∷ p) [] r s e = inr (a ∷ p, refl)
prefixes_compare (a ∷ p) (b ∷ q) r s e = elim (prefixes_compare p q r s cc) [
  | inl (x, f) ↦ inl (x, cc)
  | inr (x, f) ↦ inr (x, cc)
]

module _ (extract_sni : SniParser) where
  stable_prefix :
      (p q x : Str) (v : Decision)
      → q ≡ p ++ x
      → length q ≤ max_preface_bytes
      → decide extract_sni p ≡ v
      → v ≢ more
      → decide extract_sni q ≡ v
  stable_prefix p q x v e fits d ne =
      ap (decide extract_sni) e
      ∙ decide-stable extract_sni p x (λ m. ne (sym d ∙ m))
          (subst (λ t. length t ≤ max_preface_bytes) e fits)
      ∙ d

  Settles-unique :
      (stream : Str) (v w : Decision)
      → Settles extract_sni stream v
      → Settles extract_sni stream w
      → v ≡ w
  Settles-unique stream v w (early p r e fits d ne) (early q s f fits' d' ne') =
      elim (prefixes_compare p q r s (sym e ∙ f)) [
        | inl (x, g) ↦ sym (stable_prefix p q x v g fits' d ne) ∙ d'
        | inr (x, g) ↦ sym d ∙ stable_prefix q p x w g fits d' ne'
      ]
  Settles-unique stream v w (early p r e fits d ne) (at_end m all f) =
      absurd (ne (sym (stable_prefix p stream r v e all d ne) ∙ m))
  Settles-unique stream v w (at_end m all f) (early p r e fits d ne) =
      absurd (ne (sym (stable_prefix p stream r w e all d ne) ∙ m))
  Settles-unique stream v w (at_end m all f) (at_end m' all' f') = f ∙ sym f'

  empty_chunk : (n : ℕ) (stream : Str) → 0 < n → is_empty (take n stream) ≡ true → stream ≡ []
  empty_chunk zero stream h e = elim h [ ]
  empty_chunk (suc n) [] h e = refl
  empty_chunk (suc n) (x ∷ stream) h e = cc

  length_chunk : (n : ℕ) (stream : Str) → length (take n stream) ≤ n
  length_chunk zero stream = omega arith
  length_chunk (suc n) [] = omega arith
  length_chunk (suc n) (x ∷ stream) = omega (arith, length_chunk n stream)

  room_left : (buf : Str) → decide extract_sni buf ≡ more → length buf < max_preface_bytes
  room_left buf d =
      ground (arith, λ (h : max_preface_bytes ≤ length buf). decide-full extract_sni buf h d)

  fits_chunk :
      (buf stream : Str) (n : ℕ)
      → length buf ≤ max_preface_bytes
      → length (buf ++ take (chunk_len buf n) stream) ≤ max_preface_bytes
  fits_chunk buf stream n h = omega (
    arith,
    length-append buf (take (chunk_len buf n) stream),
    length_chunk (chunk_len buf n) stream,
  )

  same_stream : (buf stream : Str) (n : ℕ) → (buf ++ take n stream) ++ drop n stream ≡ buf ++ stream
  same_stream buf stream n =
      append_assoc buf (take n stream) (drop n stream)
      ∙ ap (λ t. buf ++ t) (take-append-drop n stream)

  failed : (x : DetectError) (v : Decision) → verdict_of (err x) ≡ some v → v ≡ fail x
  failed x v h = ground arith

  decide_nothing : decide extract_sni [] ≡ more
  unfolding decide
  decide_nothing = refl

  settle_follow :
      (d : Decision) (continue : Result DetectError Detected) (p unread stream : Str) (v : Decision)
      → stream ≡ p ++ unread
      → length p ≤ max_preface_bytes
      → decide extract_sni p ≡ d
      → (d ≡ more → verdict_of continue ≡ some v → Settles extract_sni stream v)
      → verdict_of (follow d continue p unread) ≡ some v
      → Settles extract_sni stream v
  settle_follow more continue p unread stream v e fits q later h = later refl h
  settle_follow (done host tls) continue p unread stream v e fits q later h =
      early p unread e fits (q ∙ cc) (λ m. cc)
  settle_follow (fail x) continue p unread stream v e fits q later h =
      let g : v ≡ fail x = failed x v h in early p unread e fits (q ∙ sym g) (λ m. cc)

  -- A run that ends by itself ends with the decision that the stream has.
  run-Settles :
      (events : List ReadEvent) (buf stream : Str) (v : Decision)
      → All Arrives events
      → length buf ≤ max_preface_bytes
      → decide extract_sni buf ≡ more
      → verdict_of (detect_hostname extract_sni events buf stream) ≡ some v
      → Settles extract_sni (buf ++ stream) v
  unfolding detect_hostname
  run-Settles [] buf stream v a fits m h = cc
  run-Settles (broken ∷ events) buf stream v a fits m h = cc
  run-Settles (ready n ∷ events) buf stream v a fits m h =
      elim (Bool-cases (is_empty (take (chunk_len buf n) stream))) [
        | inl closed ↦
            let nothing : stream ≡ [] =
              empty_chunk (chunk_len buf n) stream (omega (arith, a.0, room_left buf m)) closed in
            let all : buf ++ stream ≡ buf = ap (λ t. buf ++ t) nothing ∙ append-nil buf in
            let v_is : v ≡ done none false = cc (rw closed at h) in
            at_end (ap (decide extract_sni) all ∙ m) (rw all fits) v_is
        | inr open_still ↦
            let chunk = take (chunk_len buf n) stream in
            let unread = drop (chunk_len buf n) stream in
            settle_follow (decide extract_sni (buf ++ chunk))
              (detect_hostname extract_sni events (buf ++ chunk) unread) (buf ++ chunk) unread
              (buf ++ stream) v (sym (same_stream buf stream (chunk_len buf n)))
              (fits_chunk buf stream n fits) refl
              (λ d later.
                subst (λ t. Settles extract_sni t v) (same_stream buf stream (chunk_len buf n))
                  (run-Settles events (buf ++ chunk) unread v a.1 (fits_chunk buf stream n fits) d
                    later))
              (rw open_still at h)
      ]

  -- Two runs over the same stream that both end by themselves end alike, with the same host or with
  -- the same error, however the network cuts the stream into reads.
  pub detect_hostname-fragments :
      (events others : List ReadEvent) (stream : Str) (v w : Decision)
      → All Arrives events
      → All Arrives others
      → verdict_of (detect_hostname extract_sni events [] stream) ≡ some v
      → verdict_of (detect_hostname extract_sni others [] stream) ≡ some w
      → v ≡ w
  detect_hostname-fragments events others stream v w a b h k =
      Settles-unique stream v w (run-Settles events [] stream v a (omega arith) decide_nothing h)
        (run-Settles others [] stream w b (omega arith) decide_nothing k)

  preface_follow :
      (x : Decision) (continue : Result DetectError Detected) (p unread stream : Str) (d : Detected)
      → p ++ unread ≡ stream
      → length p ≤ max_preface_bytes
      → (continue ≡ ok d
          → (d.preface ++ d.unread ≡ stream) × (length d.preface ≤ max_preface_bytes))
      → follow x continue p unread ≡ ok d
      → (d.preface ++ d.unread ≡ stream) × (length d.preface ≤ max_preface_bytes)
  preface_follow more continue p unread stream d e fits later h = later h
  preface_follow (done host tls) continue p unread stream d e fits later h =
      subst (λ r. (r.preface ++ r.unread ≡ stream) × (length r.preface ≤ max_preface_bytes))
        (ok-injective h) (e, fits)
  preface_follow (fail x) continue p unread stream d e fits later h = cc

  run_preface :
      (events : List ReadEvent) (buf stream : Str) (d : Detected)
      → length buf ≤ max_preface_bytes
      → detect_hostname extract_sni events buf stream ≡ ok d
      → (d.preface ++ d.unread ≡ buf ++ stream) × (length d.preface ≤ max_preface_bytes)
  unfolding detect_hostname
  run_preface [] buf stream d fits h = cc
  run_preface (broken ∷ events) buf stream d fits h = cc
  run_preface (ready n ∷ events) buf stream d fits h =
      elim (Bool-cases (is_empty (take (chunk_len buf n) stream))) [
        | inl closed ↦
            let e : ok (detected none false buf stream) ≡ ok d = rw closed at h in
            subst
              (λ r.
                (r.preface ++ r.unread ≡ buf ++ stream) × (length r.preface ≤ max_preface_bytes))
              (ok-injective e) (refl, fits)
        | inr open_still ↦
            let chunk = take (chunk_len buf n) stream in
            let unread = drop (chunk_len buf n) stream in
            let whole = same_stream buf stream (chunk_len buf n) in
            preface_follow (decide extract_sni (buf ++ chunk))
              (detect_hostname extract_sni events (buf ++ chunk) unread) (buf ++ chunk) unread
              (buf ++ stream) d whole (fits_chunk buf stream n fits)
              (λ later.
                subst (λ t. (d.preface ++ d.unread ≡ t) × (length d.preface ≤ max_preface_bytes))
                  whole
                  (run_preface events (buf ++ chunk) unread d (fits_chunk buf stream n fits) later))
              (rw open_still at h)
      ]

  -- What a detection has read and what it has left unread are the stream, whole and in order, and it
  -- has read at most 16 KiB.
  pub detect_hostname-preface :
      (events : List ReadEvent) (stream : Str) (d : Detected)
      → detect_hostname extract_sni events [] stream ≡ ok d
      → (d.preface ++ d.unread ≡ stream) × (length d.preface ≤ max_preface_bytes)
  detect_hostname-preface events stream d = run_preface events [] stream d (omega arith)
