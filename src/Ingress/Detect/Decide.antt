-- ===== src/Ingress/Detect/Decide.antt =====
-- The decision of `detect_hostname` (ingress/src/lib.rs) on a preface and on a longer one.
use lfp_pipe.Base.{
  ℕ, zero, suc, ◌≤◌, ◌<◌, ◌≡◌, ◌≢◌, refl, sym, ap, ◌∙◌, true, false, Option, none, some, [], ◌∷◌,
  ◌++◌, arith, length, length-append, take, get_elem?, ltb, ◌==◌, if◌then◌else◌, Bool-cases,
  Option-cases, inl, inr, ok,
}
use mathlib.Core.List.{append-nil}
use lfp_pipe.Text.Ascii.{Str}
use lfp_pipe.Http.{extract_http_host, looks_like_http_prefix, position, header_end}
use lfp_pipe.Http.Stable.{
  take-append, position-more, looks_like_http_prefix-none, looks_like_http_prefix-more,
  extract_http_host-more, extract_http_host-incomplete, extract_http_host-other,
}
use lfp_pipe.Tls.{validate_tls_record_header}
use lfp_pipe.Ingress.Detect.{
  SniParser, Decision, more, done, fail, hello_too_large, headers_too_large, record_length,
  sni_decision, decide_tls, http_decision, decide_http, decide, max_preface_bytes, tls_header_bytes,
}

get_elem?-append : (i : ℕ) (s m : Str) → i < length s → get_elem? (s ++ m) i ≡ get_elem? s i
get_elem?-append i [] m h = absurd (omega arith)
get_elem?-append zero (x ∷ s) m h = refl
get_elem?-append (suc i) (x ∷ s) m h = get_elem?-append i s m (omega arith)

record_length-append :
    (s m : Str) → tls_header_bytes ≤ length s → record_length (s ++ m) ≡ record_length s
record_length-append s m h =
    rw (get_elem?-append 3 s m (omega arith), get_elem?-append 4 s m (omega arith)) refl

validated : (s : Str) → 5 ≤ length (0x16 ∷ s) → validate_tls_record_header (0x16 ∷ s) ≡ ok tt
unfolding validate_tls_record_header
validated s h = ground arith

-- The decision on a TLS record in other words, without the check of its header, which holds.
tls_rule : SniParser → Str → Decision
tls_rule extract_sni buf =
    if ltb (length buf) tls_header_bytes
    then more
    else if ltb max_preface_bytes (record_length buf)
    then fail hello_too_large
    else if ltb (length buf) (record_length buf)
    then more
    else sni_decision (extract_sni (take (record_length buf) buf))

decide_tls-rule :
    (extract_sni : SniParser) (s : Str)
    → decide_tls extract_sni (0x16 ∷ s) ≡ tls_rule extract_sni (0x16 ∷ s)
unfolding decide_tls tls_rule
decide_tls-rule extract_sni s = elim (Bool-cases (ltb (length (0x16 ∷ s)) 5)) [
  | inl t ↦ rw t refl
  | inr f ↦ rw (f, validated s (ground arith)) refl
]

tls_rule-stable :
    (extract_sni : SniParser) (s m : Str)
    → tls_rule extract_sni s ≢ more
    → tls_rule extract_sni (s ++ m) ≡ tls_rule extract_sni s
unfolding tls_rule
tls_rule-stable extract_sni s m h = elim (Bool-cases (ltb (length s) 5)) [
  | inl t ↦ absurd (h (rw t refl))
  | inr f ↦ elim (Bool-cases (ltb (length s) (record_length s))) [
    | inl t ↦ elim (Bool-cases (ltb max_preface_bytes (record_length s))) [
      | inl big ↦
          let long : ltb (length (s ++ m)) 5 ≡ false = ground (arith, length-append s m) in
          rw (f, long, record_length-append s m (ground arith), big) refl
      | inr small ↦ absurd (h (rw (f, small, t) refl))
    ]
    | inr g ↦
        let long : ltb (length (s ++ m)) 5 ≡ false = ground (arith, length-append s m) in
        let r : record_length (s ++ m) ≡ record_length s =
          record_length-append s m (ground arith) in
        let full : ltb (length (s ++ m)) (record_length s) ≡ false =
          ground (arith, length-append s m) in
        rw (f, long, r, g, full, take-append (record_length s) s m (ground arith)) refl
  ]
]

no_room :
    (s m : Str)
    → ltb (length s) max_preface_bytes ≡ false
    → length (s ++ m) ≤ max_preface_bytes
    → m ≡ []
no_room s [] h fits = refl
no_room s (x ∷ m) h fits = absurd (ground (arith, length-append s (x ∷ m)))

http_decision-more :
    (o : Option Str) (s m : Str) (i : ℕ)
    → position header_end s ≡ some i
    → http_decision o (s ++ m) ≡ http_decision o s
http_decision-more (some host) s m i h = refl
http_decision-more none s m i h = elim (Bool-cases (looks_like_http_prefix s)) [
  | inr f ↦ rw (f, looks_like_http_prefix-none s m f) refl
  | inl t ↦ rw (t, looks_like_http_prefix-more s m i h t, h, position-more header_end s m i h) refl
]

same_host :
    (s m : Str) (i : ℕ) → position header_end s ≡ some i → decide_http (s ++ m) ≡ decide_http s
unfolding decide_http
same_host s m i h =
    ap (λ o. http_decision o (s ++ m)) (extract_http_host-more s m i h)
    ∙ http_decision-more (extract_http_host s) s m i h

unknown_host : (s : Str) → looks_like_http_prefix s ≡ false → decide_http s ≡ done none false
unfolding decide_http
unknown_host s f = ap (λ o. http_decision o s) (extract_http_host-other s f) ∙ rw f refl

unfinished_host :
    (s : Str)
    → looks_like_http_prefix s ≡ true
    → position header_end s ≡ none
    → decide_http s ≡ (if ltb (length s) max_preface_bytes then more else fail headers_too_large)
unfolding decide_http
unfinished_host s t n =
    ap (λ o. http_decision o s) (extract_http_host-incomplete s n) ∙ rw (t, n) refl

decide_http-stable :
    (s m : Str)
    → decide_http s ≢ more
    → length (s ++ m) ≤ max_preface_bytes
    → decide_http (s ++ m) ≡ decide_http s
decide_http-stable s m h fits = elim (Option-cases (position header_end s)) [
  | inr (i, e) ↦ same_host s m i e
  | inl n ↦ elim (Bool-cases (looks_like_http_prefix s)) [
    | inr f ↦ unknown_host (s ++ m) (looks_like_http_prefix-none s m f) ∙ sym (unknown_host s f)
    | inl t ↦ elim (Bool-cases (ltb (length s) max_preface_bytes)) [
      | inl room ↦ absurd (h (unfinished_host s t n ∙ rw room refl))
      | inr full ↦ rw (no_room s m full fits, append-nil s) refl
    ]
  ]
]

-- What the first bytes decide, any longer preface decides.
pub decide-stable :
    (extract_sni : SniParser) (s m : Str)
    → decide extract_sni s ≢ more
    → length (s ++ m) ≤ max_preface_bytes
    → decide extract_sni (s ++ m) ≡ decide extract_sni s
unfolding decide
decide-stable extract_sni [] m h fits = absurd (h refl)
decide-stable extract_sni (b ∷ s) m h fits = elim (Bool-cases (b == 0x16)) [
  | inr f ↦ rw f (decide_http-stable (b ∷ s) m (λ e. h (rw f e)) fits)
  | inl t ↦
      let e : b ≡ 0x16 = ground arith in
      rw (t, e, decide_tls-rule extract_sni (s ++ m), decide_tls-rule extract_sni s)
        (tls_rule-stable extract_sni (0x16 ∷ s) m
          (λ q. h (rw (t, e) (decide_tls-rule extract_sni s ∙ q))))
]

http_decision-full :
    (o : Option Str) (s : Str) → max_preface_bytes ≤ length s → http_decision o s ≢ more
http_decision-full (some host) s h = cc
http_decision-full none s h = ground arith

http_full : (s : Str) → max_preface_bytes ≤ length s → decide_http s ≢ more
unfolding decide_http
http_full s h = http_decision-full (extract_http_host s) s h

sni_decision-ne-more : (o : Option (Option Str)) → sni_decision o ≢ more
sni_decision-ne-more none h = cc
sni_decision-ne-more (some x) h = cc

tls_full :
    (extract_sni : SniParser) (s : Str)
    → max_preface_bytes ≤ length s
    → tls_rule extract_sni s ≢ more
unfolding tls_rule
tls_full extract_sni s h q =
    ground (arith, sni_decision-ne-more (extract_sni (take (record_length s) s)))

-- A full preface leaves nothing to wait for.
pub decide-full :
    (extract_sni : SniParser) (s : Str) → max_preface_bytes ≤ length s → decide extract_sni s ≢ more
unfolding decide
decide-full extract_sni [] h = absurd (omega arith)
decide-full extract_sni (b ∷ s) h = elim (Bool-cases (b == 0x16)) [
  | inr f ↦ rw f (http_full (b ∷ s) h)
  | inl t ↦
      let e : b ≡ 0x16 = ground arith in
      rw (t, e, decide_tls-rule extract_sni s) (tls_full extract_sni (0x16 ∷ s) h)
]
