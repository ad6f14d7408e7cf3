-- ===== src/Http/Stable.antt =====
-- shared/src/http.rs on a payload and on a longer one.
use lfp_pipe.Base.{
  ℕ, zero, suc, ◌+◌, ◌≤◌, ◌≡◌, refl, ap, ◌∙◌, Bool, true, false, ◌&&◌, Option, none, some, List, [],
  ◌∷◌, ◌++◌, arith, any, All, take, length, Bool-cases, Option-cases, inl, inr, ◌==◌,
}
use lfp_pipe.Text.Ascii.{Str}
use lfp_pipe.Text.Affix.{starts_with, starts_with_iff}
use lfp_pipe.Http.{
  one_later, position, header_end, methods, comparable, looks_like_http_prefix, extract_http_host,
}

starts_with-more : (s p m : Str) → starts_with s p ≡ true → starts_with (s ++ m) p ≡ true
unfolding starts_with
starts_with-more s [] m h = refl
starts_with-more [] (x ∷ p) m h = cc
starts_with-more (y ∷ s) (x ∷ p) m h = ground (arith, starts_with-more s p m)

-- A pattern that a text does not hold at a place may not begin there with more bytes, if it fits.
starts_with-fits : (s p m : Str) → length p ≤ length s → starts_with (s ++ m) p ≡ starts_with s p
unfolding starts_with
starts_with-fits s [] m h = refl
starts_with-fits [] (x ∷ p) m h = absurd (omega arith)
starts_with-fits (y ∷ s) (x ∷ p) m h = ap (λ t. y == x && t) (starts_with-fits s p m (omega arith))

starts_with-length : (s p : Str) → starts_with s p ≡ true → length p ≤ length s
unfolding starts_with
starts_with-length s [] h = omega arith
starts_with-length [] (x ∷ p) h = cc
starts_with-length (y ∷ s) (x ∷ p) h = omega (arith, starts_with-length s p (ground arith))

one_later-some :
    (o : Option ℕ) {i : ℕ} → one_later o ≡ some i → (j : ℕ) × (o ≡ some j) × (i ≡ suc j)
one_later-some none h = cc
one_later-some (some j) h = (j, refl, cc)

position_fits : (p s : Str) (i : ℕ) → position p s ≡ some i → i + length p ≤ length s
unfolding position
position_fits p [] i h = cc
position_fits p (b ∷ s) i h = elim (Bool-cases (starts_with (b ∷ s) p)) [
  | inl t ↦ let e : i ≡ 0 = cc (rw t at h) in omega (arith, starts_with-length (b ∷ s) p t)
  | inr f ↦
      let (j, e, q) = one_later-some (position p s) (rw f at h) in
      omega (arith, position_fits p s j e)
]

pub position-more : (p s m : Str) (i : ℕ) → position p s ≡ some i → position p (s ++ m) ≡ some i
unfolding position
position-more p [] m i h = cc
position-more p (b ∷ s) m i h = elim (Bool-cases (starts_with (b ∷ s) p)) [
  | inl t ↦ let e : some 0 ≡ some i = rw t at h in rw (starts_with-more (b ∷ s) p m t) e
  | inr f ↦
      let (j, e, q) = one_later-some (position p s) (rw f at h) in
      let later : starts_with (b ∷ (s ++ m)) p ≡ false =
        starts_with-fits (b ∷ s) p m (omega (arith, position_fits p s j e)) ∙ f in
      rw (later, position-more p s m j e) cc
]

pub take-append :
    {A : Type 0} (n : ℕ) (xs ys : List A) → n ≤ length xs → take n (xs ++ ys) ≡ take n xs
take-append zero xs ys h = refl
take-append (suc n) [] ys h = absurd (omega arith)
take-append (suc n) (x ∷ xs) ys h = ap (◌∷◌ x) (take-append n xs ys (omega arith))

-- Fewer bytes rule out fewer methods.
comparable-fewer : (s m p : Str) → comparable (s ++ m) p ≡ true → comparable s p ≡ true
unfolding comparable starts_with
comparable-fewer [] m p h = refl
comparable-fewer (y ∷ s) m [] h = refl
comparable-fewer (y ∷ s) m (x ∷ p) h = ground (arith, comparable-fewer s m p)

any-map :
    {A : Type 0} (p q : A → Bool) (xs : List A)
    → ((x : A) → p x ≡ true → q x ≡ true)
    → any p xs ≡ true
    → any q xs ≡ true
any-map p q [] f h = cc
any-map p q (x ∷ xs) f h = ground (arith, f x, any-map p q xs f)

looks_like_http_prefix-fewer :
    (s m : Str) → looks_like_http_prefix (s ++ m) ≡ true → looks_like_http_prefix s ≡ true
unfolding looks_like_http_prefix
looks_like_http_prefix-fewer s m h =
    any-map (comparable (s ++ m)) (comparable s) methods (comparable-fewer s m) h

-- Bytes that are no prefix of a request stay none.
pub looks_like_http_prefix-none :
    (s m : Str) → looks_like_http_prefix s ≡ false → looks_like_http_prefix (s ++ m) ≡ false
looks_like_http_prefix-none s m h = elim (Bool-cases (looks_like_http_prefix (s ++ m))) [
  | inl t ↦ cc (h, looks_like_http_prefix-fewer s m t)
  | inr f ↦ f
]

comparable-more :
    (s m p : Str) (i : ℕ)
    → position header_end s ≡ some i
    → position header_end p ≡ none
    → comparable s p ≡ true
    → comparable (s ++ m) p ≡ true
unfolding comparable
comparable-more s m p i h n c = elim (Bool-cases (starts_with s p)) [
  | inl t ↦ rw (starts_with-more s p m t) (ground arith)
  | inr f ↦
      let (r, e) = (starts_with_iff p s).0 (ground arith) in
      cc (n, ap (position header_end) e, position-more header_end s r i h)
]

any-All :
    {A : Type 0} (P : A → Type 0) (p q : A → Bool) (xs : List A)
    → ((x : A) → P x → p x ≡ true → q x ≡ true)
    → All P xs
    → any p xs ≡ true
    → any q xs ≡ true
any-All P p q [] f a h = cc
any-All P p q (x ∷ xs) f a h = ground (arith, f x a.0, any-All P p q xs f a.1)

abbrev Unfinished : Str → Type 0
Unfinished p = position header_end p ≡ none

methods-Unfinished : All Unfinished methods
unfolding position starts_with
methods-Unfinished =
    (refl, (refl, (refl, (refl, (refl, (refl, (refl, (refl, (refl, (refl, tt))))))))))

-- Bytes that hold a whole header block look like a request for good.
pub looks_like_http_prefix-more :
    (s m : Str) (i : ℕ)
    → position header_end s ≡ some i
    → looks_like_http_prefix s ≡ true
    → looks_like_http_prefix (s ++ m) ≡ true
unfolding looks_like_http_prefix
looks_like_http_prefix-more s m i h =
    any-All Unfinished (comparable s) (comparable (s ++ m)) methods
      (λ p n c. comparable-more s m p i h n c) methods-Unfinished

-- Once the header block is complete, the host read from it is the one read from any longer payload.
pub extract_http_host-more :
    (s m : Str) (i : ℕ)
    → position header_end s ≡ some i
    → extract_http_host (s ++ m) ≡ extract_http_host s
unfolding extract_http_host
extract_http_host-more s m i h = elim (Bool-cases (looks_like_http_prefix s)) [
  | inr f ↦ rw (f, looks_like_http_prefix-none s m f) refl
  | inl t ↦
      let fits : i + 4 ≤ length s = position_fits header_end s i h in
      rw
        (
          t,
          looks_like_http_prefix-more s m i h t,
          h,
          position-more header_end s m i h,
          take-append (i + 4) s m fits,
        )
        refl
]

-- A host comes from a complete header block.
extract_http_host_complete :
    (s host : Str) → extract_http_host s ≡ some host → (i : ℕ) × (position header_end s ≡ some i)
unfolding extract_http_host
extract_http_host_complete s host h = elim (Option-cases (position header_end s)) [
  | inr found ↦ found
  | inl n ↦ elim (Bool-cases (looks_like_http_prefix s)) [
    | inl t ↦ cc (rw (t, n) at h)
    | inr f ↦ cc (rw f at h)
  ]
]

-- Without one there is none.
pub extract_http_host-incomplete :
    (s : Str) → position header_end s ≡ none → extract_http_host s ≡ none
extract_http_host-incomplete s n = elim (Option-cases (extract_http_host s)) [
  | inl e ↦ e
  | inr (host, e) ↦ let (i, f) = extract_http_host_complete s host e in cc
]

pub extract_http_host-other :
    (s : Str) → looks_like_http_prefix s ≡ false → extract_http_host s ≡ none
unfolding extract_http_host
extract_http_host-other s f = rw f refl
