-- ===== src/Routing/Pattern.antt =====
-- `matches_pattern` (shared/src/routing.rs), and what each form of a pattern accepts.
use lfp_pipe.Base.{
  ℕ, suc, ◌+◌, ◌-◌, ◌<◌, ◌≡◌, ◌≢◌, ◌↔◌, refl, subst, ap, ◌∙◌, Bool, true, false, ◌&&◌, Option, none,
  some, [], ◌∷◌, ◌++◌, arith, ltb, ◌==◌, if◌then◌else◌, length, length-append, get_elem?,
  Bool-cases, Option-cases, inl, inr, is_some, not,
}
use lfp_pipe.Text.{codes}
use lfp_pipe.Text.Ascii.{Str, eq_ignore_ascii_case, eq_ignore_ascii_case_iff, to_ascii_lowercase}
use lfp_pipe.Text.Affix.{
  strip_prefix, strip_prefix-some, strip_prefix-append, ends_with, ends_with-some, ends_with-append,
}
use lfp_pipe.Text.White.{is_empty}

abbrev pub byte_is : Option ℕ → ℕ → Bool
byte_is none b = false
byte_is (some a) b = a == b

-- The test of a wildcard's suffix, on a hostname.
unfoldable pub matches_suffix : Str → Str → Bool
matches_suffix rest hostname =
    ends_with hostname rest
    && (ltb (length rest) (length hostname)
        && byte_is (get_elem? hostname (length hostname - length rest - 1)) b'.')

unfoldable pub matches_hostname : Str → Str → Bool
unfolding matches_suffix
matches_hostname pattern hostname = elim (strip_prefix pattern (codes "*.")) [
  | some rest ↦ matches_suffix rest hostname
  | none ↦ eq_ignore_ascii_case pattern hostname
]

unfoldable pub matches_pattern : Str → Option Str → Bool
unfolding matches_hostname
matches_pattern pattern hostname =
    if is_empty pattern
    then not (is_some hostname)
    else elim hostname [ none ↦ false | some h ↦ matches_hostname pattern h ]

-- What a pattern is meant to cover.
pub data Covers (pattern : Str) (hostname : Option Str) : Type 0 where
  default : pattern ≡ [] → hostname ≡ none → Covers pattern hostname
  wildcard :
      (rest sub : Str)
      → pattern ≡ codes "*." ++ rest
      → hostname ≡ some (sub ++ b'.' ∷ rest)
      → Covers pattern hostname
  exact :
      (h : Str)
      → pattern ≢ []
      → strip_prefix pattern (codes "*.") ≡ none
      → hostname ≡ some h
      → to_ascii_lowercase pattern ≡ to_ascii_lowercase h
      → Covers pattern hostname

-- Where the text before a suffix ends in a byte.
get_elem?-last : (r : Str) (x : ℕ) (s : Str) → get_elem? (r ++ x ∷ s) (length r) ≡ some x
get_elem?-last [] x s = refl
get_elem?-last (y ∷ r) x s = get_elem?-last r x s

last-split :
    (r s : Str) (x : ℕ)
    → 0 < length r
    → byte_is (get_elem? (r ++ s) (length r - 1)) x ≡ true
    → (q : Str) × (r ≡ q ++ x ∷ [])
last-split [] s x h e = elim h [ ]
last-split (y ∷ []) s x h e = ([], ground arith)
last-split (y ∷ z ∷ r) s x h e =
    let (q, p) = last-split (z ∷ r) s x (omega arith) (ground arith) in (y ∷ q, ap (◌∷◌ y) p)

append-cons : (q : Str) (x : ℕ) (s : Str) → (q ++ x ∷ []) ++ s ≡ q ++ x ∷ s
append-cons [] x s = refl
append-cons (y ∷ q) x s = ap (◌∷◌ y) (append-cons q x s)

matches_suffix_sound :
    (rest h : Str) → matches_suffix rest h ≡ true → (sub : Str) × (h ≡ sub ++ b'.' ∷ rest)
unfolding matches_suffix
matches_suffix_sound rest h m =
    let (r, e) = ends_with-some h rest (ground arith) in
    let n : length h ≡ length r + length rest = ap length e ∙ length-append r rest in
    let i : length h - length rest - 1 ≡ length r - 1 = omega arith in
    let at : byte_is (get_elem? (r ++ rest) (length r - 1)) b'.' ≡ true =
      rw (← e, ← i) (ground arith) in
    let (q, p) = last-split r rest b'.' (ground arith) at in
    (q, e ∙ ap (λ t. t ++ rest) p ∙ append-cons q b'.' rest)

matches_suffix_complete : (rest sub : Str) → matches_suffix rest (sub ++ b'.' ∷ rest) ≡ true
unfolding matches_suffix
matches_suffix_complete rest sub =
    let n : length (sub ++ b'.' ∷ rest) ≡ length sub + suc (length rest) =
      length-append sub (b'.' ∷ rest) in
    let i : length (sub ++ b'.' ∷ rest) - length rest - 1 ≡ length sub = omega arith in
    let ends : ends_with (sub ++ b'.' ∷ rest) rest ≡ true =
      subst (λ t. ends_with t rest ≡ true) (append-cons sub b'.' rest)
        (ends_with-append (sub ++ b'.' ∷ []) rest) in
    rw (i, get_elem?-last sub b'.' rest, ends) (ground arith)

matches_hostname-wildcard :
    (p h rest : Str)
    → strip_prefix p (codes "*.") ≡ some rest
    → matches_hostname p h ≡ matches_suffix rest h
unfolding matches_hostname
matches_hostname-wildcard p h rest e = rw (e, matches_hostname)

matches_hostname-exact :
    (p h : Str)
    → strip_prefix p (codes "*.") ≡ none
    → matches_hostname p h ≡ eq_ignore_ascii_case p h
unfolding matches_hostname
matches_hostname-exact p h e = rw (e, matches_hostname)

matches_hostname-Covers : (p h : Str) → p ≢ [] → matches_hostname p h ≡ true → Covers p (some h)
matches_hostname-Covers p h n m = elim (Option-cases (strip_prefix p (codes "*."))) [
  | inl e ↦
      exact h n e refl ((eq_ignore_ascii_case_iff p h).0 (rw (← matches_hostname-exact p h e) m))
  | inr (rest, e) ↦
      let (sub, q) = matches_suffix_sound rest h (rw (← matches_hostname-wildcard p h rest e) m) in
      wildcard rest sub (strip_prefix-some p (codes "*.") rest e) (ap some q)
]

matches_pattern_sound : (p : Str) (h : Option Str) → matches_pattern p h ≡ true → Covers p h
unfolding matches_pattern
matches_pattern_sound [] none m = default refl refl
matches_pattern_sound [] (some h) m = cc
matches_pattern_sound (x ∷ p) none m = cc
matches_pattern_sound (x ∷ p) (some h) m = matches_hostname-Covers (x ∷ p) h (λ e. cc) m

matches_pattern-wildcard :
    (rest sub : Str) → matches_pattern (codes "*." ++ rest) (some (sub ++ b'.' ∷ rest)) ≡ true
unfolding matches_pattern
matches_pattern-wildcard rest sub =
    matches_hostname-wildcard (codes "*." ++ rest) (sub ++ b'.' ∷ rest) rest
      (strip_prefix-append (codes "*.") rest)
    ∙ matches_suffix_complete rest sub

matches_pattern-exact :
    (p h : Str)
    → p ≢ []
    → strip_prefix p (codes "*.") ≡ none
    → matches_pattern p (some h) ≡ eq_ignore_ascii_case p h
unfolding matches_pattern
matches_pattern-exact [] h n e = absurd (n refl)
matches_pattern-exact (x ∷ p) h n e = matches_hostname-exact (x ∷ p) h e

matches_pattern-default : matches_pattern [] none ≡ true
unfolding matches_pattern
matches_pattern-default = refl

matches_pattern_complete : (p : Str) (h : Option Str) → Covers p h → matches_pattern p h ≡ true
matches_pattern_complete p h (default e f) = rw (e, f) matches_pattern-default
matches_pattern_complete p h (wildcard rest sub e f) = rw (e, f) (matches_pattern-wildcard rest sub)
matches_pattern_complete p h (exact k n e f q) =
    rw (f, matches_pattern-exact p k n e) ((eq_ignore_ascii_case_iff p k).1 q)

-- A pattern matches a detected hostname exactly when it covers it: the empty pattern where no name was
-- detected, `*.rest` the names that end in `.rest`, any other the same name up to ASCII case.
pub matches_pattern_iff : (p : Str) (h : Option Str) → (matches_pattern p h ≡ true) ↔ Covers p h
matches_pattern_iff p h = (matches_pattern_sound p h, matches_pattern_complete p h)

-- Two texts of one length behind a dot are equal where the whole texts are.
suffix_unique : (r q s t : Str) (x : ℕ) → length s ≡ length t → r ++ x ∷ s ≡ q ++ x ∷ t → s ≡ t
suffix_unique [] [] s t x n e = cc
suffix_unique [] (y ∷ q) s t x n e = absurd (omega (arith, ap length e, length-append q (x ∷ t)))
suffix_unique (y ∷ r) [] s t x n e = absurd (omega (arith, ap length e, length-append r (x ∷ s)))
suffix_unique (y ∷ r) (z ∷ q) s t x n e = suffix_unique r q s t x n cc

wildcard-Covers :
    (rest : Str) (h : Str)
    → Covers (codes "*." ++ rest) (some h)
    → (sub : Str) × (h ≡ sub ++ b'.' ∷ rest)
wildcard-Covers rest h (default e f) = cc
wildcard-Covers rest h (wildcard r sub e f) = let same : rest ≡ r = cc in (sub, cc)
wildcard-Covers rest h (exact k n e f q) = cc (strip_prefix-append (codes "*.") rest)

-- A wildcard compares its suffix byte by byte: a name whose last bytes behind a dot are as many as those of
-- the suffix and not the same is refused, so also where the two differ in ASCII case alone.
pub wildcard_is_case_sensitive :
    (rest other sub : Str)
    → length other ≡ length rest
    → other ≢ rest
    → matches_pattern (codes "*." ++ rest) (some (sub ++ b'.' ∷ other)) ≡ false
wildcard_is_case_sensitive rest other sub same ne =
    elim (Bool-cases (matches_pattern (codes "*." ++ rest) (some (sub ++ b'.' ∷ other)))) [
      | inr f ↦ f
      | inl t ↦
          let (q, e) = wildcard-Covers rest (sub ++ b'.' ∷ other) (matches_pattern_sound _ _ t) in
          absurd (ne (suffix_unique sub q other rest b'.' same e))
    ]
