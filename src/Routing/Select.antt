-- ===== src/Routing/Select.antt =====
-- `select_backend`, `matching_backends` and `select_backend_for_path` (shared/src/routing.rs).
use lfp_pipe.Base.{
  ℕ, ◌≤◌, ◌≡◌, refl, subst, ◌∙◌, Bool, true, false, ◌&&◌, not, Option, none, some, List, [], ◌∷◌,
  arith, leb, if◌then◌else◌, length, filter, find, find-some, find-none, In, filter-In, In-filter,
  any, is_some, Option-cases, inl, inr, or_option,
}
use lfp_pipe.Text.Ascii.{Str}
use lfp_pipe.Config.Backend.{BackendRule}
use lfp_pipe.Routing.Pattern.{matches_pattern}
use lfp_pipe.Routing.PathPrefix.{matches_path_prefix}

module _ {A : Type 0} (key : A → ℕ) where
  unfoldable pub max_from : A → List A → A
  max_from best [] = best
  max_from best (x ∷ xs) = max_from (if leb (key best) (key x) then x else best) xs

  -- `Iterator::max_by_key`: of several greatest elements the last.
  unfoldable pub max_by_key : List A → Option A
  max_by_key [] = none
  max_by_key (x ∷ xs) = some (max_from x xs)

  choice-In :
      (t : Bool) (r best x : A) (xs : List A)
      → In r ((if t then x else best) ∷ xs)
      → In r (best ∷ x ∷ xs)
  choice-In true r best x xs i = inr i
  choice-In false r best x xs (inl e) = inl e
  choice-In false r best x xs (inr i) = inr (inr i)

  max_from-In : (best : A) (xs : List A) → In (max_from best xs) (best ∷ xs)
  unfolding max_from
  max_from-In best [] = inl refl
  max_from-In best (x ∷ xs) =
      let t = leb (key best) (key x) in
      choice-In t (max_from (if t then x else best) xs) best x xs
        (max_from-In (if t then x else best) xs)

  max_from-le : (best : A) (xs : List A) → key best ≤ key (max_from best xs)
  unfolding max_from
  max_from-le best [] = omega arith
  max_from-le best (x ∷ xs) = ground (arith, max_from-le x xs, max_from-le best xs)

  max_from-max : (best : A) (xs : List A) (q : A) → In q xs → key q ≤ key (max_from best xs)
  unfolding max_from
  max_from-max best [] q i = elim i [ ]
  max_from-max best (x ∷ xs) q (inl e) =
      rw e (ground (arith, max_from-le x xs, max_from-le best xs))
  max_from-max best (x ∷ xs) q (inr i) =
      max_from-max (if leb (key best) (key x) then x else best) xs q i

  max_by_key-some :
      (xs : List A) (r : A) → max_by_key xs ≡ some r → In r xs × ((q : A) → In q xs → key q ≤ key r)
  unfolding max_by_key
  max_by_key-some [] r h = cc
  max_by_key-some (x ∷ xs) r h =
      let e : max_from x xs ≡ r = cc in
      subst (λ t. In t (x ∷ xs) × ((q : A) → In q (x ∷ xs) → key q ≤ key t)) e
        (max_from-In x xs, above)
    where
      above : (q : A) → In q (x ∷ xs) → key q ≤ key (max_from x xs)
      above q (inl e) = rw e (max_from-le x xs)
      above q (inr i) = max_from-max x xs q i

  max_by_key-none : (xs : List A) → max_by_key xs ≡ none → xs ≡ []
  unfolding max_by_key
  max_by_key-none [] h = refl
  max_by_key-none (x ∷ xs) h = cc

unfoldable pub select_backend : List BackendRule → Option Str → Option BackendRule
select_backend rules hostname = find (λ rule. matches_pattern rule.pattern hostname) rules

unfoldable pub matching_backends : List BackendRule → Option Str → List BackendRule
matching_backends rules hostname = filter (λ rule. matches_pattern rule.pattern hostname) rules

abbrev prefix_covers : Option Str → Str → Bool
prefix_covers none path = false
prefix_covers (some prefix) path = matches_path_prefix prefix path

-- The test of the `filter`, and of the `find` behind it.
unfoldable pub serves_path : Option Str → Str → BackendRule → Bool
serves_path hostname path rule =
    matches_pattern rule.pattern hostname && prefix_covers rule.path_prefix path

unfoldable pub serves_host : Option Str → BackendRule → Bool
serves_host hostname rule = not (is_some rule.path_prefix) && matches_pattern rule.pattern hostname

abbrev text_length : Option Str → ℕ
text_length none = 0
text_length (some prefix) = length prefix

unfoldable pub specificity : BackendRule → ℕ
specificity rule = text_length rule.path_prefix

unfoldable pub select_backend_for_path : List BackendRule → Option Str → Str → Option BackendRule
select_backend_for_path rules hostname path =
    or_option (max_by_key specificity (filter (serves_path hostname path) rules))
      (find (serves_host hostname) rules)

-- The longest matching prefix, or a rule for the whole host where no prefix matches.
pub data IsChoice (rules : List BackendRule) (hostname : Option Str) (path : Str) (r : BackendRule)
    : Type 0 where
  longest :
      In r rules
      → serves_path hostname path r ≡ true
      → ((q : BackendRule)
          → In q rules
          → serves_path hostname path q ≡ true
          → specificity q ≤ specificity r)
      → IsChoice rules hostname path r
  fallback :
      In r rules
      → serves_host hostname r ≡ true
      → any (serves_path hostname path) rules ≡ false
      → IsChoice rules hostname path r

any-filter_nil : {A : Type 0} (p : A → Bool) (xs : List A) → filter p xs ≡ [] → any p xs ≡ false
any-filter_nil p [] h = refl
any-filter_nil p (x ∷ xs) h = ground (arith, any-filter_nil p xs)

module _ (rules : List BackendRule) (hostname : Option Str) (path : Str) where
  select_fallback :
      (r : BackendRule)
      → max_by_key specificity (filter (serves_path hostname path) rules) ≡ none
      → select_backend_for_path rules hostname path ≡ some r
      → IsChoice rules hostname path r
  unfolding select_backend_for_path
  select_fallback r n h =
      let (i, t) = find-some (serves_host hostname) rules (rw n at h) in
      fallback i t
        (any-filter_nil (serves_path hostname path) rules (max_by_key-none specificity _ n))

  select_longest :
      (r m : BackendRule)
      → max_by_key specificity (filter (serves_path hostname path) rules) ≡ some m
      → select_backend_for_path rules hostname path ≡ some r
      → IsChoice rules hostname path r
  unfolding select_backend_for_path
  select_longest r m n h =
      let same : some m ≡ some r = rw n at h in
      let (i, above) = max_by_key-some specificity _ r (n ∙ same) in
      let (j, t) = filter-In (serves_path hostname path) rules i in
      longest j t (λ q k s. above q (In-filter (serves_path hostname path) rules k s))

  -- What is selected for a path is a rule of the list for that host: of those whose prefix matches the
  -- path one with the longest prefix, and a rule with no prefix only where none matches.
  pub select_backend_for_path-IsChoice :
      (r : BackendRule)
      → select_backend_for_path rules hostname path ≡ some r
      → IsChoice rules hostname path r
  select_backend_for_path-IsChoice r h =
      elim (Option-cases (max_by_key specificity (filter (serves_path hostname path) rules))) [
        | inl n ↦ select_fallback r n h
        | inr (m, n) ↦ select_longest r m n h
      ]

  -- Nothing is selected only where no rule serves the host and path, with a prefix or without one.
  pub select_backend_for_path-none :
      select_backend_for_path rules hostname path ≡ none
      → (any (serves_path hostname path) rules ≡ false) × (any (serves_host hostname) rules ≡ false)
  unfolding select_backend_for_path
  select_backend_for_path-none h =
      elim (Option-cases (max_by_key specificity (filter (serves_path hostname path) rules))) [
        | inl n ↦ (
          any-filter_nil (serves_path hostname path) rules (max_by_key-none specificity _ n),
          find-none (serves_host hostname) rules (rw n at h),
        )
        | inr (m, n) ↦ cc (rw n at h)
      ]
