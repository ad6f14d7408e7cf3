-- ===== src/Routing/PathPrefix.antt =====
-- `matches_path_prefix` (shared/src/routing.rs): a prefix ends at a segment boundary.
use lfp_pipe.Base.{
  ◌≡◌, ◌≢◌, ◌↔◌, ◌⊎◌, refl, ap, ◌∙◌, Bool, true, false, ◌||◌, Option, none, some, ◌∷◌, ◌++◌, arith,
  if◌then◌else◌, Bool-cases, Option-cases, inl, inr,
}
use lfp_pipe.Text.{codes}
use lfp_pipe.Text.Ascii.{Str, str_eq, str_eq_sound, str_eq_refl}
use lfp_pipe.Text.Affix.{
  strip_prefix, strip_prefix-some, strip_prefix-append, starts_with, starts_with-append,
  starts_with_iff, trim_end_matches,
}

-- `option.is_some_and(|rest| rest.starts_with('/'))`.
abbrev pub rest_is_segment : Option Str → Bool
rest_is_segment none = false
rest_is_segment (some rest) = starts_with rest (codes "/")

unfoldable pub matches_path_prefix : Str → Str → Bool
matches_path_prefix prefix path =
    if str_eq prefix (codes "/")
    then starts_with path (codes "/")
    else let trimmed = trim_end_matches b'/' prefix in
      str_eq path trimmed || rest_is_segment (strip_prefix path trimmed)

-- The paths at or below a prefix, the prefix without its slashes at the end.
pub data Below (prefix path : Str) : Type 0 where
  root : (rest : Str) → prefix ≡ codes "/" → path ≡ b'/' ∷ rest → Below prefix path
  at : prefix ≢ codes "/" → path ≡ trim_end_matches b'/' prefix → Below prefix path
  under :
      (rest : Str)
      → prefix ≢ codes "/"
      → path ≡ trim_end_matches b'/' prefix ++ b'/' ∷ rest
      → Below prefix path

segment_sound :
    (p path : Str)
    → str_eq path p || rest_is_segment (strip_prefix path p) ≡ true
    → (path ≡ p) ⊎ ((rest : Str) × (path ≡ p ++ b'/' ∷ rest))
segment_sound p path h = elim (Bool-cases (str_eq path p)) [
  | inl e ↦ inl (str_eq_sound path p e)
  | inr e ↦ elim (Option-cases (strip_prefix path p)) [
    | inl n ↦ cc (rw (e, n) at h)
    | inr (r, f) ↦
        let (rest, q) = (starts_with_iff r (codes "/")).0 (rw (e, f) at h) in
        inr (rest, strip_prefix-some path p r f ∙ ap (λ t. p ++ t) q)
  ]
]

matches_path_prefix_sound :
    (prefix path : Str) → matches_path_prefix prefix path ≡ true → Below prefix path
unfolding matches_path_prefix
matches_path_prefix_sound prefix path h = elim (Bool-cases (str_eq prefix (codes "/"))) [
  | inl e ↦
      let (rest, q) = (starts_with_iff path (codes "/")).0 (rw e at h) in
      root rest (str_eq_sound prefix (codes "/") e) q
  | inr e ↦
      let ne : prefix ≢ codes "/" =
        λ q. cc (e, ap (λ t. str_eq t (codes "/")) q, str_eq_refl (codes "/")) in
      elim (segment_sound (trim_end_matches b'/' prefix) path (rw e at h)) [
        | inl q ↦ at ne q
        | inr (rest, q) ↦ under rest ne q
      ]
]

not_root : (prefix : Str) → prefix ≢ codes "/" → str_eq prefix (codes "/") ≡ false
not_root prefix ne = elim (Bool-cases (str_eq prefix (codes "/"))) [
  | inl e ↦ absurd (ne (str_eq_sound prefix (codes "/") e))
  | inr e ↦ e
]

matches_path_prefix-at :
    (prefix : Str)
    → prefix ≢ codes "/"
    → matches_path_prefix prefix (trim_end_matches b'/' prefix) ≡ true
unfolding matches_path_prefix
matches_path_prefix-at prefix ne =
    rw (not_root prefix ne, str_eq_refl (trim_end_matches b'/' prefix)) refl

matches_path_prefix-under :
    (prefix rest : Str)
    → prefix ≢ codes "/"
    → matches_path_prefix prefix (trim_end_matches b'/' prefix ++ b'/' ∷ rest) ≡ true
unfolding matches_path_prefix
matches_path_prefix-under prefix rest ne =
    rw
      (
        not_root prefix ne,
        strip_prefix-append (trim_end_matches b'/' prefix) (b'/' ∷ rest),
        starts_with-append (codes "/") rest,
      )
      (ground arith)

matches_path_prefix-root : (rest : Str) → matches_path_prefix (codes "/") (b'/' ∷ rest) ≡ true
unfolding matches_path_prefix
matches_path_prefix-root rest = rw (str_eq_refl (codes "/")) (starts_with-append (codes "/") rest)

matches_path_prefix_complete :
    (prefix path : Str) → Below prefix path → matches_path_prefix prefix path ≡ true
matches_path_prefix_complete prefix path (root rest e f) = rw (e, f) (matches_path_prefix-root rest)
matches_path_prefix_complete prefix path (at ne e) = rw e (matches_path_prefix-at prefix ne)
matches_path_prefix_complete prefix path (under rest ne e) =
    rw e (matches_path_prefix-under prefix rest ne)

-- A path matches a prefix exactly when it is the prefix, without its slashes at the end, or goes on
-- behind it with a slash. The prefix `/` matches the paths that begin with a slash.
pub matches_path_prefix_iff :
    (prefix path : Str) → (matches_path_prefix prefix path ≡ true) ↔ Below prefix path
matches_path_prefix_iff prefix path =
    (matches_path_prefix_sound prefix path, matches_path_prefix_complete prefix path)
