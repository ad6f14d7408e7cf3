-- ===== src/Client/Proxy/Strip.antt =====
-- `strip_uri_prefix` on the paths that `matches_path_prefix` accepts (client/src/http_proxy.rs).
use lfp_pipe.Base.{◌≡◌, refl, sym, ap, ◌∙◌, true, ◌||◌, [], ◌∷◌, ◌++◌, if◌then◌else◌, ok_or}
use mathlib.Core.List.{append-nil}
use lfp_pipe.Text.{codes}
use lfp_pipe.Text.Ascii.{Str}
use lfp_pipe.Text.Affix.{strip_prefix-append, starts_with, trim_end_matches}
use lfp_pipe.Text.White.{is_empty}
use lfp_pipe.Routing.PathPrefix.{
  matches_path_prefix, matches_path_prefix_iff, Below, root, at, under,
}
use lfp_pipe.Client.Hyper.{Uris}
use lfp_pipe.Client.Proxy.{with_query, strip_uri_prefix, bad_uri}

-- The rest of a path that goes on at a segment boundary.
abbrev pub Boundary : Str → Type 0
Boundary rest = is_empty rest || starts_with rest (codes "/") ≡ true

abbrev pub path_behind : Str → Str
path_behind rest = if is_empty rest then codes "/" else rest

path_behind-starts_with :
    (rest : Str) → Boundary rest → starts_with (path_behind rest) (codes "/") ≡ true
unfolding starts_with
path_behind-starts_with [] b = refl
path_behind-starts_with (c ∷ rest) b = b

slash_Boundary : (rest : Str) → Boundary (b'/' ∷ rest)
unfolding starts_with
slash_Boundary rest = refl

trim-root : trim_end_matches b'/' (codes "/") ≡ []
unfolding trim_end_matches
trim-root = refl

Below-rest :
    (prefix path : Str)
    → Below prefix path
    → (rest : Str) × (path ≡ trim_end_matches b'/' prefix ++ rest) × Boundary rest
Below-rest prefix path (root rest e f) = (
  b'/' ∷ rest,
  f ∙ ap (λ t. t ++ b'/' ∷ rest) (sym (ap (trim_end_matches b'/') e ∙ trim-root)),
  slash_Boundary rest,
)
Below-rest prefix path (at ne e) = ([], e ∙ sym (append-nil (trim_end_matches b'/' prefix)), refl)
Below-rest prefix path (under rest ne e) = (b'/' ∷ rest, e, slash_Boundary rest)

module _ {U : Type 0} (u : Uris U) where
  strip_uri_prefix-parts :
      (uri : U) (prefix rest : Str)
      → u.path uri ≡ trim_end_matches b'/' prefix ++ rest
      → Boundary rest
      → strip_uri_prefix u uri prefix
        ≡ ok_or (u.from_str (with_query (path_behind rest) (u.query uri))) bad_uri
  unfolding strip_uri_prefix
  strip_uri_prefix-parts uri prefix rest e b =
      rw (e, strip_prefix-append (trim_end_matches b'/' prefix) rest, b) refl

  -- On a path that matches the prefix, the prefix comes off: what is rewritten is the rest of the path, or a
  -- slash where nothing is left, with the query behind it. The rewritten path begins with a slash.
  pub strip_uri_prefix-matches :
      (uri : U) (prefix : Str)
      → matches_path_prefix prefix (u.path uri) ≡ true
      → (rest : Str) × (u.path uri ≡ trim_end_matches b'/' prefix ++ rest)
        × (starts_with (path_behind rest) (codes "/") ≡ true)
        × (strip_uri_prefix u uri prefix
            ≡ ok_or (u.from_str (with_query (path_behind rest) (u.query uri))) bad_uri)
  strip_uri_prefix-matches uri prefix m =
      let (rest, e, b) =
        Below-rest prefix (u.path uri) ((matches_path_prefix_iff prefix (u.path uri)).0 m) in
      (rest, e, path_behind-starts_with rest b, strip_uri_prefix-parts uri prefix rest e b)
