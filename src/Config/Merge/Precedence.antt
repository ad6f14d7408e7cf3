-- ===== src/Config/Merge/Precedence.antt =====
-- The order of the authorization layers (shared/src/config.rs).
use lfp_pipe.Base.{
  ◌≡◌, ◌≢◌, refl, ap, true, false, not, Option, none, some, List, [], ◌∷◌, ◌++◌, or_option,
  unwrap_or, ok, ok_or, ◌>>=◌, if◌then◌else◌,
}
use lfp_pipe.Text.White.{is_empty}
use lfp_pipe.Text.Ascii.{Str}
use lfp_pipe.Config.Authorization
use lfp_pipe.Config.Authorization.{RoleMatch}
use lfp_pipe.Config.Layers.{ClientAuthorizationDefaults, silent_authorization}
use lfp_pipe.Config.Merge.{
  find_map, non_blank, non_empty, authorization_of, merge_authorization_layers, missing_issuer,
}

find_map-silent {ℓ κ} :
    {L : Type ℓ} {A : Type κ} (select : L → Option A) (silent : L) (above below : List L)
    → select silent ≡ none
    → find_map select (above ++ silent ∷ below) ≡ find_map select (above ++ below)
find_map-silent select silent [] below h = ap (λ o. or_option o (find_map select below)) h
find_map-silent select silent (l ∷ above) below h =
    ap (or_option (select l)) (find_map-silent select silent above below h)

is_empty-cons :
    {A : Type 0} (above : List A) (x : A) (below : List A) → is_empty (above ++ x ∷ below) ≡ false
is_empty-cons [] x below = refl
is_empty-cons (a ∷ above) x below = refl

not_empty : {A : Type 0} (l : List A) → l ≢ [] → is_empty l ≡ false
not_empty [] h = absurd (h refl)
not_empty (x ∷ l) h = refl

module _ (above below : List ClientAuthorizationDefaults) where
  same {κ} :
      {A : Type κ} (select : ClientAuthorizationDefaults → Option A)
      → select silent_authorization ≡ none
      → find_map select (above ++ silent_authorization ∷ below) ≡ find_map select (above ++ below)
  same select h = find_map-silent select silent_authorization above below h

  authorization_of-silent :
      (issuer : Str)
      → authorization_of issuer (above ++ silent_authorization ∷ below)
        ≡ authorization_of issuer (above ++ below)
  unfolding authorization_of
  authorization_of-silent issuer = λ i. record {
    bearer = same (λ settings. settings.bearer) refl i;
    oidc = same (λ settings. settings.oidc) refl i;
    issuer = issuer;
    audiences = unwrap_or (same (λ settings. non_empty settings.audiences) refl i) [];
    jwks_uri = same (λ settings. settings.jwks_uri) refl i;
    jwks_cache_file =
        unwrap_or (same (λ settings. non_blank settings.jwks_cache_file) refl i)
          Authorization.default_jwks_cache_file;
    roles_claim =
        unwrap_or (same (λ settings. non_blank settings.roles_claim) refl i)
          Authorization.default_roles_claim;
    required_roles = unwrap_or (same (λ settings. settings.required_roles) refl i) [];
    forward_authorization =
        unwrap_or (same (λ settings. settings.forward_authorization) refl i) false;
    role_match = unwrap_or (same (λ settings. settings.role_match) refl i) RoleMatch.any;
    algorithms =
        unwrap_or (same (λ settings. non_empty settings.algorithms) refl i)
          Authorization.default_jwt_algorithms;
    leeway_seconds =
        unwrap_or (same (λ settings. settings.leeway_seconds) refl i)
          Authorization.default_jwt_leeway_seconds;
    jwks_refresh_seconds =
        unwrap_or (same (λ settings. settings.jwks_refresh_seconds) refl i)
          Authorization.default_jwks_refresh_seconds;
    jwks_max_stale_seconds =
        unwrap_or (same (λ settings. settings.jwks_max_stale_seconds) refl i)
          Authorization.default_jwks_max_stale_seconds;
    header_timeout_ms =
        unwrap_or (same (λ settings. settings.header_timeout_ms) refl i)
          Authorization.default_auth_header_timeout_ms;
    max_header_bytes =
        unwrap_or (same (λ settings. settings.max_header_bytes) refl i)
          Authorization.default_auth_max_header_bytes;
    oidc_client_id = same (λ settings. non_blank settings.oidc_client_id) refl i;
    oidc_client_secret_file = same (λ settings. settings.oidc_client_secret_file) refl i;
    oidc_scopes =
        unwrap_or (same (λ settings. non_empty settings.oidc_scopes) refl i)
          Authorization.default_browser_oidc_scopes;
    oidc_callback_path =
        unwrap_or (same (λ settings. non_blank settings.oidc_callback_path) refl i)
          Authorization.default_oidc_callback_path;
    oidc_logout_path =
        unwrap_or (same (λ settings. non_blank settings.oidc_logout_path) refl i)
          Authorization.default_oidc_logout_path;
    oidc_session_key_file =
        unwrap_or (same (λ settings. non_blank settings.oidc_session_key_file) refl i)
          Authorization.default_oidc_session_key_file;
    oidc_session_ttl_seconds =
        unwrap_or (same (λ settings. settings.oidc_session_ttl_seconds) refl i)
          Authorization.default_oidc_session_ttl_seconds;
  }

  -- A layer that sets nothing changes nothing, wherever it stands among layers of which there is
  -- another: neither the policy nor the error.
  merge_authorization_layers-silent :
      above ++ below ≢ []
      → merge_authorization_layers (above ++ silent_authorization ∷ below)
        ≡ merge_authorization_layers (above ++ below)
  unfolding merge_authorization_layers
  merge_authorization_layers-silent ne =
      rw (is_empty-cons above silent_authorization below, not_empty (above ++ below) ne)
        λ i.
          if not (unwrap_or (same (λ settings. settings.enabled) refl i) true) then ok none else do
            issuer ← ok_or (same (λ settings. non_blank settings.issuer) refl i) missing_issuer
            ok (some (authorization_of-silent issuer i))
