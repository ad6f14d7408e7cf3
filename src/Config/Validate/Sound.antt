-- ===== src/Config/Validate/Sound.antt =====
-- The conditions of `validate_authorization` (shared/src/config.rs).
use lfp_pipe.Base.{
  ◌≡◌, ◌≢◌, ◌↔◌, ◌≤◌, ◌<◌, refl, ap, true, false, not, ◌||◌, [], any, arith, unwrap_or, ok,
  bind-eq-ok, ensure-eq-ok, ensure-ok, Bool-cases, inl, inr,
}
use lfp_pipe.Text.{codes}
use lfp_pipe.Text.Ascii.{str_eq, str_eq_iff}
use lfp_pipe.Text.White.{is_blank}
use lfp_pipe.Config.Authorization.{ClientAuthorizationConfig, bearer_enabled, oidc_enabled}
use lfp_pipe.Config.Validate.{reserved_path, validate_bearer, validate_oidc, validate_authorization}

-- What browser login needs.
pub record IsOidcPolicy (a : ClientAuthorizationConfig) : Type 0 where
  pub client_id : is_blank (unwrap_or a.oidc_client_id []) ≡ false
  pub openid : any (λ scope. str_eq scope (codes "openid")) a.oidc_scopes ≡ true
  pub callback_reserved : reserved_path a.oidc_callback_path ≡ true
  pub logout_reserved : reserved_path a.oidc_logout_path ≡ true
  pub paths_differ : a.oidc_callback_path ≢ a.oidc_logout_path
  pub session_key : is_blank a.oidc_session_key_file ≡ false
  pub session_ttl : 0 < a.oidc_session_ttl_seconds

pub record IsBearerPolicy (a : ClientAuthorizationConfig) : Type 0 where
  pub audiences : a.audiences ≢ []
  pub cache_file : is_blank a.jwks_cache_file ≡ false
  pub algorithms : a.algorithms ≢ []

pub record IsPolicy (a : ClientAuthorizationConfig) : Type 0 where
  pub credential : bearer_enabled a || oidc_enabled a ≡ true
  pub issuer : is_blank a.issuer ≡ false
  pub bearer : bearer_enabled a ≡ true → IsBearerPolicy a
  pub oidc : oidc_enabled a ≡ true → IsOidcPolicy a
  pub header_timeout : 0 < a.header_timeout_ms
  pub header_limit : 8192 ≤ a.max_header_bytes

module _ (a : ClientAuthorizationConfig) where
  validate_bearer_sound : validate_bearer a ≡ ok tt → bearer_enabled a ≡ true → IsBearerPolicy a
  unfolding validate_bearer
  validate_bearer_sound h b = ground arith

  validate_bearer_complete :
      (bearer_enabled a ≡ true → IsBearerPolicy a) → validate_bearer a ≡ ok tt
  unfolding validate_bearer
  validate_bearer_complete h = elim (Bool-cases (bearer_enabled a)) [
    | inl b ↦ let p = h b in ground (arith, p.audiences, p.cache_file, p.algorithms)
    | inr b ↦ rw b refl
  ]

  validate_oidc_sound : validate_oidc a ≡ ok tt → oidc_enabled a ≡ true → IsOidcPolicy a
  unfolding validate_oidc
  validate_oidc_sound h b =
      let (h1, k1) =
        ensure-eq-ok (not (is_blank (unwrap_or a.oidc_client_id []))) _ _ (rw b at h) in
      let (h2, k2) =
        ensure-eq-ok (any (λ scope. str_eq scope (codes "openid")) a.oidc_scopes) _ _ k1 in
      let (h3, k3) = ensure-eq-ok (reserved_path a.oidc_callback_path) _ _ k2 in
      let (h4, k4) = ensure-eq-ok (reserved_path a.oidc_logout_path) _ _ k3 in
      let (h5, k5) = ensure-eq-ok (not (str_eq a.oidc_callback_path a.oidc_logout_path)) _ _ k4 in
      let (h6, k6) = ensure-eq-ok (not (is_blank a.oidc_session_key_file)) _ _ k5 in
      record {
        client_id = ground arith;
        openid = h2;
        callback_reserved = h3;
        logout_reserved = h4;
        paths_differ = λ e. cc (h5, (str_eq_iff a.oidc_callback_path a.oidc_logout_path).1 e);
        session_key = ground arith;
        session_ttl = ground arith;
      }

  differ_false :
      a.oidc_callback_path ≢ a.oidc_logout_path
      → not (str_eq a.oidc_callback_path a.oidc_logout_path) ≡ true
  differ_false ne = ground (arith, str_eq_iff a.oidc_callback_path a.oidc_logout_path)

  validate_oidc_complete : (oidc_enabled a ≡ true → IsOidcPolicy a) → validate_oidc a ≡ ok tt
  unfolding validate_oidc
  validate_oidc_complete h = elim (Bool-cases (oidc_enabled a)) [
    | inr b ↦ rw b refl
    | inl b ↦
        let p = h b in
        rw b (
          ensure-ok (not (is_blank (unwrap_or a.oidc_client_id []))) _ _ (ap not p.client_id) (
            ensure-ok (any (λ scope. str_eq scope (codes "openid")) a.oidc_scopes) _ _ p.openid (
              ensure-ok (reserved_path a.oidc_callback_path) _ _ p.callback_reserved (
                ensure-ok (reserved_path a.oidc_logout_path) _ _ p.logout_reserved (
                  ensure-ok (not (str_eq a.oidc_callback_path a.oidc_logout_path)) _ _
                    (differ_false p.paths_differ)
                    (ensure-ok (not (is_blank a.oidc_session_key_file)) _ _ (ap not p.session_key)
                      (ground (arith, p.session_ttl))))))))
  ]

  pub validate_authorization_sound : validate_authorization a ≡ ok tt → IsPolicy a
  unfolding validate_authorization
  validate_authorization_sound h =
      let (h1, k1) = ensure-eq-ok (bearer_enabled a || oidc_enabled a) _ _ h in
      let (h2, k2) = ensure-eq-ok (not (is_blank a.issuer)) _ _ k1 in
      let (_, h3, k3) = bind-eq-ok (validate_bearer a) _ k2 in
      let (_, h4, k4) = bind-eq-ok (validate_oidc a) _ k3 in
      record {
        credential = h1;
        issuer = ground arith;
        bearer = validate_bearer_sound h3;
        oidc = validate_oidc_sound h4;
        header_timeout = ground arith;
        header_limit = ground arith;
      }

  pub validate_authorization_complete : IsPolicy a → validate_authorization a ≡ ok tt
  unfolding validate_authorization
  validate_authorization_complete p =
      ensure-ok (bearer_enabled a || oidc_enabled a) _ _ p.credential (
        ensure-ok (not (is_blank a.issuer)) _ _ (ap not p.issuer) (
          rw (validate_bearer_complete p.bearer, validate_oidc_complete p.oidc)
            (ground (arith, p.header_timeout, p.header_limit))))

  -- A policy is accepted exactly if it has a credential kind and an issuer, what each enabled kind
  -- needs, and usable header limits.
  pub validate_authorization_iff : (validate_authorization a ≡ ok tt) ↔ IsPolicy a
  validate_authorization_iff = (validate_authorization_sound, validate_authorization_complete)
