-- ===== src/Client/Authorize.antt =====
-- `Authorizer` (client/src/authorization.rs): the decision on one request, by bearer token or session.
pub mod Allow
pub mod Load
use lfp_pipe.Base.{
  ℕ, ◌*◌, Bool, true, false, not, ◌&&◌, ◌||◌, Option, none, some, is_some, if◌then◌else◌, Result,
  ok, err,
}
use lfp_pipe.Text.{codes}
use lfp_pipe.Text.Ascii.{Str, str_eq}
use lfp_pipe.Config.Authorization.{ClientAuthorizationConfig}
use lfp_pipe.Client.Claims.{
  Value, ClaimsError, Denial, unauthorized, forbidden, AuthenticatedIdentity, identity_from_claims,
}
use lfp_pipe.Client.Hyper.{
  HeaderMap, Uris, Request, AuthResponse, contains_key, unauthorized_response, forbidden_response,
}
use lfp_pipe.Client.Jwt.{Jwts, JwtAuthorizer, Trial, authorize_headers}
use lfp_pipe.Client.Oidc.{
  OidcAuthorizer, Payloads, Times, OidcError, callback, logout, session, login,
}

pub data AuthorizationDecision (M : Type 0) : Type 0 where
  allow : Option AuthenticatedIdentity → AuthorizationDecision M
  respond : AuthResponse M → AuthorizationDecision M

pub record Authorizer (Set Alg Tokens IdToken IdClaims : Type 0) : Type 0 where
  pub config : ClientAuthorizationConfig
  pub bearer : Option (JwtAuthorizer Set Alg)
  pub oidc : Option (OidcAuthorizer Tokens IdToken IdClaims)

abbrev pub to_option : {E A : Type 0} → Result E A → Option A
to_option (ok a) = some a
to_option (err e) = none

module _ {Set Alg Tokens IdToken IdClaims : Type 0} where
  unfoldable pub forward_authorization : Authorizer Set Alg Tokens IdToken IdClaims → Bool
  forward_authorization self = self.config.forward_authorization

  -- The size of the headers in bytes, and the time for them in milliseconds.
  unfoldable pub authorizer_limits : Authorizer Set Alg Tokens IdToken IdClaims → ℕ × ℕ
  authorizer_limits self = (self.config.max_header_bytes, self.config.header_timeout_ms)

  unfoldable pub handles_endpoint : Authorizer Set Alg Tokens IdToken IdClaims → Str → Bool
  handles_endpoint self path =
      is_some self.oidc
      && (str_eq path self.config.oidc_callback_path || str_eq path self.config.oidc_logout_path)

module _ {M : Type 0} (h : HeaderMap M) where
  unfoldable pub bearer_decision :
      ClientAuthorizationConfig → Result Denial Value → AuthorizationDecision M
  bearer_decision config (ok claims) =
      allow (to_option (identity_from_claims claims config.roles_claim))
  bearer_decision config (err (forbidden e)) = respond (forbidden_response h)
  bearer_decision config (err unauthorized) = respond (unauthorized_response h)

module _ {M U Set Jwk Alg Key Tokens IdToken IdClaims : Type 0} (h : HeaderMap M) (u : Uris U)
    (json : Payloads) (j : Jwts Set Jwk Alg Key) where
  unfoldable pub endpoint_response :
      Authorizer Set Alg Tokens IdToken IdClaims
      → Option (OidcAuthorizer Tokens IdToken IdClaims)
      → Request M U
      → Times
      → Option (AuthResponse M)
  endpoint_response self none request times = none
  endpoint_response self (some oidc) request times =
      if str_eq (u.path request.uri) self.config.oidc_callback_path
      then some (callback h u json oidc request.method request.uri request.headers times)
      else if str_eq (u.path request.uri) self.config.oidc_logout_path
      then some (logout h u json oidc request.method)
      else none

  -- With an `Authorization` header the token decides, and leaves the keys as its refresh did.
  unfoldable pub by_bearer :
      Authorizer Set Alg Tokens IdToken IdClaims
      → Option (JwtAuthorizer Set Alg)
      → M
      → Trial Set
      → AuthorizationDecision M × Authorizer Set Alg Tokens IdToken IdClaims
  by_bearer self none headers trial = (respond (unauthorized_response h), self)
  by_bearer self (some bearer) headers trial =
      let (r, after) = authorize_headers j h bearer headers trial in
      (bearer_decision h self.config r, record self { bearer = some after })

  abbrev session_or_login :
      OidcAuthorizer Tokens IdToken IdClaims
      → Request M U
      → Times
      → Result OidcError (Option AuthenticatedIdentity)
      → AuthorizationDecision M
  session_or_login oidc request times (ok (some identity)) = allow (some identity)
  session_or_login oidc request times (ok none) =
      respond (login h u json oidc request.uri times.later)
  session_or_login oidc request times (err e) =
      respond (login h u json oidc request.uri times.later)

  unfoldable pub by_session :
      Option (OidcAuthorizer Tokens IdToken IdClaims)
      → Request M U
      → Times
      → AuthorizationDecision M
  by_session none request times = respond (unauthorized_response h)
  by_session (some oidc) request times =
      session_or_login oidc request times (session h u json oidc request.headers times.now)

  unfoldable pub by_credentials :
      Authorizer Set Alg Tokens IdToken IdClaims
      → Request M U
      → Trial Set
      → Times
      → AuthorizationDecision M × Authorizer Set Alg Tokens IdToken IdClaims
  by_credentials self request trial times =
      if contains_key h request.headers (codes "authorization")
      then by_bearer self self.bearer request.headers trial
      else (by_session self.oidc request times, self)

  abbrev or_credentials :
      Authorizer Set Alg Tokens IdToken IdClaims
      → Option (AuthResponse M)
      → AuthorizationDecision M × Authorizer Set Alg Tokens IdToken IdClaims
      → AuthorizationDecision M × Authorizer Set Alg Tokens IdToken IdClaims
  or_credentials self (some response) other = (respond response, self)
  or_credentials self none other = other

  unfoldable pub authorize :
      Authorizer Set Alg Tokens IdToken IdClaims
      → Request M U
      → Trial Set
      → Times
      → AuthorizationDecision M × Authorizer Set Alg Tokens IdToken IdClaims
  authorize self request trial times =
      or_credentials self (endpoint_response self self.oidc request times)
        (by_credentials self request trial times)
