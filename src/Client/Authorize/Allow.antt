-- ===== src/Client/Authorize/Allow.antt =====
-- The requests that `Authorizer::authorize` allows (client/src/authorization.rs).
use lfp_pipe.Base.{
  ◌<◌, ◌≡◌, refl, true, false, Option, none, some, Bool-cases, Option-cases, inl, inr, Result, ok,
  err, Result-cases,
}
use lfp_pipe.Text.{codes}
use lfp_pipe.Text.Ascii.{Str, str_eq}
use lfp_pipe.Config.Authorization.{ClientAuthorizationConfig}
use lfp_pipe.Client.Claims.{
  Value, Denial, unauthorized, forbidden, AuthenticatedIdentity, identity_from_claims,
}
use lfp_pipe.Client.Hyper.{HeaderMap, Uris, Request, AuthResponse, get_header, contains_key}
use lfp_pipe.Client.Jwt.{
  Jwts, JwtAuthorizer, Trial, authorize_headers, authorize_token, bearer_token_of,
}
use lfp_pipe.Client.Jwt.Sound.{IsVerified, authorize_token-IsVerified}
use lfp_pipe.Client.Cookies.Sealed.{IsSealed}
use lfp_pipe.Client.Oidc.{OidcAuthorizer, Payloads, Times, OidcError, session}
use lfp_pipe.Client.Oidc.Login.{session-some}
use lfp_pipe.Client.Authorize.{
  Authorizer, allow, respond, to_option, handles_endpoint, endpoint_response, bearer_decision,
  by_bearer, by_session, session_or_login, by_credentials, authorize,
}

module _ {Set Jwk Alg Key M : Type 0} (j : Jwts Set Jwk Alg Key) (h : HeaderMap M) where
  authorize_headers-ok :
      (self : JwtAuthorizer Set Alg) (headers : M) (trial : Trial Set) (claims : Value)
      → (authorize_headers j h self headers trial).0 ≡ ok claims
      → (token : Str) × (bearer_token_of h.to_str (get_header h headers (codes "authorization"))
          ≡ ok token)
        × IsVerified j (authorize_token j self token trial).1 token trial claims
  unfolding authorize_headers
  authorize_headers-ok self headers trial claims e =
      elim (Result-cases
        (bearer_token_of h.to_str (get_header h headers (codes "authorization")))) [
          | inl (token, t) ↦
              (token, t, (authorize_token-IsVerified j self token trial claims (rw t at e)).1)
          | inr (d, t) ↦ cc (rw t at e)
        ]

module _ {M : Type 0} (h : HeaderMap M) where
  bearer_decision-allow :
      (config : ClientAuthorizationConfig) (r : Result Denial Value)
      (i : Option AuthenticatedIdentity)
      → bearer_decision h config r ≡ allow i
      → (claims : Value) × (r ≡ ok claims)
        × (i ≡ to_option (identity_from_claims claims config.roles_claim))
  unfolding bearer_decision
  bearer_decision-allow config (ok claims) i e = (claims, refl, cc)
  bearer_decision-allow config (err (forbidden x)) i e = cc
  bearer_decision-allow config (err unauthorized) i e = cc

module _ {M U Set Jwk Alg Key Tokens IdToken IdClaims : Type 0} (h : HeaderMap M) (u : Uris U)
    (json : Payloads) (j : Jwts Set Jwk Alg Key) where
  -- What stands behind a request that is allowed with this identity: a verified token in its header, or,
  -- where it has no such header, a session in its cookie.
  pub data IsAuthenticated (self : Authorizer Set Alg Tokens IdToken IdClaims)
      (request : Request M U) (trial : Trial Set) (times : Times) (i : Option AuthenticatedIdentity)
      : Type 0 where
    by_token :
        (bearer : JwtAuthorizer Set Alg) (token : Str) (claims : Value)
        → self.bearer ≡ some bearer
        → bearer_token_of h.to_str (get_header h request.headers (codes "authorization")) ≡ ok token
        → IsVerified j (authorize_token j bearer token trial).1 token trial claims
        → i ≡ to_option (identity_from_claims claims self.config.roles_claim)
        → IsAuthenticated self request trial times i
    by_cookie :
        (oidc : OidcAuthorizer Tokens IdToken IdClaims) (identity : AuthenticatedIdentity)
        → self.oidc ≡ some oidc
        → contains_key h request.headers (codes "authorization") ≡ false
        → IsSealed h oidc.cookie_key json.identity request.headers oidc.session_cookie identity
        → times.now < identity.expires_unix
        → i ≡ some identity
        → IsAuthenticated self request trial times i

  by_bearer-allow :
      (self : Authorizer Set Alg Tokens IdToken IdClaims) (b : Option (JwtAuthorizer Set Alg))
      (request : Request M U) (trial : Trial Set) (times : Times) (i : Option AuthenticatedIdentity)
      → self.bearer ≡ b
      → (by_bearer h u json j self b request.headers trial).0 ≡ allow i
      → IsAuthenticated self request trial times i
  unfolding by_bearer
  by_bearer-allow self none request trial times i q e = cc
  by_bearer-allow self (some bearer) request trial times i q e =
      let (r, after) = authorize_headers j h bearer request.headers trial in
      let (claims, f, g) = bearer_decision-allow h self.config r i e in
      let (token, t, v) = authorize_headers-ok j h bearer request.headers trial claims f in
      by_token bearer token claims q t v g

  session_or_login-allow :
      (oidc : OidcAuthorizer Tokens IdToken IdClaims) (request : Request M U) (times : Times)
      (r : Result OidcError (Option AuthenticatedIdentity)) (i : Option AuthenticatedIdentity)
      → session_or_login h u json j oidc request times r ≡ allow i
      → (identity : AuthenticatedIdentity) × (r ≡ ok (some identity)) × (i ≡ some identity)
  session_or_login-allow oidc request times (ok (some identity)) i e = (identity, refl, cc)
  session_or_login-allow oidc request times (ok none) i e = cc
  session_or_login-allow oidc request times (err x) i e = cc

  by_session-allow :
      (self : Authorizer Set Alg Tokens IdToken IdClaims)
      (o : Option (OidcAuthorizer Tokens IdToken IdClaims)) (request : Request M U)
      (trial : Trial Set) (times : Times) (i : Option AuthenticatedIdentity)
      → self.oidc ≡ o
      → contains_key h request.headers (codes "authorization") ≡ false
      → by_session h u json j o request times ≡ allow i
      → IsAuthenticated self request trial times i
  unfolding by_session
  by_session-allow self none request trial times i q c e = cc
  by_session-allow self (some oidc) request trial times i q c e =
      let (identity, s, g) =
        session_or_login-allow oidc request times (session h u json oidc request.headers times.now)
          i e in
      let (d, fresh) = session-some h u json oidc request.headers times.now identity s in
      by_cookie oidc identity q c d fresh g

  by_credentials-allow :
      (self : Authorizer Set Alg Tokens IdToken IdClaims) (request : Request M U)
      (trial : Trial Set) (times : Times) (i : Option AuthenticatedIdentity)
      → (by_credentials h u json j self request trial times).0 ≡ allow i
      → IsAuthenticated self request trial times i
  unfolding by_credentials
  by_credentials-allow self request trial times i e =
      elim (Bool-cases (contains_key h request.headers (codes "authorization"))) [
        | inl t ↦ by_bearer-allow self self.bearer request trial times i refl (rw t at e)
        | inr f ↦ by_session-allow self self.oidc request trial times i refl f (rw f at e)
      ]

  endpoint_response-none :
      (self : Authorizer Set Alg Tokens IdToken IdClaims) (request : Request M U) (times : Times)
      → endpoint_response h u json j self self.oidc request times ≡ none
      → handles_endpoint self (u.path request.uri) ≡ false
  unfolding endpoint_response handles_endpoint
  endpoint_response-none self request times e = elim (Option-cases self.oidc) [
    | inl n ↦ rw n refl
    | inr (oidc, n) ↦
        elim (Bool-cases (str_eq (u.path request.uri) self.config.oidc_callback_path)) [
          | inl t ↦ cc (rw (n, t) at e)
          | inr f ↦ elim (Bool-cases (str_eq (u.path request.uri) self.config.oidc_logout_path)) [
            | inl t ↦ cc (rw (n, f, t) at e)
            | inr g ↦ rw (n, f, g) refl
          ]
        ]
  ]

  -- A request is allowed only if its path is not an endpoint of the login, and it has an `Authorization`
  -- header with a token that is verified or, where it has no such header, an encrypted cookie with a session
  -- that has not expired. The identity is the one of that token, where its claims name one, or of that
  -- session: a header that is refused does not fall back to the session.
  pub authorize-IsAuthenticated :
      (self : Authorizer Set Alg Tokens IdToken IdClaims) (request : Request M U)
      (trial : Trial Set) (times : Times) (i : Option AuthenticatedIdentity)
      → (authorize h u json j self request trial times).0 ≡ allow i
      → (handles_endpoint self (u.path request.uri) ≡ false)
        × IsAuthenticated self request trial times i
  unfolding authorize
  authorize-IsAuthenticated self request trial times i e =
      elim (Option-cases (endpoint_response h u json j self self.oidc request times)) [
        | inl n ↦ (
          endpoint_response-none self request times n,
          by_credentials-allow self request trial times i (rw n at e),
        )
        | inr (response, s) ↦ cc (rw s at e)
      ]

  -- A path that the authorizer handles as an endpoint is answered, whatever credentials come with it.
  pub authorize-endpoint :
      (self : Authorizer Set Alg Tokens IdToken IdClaims) (request : Request M U)
      (trial : Trial Set) (times : Times)
      → handles_endpoint self (u.path request.uri) ≡ true
      → (response : AuthResponse M) × ((authorize h u json j self request trial times).0
          ≡ respond response)
  unfolding authorize
  authorize-endpoint self request trial times e =
      elim (Option-cases (endpoint_response h u json j self self.oidc request times)) [
        | inl n ↦ cc (endpoint_response-none self request times n)
        | inr (response, s) ↦ (response, rw s refl)
      ]
