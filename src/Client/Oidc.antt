-- ===== src/Client/Oidc.antt =====
-- `OidcAuthorizer` (client/src/authorization.rs): the browser login, its callback, the session and the logout.
pub mod Exchanged
pub mod Login
use lfp_pipe.Base.{
  ℕ, ◌+◌, ◌-◌, ◌^◌, ◌*◌, ◌≡◌, ◌↔◌, Bool, true, false, not, ◌&&◌, ◌||◌, Option, none, some, List, [],
  ◌∷◌, ◌++◌, filter, is_some, ltb, min, if◌then◌else◌, Result, ok, err, ok_or, ensure, ◌>>=◌, ◌>>◌,
  get_elem?,
}
use lfp_pipe.Text.{codes}
use lfp_pipe.Text.Ascii.{Str, str_eq, eq_ignore_ascii_case}
use lfp_pipe.Text.Split.{split}
use lfp_pipe.Config.Authorization.{ClientAuthorizationConfig}
use lfp_pipe.Client.Claims.{
  Value, AuthenticatedIdentity, validate_roles, identity_from_claims, safe_return_to,
}
use lfp_pipe.Client.Hyper.{
  HeaderMap, Uris, AuthResponse, redirect_response, unauthorized_response, internal_error_response,
  method_not_allowed_response,
}
use lfp_pipe.Client.Cookies.{Jar, Json, decrypt_cookie, encrypt_cookie, clear_cookie}

pub record OidcFlow : Type 0 where
  pub state : Str
  pub nonce : Str
  pub pkce_verifier : Str
  pub return_to : Str
  pub expires_unix : ℕ

-- `CoreClient`, by what it is made of.
pub record CoreClient : Type 0 where
  pub client_id : Str
  pub client_secret : Option Str
  pub redirect_uri : Str

-- An authorization URL with the random texts that it was made with.
pub record Started : Type 0 where
  pub url : Str
  pub state : Str
  pub nonce : Str
  pub pkce_verifier : Str

-- The crates `openidconnect`, `url` and `constant_time_eq`, and the provider that they talk to: the answers
-- to one request. `access_token_hash` is the hash that the claims state, `from_token` the hash calculated
-- from the access token.
pub record Provider (Tokens IdToken IdClaims : Type 0) : Type 0 where
  pub redirect_url : Str → Bool
  pub authorize_url : CoreClient → List Str → Started
  pub exchange_code : CoreClient → Str → Str → Option Tokens
  pub id_token : Tokens → Option IdToken
  pub claims : CoreClient → IdToken → Str → Option IdClaims
  pub access_token_hash : IdClaims → Option Str
  pub from_token : CoreClient → Tokens → IdToken → Option Str
  pub to_string : IdToken → Str
  pub form_urlencoded : Str → List (Str × Str)
  pub constant_time_eq : Str → Str → Bool
  pub constant_time_eq_iff : (a b : Str) → (constant_time_eq a b ≡ true) ↔ (a ≡ b)

pub record OidcAuthorizer (Tokens IdToken IdClaims : Type 0) : Type 0 where
  pub config : ClientAuthorizationConfig
  pub hostname : Str
  pub provider : Provider Tokens IdToken IdClaims
  pub client_secret : Option Str
  pub cookie_key : Jar
  pub flow_cookie : Str
  pub session_cookie : Str

-- The serializers of the values in cookies and tokens.
pub record Payloads : Type 0 where
  pub flow : Json OidcFlow
  pub identity : Json AuthenticatedIdentity
  pub claims : Json Value

-- The clock at its first reading in a request, and at the one behind it.
pub record Times : Type 0 where
  pub now : ℕ
  pub later : ℕ

pub data OidcError : Type 0 where
  no_client_id bad_redirect bad_cookie no_flow flow_expired no_query provider_error no_state :
      OidcError
  wrong_state no_code not_exchanged no_id_token not_verified no_hash wrong_hash no_payload :
      OidcError
  bad_payload no_role no_identity not_sealed bad_response : OidcError

-- `map_err`, with one error for all.
abbrev pub or_fail {ℓ} : {E : Type 0} {A : Type ℓ} → Result E A → OidcError → Result OidcError A
or_fail (ok a) f = ok a
or_fail (err e) f = err f

abbrev pub u64_max : ℕ
u64_max = 2 ^ 64 - 1

unfoldable pub saturating_add : ℕ → ℕ → ℕ
saturating_add a b = min (a + b) u64_max

-- A key of the map that the pairs are collected into: the last of them.
unfoldable pub param : Str → List (Str × Str) → Option Str
param name [] = none
param name ((k, v) ∷ pairs) =
    let rest = param name pairs in
    if is_some rest then rest else if str_eq k name then some v else none

unfoldable pub decode_verified_claims : Jar → Json Value → Str → Result OidcError Value
decode_verified_claims jar json token = do
  payload ← ok_or (get_elem? (split b'.' token) 1) no_payload
  bytes ← ok_or (jar.decode payload) bad_payload
  ok_or (json.from_slice bytes) bad_payload

abbrev pub get_method : Str
get_method = codes "GET"

abbrev pub post_method : Str
post_method = codes "POST"

module _ {Tokens IdToken IdClaims : Type 0} where
  unfoldable pub client : OidcAuthorizer Tokens IdToken IdClaims → Result OidcError CoreClient
  client self = do
    client_id ← ok_or self.config.oidc_client_id no_client_id
    ensure
        (self.provider.redirect_url
          (codes "https://" ++ (self.hostname ++ self.config.oidc_callback_path)))
        bad_redirect
    ok (record {
      client_id = client_id;
      client_secret = self.client_secret;
      redirect_uri = codes "https://" ++ (self.hostname ++ self.config.oidc_callback_path);
    })

  abbrev pub hash_agrees :
      Provider Tokens IdToken IdClaims
      → CoreClient
      → Tokens
      → IdToken
      → Option Str
      → Result OidcError (Unit {0})
  hash_agrees p core tokens id none = ok tt
  hash_agrees p core tokens id (some expected) = do
    actual ← ok_or (p.from_token core tokens id) no_hash
    ensure (str_eq actual expected) wrong_hash

  -- The exchange of the code: the ID token that the provider's answer holds, verified.
  unfoldable pub exchanged :
      Provider Tokens IdToken IdClaims → CoreClient → Str → OidcFlow → Result OidcError IdToken
  exchanged p core code flow = do
    tokens ← ok_or (p.exchange_code core code flow.pkce_verifier) not_exchanged
    id ← ok_or (p.id_token tokens) no_id_token
    claims ← ok_or (p.claims core id flow.nonce) not_verified
    hash_agrees p core tokens id (p.access_token_hash claims)
    ok id

  -- The identity of the session: the roles are checked, and it expires with the session.
  unfoldable pub session_identity :
      OidcAuthorizer Tokens IdToken IdClaims → Value → ℕ → Result OidcError AuthenticatedIdentity
  session_identity self claims now = do
    or_fail (validate_roles claims self.config) no_role
    identity ← or_fail (identity_from_claims claims self.config.roles_claim) no_identity
    ok (record identity { expires_unix = saturating_add now self.config.oidc_session_ttl_seconds })

  unfoldable pub scopes_of : OidcAuthorizer Tokens IdToken IdClaims → List Str
  scopes_of self =
      filter (λ scope. not (eq_ignore_ascii_case scope (codes "openid"))) self.config.oidc_scopes

unfoldable pub flow_of : {U : Type 0} → Uris U → Started → U → ℕ → OidcFlow
flow_of u started uri now = record {
  state = started.state;
  nonce = started.nonce;
  pkce_verifier = started.pkce_verifier;
  return_to = safe_return_to (u.path_and_query uri);
  expires_unix = saturating_add now (10 * 60);
}

abbrev response_or :
    {M : Type 0} → AuthResponse M → Result OidcError (AuthResponse M) → AuthResponse M
response_or other (ok response) = response
response_or other (err e) = other

-- A session that has not expired.
abbrev pub unexpired : ℕ → Option AuthenticatedIdentity → Option AuthenticatedIdentity
unexpired now none = none
unexpired now (some identity) = if ltb now identity.expires_unix then some identity else none

module _ {M U Tokens IdToken IdClaims : Type 0} (h : HeaderMap M) (u : Uris U)
    (json : Payloads) where
  unfoldable pub login_inner :
      OidcAuthorizer Tokens IdToken IdClaims → U → ℕ → Result OidcError (AuthResponse M)
  login_inner self uri now = do
    core ← client self
    cookie ←
        or_fail
          (encrypt_cookie h self.cookie_key json.flow self.flow_cookie
            (flow_of u (self.provider.authorize_url core (scopes_of self)) uri now) (10 * 60))
          not_sealed
    or_fail
        (redirect_response h 302 (self.provider.authorize_url core (scopes_of self)).url
          (cookie ∷ []))
        bad_response

  unfoldable pub login : OidcAuthorizer Tokens IdToken IdClaims → U → ℕ → AuthResponse M
  login self uri now = response_or (internal_error_response h) (login_inner self uri now)

  -- The parts of a callback: the flow of the cookie, and the code of a query with its state.
  unfoldable pub flow_in :
      OidcAuthorizer Tokens IdToken IdClaims → M → ℕ → Result OidcError OidcFlow
  flow_in self headers now = do
    found ← or_fail (decrypt_cookie h self.cookie_key json.flow headers self.flow_cookie) bad_cookie
    flow ← ok_or found no_flow
    ensure (ltb now flow.expires_unix) flow_expired
    ok flow

  unfoldable pub code_in :
      OidcAuthorizer Tokens IdToken IdClaims → U → OidcFlow → Result OidcError Str
  code_in self uri flow = do
    query ← ok_or (u.query uri) no_query
    ensure (not (is_some (param (codes "error") (self.provider.form_urlencoded query))))
        provider_error
    state ← ok_or (param (codes "state") (self.provider.form_urlencoded query)) no_state
    ensure (self.provider.constant_time_eq state flow.state) wrong_state
    ok_or (param (codes "code") (self.provider.form_urlencoded query)) no_code

  unfoldable pub callback_inner :
      OidcAuthorizer Tokens IdToken IdClaims → U → M → Times → Result OidcError (AuthResponse M)
  callback_inner self uri headers t = do
    flow ← flow_in self headers t.now
    code ← code_in self uri flow
    core ← client self
    id ← exchanged self.provider core code flow
    raw_claims ← decode_verified_claims self.cookie_key json.claims (self.provider.to_string id)
    identity ← session_identity self raw_claims t.later
    session ←
        or_fail
          (encrypt_cookie h self.cookie_key json.identity self.session_cookie identity
            self.config.oidc_session_ttl_seconds)
          not_sealed
    or_fail (redirect_response h 303 flow.return_to (session ∷ clear_cookie self.flow_cookie ∷ []))
        bad_response

  unfoldable pub callback :
      OidcAuthorizer Tokens IdToken IdClaims → Str → U → M → Times → AuthResponse M
  callback self method uri headers t =
      if not (str_eq method get_method)
      then method_not_allowed_response h
      else response_or (unauthorized_response h) (callback_inner self uri headers t)

  unfoldable pub logout : OidcAuthorizer Tokens IdToken IdClaims → Str → AuthResponse M
  logout self method =
      if not (str_eq method get_method) && not (str_eq method post_method)
      then method_not_allowed_response h
      else response_or (internal_error_response h) (
          or_fail
            (redirect_response h 303 (codes "/")
              (clear_cookie self.session_cookie ∷ clear_cookie self.flow_cookie ∷ []))
            bad_response)

  unfoldable pub session :
      OidcAuthorizer Tokens IdToken IdClaims
      → M
      → ℕ
      → Result OidcError (Option AuthenticatedIdentity)
  session self headers now = do
    identity ←
        or_fail (decrypt_cookie h self.cookie_key json.identity headers self.session_cookie)
          bad_cookie
    ok (unexpired now identity)
