-- ===== src/Client/Authorize/Load.antt =====
-- Loading an authorizer (client/src/authorization.rs): `JwtAuthorizer::load`, `OidcAuthorizer::load` and
-- `Authorizer::load`, with the files and the answers of the network that they read.
use lfp_pipe.Base.{
  ℕ, ◌≡◌, refl, sym, ap, subst, Bool, true, false, not, Option, none, some, ◌++◌, is_some,
  if◌then◌else◌, Result, ok, err, ok_or, ensure, ◌>>=◌, ◌>>◌, bind-eq-ok, ok-injective,
}
use lfp_pipe.Text.{codes}
use lfp_pipe.Text.Ascii.{Str, str_eq}
use lfp_pipe.Text.White.{is_blank, is_empty, trim}
use lfp_pipe.Config.Authorization.{ClientAuthorizationConfig, bearer_enabled, oidc_enabled}
use lfp_pipe.Client.Paths.{expand_home}
use lfp_pipe.Client.Cookies.{Jar}
use lfp_pipe.Client.Jwt.{
  Jwts, JwtAuthorizer, KeyState, JwtError, Attempt, parse_algorithms, ensure_cache_age, fetch_jwks,
  no_algorithm, no_keys, unreachable, not_persisted,
}
use lfp_pipe.Client.Oidc.{OidcAuthorizer, Provider}
use lfp_pipe.Client.Authorize.{Authorizer}

pub data LoadError : Type 0 where
  no_home no_http bad_secret empty_secret bad_issuer not_discovered wrong_issuer no_key : LoadError
  keys : JwtError → LoadError

-- `cache` is the modification time of the file of the keys, with its keys where it can be read and decoded.
-- `cookie_key` is the key of that file, read or created, `discover` the metadata of a provider with the
-- issuer that they state, and `namespace` the hash in the names of the cookies.
pub record Boot (Set Tokens IdToken IdClaims : Type 0) : Type 0 where
  pub home : Option Str
  pub http : Bool
  pub attempt : Attempt Set
  pub cache : Str → Option (ℕ × Option Set)
  pub read_to_string : Str → Option Str
  pub issuer_url : Str → Bool
  pub discover : Str → Option (Str × Provider Tokens IdToken IdClaims)
  pub cookie_key : Str → Option Jar
  pub namespace : Str → Option Str → Str → Str

abbrev keyed {ℓ} : {A : Type ℓ} → Result JwtError A → Result LoadError A
keyed (ok a) = ok a
keyed (err e) = err (keys e)

-- `if enabled { Some(load?) } else { None }`.
abbrev pub when {ℓ} : {A : Type ℓ} → Bool → Result LoadError A → Result LoadError (Option A)
when false loaded = ok none
when true loaded = do a ← loaded; ok (some a)

module _ {Set Jwk Alg Key Tokens IdToken IdClaims : Type 0} (j : Jwts Set Jwk Alg Key) where
  unfoldable pub load_cached_jwks :
      ClientAuthorizationConfig → Boot Set Tokens IdToken IdClaims → Result JwtError (KeyState Set)
  load_cached_jwks config boot = do
    (modified, cached) ← ok_or (boot.cache config.jwks_cache_file) unreachable
    ensure_cache_age config boot.attempt.checked_at modified
    set ← ok_or cached unreachable
    ensure (not (j.has_no_keys set)) no_keys
    ok (record { set = set; obtained_at = modified })

  -- The keys of the issuer, kept in the cache, or those of the cache.
  unfoldable pub initial_keys :
      ClientAuthorizationConfig
      → Boot Set Tokens IdToken IdClaims
      → Result JwtError Set
      → Result JwtError (KeyState Set)
  initial_keys config boot (ok set) = do
    ensure boot.attempt.persisted not_persisted
    ok (record { set = set; obtained_at = boot.attempt.obtained_at })
  initial_keys config boot (err e) = load_cached_jwks config boot

  unfoldable pub load_jwt :
      ClientAuthorizationConfig
      → Boot Set Tokens IdToken IdClaims
      → Result LoadError (JwtAuthorizer Set Alg)
  load_jwt config boot = do
    file ← ok_or (expand_home boot.home config.jwks_cache_file) no_home
    algorithms ← keyed (parse_algorithms j config.algorithms)
    ensure (not (is_empty algorithms)) (keys no_algorithm)
    ensure boot.http no_http
    state ← keyed (
        initial_keys (record config { jwks_cache_file = file }) boot
          (fetch_jwks j (record config { jwks_cache_file = file }) boot.attempt))
    ok (record {
      config = record config { jwks_cache_file = file };
      algorithms = algorithms;
      keys = state;
      refresh = boot.attempt.stamp;
    })

  abbrev secret_of : Boot Set Tokens IdToken IdClaims → Option Str → Result LoadError (Option Str)
  secret_of boot none = ok none
  secret_of boot (some path) = if is_blank path then ok none else do
    file ← ok_or (expand_home boot.home path) no_home
    secret ← ok_or (boot.read_to_string file) bad_secret
    ensure (not (is_empty (trim secret))) empty_secret
    ok (some (trim secret))

  unfoldable pub load_oidc :
      ClientAuthorizationConfig
      → Str
      → Boot Set Tokens IdToken IdClaims
      → Result LoadError (OidcAuthorizer Tokens IdToken IdClaims)
  load_oidc config hostname boot = do
    client_secret ← secret_of boot config.oidc_client_secret_file
    ensure boot.http no_http
    ensure (boot.issuer_url config.issuer) bad_issuer
    (issuer, provider) ← ok_or (boot.discover config.issuer) not_discovered
    ensure (str_eq issuer config.issuer) wrong_issuer
    file ← ok_or (expand_home boot.home config.oidc_session_key_file) no_home
    cookie_key ← ok_or (boot.cookie_key file) no_key
    ok (record {
      config = config;
      hostname = hostname;
      provider = provider;
      client_secret = client_secret;
      cookie_key = cookie_key;
      flow_cookie =
          codes "__Host-lfp_flow_" ++ boot.namespace config.issuer config.oidc_client_id hostname;
      session_cookie =
          codes "__Host-lfp_session_"
          ++ boot.namespace config.issuer config.oidc_client_id hostname;
    })

  unfoldable pub load :
      Boot Set Tokens IdToken IdClaims
      → ClientAuthorizationConfig
      → Str
      → Result LoadError (Authorizer Set Alg Tokens IdToken IdClaims)
  load boot config hostname = do
    bearer ← when (bearer_enabled config) (load_jwt config boot)
    oidc ← when (oidc_enabled config) (load_oidc config hostname boot)
    ok (record { config = config; bearer = bearer; oidc = oidc })

when-ok :
    {A : Type 0} (t : Bool) (m : Result LoadError A) (o : Option A)
    → when t m ≡ ok o
    → is_some o ≡ t
when-ok false m o e = ap is_some (sym (ok-injective e))
when-ok true m o e = let (a, f, g) = bind-eq-ok m _ e in ap is_some (sym (ok-injective g))

module _ {Set Jwk Alg Key Tokens IdToken IdClaims : Type 0} (j : Jwts Set Jwk Alg Key) where
  -- An authorizer that is loaded keeps its policy, and has a browser login exactly if the policy enables it.
  pub load-config :
      (boot : Boot Set Tokens IdToken IdClaims) (config : ClientAuthorizationConfig)
      (hostname : Str) (a : Authorizer Set Alg Tokens IdToken IdClaims)
      → load j boot config hostname ≡ ok a
      → (a.config ≡ config) × (is_some a.oidc ≡ oidc_enabled config)
  unfolding load
  load-config boot config hostname a e =
      let (bearer, b, e1) =
        bind-eq-ok (when (bearer_enabled config) (load_jwt j config boot)) _ e in
      let (oidc, o, e2) =
        bind-eq-ok (when (oidc_enabled config) (load_oidc j config hostname boot)) _ e1 in
      subst (λ a. (a.config ≡ config) × (is_some a.oidc ≡ oidc_enabled config)) (ok-injective e2)
        (refl, when-ok (oidc_enabled config) (load_oidc j config hostname boot) oidc o)
