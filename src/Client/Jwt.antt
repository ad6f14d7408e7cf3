-- ===== src/Client/Jwt.antt =====
-- `JwtAuthorizer` (client/src/authorization.rs): the verification of a bearer token with the cached keys of
-- the issuer. An instant and a system time are nanoseconds.
pub mod Sound
use lfp_pipe.Base.{
  ℕ, ◌-◌, ◌*◌, ◌≡◌, Bool, true, false, not, ◌&&◌, ◌||◌, Option, none, some, List, [], ◌∷◌, ◌++◌,
  any, is_some, leb, ltb, ◌==◌, if◌then◌else◌, Result, ok, err, ok_or, ensure, ◌>>=◌, ◌>>◌,
}
use lfp_pipe.Text.{codes}
use lfp_pipe.Text.Ascii.{Str, str_eq, eq_ignore_ascii_case}
use lfp_pipe.Text.Affix.{trim_end_matches}
use lfp_pipe.Text.Split.{split_once}
use lfp_pipe.Text.White.{is_blank, is_empty, trim}
use lfp_pipe.Config.Authorization.{ClientAuthorizationConfig}
use lfp_pipe.Client.Claims.{Value, Denial, unauthorized, validate_roles}
use lfp_pipe.Client.Hyper.{HeaderMap, get_header}

abbrev pub seconds : ℕ → ℕ
seconds n = n * 1_000_000_000

-- `jsonwebtoken::Validation`, the fields that are set.
pub record Validation (Alg : Type 0) : Type 0 where
  pub algorithm : Alg
  pub leeway : ℕ
  pub validate_nbf : Bool
  pub issuer : List Str
  pub audience : List Str
  pub required_spec_claims : List Str

-- The crate `jsonwebtoken`: key sets, keys and algorithms, and the two decoders. `public_key_use` tells
-- whether a use that is given is `Signature`, `key_algorithm` goes through `Algorithm::try_from`.
pub record Jwts (Set Jwk Alg Key : Type 0) : Type 0 where
  pub find : Set → Str → Option Jwk
  pub has_no_keys : Set → Bool
  pub public_key_use : Jwk → Option Bool
  pub key_algorithm : Jwk → Option (Option Alg)
  pub from_jwk : Jwk → Option Key
  pub from_str : Str → Option Alg
  pub symmetric : List Alg
  pub alg_eq : Alg → Alg → Bool
  pub decode_header : Str → Option (Alg × Option Str)
  pub decode : Str → Key → Validation Alg → Option Value

pub record KeyState (Set : Type 0) : Type 0 where
  pub set : Set
  pub obtained_at : ℕ

pub record JwtAuthorizer (Set Alg : Type 0) : Type 0 where
  pub config : ClientAuthorizationConfig
  pub algorithms : List Alg
  pub keys : KeyState Set
  pub refresh : ℕ

pub data JwtError : Type 0 where
  unsupported symmetric_algorithm no_algorithm unreachable wrong_issuer no_keys stale
        not_persisted :
      JwtError
  no_key not_signing wrong_algorithm bad_key : JwtError

pub record DiscoveryDocument : Type 0 where
  pub issuer : Str
  pub jwks_uri : Str

-- What the network and the clocks answer to one attempt at a refresh.
pub record Attempt (Set : Type 0) : Type 0 where
  pub instant : ℕ
  pub stamp : ℕ
  pub discovery : Str → Option DiscoveryDocument
  pub jwks : Str → Option Set
  pub persisted : Bool
  pub obtained_at : ℕ
  pub checked_at : ℕ

-- The clocks and answers of one request.
pub record Trial (Set : Type 0) : Type 0 where
  pub first : Attempt Set
  pub looked_at : ℕ
  pub second : Attempt Set
  pub looked_again_at : ℕ

unfoldable pub ensure_cache_age : ClientAuthorizationConfig → ℕ → ℕ → Result JwtError (Unit {0})
ensure_cache_age config now obtained_at =
    if config.jwks_max_stale_seconds == 0
    then ok tt
    else ensure (leb (now - obtained_at) (seconds config.jwks_max_stale_seconds)) stale

abbrev pub minimum_interval : ClientAuthorizationConfig → Bool → ℕ
minimum_interval config force = if force then seconds 10 else seconds config.jwks_refresh_seconds

-- `map_err(Denial::Unauthorized)`.
abbrev pub deny {ℓ} : {E : Type 0} {A : Type ℓ} → Result E A → Result Denial A
deny (ok a) = ok a
deny (err e) = err unauthorized

module _ {Set Jwk Alg Key : Type 0} (j : Jwts Set Jwk Alg Key) where
  unfoldable pub parse_algorithm : Str → Result JwtError Alg
  parse_algorithm value = do
    algorithm ← ok_or (j.from_str value) unsupported
    ensure (not (any (j.alg_eq algorithm) j.symmetric)) symmetric_algorithm
    ok algorithm

  unfoldable pub parse_algorithms : List Str → Result JwtError (List Alg)
  parse_algorithms [] = ok []
  parse_algorithms (value ∷ values) = do
    algorithm ← parse_algorithm value
    algorithms ← parse_algorithms values
    ok (algorithm ∷ algorithms)

  -- The address of the keys: configured, or read from the discovery document.
  abbrev jwks_uri_of : ClientAuthorizationConfig → Attempt Set → Option Str → Result JwtError Str
  jwks_uri_of config w (some uri) = ok uri
  jwks_uri_of config w none = do
    discovery ←
        ok_or
          (w.discovery
            (trim_end_matches b'/' config.issuer ++ codes "/.well-known/openid-configuration"))
          unreachable
    ensure (str_eq discovery.issuer config.issuer) wrong_issuer
    ok discovery.jwks_uri

  unfoldable pub fetch_jwks : ClientAuthorizationConfig → Attempt Set → Result JwtError Set
  fetch_jwks config w = do
    uri ← jwks_uri_of config w config.jwks_uri
    set ← ok_or (w.jwks uri) unreachable
    ensure (not (j.has_no_keys set)) no_keys
    ok set

  -- What follows a fetch.
  unfoldable pub fetched :
      JwtAuthorizer Set Alg
      → Attempt Set
      → Result JwtError Set
      → Result JwtError (Unit {0}) × JwtAuthorizer Set Alg
  fetched self w (ok set) =
      if w.persisted
      then (ok tt, record self { keys = record { set = set; obtained_at = w.obtained_at } })
      else (err not_persisted, self)
  fetched self w (err e) = (ensure_cache_age self.config w.checked_at self.keys.obtained_at, self)

  unfoldable pub refresh_if_due :
      JwtAuthorizer Set Alg
      → Bool
      → Attempt Set
      → Result JwtError (Unit {0}) × JwtAuthorizer Set Alg
  refresh_if_due self force w =
      if ltb (w.instant - self.refresh) (minimum_interval self.config force)
      then (ok tt, self)
      else fetched (record self { refresh = w.stamp }) w (fetch_jwks self.config w)

  -- A use and an algorithm that a key states.
  abbrev signs : Option Bool → Bool
  signs none = true
  signs (some signature) = signature

  abbrev pub algorithm_agrees : Option (Option Alg) → Alg → Bool
  algorithm_agrees none algorithm = true
  algorithm_agrees (some none) algorithm = false
  algorithm_agrees (some (some a)) algorithm = j.alg_eq a algorithm

  unfoldable pub key_for : JwtAuthorizer Set Alg → Str → Alg → ℕ → Result JwtError Key
  key_for self kid algorithm now = do
    ensure_cache_age self.config now self.keys.obtained_at
    jwk ← ok_or (j.find self.keys.set kid) no_key
    ensure (signs (j.public_key_use jwk)) not_signing
    ensure (algorithm_agrees (j.key_algorithm jwk) algorithm) wrong_algorithm
    ok_or (j.from_jwk jwk) bad_key

  -- The second look-up, behind a forced refresh.
  unfoldable pub key_after :
      Str
      → Alg
      → ℕ
      → Result JwtError (Unit {0}) × JwtAuthorizer Set Alg
      → Result JwtError Key × JwtAuthorizer Set Alg
  key_after kid algorithm now (r, self) = ((r >> key_for self kid algorithm now), self)

  abbrev key_or :
      JwtAuthorizer Set Alg
      → Result JwtError Key
      → Result JwtError Key × JwtAuthorizer Set Alg
      → Result JwtError Key × JwtAuthorizer Set Alg
  key_or self (ok key) second = (ok key, self)
  key_or self (err e) second = second

  unfoldable pub find_key :
      JwtAuthorizer Set Alg → Str → Alg → Trial Set → Result JwtError Key × JwtAuthorizer Set Alg
  find_key self kid algorithm t =
      key_or self (key_for self kid algorithm t.looked_at)
        (key_after kid algorithm t.looked_again_at (refresh_if_due self true t.second))

  unfoldable pub validation_of : ClientAuthorizationConfig → Alg → Validation Alg
  validation_of config algorithm = record {
    algorithm = algorithm;
    leeway = config.leeway_seconds;
    validate_nbf = true;
    issuer = config.issuer ∷ [];
    audience = config.audiences;
    required_spec_claims = codes "exp" ∷ codes "iss" ∷ codes "aud" ∷ [];
  }

  unfoldable pub verify :
      ClientAuthorizationConfig → Str → Alg → Result JwtError Key → Result Denial Value
  verify config token algorithm found = do
    key ← deny found
    claims ← ok_or (j.decode token key (validation_of config algorithm)) unauthorized
    validate_roles claims config
    ok claims

  -- The header of the token: an algorithm that is allowed, and the name of a key.
  unfoldable pub token_header : JwtAuthorizer Set Alg → Str → Result Denial (Alg × Str)
  token_header self token = do
    (algorithm, named) ← ok_or (j.decode_header token) unauthorized
    ensure (any (j.alg_eq algorithm) self.algorithms) unauthorized
    kid ← ok_or named unauthorized
    ok (algorithm, kid)

  unfoldable pub verified :
      Str
      → Alg
      → Result JwtError Key × JwtAuthorizer Set Alg
      → Result Denial Value × JwtAuthorizer Set Alg
  verified token algorithm (found, self) = (verify self.config token algorithm found, self)

  abbrev pub with_header :
      JwtAuthorizer Set Alg
      → Str
      → Trial Set
      → Result Denial (Alg × Str)
      → Result Denial Value × JwtAuthorizer Set Alg
  with_header self token t (err d) = (err d, self)
  with_header self token t (ok (algorithm, kid)) =
      verified token algorithm (find_key self kid algorithm t)

  unfoldable pub after_refresh :
      Str
      → Trial Set
      → Result JwtError (Unit {0}) × JwtAuthorizer Set Alg
      → Result Denial Value × JwtAuthorizer Set Alg
  after_refresh token t (err e, self) = (err unauthorized, self)
  after_refresh token t (ok u, self) = with_header self token t (token_header self token)

  unfoldable pub authorize_token :
      JwtAuthorizer Set Alg → Str → Trial Set → Result Denial Value × JwtAuthorizer Set Alg
  authorize_token self token t = after_refresh token t (refresh_if_due self false t.first)

-- The token of an `Authorization` header.
unfoldable pub bearer_token_of : (Str → Bool) → Option Str → Result Denial Str
bearer_token_of to_str header = do
  value ← ok_or header unauthorized
  ensure (to_str value) unauthorized
  (scheme, token) ← ok_or (split_once b' ' (trim value)) unauthorized
  ensure (eq_ignore_ascii_case scheme (codes "Bearer") && not (is_empty (trim token))) unauthorized
  ok (trim token)

module _ {Set Jwk Alg Key M : Type 0} (j : Jwts Set Jwk Alg Key) (h : HeaderMap M) where
  abbrev token_or_denial :
      JwtAuthorizer Set Alg
      → Trial Set
      → Result Denial Str
      → Result Denial Value × JwtAuthorizer Set Alg
  token_or_denial self t (err d) = (err d, self)
  token_or_denial self t (ok token) = authorize_token j self token t

  unfoldable pub authorize_headers :
      JwtAuthorizer Set Alg → M → Trial Set → Result Denial Value × JwtAuthorizer Set Alg
  authorize_headers self headers t =
      token_or_denial self t
        (bearer_token_of h.to_str (get_header h headers (codes "authorization")))
