-- ===== src/Examples/Web.antt =====
-- A header map, a URI, a key set, a provider and a policy to run the client on.
mod Proxied
mod Signed
mod Sessions
mod Running
mod Bound
use lfp_pipe.Base.{
  ℕ, ◌≡◌, refl, ◌↔◌, Bool, true, false, not, ◌&&◌, Option, none, some, List, [], ◌∷◌, ◌++◌,
  if◌then◌else◌, filter,
}
use lfp_pipe.Text.{codes}
use lfp_pipe.Text.Ascii.{Str, str_eq, str_eq_refl, str_eq_iff}
use lfp_pipe.Text.Split.{split_once}
use lfp_pipe.Config.Authorization
use lfp_pipe.Config.Authorization.{
  ClientAuthorizationConfig, RoleMatch, default_roles_claim, default_jwt_algorithms,
  default_browser_oidc_scopes,
}
use lfp_pipe.Config.Backend.{BackendRule}
use lfp_pipe.Client.Claims.{
  Value, string, number, array, object, nil, item, end, member, AuthenticatedIdentity,
}
use lfp_pipe.Client.Hyper.{HeaderMap, Uris, Request}
use lfp_pipe.Client.Jwt.{Jwts, JwtAuthorizer, Attempt, Trial}
use lfp_pipe.Client.Cookies.{Jar}
use lfp_pipe.Client.Oidc.{OidcAuthorizer, OidcFlow, Provider, Payloads, Times}
use lfp_pipe.Client.Authorize.{Authorizer}
use lfp_pipe.Client.Proxy.{BackendRuntime}

-- The latest entry of a name counts.
abbrev pub Entries : Type 0
Entries = List (Str × List Str)

unfoldable pub values_of : Entries → Str → List Str
values_of [] name = []
values_of ((n, values) ∷ entries) name = if str_eq n name then values else values_of entries name

pub entry_same : (m : Entries) (n : Str) (vs : List Str) → values_of ((n, vs) ∷ m) n ≡ vs
unfolding values_of
entry_same m n vs = rw (str_eq_refl n) refl

pub entry_other :
    (m : Entries) (n k : Str) (vs : List Str)
    → str_eq n k ≡ false
    → values_of ((n, vs) ∷ m) k ≡ values_of m k
unfolding values_of
entry_other m n k vs f = rw f refl

abbrev pub entries : HeaderMap Entries
entries = record {
  new = [];
  get_all = values_of;
  insert = λ m name value. (name, value ∷ []) ∷ m;
  append = λ m name value. (name, values_of m name ++ value ∷ []) ∷ m;
  remove = λ m name. (name, []) ∷ m;
  from_str = λ value. true;
  to_str = λ value. true;
  insert_same = λ m name value. entry_same m name (value ∷ []);
  insert_other = λ m name value other f. entry_other m name other (value ∷ []) f;
  remove_same = λ m name. entry_same m name [];
  remove_other = λ m name other f. entry_other m name other [] f;
}

abbrev pub Parts : Type 0
Parts = Str × Option Str

abbrev parts_of : Str → Option (Str × Str) → Parts
parts_of s none = (s, none)
parts_of s (some (path, query)) = (path, some query)

abbrev pub parts : Uris Parts
parts = record {
  path = λ uri. uri.0;
  query = λ uri. uri.1;
  path_and_query = λ uri. some uri.0;
  from_str = λ s. some (parts_of s (split_once b'?' s));
}

abbrev pub claims : Value
claims = object (
    member (codes "sub") (string (codes "u1"))
      (member (codes "groups") (array (item (string (codes "admins")) nil)) end))

-- Tokens of one key, with one algorithm.
abbrev pub keys : Jwts (List Str) Str Str Str
keys = record {
  find = λ set kid. if str_eq kid (codes "k1") then some kid else none;
  has_no_keys = λ set. false;
  public_key_use = λ jwk. some true;
  key_algorithm = λ jwk. some (some (codes "RS256"));
  from_jwk = λ jwk. some jwk;
  from_str = λ s. some s;
  symmetric = codes "HS256" ∷ [];
  alg_eq = str_eq;
  decode_header = λ token. some (codes "RS256", some (codes "k1"));
  decode = λ token key validation. if str_eq token (codes "good") then some claims else none;
}

abbrev pub flow : OidcFlow
flow = record {
  state = codes "s1";
  nonce = codes "n1";
  pkce_verifier = codes "v1";
  return_to = codes "/app";
  expires_unix = 2_000;
}

abbrev pub identity : AuthenticatedIdentity
identity = record {
  subject = codes "u1";
  username = codes "u1";
  name = none;
  email = none;
  groups = codes "admins" ∷ [];
  expires_unix = 2_000;
}

abbrev pub payloads : Payloads
payloads = record {
  flow = record { to_vec = λ f. some f.state; from_slice = λ s. some flow };
  identity = record { to_vec = λ i. some i.subject; from_slice = λ s. some identity };
  claims = record { to_vec = λ v. some []; from_slice = λ s. some claims };
}

abbrev pub jar : Jar
jar = record {
  add = λ name value age. some (name ++ b'=' ∷ value);
  get = λ name raw. some raw;
  encode = λ s. s;
  decode = λ s. some s;
}

abbrev pub provider : Provider Str Str Str
provider = record {
  redirect_url = λ url. true;
  authorize_url = λ core scopes. record {
    url = codes "https://id.test/auth";
    state = codes "s1";
    nonce = codes "n1";
    pkce_verifier = codes "v1";
  };
  exchange_code = λ core code verifier. some code;
  id_token = λ tokens. some (codes "a.b.c");
  claims = λ core id nonce. some id;
  access_token_hash = λ c. none;
  from_token = λ core tokens id. none;
  to_string = λ id. id;
  form_urlencoded = λ query. (codes "state", codes "s1") ∷ (codes "code", codes "c1") ∷ [];
  constant_time_eq = str_eq;
  constant_time_eq_iff = str_eq_iff;
}

abbrev pub policy : ClientAuthorizationConfig
policy = record {
  bearer = some true;
  oidc = some true;
  issuer = codes "https://id.test/";
  audiences = codes "app" ∷ [];
  jwks_uri = some (codes "https://id.test/jwks");
  jwks_cache_file = codes "/var/jwks.json";
  roles_claim = default_roles_claim;
  required_roles = codes "admins" ∷ [];
  forward_authorization = false;
  role_match = RoleMatch.any;
  algorithms = default_jwt_algorithms;
  leeway_seconds = 30;
  jwks_refresh_seconds = 3_600;
  jwks_max_stale_seconds = 604_800;
  header_timeout_ms = 5_000;
  max_header_bytes = 32_768;
  oidc_client_id = some (codes "web");
  oidc_client_secret_file = none;
  oidc_scopes = default_browser_oidc_scopes;
  oidc_callback_path = codes "/cb";
  oidc_logout_path = codes "/out";
  oidc_session_key_file = codes "/var/key";
  oidc_session_ttl_seconds = 600;
}

abbrev pub attempt : Attempt (List Str)
attempt = record {
  instant = 20_000_000_000;
  stamp = 20_000_000_001;
  discovery = λ uri. none;
  jwks = λ uri. some (codes "k1" ∷ []);
  persisted = true;
  obtained_at = 1_000;
  checked_at = 1_000;
}

abbrev pub trial : Trial (List Str)
trial = record { first = attempt; looked_at = 2_000; second = attempt; looked_again_at = 2_001 }

abbrev pub times : Times
times = record { now = 1_000; later = 1_001 }

abbrev pub bearer : JwtAuthorizer (List Str) Str
bearer = record {
  config = policy;
  algorithms = codes "RS256" ∷ [];
  keys = record { set = codes "k1" ∷ []; obtained_at = 1_000 };
  refresh = 10_000_000_000;
}

abbrev pub oidc : OidcAuthorizer Str Str Str
oidc = record {
  config = policy;
  hostname = codes "app.test";
  provider = provider;
  client_secret = none;
  cookie_key = jar;
  flow_cookie = codes "f";
  session_cookie = codes "s";
}

abbrev pub authorizer : Authorizer (List Str) Str Str Str Str
authorizer = record { config = policy; bearer = some bearer; oidc = some oidc }

abbrev pub rule : BackendRule
rule = record {
  pattern = codes "app.test";
  path_prefix = some (codes "/api/");
  strip_path_prefix = true;
  proxy_headers = true;
  backend_addr = codes ":8080";
  backend_host = none;
  http_backend_addr = none;
  authorization = some policy;
}

abbrev pub backend : BackendRuntime (Authorizer (List Str) Str Str Str Str)
backend = record { rule = rule; authorization = some authorizer }

-- A request that brings a token and claims to be somebody else.
abbrev pub request : Request Entries Parts
request = record {
  method = codes "GET";
  uri = (codes "/api/jobs", some (codes "a=b"));
  headers =
      (codes "host", codes "app.test" ∷ [])
      ∷ (codes "authorization", codes "Bearer good" ∷ [])
      ∷ (codes "x-forwarded-user", codes "root" ∷ [])
      ∷ [];
}
