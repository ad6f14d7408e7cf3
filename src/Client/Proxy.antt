-- ===== src/Client/Proxy.antt =====
-- client/src/http_proxy.rs: one request of an inspected connection, from its authorization to the request
-- that the backend is sent. `BackendRuntime` and `select_runtime_for_path` are of client/src/lib.rs.
pub mod Select
pub mod Strip
pub mod Headers
pub mod Rewritten
pub mod Told
pub mod Trusted
pub mod Handle
pub mod Forward
use lfp_pipe.Base.{
  ℕ, ◌*◌, Bool, true, false, not, ◌&&◌, ◌||◌, Option, none, some, List, [], ◌∷◌, ◌++◌, is_some,
  unwrap_or, or_option, filter, find, min, max, if◌then◌else◌, Result, ok, err, ok_or, ensure,
  ◌>>=◌, ◌>>◌,
}
use lfp_pipe.Text.{codes}
use lfp_pipe.Text.Ascii.{Str, str_eq}
use lfp_pipe.Text.Affix.{starts_with, strip_prefix, trim_end_matches}
use lfp_pipe.Text.Split.{join}
use lfp_pipe.Text.White.{is_blank, is_empty}
use lfp_pipe.Config.Backend.{BackendRule, resolved_http_backend_addr}
use lfp_pipe.Routing.Select.{max_by_key, serves_path, serves_host, specificity}
use lfp_pipe.Client.Claims.{AuthenticatedIdentity}
use lfp_pipe.Client.Hyper.{
  HeaderMap, Uris, Request, AuthResponse, get_header, contains_key, error_body,
}
use lfp_pipe.Client.Jwt.{Jwts, Trial}
use lfp_pipe.Client.Oidc.{Payloads, Times}
use lfp_pipe.Client.Authorize.{
  Authorizer, AuthorizationDecision, allow, respond, authorize, forward_authorization,
  handles_endpoint, authorizer_limits,
}

-- A rule with its authorizer.
pub record BackendRuntime (A : Type 0) : Type 0 where
  pub rule : BackendRule
  pub authorization : Option A

pub data ProxyError : Type 0 where
  no_host no_prefix path_mismatch bad_uri bad_redirect bad_scheme bad_backend_host : ProxyError
  no_backend endpoint_not_handled : ProxyError
  bad_header : Str → ProxyError

module _ {A : Type 0} where
  unfoldable pub select_runtime_for_path :
      List (BackendRuntime A) → Option Str → Str → Option (BackendRuntime A)
  select_runtime_for_path rules hostname path =
      or_option
        (max_by_key (λ runtime. specificity runtime.rule)
          (filter (λ runtime. serves_path hostname path runtime.rule) rules))
        (find (λ runtime. serves_host hostname runtime.rule) rules)

  -- `backends.iter().filter_map(|backend| backend.authorization.as_ref())`.
  abbrev pub cons_option : Option A → List A → List A
  cons_option none rest = rest
  cons_option (some a) rest = a ∷ rest

  unfoldable pub authorizers_of : List (BackendRuntime A) → List A
  authorizers_of [] = []
  authorizers_of (backend ∷ backends) = cons_option backend.authorization (authorizers_of backends)

abbrev pub identity_headers : List Str
identity_headers =
    codes "x-forwarded-user"
    ∷ codes "x-forwarded-email"
    ∷ codes "x-forwarded-groups"
    ∷ codes "x-auth-request-user"
    ∷ codes "x-auth-request-email"
    ∷ codes "x-auth-request-groups"
    ∷ codes "x-auth-request-preferred-username"
    ∷ codes "x-authentik-uid"
    ∷ codes "x-authentik-username"
    ∷ codes "x-authentik-name"
    ∷ codes "x-authentik-email"
    ∷ codes "x-authentik-groups"
    ∷ []

-- The calls of `set_header` for an identity, in their order.
abbrev email_fields : Option Str → List (Str × Str)
email_fields none = []
email_fields (some email) =
    (codes "x-forwarded-email", email)
    ∷ (codes "x-auth-request-email", email)
    ∷ (codes "x-authentik-email", email)
    ∷ []

abbrev group_fields : List Str → List (Str × Str)
group_fields [] = []
group_fields (g ∷ gs) =
    (codes "x-forwarded-groups", join (codes ",") (g ∷ gs))
    ∷ (codes "x-auth-request-groups", join (codes ",") (g ∷ gs))
    ∷ (codes "x-authentik-groups", join (codes "|") (g ∷ gs))
    ∷ []

abbrev pub identity_fields : Option AuthenticatedIdentity → List (Str × Str)
identity_fields none = []
identity_fields (some i) =
    (codes "x-forwarded-user", i.username)
    ∷ (codes "x-auth-request-user", i.username)
    ∷ (codes "x-auth-request-preferred-username", i.username)
    ∷ (codes "x-authentik-uid", i.subject)
    ∷ (codes "x-authentik-username", i.username)
    ∷ (codes "x-authentik-name", unwrap_or i.name i.username)
    ∷ (email_fields i.email ++ group_fields i.groups)

abbrev pub proxy_header_names : List Str
proxy_header_names =
    codes "forwarded"
    ∷ codes "x-forwarded-for"
    ∷ codes "x-forwarded-proto"
    ∷ codes "x-forwarded-host"
    ∷ []

abbrev pub client_fields : Option Str → List (Str × Str)
client_fields none = []
client_fields (some ip) = if not (is_blank ip) then (codes "x-forwarded-for", ip) ∷ [] else []

module _ {M : Type 0} (h : HeaderMap M) where
  unfoldable pub remove_all : List Str → M → M
  remove_all [] m = m
  remove_all (name ∷ names) m = remove_all names (h.remove m name)

  unfoldable pub set_header : M → Str → Str → Result ProxyError M
  set_header m name value =
      if h.from_str value then ok (h.insert m name value) else err (bad_header name)

  unfoldable pub set_headers : M → List (Str × Str) → Result ProxyError M
  set_headers m [] = ok m
  set_headers m ((name, value) ∷ fields) = do set ← set_header m name value; set_headers set fields

  -- The headers that name the user.
  unfoldable pub with_identity : M → Option AuthenticatedIdentity → Result ProxyError M
  with_identity m identity = set_headers (remove_all identity_headers m) (identity_fields identity)

  -- The headers that name the client, behind those of the test `proxy_headers`.
  unfoldable pub with_encoding : M → M
  with_encoding m =
      if not (contains_key h m (codes "accept-encoding"))
      then h.insert m (codes "accept-encoding") (codes "gzip")
      else m

  unfoldable pub with_proxy_headers : M → Option Str → Str → Str → Result ProxyError M
  with_proxy_headers m client_ip scheme original_host = do
    named ← set_headers (remove_all proxy_header_names m) (client_fields client_ip)
    ensure (h.from_str scheme) bad_scheme
    ok (
        with_encoding (
          h.insert (h.insert named (codes "x-forwarded-proto") scheme) (codes "x-forwarded-host")
            original_host))

  abbrev pub proxied : Bool → M → Option Str → Str → Str → Result ProxyError M
  proxied true m client_ip scheme original_host =
      with_proxy_headers m client_ip scheme original_host
  proxied false m client_ip scheme original_host = ok m

  abbrev pub with_backend_host : Option Str → M → Result ProxyError M
  with_backend_host none m = ok m
  with_backend_host (some host) m = do
    ensure (h.from_str host) bad_backend_host
    ok (h.insert m (codes "host") host)

-- A path and a query as one text.
abbrev pub with_query : Str → Option Str → Str
with_query path none = path
with_query path (some query) = path ++ b'?' ∷ query

-- `.filter(|value| value.is_empty() || value.starts_with('/'))`.
abbrev pub at_segment : Option Str → Option Str
at_segment none = none
at_segment (some rest) = if is_empty rest || starts_with rest (codes "/") then some rest else none

module _ {U : Type 0} (u : Uris U) where
  unfoldable pub strip_uri_prefix : U → Str → Result ProxyError U
  strip_uri_prefix uri prefix = do
    remainder ←
        ok_or (at_segment (strip_prefix (u.path uri) (trim_end_matches b'/' prefix))) path_mismatch
    ok_or
        (u.from_str
          (with_query (if is_empty remainder then codes "/" else remainder) (u.query uri)))
        bad_uri

  abbrev pub stripped : Bool → U → Option Str → Result ProxyError U
  stripped false uri path_prefix = ok uri
  stripped true uri path_prefix = do
    prefix ← ok_or path_prefix no_prefix
    strip_uri_prefix uri prefix

module _ {M U : Type 0} (h : HeaderMap M) (u : Uris U) where
  -- The redirect of the prefix itself to the prefix with a slash behind it.
  unfoldable pub redirect_to_prefix : U → Str → Result ProxyError (Option (AuthResponse M))
  redirect_to_prefix uri prefix =
      let location = with_query (prefix ++ codes "/") (u.query uri) in
      if is_empty prefix || str_eq prefix (codes "/") || not (str_eq (u.path uri) prefix)
      then ok none
      else if h.from_str location
      then ok (
          some (record {
            status = 308;
            headers = h.insert h.new (codes "location") location;
            body = [];
          }))
      else err bad_redirect

module _ {M U A : Type 0} (h : HeaderMap M) (u : Uris U) where
  unfoldable pub canonical_prefix_redirect :
      U → BackendRuntime A → Result ProxyError (Option (AuthResponse M))
  canonical_prefix_redirect uri backend = if not backend.rule.strip_path_prefix then ok none else do
    prefix ← ok_or backend.rule.path_prefix no_prefix
    redirect_to_prefix h u uri (trim_end_matches b'/' prefix)

  unfoldable pub prepare_request :
      Request M U
      → BackendRuntime A
      → Option Str
      → Str
      → Option AuthenticatedIdentity
      → Result ProxyError (Request M U)
  prepare_request request backend client_ip scheme identity = do
    original_host ← ok_or (get_header h request.headers (codes "host")) no_host
    told ← with_identity h request.headers identity
    uri ← stripped u backend.rule.strip_path_prefix request.uri backend.rule.path_prefix
    forwarded ← proxied h backend.rule.proxy_headers told client_ip scheme original_host
    headers ← with_backend_host h backend.rule.backend_host forwarded
    ok (record { method = request.method; uri = uri; headers = headers })
