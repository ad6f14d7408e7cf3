-- ===== src/Client/Proxy/Told.antt =====
-- The headers of the request that `prepare_request` makes (client/src/http_proxy.rs).
use lfp_pipe.Base.{
  ◌≡◌, refl, subst, ◌∙◌, false, Option, some, [], if◌then◌else◌, ok, ok_or, bind-eq-ok,
  ok-injective, ok_or-ok,
}
use lfp_pipe.Text.{codes}
use lfp_pipe.Text.Ascii.{Str}
use lfp_pipe.Client.Claims.{AuthenticatedIdentity}
use lfp_pipe.Client.Hyper.{HeaderMap, Uris, Request, get_header}
use lfp_pipe.Client.Proxy.{
  BackendRuntime, identity_headers, identity_fields, with_identity, with_backend_host, proxied,
  stripped, prepare_request, no_host,
}
use lfp_pipe.Client.Proxy.Headers.{set_to, among}
use lfp_pipe.Client.Proxy.Rewritten.{
  rewritten_headers, with_identity-told, not_in, known, proxied-other, with_backend_host-other,
}

module _ {M U A : Type 0} (h : HeaderMap M) (u : Uris U) where
  -- The steps of a preparation that succeeds.
  pub record IsPrepared (request : Request M U) (backend : BackendRuntime A)
      (client_ip : Option Str) (scheme : Str) (identity : Option AuthenticatedIdentity)
      (out : Request M U) : Type 0 where
    pub host : Str
    pub told : M
    pub forwarded : M
    pub has_host : get_header h request.headers (codes "host") ≡ some host
    pub telling : with_identity h request.headers identity ≡ ok told
    pub uri :
        stripped u backend.rule.strip_path_prefix request.uri backend.rule.path_prefix ≡ ok out.uri
    pub forwarding : proxied h backend.rule.proxy_headers told client_ip scheme host ≡ ok forwarded
    pub hosting : with_backend_host h backend.rule.backend_host forwarded ≡ ok out.headers
    pub same_method : out.method ≡ request.method

  pub prepare_request-IsPrepared :
      (request : Request M U) (backend : BackendRuntime A) (client_ip : Option Str) (scheme : Str)
      (identity : Option AuthenticatedIdentity) (out : Request M U)
      → prepare_request h u request backend client_ip scheme identity ≡ ok out
      → IsPrepared request backend client_ip scheme identity out
  unfolding prepare_request
  prepare_request-IsPrepared request backend client_ip scheme identity out e =
      let (host, a, e1) =
        bind-eq-ok (ok_or (get_header h request.headers (codes "host")) no_host) _ e in
      let (told, b, e2) = bind-eq-ok (with_identity h request.headers identity) _ e1 in
      let (uri, c, e3) =
        bind-eq-ok (stripped u backend.rule.strip_path_prefix request.uri backend.rule.path_prefix)
          _ e2 in
      let (forwarded, d, e4) =
        bind-eq-ok (proxied h backend.rule.proxy_headers told client_ip scheme host) _ e3 in
      let (headers, f, e5) =
        bind-eq-ok (with_backend_host h backend.rule.backend_host forwarded) _ e4 in
      subst (IsPrepared request backend client_ip scheme identity) (ok-injective e5) (record {
        host = host;
        told = told;
        forwarded = forwarded;
        has_host = ok_or-ok no_host a;
        telling = b;
        uri = c;
        forwarding = d;
        hosting = f;
        same_method = refl;
      })

  -- A name that is not rewritten for the proxy has, in the request to the backend, what the request had. A
  -- name of the list of identity headers has, whatever the request said, what the identity sets it to: one
  -- value, or none where there is no identity or the identity does not tell it.
  pub prepare_request-told :
      (request : Request M U) (backend : BackendRuntime A) (client_ip : Option Str) (scheme : Str)
      (identity : Option AuthenticatedIdentity) (out : Request M U) (name : Str)
      → prepare_request h u request backend client_ip scheme identity ≡ ok out
      → among name rewritten_headers ≡ false
      → h.get_all out.headers name ≡ (
          if among name identity_headers
          then set_to name (identity_fields identity) []
          else h.get_all request.headers name)
  prepare_request-told request backend client_ip scheme identity out name e f =
      let s = prepare_request-IsPrepared request backend client_ip scheme identity out e in
      let (ps, proto, fhost, encoding, hst) = known in
      with_backend_host-other h backend.rule.backend_host s.forwarded out.headers name
        (not_in (codes "host") name rewritten_headers hst f) s.hosting
      ∙ proxied-other h backend.rule.proxy_headers s.told s.forwarded client_ip scheme s.host name f
          s.forwarding
      ∙ with_identity-told h request.headers s.told identity name s.telling
