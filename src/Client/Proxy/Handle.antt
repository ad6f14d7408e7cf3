-- ===== src/Client/Proxy/Handle.antt =====
-- `request_limits`, `handle_request` and `handle_request_inner` (client/src/http_proxy.rs). What the keys of
-- an authorizer become by a refresh is the state of `authorize`; the decision alone is read here.
use lfp_pipe.Base.{
  ℕ, ◌*◌, not, Option, none, some, List, [], ◌∷◌, find, min, max, if◌then◌else◌, Result, ok, err,
  ok_or, ◌>>=◌,
}
use lfp_pipe.Text.{codes}
use lfp_pipe.Text.Ascii.{Str}
use lfp_pipe.Config.Backend.{resolved_http_backend_addr}
use lfp_pipe.Client.Hyper.{HeaderMap, Uris, Request, AuthResponse, error_body}
use lfp_pipe.Client.Jwt.{Jwts, Trial}
use lfp_pipe.Client.Oidc.{Payloads, Times}
use lfp_pipe.Client.Authorize.{
  Authorizer, AuthorizationDecision, allow, respond, authorize, forward_authorization,
  handles_endpoint, authorizer_limits,
}
use lfp_pipe.Client.Proxy.{
  BackendRuntime, ProxyError, endpoint_not_handled, no_backend, select_runtime_for_path,
  authorizers_of, canonical_prefix_redirect, prepare_request,
}

-- The smaller of two limits, of each kind.
abbrev both_min : ℕ × ℕ → ℕ × ℕ → ℕ × ℕ
both_min (a, b) (c, d) = (min a c, min b d)

pub data RequestAction (M U A : Type 0) : Type 0 where
  answer : AuthResponse M → RequestAction M U A
  forward : BackendRuntime A → Request M U → RequestAction M U A

-- What `handle_request` goes on with: a response of its own, or a request to an address.
pub data Outcome (M U : Type 0) : Type 0 where
  local : AuthResponse M → Outcome M U
  sent : Str → Request M U → Outcome M U

module _ {Set Alg Tokens IdToken IdClaims : Type 0} where
  unfoldable pub fold_limits : ℕ × ℕ → List (Authorizer Set Alg Tokens IdToken IdClaims) → ℕ × ℕ
  fold_limits limits [] = limits
  fold_limits limits (a ∷ rest) = fold_limits (both_min limits (authorizer_limits a)) rest

  -- The size in bytes and the time in milliseconds that a request head has.
  unfoldable pub request_limits :
      List (BackendRuntime (Authorizer Set Alg Tokens IdToken IdClaims)) → ℕ × ℕ
  request_limits backends = fold_limits (32 * 1024, 5_000) (authorizers_of backends)

  -- `max_buf_size` of the server.
  unfoldable pub buffer_size :
      List (BackendRuntime (Authorizer Set Alg Tokens IdToken IdClaims)) → ℕ
  buffer_size backends = max (request_limits backends).0 (8 * 1024)

module _ {M : Type 0} (h : HeaderMap M) where
  unfoldable pub error_response : ℕ → Str → AuthResponse M
  error_response status message = record {
    status = status;
    headers = h.insert h.new (codes "content-type") (codes "application/json");
    body = error_body h message;
  }

  -- The `Authorization` header stays only for a backend whose policy forwards it.
  abbrev pub kept_authorization :
      {Set Alg Tokens IdToken IdClaims : Type 0}
      → Option (Authorizer Set Alg Tokens IdToken IdClaims)
      → M
      → M
  kept_authorization none m = m
  kept_authorization (some a) m =
      if not (forward_authorization a) then h.remove m (codes "authorization") else m

module _ {M U Set Jwk Alg Key Tokens IdToken IdClaims : Type 0} (h : HeaderMap M) (u : Uris U)
    (json : Payloads) (j : Jwts Set Jwk Alg Key) where
  unfoldable pub decision_for :
      Option (Authorizer Set Alg Tokens IdToken IdClaims)
      → Request M U
      → Trial Set
      → Times
      → AuthorizationDecision M
  decision_for none request trial times = allow none
  decision_for (some a) request trial times = (authorize h u json j a request trial times).0

  abbrev pub or_prepare :
      Option (AuthResponse M)
      → Result ProxyError (RequestAction M U (Authorizer Set Alg Tokens IdToken IdClaims))
      → Result ProxyError (RequestAction M U (Authorizer Set Alg Tokens IdToken IdClaims))
  or_prepare (some response) other = ok (answer response)
  or_prepare none other = other

  unfoldable pub by_decision :
      BackendRuntime (Authorizer Set Alg Tokens IdToken IdClaims)
      → Request M U
      → Option Str
      → Str
      → AuthorizationDecision M
      → Result ProxyError (RequestAction M U (Authorizer Set Alg Tokens IdToken IdClaims))
  by_decision backend request client_ip scheme (respond response) = ok (answer response)
  by_decision backend request client_ip scheme (allow identity) = do
    redirect ← canonical_prefix_redirect h u request.uri backend
    or_prepare redirect do
      prepared ←
          prepare_request h u
            (record request {
              headers = kept_authorization h backend.authorization request.headers;
            })
            backend client_ip scheme identity
      ok (forward backend prepared)

  unfoldable pub to_backend :
      Request M U
      → Str
      → Option Str
      → Str
      → List (BackendRuntime (Authorizer Set Alg Tokens IdToken IdClaims))
      → Trial Set
      → Times
      → Result ProxyError (RequestAction M U (Authorizer Set Alg Tokens IdToken IdClaims))
  to_backend request hostname client_ip scheme backends trial times = do
    backend ←
        ok_or (select_runtime_for_path backends (some hostname) (u.path request.uri)) no_backend
    by_decision backend request client_ip scheme
        (decision_for backend.authorization request trial times)

  abbrev pub endpoint_action :
      AuthorizationDecision M
      → Result ProxyError (RequestAction M U (Authorizer Set Alg Tokens IdToken IdClaims))
  endpoint_action (respond response) = ok (answer response)
  endpoint_action (allow identity) = err endpoint_not_handled

  abbrev or_endpoint :
      Option (Authorizer Set Alg Tokens IdToken IdClaims)
      → Request M U
      → Trial Set
      → Times
      → Result ProxyError (RequestAction M U (Authorizer Set Alg Tokens IdToken IdClaims))
      → Result ProxyError (RequestAction M U (Authorizer Set Alg Tokens IdToken IdClaims))
  or_endpoint none request trial times other = other
  or_endpoint (some a) request trial times other =
      endpoint_action (authorize h u json j a request trial times).0

  unfoldable pub handle_request_inner :
      Request M U
      → Str
      → Option Str
      → Str
      → List (BackendRuntime (Authorizer Set Alg Tokens IdToken IdClaims))
      → Trial Set
      → Times
      → Result ProxyError (RequestAction M U (Authorizer Set Alg Tokens IdToken IdClaims))
  handle_request_inner request hostname client_ip scheme backends trial times =
      or_endpoint (find (λ a. handles_endpoint a (u.path request.uri)) (authorizers_of backends))
        request trial times (to_backend request hostname client_ip scheme backends trial times)

  abbrev outcome_of :
      Result ProxyError (RequestAction M U (Authorizer Set Alg Tokens IdToken IdClaims))
      → Outcome M U
  outcome_of (ok (answer response)) = local response
  outcome_of (ok (forward backend request)) = sent (resolved_http_backend_addr backend.rule) request
  outcome_of (err e) = local (error_response h 502 (codes "bad gateway"))

  unfoldable pub handle_request :
      Request M U
      → Str
      → Option Str
      → Str
      → List (BackendRuntime (Authorizer Set Alg Tokens IdToken IdClaims))
      → Trial Set
      → Times
      → Outcome M U
  handle_request request hostname client_ip scheme backends trial times =
      outcome_of (handle_request_inner request hostname client_ip scheme backends trial times)
