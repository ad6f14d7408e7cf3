-- ===== src/Client/Bridge.antt =====
-- client/src/lib.rs: the answer to a connection request, and `bridge_connection` up to the byte relay.
pub mod Inspected
use lfp_pipe.Base.{
  ℕ, Bool, true, false, not, ◌&&◌, ◌||◌, Option, none, some, List, [], ◌∷◌, any, find, is_some,
  take, ltb, length, or_option, if◌then◌else◌, Result, ok, err, ok_or, ensure, ◌>>=◌, ◌>>◌,
}
use lfp_pipe.Text.{codes}
use lfp_pipe.Text.Ascii.{Str}
use lfp_pipe.Config.Backend.{BackendRule, resolved_backend_addr, resolved_http_backend_addr}
use lfp_pipe.Config.Client.{ClientConfig}
use lfp_pipe.Routing.Pattern.{matches_pattern}
use lfp_pipe.Http.{looks_like_http_prefix}
use lfp_pipe.Prefix.{Codec, PrefixError, encode_line, new_prefix}
use lfp_pipe.Ingress.Claims.{ConnectionRequest, ConnectionClaim, ConnectionClaimAck}
use lfp_pipe.Client.Proxy.{BackendRuntime}

pub data BridgeError : Type 0 where
  no_callback no_fallback no_hostname peek_failed claim_failed : BridgeError
  bad_prefix : PrefixError → BridgeError

unfoldable pub protocol_allowed : Bool → Bool → Bool
protocol_allowed http tcp_passthrough = http || tcp_passthrough

-- What the socket shows within two seconds.
pub data Peek : Type 0 where
  shown : Str → Peek
  failed timed_out : Peek

unfoldable pub connection_is_plaintext_http : Peek → Bool → Result BridgeError Bool
connection_is_plaintext_http peek false = ok false
connection_is_plaintext_http (shown bytes) true =
    let read = take 24 bytes in ok (ltb 0 (length read) && looks_like_http_prefix read)
connection_is_plaintext_http failed true = err peek_failed
connection_is_plaintext_http timed_out true = ok false

-- Where a connection goes: to the certificate runtime, to the HTTP proxy with a host, an address and a
-- scheme, byte by byte to an address, or nowhere.
pub data Bridge : Type 0 where
  to_acme : Option Str → Bridge
  refused : Bridge
  serve : Str → Option Str → Str → Bridge
  relay : Str → Bridge

abbrev pub same_json : {A : Type 0} → Result PrefixError A → Result BridgeError A
same_json (ok a) = ok a
same_json (err e) = err (bad_prefix e)

abbrev scheme_of : Bool → Str
scheme_of tls = if tls then codes "https" else codes "http"

-- The claim, and the subject that it is published on.
unfoldable pub claim_of : ClientConfig → ConnectionRequest → ConnectionClaim
claim_of config request = record {
  client_id = config.client_id;
  connection_id = request.connection_id;
}

abbrev pub reply_subject_of : Option Str → ConnectionRequest → Str
reply_subject_of none request = request.reply_subject
reply_subject_of (some reply) request = reply

-- The answer within the time of the configuration; none is a time-out or an end of the subscription.
unfoldable pub on_ack : Option ConnectionClaimAck → Result BridgeError Bool
on_ack none = err claim_failed
on_ack (some ack) = ok ack.accepted

module _ {A : Type 0} where
  -- `BackendRuntime::matches_hostname`.
  unfoldable pub runtime_matches : Option Str → BackendRuntime A → Bool
  runtime_matches hostname backend = matches_pattern backend.rule.pattern hostname

  abbrev pub wants_http : BackendRuntime A → Bool
  wants_http backend =
      is_some backend.rule.http_backend_addr
      || is_some backend.rule.path_prefix
      || backend.rule.proxy_headers
      || is_some backend.rule.backend_host
      || is_some backend.authorization

  -- Whether there is a certificate runtime is `acme`.
  unfoldable pub inspects_http : Bool → Bool → List (BackendRuntime A) → Bool
  inspects_http tcp_passthrough acme backends =
      not tcp_passthrough || acme || any wants_http backends

  unfoldable pub is_fallback : Option Str → BackendRuntime A → Bool
  is_fallback hostname backend =
      runtime_matches hostname backend && not (is_some backend.rule.path_prefix)

  -- The choice of the backend, behind the tests of the protocol.
  unfoldable pub to_fallback :
      ConnectionRequest → Bool → Bool → BackendRuntime A → Result BridgeError Bridge
  to_fallback request inspect_http plaintext_http fallback =
      if plaintext_http && inspect_http
      then (do
        hostname ← ok_or request.hostname no_hostname
        ok (serve hostname request.client_ip (scheme_of request.tls)))
      else if plaintext_http
      then ok (relay (resolved_http_backend_addr fallback.rule))
      else ok (relay (resolved_backend_addr fallback.rule))

  -- The tests of the protocol, and the backend for the whole host.
  unfoldable pub by_protocol :
      ConnectionRequest → List (BackendRuntime A) → Bool → Bool → Bool → Result BridgeError Bridge
  by_protocol request backends acme tcp_passthrough plaintext_http =
      if acme && not plaintext_http
      then ok (to_acme request.client_ip)
      else if not (protocol_allowed plaintext_http tcp_passthrough)
      then ok refused
      else (ok_or (find (is_fallback request.hostname) backends) no_fallback
          >>= to_fallback request (inspects_http tcp_passthrough acme backends) plaintext_http)

  unfoldable pub bridge :
      ConnectionRequest → List (BackendRuntime A) → Bool → Bool → Peek → Result BridgeError Bridge
  bridge request backends acme tcp_passthrough peek = do
    plaintext_http ← connection_is_plaintext_http peek (inspects_http tcp_passthrough acme backends)
    by_protocol request backends acme tcp_passthrough plaintext_http

  -- The line that the callback begins with, and the bridge behind it.
  unfoldable pub bridge_connection :
      Codec
      → Str
      → Bool
      → ConnectionRequest
      → List (BackendRuntime A)
      → Bool
      → Bool
      → Peek
      → Result BridgeError (Str × Bridge)
  bridge_connection codec client_id connected request backends acme tcp_passthrough peek = do
    ensure connected no_callback
    line ← same_json (encode_line codec (new_prefix client_id request.connection_id))
    next ← bridge request backends acme tcp_passthrough peek
    ok (line, next)

  -- What the client does with a request: pass it over, or publish a claim and wait for the answer.
  unfoldable pub claim_for :
      ClientConfig
      → List (BackendRuntime A)
      → Option Str
      → ConnectionRequest
      → Option (Str × ConnectionClaim)
  claim_for config backends reply request =
      if not (any (runtime_matches request.hostname) backends)
      then none
      else some (reply_subject_of reply request, claim_of config request)
