-- ===== src/Client/Bridge/Inspected.antt =====
-- The connections that `bridge_connection` relays byte by byte (client/src/lib.rs).
use lfp_pipe.Base.{
  ◌≡◌, refl, Bool, true, false, List, arith, find, find-some, In, ok, ok_or, ◌>>=◌, bind-eq-ok,
  ok-injective, ok_or-ok,
}
use lfp_pipe.Text.Ascii.{Str}
use lfp_pipe.Config.Backend.{resolved_backend_addr}
use lfp_pipe.Ingress.Claims.{ConnectionRequest}
use lfp_pipe.Client.Proxy.{BackendRuntime}
use lfp_pipe.Client.Bridge.{
  Peek, relay, connection_is_plaintext_http, inspects_http, is_fallback, to_fallback, bridge,
  by_protocol, protocol_allowed, no_fallback, no_hostname,
}

-- What stands behind a byte relay to an address.
pub record IsRelay {A : Type 0} (request : ConnectionRequest) (backends : List (BackendRuntime A))
    (acme tcp_passthrough : Bool) (peek : Peek) (addr : Str) : Type 0 where
  pub backend : BackendRuntime A
  pub passthrough : tcp_passthrough ≡ true
  pub no_certificates : acme ≡ false
  pub not_http :
      connection_is_plaintext_http peek (inspects_http tcp_passthrough acme backends) ≡ ok false
  pub listed : In backend backends
  pub serves : is_fallback request.hostname backend ≡ true
  pub resolved : resolved_backend_addr backend.rule ≡ addr

uninspected :
    (peek : Peek) (inspect plaintext : Bool)
    → connection_is_plaintext_http peek inspect ≡ ok plaintext
    → plaintext ≡ true
    → inspect ≡ true
unfolding connection_is_plaintext_http
uninspected peek true plaintext e t = refl
uninspected peek false plaintext e t = let same : false ≡ plaintext = ok-injective e in cc

module _ {A : Type 0} where
  to_fallback-relay :
      (request : ConnectionRequest) (inspect plaintext : Bool) (b : BackendRuntime A) (addr : Str)
      → (plaintext ≡ true → inspect ≡ true)
      → to_fallback request inspect plaintext b ≡ ok (relay addr)
      → (plaintext ≡ false) × (resolved_backend_addr b.rule ≡ addr)
  unfolding to_fallback
  to_fallback-relay request inspect false b addr i e =
      let same : relay (resolved_backend_addr b.rule) ≡ relay addr = ok-injective e in (refl, cc)
  to_fallback-relay request true true b addr i e =
      let (host, f, g) = bind-eq-ok (ok_or request.hostname no_hostname) _ e in cc g
  to_fallback-relay request false true b addr i e = cc (i refl)

  behind_tests :
      (request : ConnectionRequest) (backends : List (BackendRuntime A)) (acme tcp : Bool)
      (peek : Peek) (addr : Str) (plaintext : Bool)
      → connection_is_plaintext_http peek (inspects_http tcp acme backends) ≡ ok plaintext
      → by_protocol request backends acme tcp plaintext ≡ ok (relay addr)
      → IsRelay request backends acme tcp peek addr
  unfolding by_protocol protocol_allowed
  behind_tests request backends true tcp peek addr false p e = cc
  behind_tests request backends false false peek addr false p e = cc
  behind_tests request backends false true peek addr false p e =
      let (b, f, g) =
        bind-eq-ok (ok_or (find (is_fallback request.hostname) backends) no_fallback) _ e in
      let (i, s) = find-some (is_fallback request.hostname) backends (ok_or-ok no_fallback f) in
      let (n, r) =
        to_fallback-relay request (inspects_http true false backends) false b addr
          (uninspected peek (inspects_http true false backends) false p) g in
      record {
        backend = b;
        passthrough = refl;
        no_certificates = refl;
        not_http = p;
        listed = i;
        serves = s;
        resolved = r;
      }
  behind_tests request backends acme tcp peek addr true p e =
      let q : (ok_or (find (is_fallback request.hostname) backends) no_fallback
            >>= to_fallback request (inspects_http tcp acme backends) true)
          ≡ ok (relay addr) =
        ground arith in
      let (b, f, g) =
        bind-eq-ok (ok_or (find (is_fallback request.hostname) backends) no_fallback) _ q in
      let (n, r) =
        to_fallback-relay request (inspects_http tcp acme backends) true b addr
          (uninspected peek (inspects_http tcp acme backends) true p) g in
      cc n

  -- A connection is relayed byte by byte only where TCP passthrough is enabled, there is no certificate
  -- runtime and the first bytes are not looked at or are not plaintext HTTP, and it goes to the resolved
  -- address of a listed backend for the host that has no path prefix.
  pub bridge-IsRelay :
      (request : ConnectionRequest) (backends : List (BackendRuntime A))
      (acme tcp_passthrough : Bool) (peek : Peek) (addr : Str)
      → bridge request backends acme tcp_passthrough peek ≡ ok (relay addr)
      → IsRelay request backends acme tcp_passthrough peek addr
  unfolding bridge
  bridge-IsRelay request backends acme tcp peek addr e =
      let (plaintext, p, e1) =
        bind-eq-ok (connection_is_plaintext_http peek (inspects_http tcp acme backends)) _ e in
      behind_tests request backends acme tcp peek addr plaintext p e1
