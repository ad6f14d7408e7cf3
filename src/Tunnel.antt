-- ===== src/Tunnel.antt =====
-- The two ends of a tunnel together: `submit_claim` and `bridge_connection` of client/src/lib.rs against
-- `handle_ingress`, `read_prefix` and `handle_client_data` of ingress/src/lib.rs.
use lfp_pipe.Base.{
  ℕ, ◌+◌, ◌≤◌, ◌≡◌, refl, sym, ap, ◌∙◌, Bool, true, List, ◌++◌, length, Result, ok, err, bind-eq-ok,
  ensure-eq-ok, ok-injective,
}
use lfp_pipe.Text.Ascii.{Str, str_eq_refl}
use lfp_pipe.Config.Client.{ClientConfig}
use lfp_pipe.Prefix.{Codec, PrefixError, encode_line, new_prefix}
use lfp_pipe.Prefix.RoundTrip.{Carries}
use lfp_pipe.Ingress.Callback.{Ending, max_line, read_prefix}
use lfp_pipe.Ingress.Callback.Bounds.{read_prefix-encode_line}
use lfp_pipe.Ingress.Claims.{ConnectionRequest, ConnectionClaim}
use lfp_pipe.Ingress.Pending.{
  Pending, PendingConnection, pending_insert, pending_get, register_pending, bound,
  handle_client_data,
}
use lfp_pipe.Client.Proxy.{BackendRuntime}
use lfp_pipe.Client.Bridge.{
  Bridge, Peek, same_json, no_callback, bridge, bridge_connection, claim_of,
}

same_json-ok : {A : Type 0} (m : Result PrefixError A) (a : A) → same_json m ≡ ok a → m ≡ ok a
same_json-ok (ok x) a e = cc
same_json-ok (err x) a e = cc

bridge_connection-line :
    {A : Type 0} (codec : Codec) (client_id : Str) (connected : Bool) (request : ConnectionRequest)
    (backends : List (BackendRuntime A)) (acme tcp_passthrough : Bool) (peek : Peek) (line : Str)
    (next : Bridge)
    → bridge_connection codec client_id connected request backends acme tcp_passthrough peek
      ≡ ok (line, next)
    → encode_line codec (new_prefix client_id request.connection_id) ≡ ok line
unfolding bridge_connection
bridge_connection-line codec client_id connected request backends acme tcp peek line next e =
    let (c, e1) = ensure-eq-ok connected no_callback _ e in
    let (l, p, e2) =
      bind-eq-ok (same_json (encode_line codec (new_prefix client_id request.connection_id))) _
        e1 in
    let (b, q, e3) = bind-eq-ok (bridge request backends acme tcp peek) _ e2 in
    same_json-ok (encode_line codec (new_prefix client_id request.connection_id)) line
      (p ∙ ap (λ r. ok r.0) (ok-injective e3))

-- The connection that waits for the winner of a claim.
abbrev waiting : ℕ → ℕ → ℕ → Str → ConnectionClaim → PendingConnection
waiting now timeout stream preface claim = record {
  ingress = stream;
  ingress_preface = preface;
  client_id = claim.client_id;
  expires_at = now + timeout;
}

registered_bound :
    (now timeout stream : ℕ) (preface : Str) (config : ClientConfig) (request : ConnectionRequest)
    (pending : Pending)
    → (handle_client_data (new_prefix config.client_id request.connection_id) (
        register_pending now timeout request.connection_id stream preface
          (claim_of config request)
          pending)).0
      ≡ bound (waiting now timeout stream preface (claim_of config request))
unfolding handle_client_data register_pending pending_insert pending_get claim_of
registered_bound now timeout stream preface config request pending =
    rw (str_eq_refl request.connection_id, str_eq_refl config.client_id) refl

-- When the ingress has registered a public socket for the claim of a client, and the client opens its bridge
-- for that connection, what the client sends first is read by the ingress as the prefix of that connection,
-- every byte behind the line stays for the relay, and handling that prefix binds the callback to the
-- registered socket and the bytes that wait for it. The conditions are that the codec carries the envelope,
-- and that the encoded envelope has at most 4096 bytes.
pub bridge_connection-bound :
    {A : Type 0} (codec : Codec) (ending : Ending) (config : ClientConfig)
    (request : ConnectionRequest) (backends : List (BackendRuntime A)) (acme : Bool) (peek : Peek)
    (line rest json : Str) (next : Bridge) (now timeout stream : ℕ) (preface : Str)
    (pending : Pending)
    → bridge_connection codec config.client_id true request backends acme config.tcp_passthrough
        peek
      ≡ ok (line, next)
    → Carries codec (new_prefix config.client_id request.connection_id) json
    → length (codec.encode64 json) ≤ max_line
    → (read_prefix codec ending (line ++ rest)
        ≡ ok (new_prefix config.client_id request.connection_id, rest))
      × ((entry : PendingConnection) × ((handle_client_data
              (new_prefix config.client_id request.connection_id)
              (register_pending now timeout request.connection_id stream preface
                (claim_of config request)
                pending)).0
            ≡ bound entry)
          × (entry.ingress ≡ stream)
          × (entry.ingress_preface ≡ preface))
bridge_connection-bound codec ending config request backends acme peek line rest json next now
      timeout stream preface pending e c l =
    let (written, w, r) =
      read_prefix-encode_line codec ending (new_prefix config.client_id request.connection_id) json
        rest c refl l in
    let same : written ≡ line = ok-injective (
      sym w
      ∙ bridge_connection-line codec config.client_id true request backends acme
          config.tcp_passthrough peek line next e) in
    (
      ap (λ t. read_prefix codec ending (t ++ rest)) (sym same) ∙ r,
      (
        waiting now timeout stream preface (claim_of config request),
        registered_bound now timeout stream preface config request pending,
        refl,
        refl,
      ),
    )
