-- ===== src/Examples/Web/Bound.antt =====
-- A bridge of the client whose first line the ingress reads.
use lfp_pipe.Base.{◌≡◌, refl, true, false, none, [], ◌∷◌, ◌++◌, ok}
use lfp_pipe.Text.{codes}
use lfp_pipe.Text.Ascii
use lfp_pipe.Text.Ascii.{Str}
use lfp_pipe.Text.Affix
use lfp_pipe.Routing.Pattern
use lfp_pipe.Http
use lfp_pipe.Prefix
use lfp_pipe.Ingress.Claims.{ConnectionRequest}
use lfp_pipe.Ingress.Callback.{silent, read_prefix}
use lfp_pipe.Ingress.Pending.{PendingConnection, register_pending, bound, handle_client_data}
use lfp_pipe.Client.Bridge
use lfp_pipe.Client.Bridge.{Peek, shown, serve, bridge_connection, claim_of}
use lfp_pipe.Tunnel.{bridge_connection-bound}
use lfp_pipe.Examples.Prefix.{codec, fields, letters, envelope, json, text, carries, json_fits}
use lfp_pipe.Examples.Web.Running.{config, connection, raw_backend}

abbrev announced : ConnectionRequest
announced = record connection { connection_id = codes "x9" }

abbrev greeting : Peek
greeting = shown (codes "GET / HTTP/1.1")

bridged :
    bridge_connection codec (codes "c1") true announced (raw_backend ∷ []) false false greeting
    ≡ ok (text ++ b'\n' ∷ [], serve (codes "app.test") none (codes "https"))
unfolding Bridge.bridge_connection Bridge.bridge Bridge.by_protocol Bridge.to_fallback
    Bridge.is_fallback Bridge.runtime_matches Bridge.inspects_http
    Bridge.connection_is_plaintext_http Bridge.protocol_allowed Pattern.matches_pattern Ascii.str_eq
    Ascii.eq_ignore_ascii_case Ascii.to_ascii_lowercase Ascii.lower_byte Affix.starts_with
    Affix.strip_prefix Http.looks_like_http_prefix Http.comparable Prefix.encode_line codec fields
    letters
bridged = refl

bridge_connection-bound_example :
    (read_prefix codec silent ((text ++ b'\n' ∷ []) ++ codes "tls") ≡ ok (envelope, codes "tls"))
    × ((entry : PendingConnection) × ((handle_client_data envelope (
            register_pending 100 10_000
              (codes "x9")
              7
              (codes "GET")
              (claim_of config announced)
              [])).0
          ≡ bound entry)
        × (entry.ingress ≡ 7)
        × (entry.ingress_preface ≡ codes "GET"))
bridge_connection-bound_example =
    bridge_connection-bound codec silent config announced (raw_backend ∷ []) false greeting
      (text ++ b'\n' ∷ []) (codes "tls") json (serve (codes "app.test") none (codes "https")) 100
      10_000 7 (codes "GET") [] bridged carries json_fits
