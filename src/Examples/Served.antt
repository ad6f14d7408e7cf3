-- ===== src/Examples/Served.antt =====
-- Two connections that are claimed; the second is called back by the client that won the first.
use lfp_pipe.Base.{Option, none, some, List, [], ◌∷◌, ◌++◌, ◌≡◌, refl}
use lfp_pipe.Text.{codes}
use lfp_pipe.Text.Ascii
use lfp_pipe.Text.Ascii.{Str}
use lfp_pipe.Text.Affix.{trim_cons, trim_end_matches}
use lfp_pipe.Text.Utf8
use lfp_pipe.Tls
use lfp_pipe.Prefix
use lfp_pipe.Ingress.Callback
use lfp_pipe.Ingress.Callback.{silent}
use lfp_pipe.Ingress.Claims
use lfp_pipe.Ingress.Claims.{ConnectionClaim, Message}
use lfp_pipe.Ingress.Detect
use lfp_pipe.Ingress.Pending
use lfp_pipe.Ingress.Pending.{Grant}
use lfp_pipe.Ingress.Pending.Once.{IsRuntime}
use lfp_pipe.Ingress.Accept
use lfp_pipe.Ingress.Accept.{Arrival}
use lfp_pipe.Ingress.Serve.{
  Event, arrives, calls_back, cleans_up, unseen, awaits, relays, closes, serve_event, serve_events,
}
use lfp_pipe.Ingress.Serve.Seen.{FreshIds, empty_state, runtime_of}
use lfp_pipe.Ingress.Serve.Settled.{IsSettled}
use lfp_pipe.Ingress.Serve.Refined.{serve_events-IsRuntime}
use lfp_pipe.Examples.Prefix.{codec, fields, of_fields, letters, of_letters}
use lfp_pipe.Examples.Ingress.{sni}
use lfp_pipe.Examples.Claims.{config}
use lfp_pipe.Examples.Accepted.{arrival}

-- A payload is the letter of a client with the connection behind it.
decode : Str → Option ConnectionClaim
decode [] = none
decode (client ∷ id) = some (record { client_id = client ∷ []; connection_id = id })

abbrev message : Str → Message
message payload = record { payload = payload; reply = none }

abbrev claimed : Str → Arrival
claimed id = record arrival {
  connection_id = id;
  claims = (20, message (b'b' ∷ id)) ∷ (60, message (b'a' ∷ id)) ∷ [];
}

-- The callbacks of client `a` for the two connections.
abbrev line : Str
line = codes "ABABGBHFDB" ++ b'\n' ∷ []

abbrev wrong_line : Str
wrong_line = codes "ABABGBHFDC" ++ b'\n' ∷ []

abbrev events : List Event
events =
    arrives (claimed (codes "u1"))
    ∷ arrives (claimed (codes "u2"))
    ∷ calls_back silent wrong_line
    ∷ cleans_up 600 (codes "u1")
    ∷ []

abbrev grant : Str → Str → Grant
grant id client = record { connection_id = id; ingress = 7; client_id = client }

seen :
    (serve_events sni decode codec config (events ++ calls_back silent line ∷ []) [] empty_state).0
    ≡ relays (grant (codes "u1") (codes "a"))
      ∷ unseen
      ∷ closes (grant (codes "u2") (codes "b"))
      ∷ awaits (grant (codes "u2") (codes "b"))
      ∷ awaits (grant (codes "u1") (codes "a"))
      ∷ []
unfolding serve_events serve_event decode sni codec fields of_fields letters of_letters
    Callback.read_prefix Callback.read_line Prefix.decode_line trim_cons trim_end_matches
    Utf8.is_utf8 Utf8.valid_from Utf8.next_byte Utf8.after_lead Accept.handle_ingress
    Detect.detect_hostname Detect.decide Detect.decide_tls Tls.validate_tls_record_header
    Pending.select_sni_passthrough Pending.register_pending Pending.pending_insert
    Pending.pending_remove Pending.pending_get Pending.handle_client_data Pending.cleanup_pending
    Claims.wait_for_claim Claims.connection_request Claims.claim_subject Claims.collect_claims
    Claims.collect_until Claims.validate_claims Claims.sort_claims Claims.insert_claim
    Claims.select_winner Claims.next_claim_index Claims.cursor_of Claims.set_cursor
    Claims.claim_acks Ascii.str_leb Ascii.str_eq Ascii.eq_ignore_ascii_case Ascii.to_ascii_lowercase
    Ascii.lower_byte
seen = refl

fresh : FreshIds events []
unfolding FreshIds Ascii.str_eq
fresh = (refl, (refl, (tt, (tt, tt))))

serve_events-IsRuntime_example :
    IsRuntime (
      runtime_of
        (serve_events sni decode codec config events [] empty_state).1.pending
        (serve_events sni decode codec config events [] empty_state).0)
    × IsSettled codec silent line (serve_events sni decode codec config events [] empty_state).1 (
        serve_event sni decode codec config
          (calls_back silent line)
          (serve_events sni decode codec config events [] empty_state).1)
serve_events-IsRuntime_example =
    serve_events-IsRuntime sni decode codec config events silent line fresh
