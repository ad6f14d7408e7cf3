-- ===== src/Examples/Accepted.antt =====
-- A TLS connection that two clients claim.
use lfp_pipe.Base.{◌≡◌, refl, true, [], ◌∷◌, ◌++◌, ok}
use lfp_pipe.Text.{codes}
use lfp_pipe.Text.Ascii
use lfp_pipe.Text.Ascii.{Str}
use lfp_pipe.Tls
use lfp_pipe.Ingress.Detect
use lfp_pipe.Ingress.Detect.{ready, Detected, detect_hostname}
use lfp_pipe.Ingress.Claims
use lfp_pipe.Ingress.Pending
use lfp_pipe.Ingress.Pending.{PendingConnection}
use lfp_pipe.Ingress.Accept.{AppState, Arrival, waits, handle_ingress}
use lfp_pipe.Ingress.Accept.Admitted.{IsAdmitted, handle_ingress-IsAdmitted}
use lfp_pipe.Examples.Ingress.{sni, hello}
use lfp_pipe.Examples.Claims.{config, decode, arrivals, claim}

abbrev pub arrival : Arrival
arrival = record {
  stream = 7;
  bytes = hello ++ codes "rest";
  events = ready 4 ∷ ready 7 ∷ [];
  client_ip = codes "203.0.113.9";
  connection_id = codes "u1";
  reply_subject = codes "_INBOX.1";
  unix_time_ms = 1_000_000;
  now = 500;
  claims = arrivals;
  announces = true;
  acknowledges = true;
  connects = true;
  writes = true;
}

abbrev idle : AppState
idle = record { pending = []; route_claim_cursor = [] }

abbrev entry : PendingConnection
entry = record { ingress = 7; ingress_preface = hello; client_id = codes "a"; expires_at = 10_500 }

abbrev busy : AppState
busy = record { pending = (codes "u1", entry) ∷ []; route_claim_cursor = (codes "b.test", 1) ∷ [] }

accepted :
    handle_ingress sni decode config arrival idle
    ≡ ok (waits (claim (codes "a")) (codes "rest"), busy)
unfolding handle_ingress sni decode Detect.detect_hostname Detect.decide Detect.decide_tls
    Tls.validate_tls_record_header Pending.select_sni_passthrough Pending.register_pending
    Pending.pending_insert Pending.pending_remove Claims.wait_for_claim Claims.connection_request
    Claims.claim_subject Claims.collect_claims Claims.collect_until Claims.validate_claims
    Claims.sort_claims Claims.insert_claim Claims.select_winner Claims.next_claim_index
    Claims.cursor_of Claims.set_cursor Claims.claim_acks Ascii.str_leb Ascii.str_eq
    Ascii.eq_ignore_ascii_case Ascii.to_ascii_lowercase Ascii.lower_byte
accepted = refl

handle_ingress-IsAdmitted_example :
    (d : Detected) × (detect_hostname sni arrival.events [] arrival.bytes ≡ ok d)
    × IsAdmitted decode config arrival d idle (waits (claim (codes "a")) (codes "rest")) busy
handle_ingress-IsAdmitted_example =
    handle_ingress-IsAdmitted sni decode config arrival idle busy
      (waits (claim (codes "a")) (codes "rest")) accepted
