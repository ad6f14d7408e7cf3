-- ===== src/Examples/Claims.antt =====
-- Two clients that claim one connection, and an ingress with a passthrough route.
use lfp_pipe.Base.{
  ℕ, suc, ◌<◌, ◌≡◌, ◌↔◌, refl, true, false, Option, none, some, List, [], ◌∷◌, All, In, inl, filter,
  length, map, get_elem?, unwrap_or, ap, ok,
}
use lfp_pipe.Text.{codes}
use lfp_pipe.Text.Ascii
use lfp_pipe.Text.Ascii.{Str, Distinct}
use lfp_pipe.Config.Client.{RelayMode}
use lfp_pipe.Config.Ingress.{IngressConfig, ingress_callback_addr, validate_ingress_config}
use lfp_pipe.Config.Ingress.Routes.{IsRoute, route_name, validate_ingress_config_iff}
use lfp_pipe.Ingress.Claims.{
  ConnectionClaim, Message, Claimant, Cursors, cursor_of, set_cursor, next_claim_index, ack_of,
  onto, claim_acks, Selection, select_winner, claim_subject, collect_claims, collect_until,
  validate_claims, wait_for_claim, Caller, Exchange,
}
use lfp_pipe.Ingress.Claims.Turns.{after_turns}
use lfp_pipe.Ingress.Claims.Winner.{every_claimant_wins, accepts, select_winner-acks}
use lfp_pipe.Ingress.Claims.Wait.{wait_for_claim-selects}

abbrev pub claim : Str → ConnectionClaim
claim client_id = record { client_id = client_id; connection_id = codes "u1" }

abbrev claims : List Claimant
claims =
    (claim (codes "a"), some (codes "inbox.a")) ∷ (claim (codes "b"), some (codes "inbox.b")) ∷ []

abbrev cursors : Cursors
cursors = (codes "app.test", 1) ∷ (codes "<default>", 4) ∷ []

every_claimant_wins_example :
    (turns : ℕ) × (turns < length claims)
    × ((s : Selection) × (select_winner
            (after_turns cursors (codes "app.test") (length claims) turns)
            (codes "app.test")
            claims
          ≡ ok s)
        × (s.winner ≡ claim (codes "a"))
        × (s.cursors ≡ after_turns cursors (codes "app.test") (length claims) (suc turns)))
every_claimant_wins_example =
    every_claimant_wins cursors (codes "app.test") claims
      (claim (codes "a"), some (codes "inbox.a")) (inl refl)

abbrev selection : Selection
selection = record {
  winner = claim (codes "b");
  acks =
      (codes "inbox.a", ack_of false (claim (codes "a")))
      ∷ (codes "inbox.b", ack_of true (claim (codes "b")))
      ∷ [];
  cursors = (codes "app.test", 0) ∷ (codes "<default>", 4) ∷ [];
}

selected : select_winner cursors (codes "app.test") claims ≡ ok selection
unfolding select_winner next_claim_index claim_acks cursor_of set_cursor Ascii.str_eq
selected = refl

select_winner-acks_example :
    (c : Claimant) × In c claims
    × (selection.winner ≡ c.0)
    × (filter accepts selection.acks ≡ onto c.1 (ack_of true selection.winner) [])
select_winner-acks_example = select_winner-acks cursors (codes "app.test") claims selection selected

first_byte : Str → ℕ
first_byte s = unwrap_or (get_elem? s 0) 0

differ : codes "app.test" ≡ codes "<default>" → ◌≡◌ {A = ℕ} b'a' b'<'
unfolding first_byte
differ e = ap first_byte e

abbrev pub config : IngressConfig
config = record {
  public_listen = codes "0.0.0.0:443";
  data_listen = codes "0.0.0.0:7443";
  advertised_data_addr = none;
  nats_url = codes "nats://n.test";
  nats_token_file = none;
  relay_mode = RelayMode.auto;
  request_subject = codes "req";
  domain_subject_routing = false;
  claim_timeout_ms = 800;
  pending_timeout_ms = 10_000;
  ingress_handshake_timeout_ms = 5_000;
  callback_handshake_timeout_ms = 5_000;
  max_ingress_connections = 0;
  max_callback_handshakes = 0;
  sni_passthrough_routes =
      record { hostname = codes "nats.test"; backend_addr = codes "127.0.0.1:4222" } ∷ [];
}

validate_ingress_config_iff_example : (validate_ingress_config config ≡ ok tt) ↔ (
    All IsRoute config.sni_passthrough_routes
    × Distinct [] (map route_name config.sni_passthrough_routes))
validate_ingress_config_iff_example = validate_ingress_config_iff config

-- The payload is the client id.
unfoldable pub decode : Str → Option ConnectionClaim
decode payload = some (claim payload)

abbrev message : Str → Message
message payload = record { payload = payload; reply = none }

abbrev pub arrivals : List (ℕ × Message)
arrivals = (20, message (codes "b")) ∷ (60, message (codes "a")) ∷ (500, message (codes "c")) ∷ []

subject : claim_subject config (some (codes "App.test")) ≡ ok (codes "req")
unfolding claim_subject
subject = refl

collected :
    collect_claims config.claim_timeout_ms arrivals
    ≡ ok (message (codes "b") ∷ message (codes "a") ∷ [])
unfolding collect_claims collect_until
collected = refl

abbrev valid : List Claimant
valid = (claim (codes "b"), none) ∷ (claim (codes "a"), none) ∷ []

validated :
    validate_claims decode (codes "u1") (message (codes "b") ∷ message (codes "a") ∷ []) ≡ ok valid
unfolding validate_claims decode Ascii.str_eq
validated = refl

abbrev caller : Caller
caller = record {
  client_ip = codes "203.0.113.9";
  tls = true;
  reply_subject = codes "_INBOX.1";
  unix_time_ms = 1_000_000;
}

wait_for_claim-selects_example :
    (e : Exchange) × (wait_for_claim decode config cursors caller
        (codes "u1")
        (some (codes "App.test"))
        arrivals
      ≡ ok e)
    × (e.subject ≡ codes "req")
    × (e.request.reply_subject ≡ caller.reply_subject)
    × (e.request.ingress_callback_addr ≡ ingress_callback_addr config)
    × (e.selection.winner.connection_id ≡ codes "u1")
    × ((c : Claimant) × In c valid × (e.selection.winner ≡ c.0))
wait_for_claim-selects_example =
    wait_for_claim-selects decode config cursors caller (codes "u1") (some (codes "App.test"))
      arrivals (codes "req") (message (codes "b") ∷ message (codes "a") ∷ []) valid subject
      collected validated
