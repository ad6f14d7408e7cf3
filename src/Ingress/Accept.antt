-- ===== src/Ingress/Accept.antt =====
-- `handle_ingress` (ingress/src/lib.rs): what becomes of one public connection.
pub mod Admitted
use lfp_pipe.Base.{
  ℕ, Bool, Option, none, some, List, [], Result, ok, err, ensure, ◌>>=◌, ◌>>◌, ◌||◌,
}
use lfp_pipe.Text.Ascii.{Str}
use lfp_pipe.Text.White.{is_empty}
use lfp_pipe.Config.Ingress.{IngressConfig, SniPassthroughRoute}
use lfp_pipe.Ingress.Detect.{SniParser, ReadEvent, DetectError, Detected, detect_hostname}
use lfp_pipe.Ingress.Claims.{
  ConnectionClaim, Message, ClaimError, Cursors, Caller, Exchange, wait_for_claim,
}
use lfp_pipe.Ingress.Pending.{Pending, select_sni_passthrough, register_pending}

-- The two maps of `AppState`.
pub record AppState : Type 0 where
  pub pending : Pending
  pub route_claim_cursor : Cursors

-- What one public connection meets: its socket with the bytes to come and the reads, its peer, the UUID
-- that it gets, the inbox, the two clocks, the claims that arrive, and whether a passthrough backend can
-- be connected and written to. `announces` says that the NATS client is ready, gives the inbox and publishes
-- the request, `acknowledges` that it publishes the acknowledgements.
pub record Arrival : Type 0 where
  pub stream : ℕ
  pub bytes : Str
  pub events : List ReadEvent
  pub client_ip : Str
  pub connection_id : Str
  pub reply_subject : Str
  pub unix_time_ms : ℕ
  pub now : ℕ
  pub claims : List (ℕ × Message)
  pub announces : Bool
  pub acknowledges : Bool
  pub connects : Bool
  pub writes : Bool

-- An acknowledgement that is not published leaves the cursors that the selection advanced.
pub data AcceptError : Type 0 where
  detect_failed : DetectError → AcceptError
  claim_failed : ClaimError → AcceptError
  connect_failed write_failed not_announced : AcceptError
  not_acknowledged : Cursors → AcceptError

-- How it ends where nothing fails: a relay to the backend of a passthrough route, to which the first
-- bytes have been written, or an entry of the table.
pub data Admission : Type 0 where
  passes : SniPassthroughRoute → Str → Str → Admission
  waits : ConnectionClaim → Str → Admission

abbrev pub same_detect : Result DetectError Detected → Result AcceptError Detected
same_detect (ok d) = ok d
same_detect (err e) = err (detect_failed e)

abbrev pub same_claim : Result ClaimError Exchange → Result AcceptError Exchange
same_claim (ok e) = ok e
same_claim (err e) = err (claim_failed e)

abbrev pub caller_of : Arrival → Bool → Caller
caller_of a tls = record {
  client_ip = a.client_ip;
  tls = tls;
  reply_subject = a.reply_subject;
  unix_time_ms = a.unix_time_ms;
}

module _ (extract_sni : SniParser) (decode_json : Str → Option ConnectionClaim)
    (config : IngressConfig) where
  abbrev pub pass_through :
      SniPassthroughRoute
      → Arrival
      → Detected
      → AppState
      → Result AcceptError (Admission × AppState)
  pass_through route a d state = do
    ensure a.connects connect_failed
    ensure a.writes write_failed
    ok (passes route d.preface d.unread, state)

  abbrev pub claim_and_wait :
      Arrival → Detected → AppState → Result AcceptError (Admission × AppState)
  claim_and_wait a d state = do
    ensure a.announces not_announced
    won ← same_claim (
        wait_for_claim decode_json config state.route_claim_cursor (caller_of a d.tls)
          a.connection_id d.hostname a.claims)
    ensure (is_empty won.selection.acks || a.acknowledges) (not_acknowledged won.selection.cursors)
    ok (
      waits won.selection.winner d.unread,
      record {
        pending =
            register_pending a.now config.pending_timeout_ms a.connection_id a.stream d.preface
              won.selection.winner state.pending;
        route_claim_cursor = won.selection.cursors;
      },
    )

  abbrev pub by_route :
      Option SniPassthroughRoute
      → Arrival
      → Detected
      → AppState
      → Result AcceptError (Admission × AppState)
  by_route none a d state = claim_and_wait a d state
  by_route (some route) a d state = pass_through route a d state

  -- An error closes the socket and leaves the table as it is, and the cursors too but for those of
  -- `not_acknowledged`.
  unfoldable pub handle_ingress : Arrival → AppState → Result AcceptError (Admission × AppState)
  handle_ingress a state = do
    d ← same_detect (detect_hostname extract_sni a.events [] a.bytes)
    by_route (select_sni_passthrough config.sni_passthrough_routes d.hostname) a d state
