-- ===== src/Ingress/Serve.antt =====
-- The ingress over a sequence of events (ingress/src/lib.rs): `handle_ingress`, `handle_client_data` and the
-- cleanup of `spawn_pending_cleanup` on one `AppState`, each as a whole.
pub mod Seen
pub mod Settled
pub mod Refined
use lfp_pipe.Base.{ℕ, Option, none, some, List, [], ◌∷◌, Result, ok, err}
use lfp_pipe.Text.Ascii.{Str}
use lfp_pipe.Config.Ingress.{IngressConfig}
use lfp_pipe.Prefix.{Codec, PrefixEnvelope, PrefixError}
use lfp_pipe.Ingress.Detect.{SniParser}
use lfp_pipe.Ingress.Claims.{ConnectionClaim}
use lfp_pipe.Ingress.Callback.{Ending, read_prefix}
use lfp_pipe.Ingress.Pending.{
  PendingConnection, Callback, unknown_connection, wrong_client, bound, Grant, grant_of, relay_of,
  handle_client_data, cleanup_pending,
}
use lfp_pipe.Ingress.Accept.{
  AppState, Arrival, AcceptError, detect_failed, claim_failed, connect_failed, write_failed,
  not_announced, not_acknowledged, Admission, passes, waits, handle_ingress,
}

-- A public connection, a callback socket with its bytes, or the time of a cleanup.
pub data Event : Type 0 where
  arrives : Arrival → Event
  calls_back : Ending → Str → Event
  cleans_up : ℕ → Str → Event

-- What a handler is seen to do: a public socket waits for the winner of its claim, goes to the client that
-- called back, or is closed behind its claim.
pub data Observation : Type 0 where
  unseen : Observation
  awaits relays closes : Grant → Observation

abbrev pub observed_admission : Arrival → Admission → Observation
observed_admission a (passes route preface unread) = unseen
observed_admission a (waits claim unread) =
    awaits
      (record { connection_id = a.connection_id; ingress = a.stream; client_id = claim.client_id })

abbrev pub observed_callback : PrefixEnvelope → Callback → Observation
observed_callback prefix unknown_connection = unseen
observed_callback prefix (wrong_client entry) = closes (grant_of prefix.connection_id entry)
observed_callback prefix (bound entry) = relays (relay_of prefix entry)

abbrev pub observed_cleanup : Str → Option PendingConnection → Observation
observed_cleanup connection_id none = unseen
observed_cleanup connection_id (some entry) = closes (grant_of connection_id entry)

abbrev pub after_error : AcceptError → AppState → AppState
after_error (not_acknowledged cursors) state = record state { route_claim_cursor = cursors }
after_error (detect_failed e) state = state
after_error (claim_failed e) state = state
after_error connect_failed state = state
after_error write_failed state = state
after_error not_announced state = state

abbrev pub after_ingress :
    Arrival → Result AcceptError (Admission × AppState) → AppState → Observation × AppState
after_ingress a (ok (admission, after)) state = (observed_admission a admission, after)
after_ingress a (err e) state = (unseen, after_error e state)

abbrev pub after_callback :
    Result PrefixError (PrefixEnvelope × Str) → AppState → Observation × AppState
after_callback (ok (prefix, rest)) state = (
  observed_callback prefix (handle_client_data prefix state.pending).0,
  record state { pending = (handle_client_data prefix state.pending).1 },
)
after_callback (err e) state = (unseen, state)

module _ (extract_sni : SniParser) (decode_json : Str → Option ConnectionClaim) (codec : Codec)
    (config : IngressConfig) where
  unfoldable pub serve_event : Event → AppState → Observation × AppState
  serve_event (arrives a) state =
      after_ingress a (handle_ingress extract_sni decode_json config a state) state
  serve_event (calls_back ending stream) state =
      after_callback (read_prefix codec ending stream) state
  serve_event (cleans_up now connection_id) state = (
    observed_cleanup connection_id (cleanup_pending now connection_id state.pending).0,
    record state { pending = (cleanup_pending now connection_id state.pending).1 },
  )

  -- The observations come with the last one first.
  unfoldable pub serve_events :
      List Event → List Observation → AppState → List Observation × AppState
  serve_events [] seen state = (seen, state)
  serve_events (e ∷ es) seen state =
      serve_events es ((serve_event e state).0 ∷ seen) (serve_event e state).1
