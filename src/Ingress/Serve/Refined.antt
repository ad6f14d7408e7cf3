-- ===== src/Ingress/Serve/Refined.antt =====
-- The handlers of the ingress (ingress/src/lib.rs) against the step relation of its table.
use lfp_pipe.Base.{
  ◌≤◌, ◌≡◌, refl, subst, Option, none, some, List, [], ◌∷◌, ok, arith, inl, inr, ◌||◌, Option-cases,
  Result-cases, bind-eq-ok, ensure-eq-ok, ok-injective,
}
use lfp_pipe.Text.Ascii.{Str}
use lfp_pipe.Text.White.{is_empty}
use lfp_pipe.Config.Ingress.{IngressConfig}
use lfp_pipe.Prefix.{Codec, PrefixEnvelope}
use lfp_pipe.Ingress.Detect.{SniParser, Detected, detect_hostname}
use lfp_pipe.Ingress.Claims.{ConnectionClaim, wait_for_claim}
use lfp_pipe.Ingress.Callback.{Ending, read_prefix}
use lfp_pipe.Ingress.Pending.{
  Pending, PendingConnection, Callback, unknown_connection, wrong_client, bound, settle_callback,
  settle_cleanup, times, ids, handle_client_data, cleanup_pending, claimed, called_back, cleaned,
  Reachable, started, stepped, select_sni_passthrough,
}
use lfp_pipe.Ingress.Pending.Once.{IsRuntime, Reachable-IsRuntime}
use lfp_pipe.Ingress.Accept.{
  AppState, Arrival, AcceptError, detect_failed, claim_failed, connect_failed, write_failed,
  not_announced, not_acknowledged, Admission, same_detect, same_claim, caller_of, by_route,
  handle_ingress,
}
use lfp_pipe.Ingress.Serve.{
  Event, arrives, calls_back, cleans_up, Observation, unseen, observed_admission, observed_callback,
  observed_cleanup, after_error, serve_event, serve_events,
}
use lfp_pipe.Ingress.Serve.Settled.{IsSettled, serve_event-IsSettled}
use lfp_pipe.Ingress.Serve.Seen.{empty_state, awaited, runtime_of, used_after, FreshEvent, FreshIds}

-- The connections won so far have ids that were given out.
Covered : List Observation → List Str → Type 0
Covered seen used = (id : Str) → times id (ids (awaited seen)) ≤ times id used

-- A state behind one more observation is reachable.
abbrev Simulated : List Observation → List Str → Observation × AppState → Type 0
Simulated seen used (o, state) =
    Reachable (runtime_of state.pending (o ∷ seen)) × Covered (o ∷ seen) used

settle_callback-observed :
    (prefix : PrefixEnvelope) (callback : Callback) (before pending : Pending)
    (seen : List Observation)
    → (settle_callback prefix callback pending (runtime_of before seen)
        ≡ runtime_of pending (observed_callback prefix callback ∷ seen))
      × (awaited (observed_callback prefix callback ∷ seen) ≡ awaited seen)
unfolding settle_callback
settle_callback-observed prefix unknown_connection before pending seen = (refl, refl)
settle_callback-observed prefix (wrong_client entry) before pending seen = (refl, refl)
settle_callback-observed prefix (bound entry) before pending seen = (refl, refl)

settle_cleanup-observed :
    (id : Str) (entry : Option PendingConnection) (before pending : Pending)
    (seen : List Observation)
    → (settle_cleanup id entry pending (runtime_of before seen)
        ≡ runtime_of pending (observed_cleanup id entry ∷ seen))
      × (awaited (observed_cleanup id entry ∷ seen) ≡ awaited seen)
unfolding settle_cleanup
settle_cleanup-observed id none before pending seen = (refl, refl)
settle_cleanup-observed id (some entry) before pending seen = (refl, refl)

kept-Covered :
    (seen after : List Observation) (used : List Str)
    → awaited after ≡ awaited seen
    → Covered seen used
    → Covered after used
unfolding Covered
kept-Covered seen after used e c id = rw e (c id)

pending-after_error :
    (e : AcceptError) (state : AppState) → (after_error e state).pending ≡ state.pending
pending-after_error (not_acknowledged cursors) state = refl
pending-after_error (detect_failed e) state = refl
pending-after_error (claim_failed e) state = refl
pending-after_error connect_failed state = refl
pending-after_error write_failed state = refl
pending-after_error not_announced state = refl

module _ (extract_sni : SniParser) (decode_json : Str → Option ConnectionClaim) (codec : Codec)
    (config : IngressConfig) (state : AppState) (seen : List Observation) (used : List Str)
    (reach : Reachable (runtime_of state.pending seen)) (c : Covered seen used) where
  wider : (id : Str) → Covered (unseen ∷ seen) (id ∷ used)
  unfolding Covered
  wider id other = ground (arith, c other)

  admitted-Simulated :
      (a : Arrival) (d : Detected) (admission : Admission) (after : AppState)
      → times a.connection_id used ≡ 0
      → by_route extract_sni decode_json config
          (select_sni_passthrough config.sni_passthrough_routes d.hostname)
          a
          d
          state
        ≡ ok (admission, after)
      → Simulated seen (a.connection_id ∷ used) (observed_admission a admission, after)
  unfolding Covered
  admitted-Simulated a d admission after fresh h =
      elim (Option-cases (select_sni_passthrough config.sni_passthrough_routes d.hostname)) [
        | inl f ↦
            let (announced, h1) = ensure-eq-ok a.announces _ _ (rw f at h) in
            let (won, w, h2) =
              bind-eq-ok
                (same_claim (
                  wait_for_claim decode_json config state.route_claim_cursor (caller_of a d.tls)
                    a.connection_id d.hostname a.claims))
                _ h1 in
            let (acked, h3) = ensure-eq-ok (is_empty won.selection.acks || a.acknowledges) _ _ h2 in
            subst (λ r. Simulated seen (a.connection_id ∷ used) (observed_admission a r.0, r.1))
              (ok-injective h3)
              (
                stepped reach (
                    claimed a.now config.pending_timeout_ms a.stream a.connection_id d.preface
                      won.selection.winner (omega (arith, fresh, c a.connection_id))),
                λ other. ground (arith, c other),
              )
        | inr (route, f) ↦
            let (connects, h1) = ensure-eq-ok a.connects _ _ (rw f at h) in
            let (writes, h2) = ensure-eq-ok a.writes _ _ h1 in
            subst (λ r. Simulated seen (a.connection_id ∷ used) (observed_admission a r.0, r.1))
              (ok-injective h2) (reach, wider a.connection_id)
      ]

  arrives-Simulated :
      (a : Arrival)
      → times a.connection_id used ≡ 0
      → Simulated seen
          (a.connection_id ∷ used)
          (serve_event extract_sni decode_json codec config (arrives a) state)
  unfolding serve_event handle_ingress
  arrives-Simulated a fresh =
      elim (Result-cases (handle_ingress extract_sni decode_json config a state)) [
        | inl ((admission, after), h) ↦
            let (d, e, h1) =
              bind-eq-ok (same_detect (detect_hostname extract_sni a.events [] a.bytes)) _ h in
            rw h (admitted-Simulated a d admission after fresh h1)
        | inr (e, h) ↦ rw h (rw (pending-after_error e state) reach, wider a.connection_id)
      ]

  event-Simulated :
      (e : Event)
      → FreshEvent e used
      → Simulated seen
          (used_after e used)
          (serve_event extract_sni decode_json codec config e state)
  unfolding serve_event
  event-Simulated (arrives a) fresh = arrives-Simulated a fresh
  event-Simulated (calls_back ending stream) fresh =
      elim (Result-cases (read_prefix codec ending stream)) [
        | inl ((prefix, rest), h) ↦
            let (p, w) =
              settle_callback-observed prefix (handle_client_data prefix state.pending).0
                state.pending (handle_client_data prefix state.pending).1 seen in
            rw h
              (subst Reachable p (stepped reach (called_back prefix)), kept-Covered seen _ used w c)
        | inr (e, h) ↦ rw h (reach, kept-Covered seen _ used refl c)
      ]
  event-Simulated (cleans_up now id) fresh =
      let (p, w) =
        settle_cleanup-observed id (cleanup_pending now id state.pending).0 state.pending
          (cleanup_pending now id state.pending).1 seen in
      (subst Reachable p (stepped reach (cleaned now id)), kept-Covered seen _ used w c)

module _ (extract_sni : SniParser) (decode_json : Str → Option ConnectionClaim) (codec : Codec)
    (config : IngressConfig) where
  events-Reachable :
      (events : List Event) (seen : List Observation) (state : AppState) (used : List Str)
      → Reachable (runtime_of state.pending seen)
      → Covered seen used
      → FreshIds events used
      → Reachable (
          runtime_of
            (serve_events extract_sni decode_json codec config events seen state).1.pending
            (serve_events extract_sni decode_json codec config events seen state).0)
  unfolding serve_events FreshIds
  events-Reachable [] seen state used r c fresh = r
  events-Reachable (e ∷ es) seen state used r c (fresh, later) =
      let (q, d) =
        event-Simulated extract_sni decode_json codec config state seen used r c e fresh in
      let next = serve_event extract_sni decode_json codec config e state in
      events-Reachable es (next.0 ∷ seen) next.1 (used_after e used) q d later

-- Whatever public connections, callbacks and cleanups the ingress serves from its start, in any order and
-- with failures among them, each connection seen to wait for the winner of its claim was so once, and at the
-- end it is in the table, or was seen to be relayed, or closed: one of these and once. An entry of the table
-- has the socket and the winner that were seen, and a connection is relayed with that socket, to a callback
-- that names that winner. A further callback is settled by its line: one that is refused changes nothing, and
-- one that names a connection of the table takes it out, and is seen to relay it where it names its winner
-- and to close it where not. The condition is that no two public connections get the same id.
pub serve_events-IsRuntime :
    (extract_sni : SniParser) (decode_json : Str → Option ConnectionClaim) (codec : Codec)
    (config : IngressConfig) (events : List Event) (ending : Ending) (stream : Str)
    → FreshIds events []
    → IsRuntime (
        runtime_of
          (serve_events extract_sni decode_json codec config events [] empty_state).1.pending
          (serve_events extract_sni decode_json codec config events [] empty_state).0)
      × IsSettled codec ending stream
          (serve_events extract_sni decode_json codec config events [] empty_state).1
          (serve_event extract_sni decode_json codec config
            (calls_back ending stream)
            (serve_events extract_sni decode_json codec config events [] empty_state).1)
unfolding Covered
serve_events-IsRuntime extract_sni decode_json codec config events ending stream fresh = (
  Reachable-IsRuntime _ (
      events-Reachable extract_sni decode_json codec config events [] empty_state [] started
        (λ id. omega arith) fresh),
  serve_event-IsSettled extract_sni decode_json codec config ending stream _,
)
