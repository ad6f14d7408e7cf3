-- ===== src/Ingress/Serve/Settled.antt =====
-- What becomes of one callback that the ingress serves (ingress/src/lib.rs): `handle_client_data` as a whole.
use lfp_pipe.Base.{
  ◌≡◌, ◌≢◌, refl, ap, Option, false, none, some, inl, inr, Bool-cases, Option-cases, Result-cases,
  ok, err,
}
use lfp_pipe.Text.Ascii.{Str, str_eq, str_eq_refl, str_eq_sound}
use lfp_pipe.Config.Ingress.{IngressConfig}
use lfp_pipe.Prefix.{Codec, PrefixEnvelope, PrefixError}
use lfp_pipe.Ingress.Detect.{SniParser}
use lfp_pipe.Ingress.Claims.{ConnectionClaim}
use lfp_pipe.Ingress.Callback.{Ending, read_prefix}
use lfp_pipe.Ingress.Pending.{PendingConnection, pending_get, handle_client_data}
use lfp_pipe.Ingress.Pending.Table.{pending_get-removed}
use lfp_pipe.Ingress.Accept.{AppState}
use lfp_pipe.Ingress.Serve.{Observation, unseen, relays, closes, calls_back, serve_event}

-- A line that is refused changes nothing. One that is read is looked up in the table: a connection that is
-- not there is left alone, one that is there leaves the table, to the client that called back where that is
-- the winner, and closed where it is another.
pub data IsSettled (codec : Codec) (ending : Ending) (stream : Str) (before : AppState)
    (seen : Observation × AppState) : Type 0 where
  unread :
      (e : PrefixError)
      → read_prefix codec ending stream ≡ err e
      → seen.0 ≡ unseen
      → seen.1 ≡ before
      → IsSettled codec ending stream before seen
  unknown :
      (prefix : PrefixEnvelope) (rest : Str)
      → read_prefix codec ending stream ≡ ok (prefix, rest)
      → pending_get before.pending prefix.connection_id ≡ none
      → seen.0 ≡ unseen
      → IsSettled codec ending stream before seen
  refused :
      (prefix : PrefixEnvelope) (rest : Str) (entry : PendingConnection)
      → read_prefix codec ending stream ≡ ok (prefix, rest)
      → pending_get before.pending prefix.connection_id ≡ some entry
      → entry.client_id ≢ prefix.client_id
      → seen.0
        ≡ closes (record {
          connection_id = prefix.connection_id;
          ingress = entry.ingress;
          client_id = entry.client_id;
        })
      → pending_get seen.1.pending prefix.connection_id ≡ none
      → IsSettled codec ending stream before seen
  won :
      (prefix : PrefixEnvelope) (rest : Str) (entry : PendingConnection)
      → read_prefix codec ending stream ≡ ok (prefix, rest)
      → pending_get before.pending prefix.connection_id ≡ some entry
      → entry.client_id ≡ prefix.client_id
      → seen.0
        ≡ relays (record {
          connection_id = prefix.connection_id;
          ingress = entry.ingress;
          client_id = prefix.client_id;
        })
      → pending_get seen.1.pending prefix.connection_id ≡ none
      → IsSettled codec ending stream before seen

differs : (a b : Str) → str_eq a b ≡ false → a ≢ b
differs a b f e = cc (f, ap (str_eq a) e, str_eq_refl a)

pub serve_event-IsSettled :
    (extract_sni : SniParser) (decode_json : Str → Option ConnectionClaim) (codec : Codec)
    (config : IngressConfig) (ending : Ending) (stream : Str) (state : AppState)
    → IsSettled codec ending stream state
        (serve_event extract_sni decode_json codec config (calls_back ending stream) state)
unfolding serve_event handle_client_data
serve_event-IsSettled extract_sni decode_json codec config ending stream state =
    elim (Result-cases (read_prefix codec ending stream)) [
      | inr (e, h) ↦ unread e h (rw h refl) (rw h refl)
      | inl ((prefix, rest), h) ↦
          let gone = pending_get-removed state.pending prefix.connection_id in
          elim (Option-cases (pending_get state.pending prefix.connection_id)) [
            | inl n ↦ unknown prefix rest h n (rw (h, n) refl)
            | inr (entry, g) ↦ elim (Bool-cases (str_eq entry.client_id prefix.client_id)) [
              | inl f ↦
                  won prefix rest entry h g (str_eq_sound entry.client_id prefix.client_id f)
                    (rw (h, g, f) refl) (rw h gone)
              | inr f ↦
                  refused prefix rest entry h g (differs entry.client_id prefix.client_id f)
                    (rw (h, g, f) refl) (rw h gone)
            ]
          ]
    ]
