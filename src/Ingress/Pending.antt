-- ===== src/Ingress/Pending.antt =====
-- The table of claimed connections (ingress/src/lib.rs): `handle_ingress` behind the claim,
-- `handle_client_data` behind the prefix line, and `spawn_pending_cleanup`.
pub mod Table
pub mod Once
use lfp_pipe.Base.{
  ℕ, ◌+◌, ◌≤◌, ◌≡◌, Bool, true, false, not, leb, ◌==◌, Option, none, some, List, [], ◌∷◌, map,
  if◌then◌else◌, find, suc,
}
use lfp_pipe.Text.Ascii.{Str, str_eq, eq_ignore_ascii_case}
use lfp_pipe.Config.Ingress.{SniPassthroughRoute}
use lfp_pipe.Prefix.{PrefixEnvelope}
use lfp_pipe.Ingress.Claims.{ConnectionClaim}

-- A public socket, by its number, with the bytes read from it so far.
pub record PendingConnection : Type 0 where
  pub ingress : ℕ
  pub ingress_preface : Str
  pub client_id : Str
  pub expires_at : ℕ

-- The `HashMap` as an association list.
abbrev pub Pending : Type 0
Pending = List (Str × PendingConnection)

unfoldable pub pending_get : Pending → Str → Option PendingConnection
pending_get [] key = none
pending_get ((k, entry) ∷ pending) key =
    if str_eq k key then some entry else pending_get pending key

unfoldable pub pending_remove : Pending → Str → Pending
pending_remove [] key = []
pending_remove ((k, entry) ∷ pending) key =
    let rest = pending_remove pending key in if str_eq k key then rest else (k, entry) ∷ rest

unfoldable pub pending_insert : Pending → Str → PendingConnection → Pending
pending_insert pending key entry = (key, entry) ∷ pending_remove pending key

-- `select_sni_passthrough`: a connection of such a hostname goes to its backend without a claim.
unfoldable pub select_sni_passthrough :
    List SniPassthroughRoute → Option Str → Option SniPassthroughRoute
select_sni_passthrough routes none = none
select_sni_passthrough routes (some hostname) =
    find (λ route. eq_ignore_ascii_case route.hostname hostname) routes

-- The end of `handle_ingress`: the claimed connection waits for its client.
unfoldable pub register_pending : ℕ → ℕ → Str → ℕ → Str → ConnectionClaim → Pending → Pending
register_pending now pending_timeout_ms connection_id stream preface claim pending =
    pending_insert pending connection_id (record {
      ingress = stream;
      ingress_preface = preface;
      client_id = claim.client_id;
      expires_at = now + pending_timeout_ms;
    })

-- How a callback ends: no such connection, a client that did not win it, or a relay.
pub data Callback : Type 0 where
  unknown_connection : Callback
  wrong_client bound : PendingConnection → Callback

abbrev pub callback_of : PrefixEnvelope → Option PendingConnection → Callback
callback_of prefix none = unknown_connection
callback_of prefix (some entry) =
    if not (str_eq entry.client_id prefix.client_id) then wrong_client entry else bound entry

-- The entry leaves the table before its client is compared.
unfoldable pub handle_client_data : PrefixEnvelope → Pending → Callback × Pending
handle_client_data prefix pending = (
  callback_of prefix (pending_get pending prefix.connection_id),
  pending_remove pending prefix.connection_id,
)

abbrev pub expired_entry : ℕ → Option PendingConnection → Option PendingConnection
expired_entry now none = none
expired_entry now (some entry) = if leb entry.expires_at now then some entry else none

abbrev pub pending_after : Option PendingConnection → Str → Pending → Pending
pending_after none connection_id pending = pending
pending_after (some entry) connection_id pending = pending_remove pending connection_id

-- The cleanup of one connection: what it removes, to shut down, and the table.
unfoldable pub cleanup_pending : ℕ → Str → Pending → Option PendingConnection × Pending
cleanup_pending now connection_id pending = (
  expired_entry now (pending_get pending connection_id),
  pending_after (expired_entry now (pending_get pending connection_id)) connection_id pending,
)

-- A connection that a client won.
pub record Grant : Type 0 where
  pub connection_id : Str
  pub ingress : ℕ
  pub client_id : Str

abbrev pub grant_of : Str → PendingConnection → Grant
grant_of connection_id entry = record {
  connection_id = connection_id;
  ingress = entry.ingress;
  client_id = entry.client_id;
}

-- The runtime: its table, and the connections won, relayed and closed so far.
pub record Runtime : Type 0 where
  pub pending : Pending
  pub won : List Grant
  pub relayed : List Grant
  pub closed : List Grant

abbrev pub empty_runtime : Runtime
empty_runtime = record { pending = []; won = []; relayed = []; closed = [] }

-- A relay as it happens: the socket of the entry goes to the client that called back.
abbrev pub relay_of : PrefixEnvelope → PendingConnection → Grant
relay_of prefix entry = record {
  connection_id = prefix.connection_id;
  ingress = entry.ingress;
  client_id = prefix.client_id;
}

-- A socket whose entry is dropped is closed.
unfoldable pub settle_callback : PrefixEnvelope → Callback → Pending → Runtime → Runtime
settle_callback prefix unknown_connection pending s = record s { pending = pending }
settle_callback prefix (wrong_client entry) pending s = record s {
  pending = pending;
  closed = grant_of prefix.connection_id entry ∷ s.closed;
}
settle_callback prefix (bound entry) pending s = record s {
  pending = pending;
  relayed = relay_of prefix entry ∷ s.relayed;
}

unfoldable pub settle_cleanup : Str → Option PendingConnection → Pending → Runtime → Runtime
settle_cleanup id none pending s = record s { pending = pending }
settle_cleanup id (some entry) pending s = record s {
  pending = pending;
  closed = grant_of id entry ∷ s.closed;
}

-- How often a connection id stands in a list.
abbrev pub times : Str → List Str → ℕ
times id [] = 0
times id (k ∷ ks) = if str_eq k id then suc (times id ks) else times id ks

abbrev pub ids : List Grant → List Str
ids = map (λ g. g.connection_id)

abbrev pub pending_ids : Pending → List Str
pending_ids = map (λ e. e.0)

-- What happens to the runtime, in any order: the `Mutex` makes each of these one step. A new connection
-- has a fresh UUID.
pub data Step (s : Runtime) : Runtime → Type 0 where
  claimed :
      (now timeout stream : ℕ) (id preface : Str) (claim : ConnectionClaim)
      → times id (ids s.won) ≡ 0
      → Step s (record s {
        pending = register_pending now timeout id stream preface claim s.pending;
        won = record { connection_id = id; ingress = stream; client_id = claim.client_id } ∷ s.won;
      })
  called_back :
      (prefix : PrefixEnvelope)
      → Step s (
          settle_callback prefix
            (handle_client_data prefix s.pending).0
            (handle_client_data prefix s.pending).1
            s)
  cleaned :
      (now : ℕ) (id : Str)
      → Step s (
          settle_cleanup id
            (cleanup_pending now id s.pending).0
            (cleanup_pending now id s.pending).1
            s)

pub data Reachable : Runtime → Type 0 where
  started : Reachable empty_runtime
  stepped : {s t : Runtime} → Reachable s → Step s t → Reachable t
