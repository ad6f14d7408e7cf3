-- ===== src/Ingress/Serve/Seen.antt =====
-- A run of the ingress (ingress/src/lib.rs) read as a runtime: its table, with what was seen of the connections.
use lfp_pipe.Base.{◌≡◌, List, [], ◌∷◌}
use lfp_pipe.Text.Ascii.{Str}
use lfp_pipe.Ingress.Pending.{Pending, Grant, Runtime, times}
use lfp_pipe.Ingress.Accept.{AppState}
use lfp_pipe.Ingress.Serve.{
  Event, arrives, calls_back, cleans_up, Observation, unseen, awaits, relays, closes,
}

-- The state of the ingress at its start.
abbrev pub empty_state : AppState
empty_state = record { pending = []; route_claim_cursor = [] }

abbrev pub awaited : List Observation → List Grant
awaited [] = []
awaited (unseen ∷ seen) = awaited seen
awaited (awaits g ∷ seen) = g ∷ awaited seen
awaited (relays g ∷ seen) = awaited seen
awaited (closes g ∷ seen) = awaited seen

abbrev pub relayed : List Observation → List Grant
relayed [] = []
relayed (unseen ∷ seen) = relayed seen
relayed (awaits g ∷ seen) = relayed seen
relayed (relays g ∷ seen) = g ∷ relayed seen
relayed (closes g ∷ seen) = relayed seen

abbrev pub closed : List Observation → List Grant
closed [] = []
closed (unseen ∷ seen) = closed seen
closed (awaits g ∷ seen) = closed seen
closed (relays g ∷ seen) = closed seen
closed (closes g ∷ seen) = g ∷ closed seen

-- The table at the end of a run, with what was seen on the way.
abbrev pub runtime_of : Pending → List Observation → Runtime
runtime_of pending seen = record {
  pending = pending;
  won = awaited seen;
  relayed = relayed seen;
  closed = closed seen;
}

abbrev pub used_after : Event → List Str → List Str
used_after (arrives a) used = a.connection_id ∷ used
used_after (calls_back ending stream) used = used
used_after (cleans_up now connection_id) used = used

abbrev pub FreshEvent : Event → List Str → Type 0
FreshEvent (arrives a) used = times a.connection_id used ≡ 0
FreshEvent (calls_back ending stream) used = Unit
FreshEvent (cleans_up now connection_id) used = Unit

-- No two public connections get one UUID.
unfoldable pub FreshIds : List Event → List Str → Type 0
FreshIds [] used = Unit
FreshIds (e ∷ es) used = FreshEvent e used × FreshIds es (used_after e used)
