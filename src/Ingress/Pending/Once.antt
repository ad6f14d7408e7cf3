-- ===== src/Ingress/Pending/Once.antt =====
-- The invariant of the table of claimed connections (ingress/src/lib.rs).
use lfp_pipe.Base.{
  ℕ, ◌+◌, ◌≡◌, sym, ap, ◌∙◌, subst, ◌≤◌, none, some, [], ◌∷◌, arith, leb, Bool-cases, Option-cases,
  inl, inr, In,
}
use lfp_pipe.Text.Ascii.{Str, str_eq, str_eq_refl, str_eq_sound}
use lfp_pipe.Prefix.{PrefixEnvelope}
use lfp_pipe.Ingress.Claims.{ConnectionClaim}
use lfp_pipe.Ingress.Pending.{
  Pending, PendingConnection, pending_get, pending_remove, pending_insert, register_pending,
  unknown_connection, callback_of, handle_client_data, cleanup_pending, Grant, grant_of, Runtime,
  empty_runtime, settle_callback, settle_cleanup, times, ids, pending_ids, claimed, called_back,
  cleaned, Reachable, started, stepped,
}
use lfp_pipe.Ingress.Pending.Table.{
  pending_get-some, pending_remove-none, pending_remove-fresh, pending_get-removed,
  In-pending_remove, times-moved,
}

-- Each connection was won once, and is pending, relayed or closed; it is pending for the client that won it
-- and relayed to a callback of that client, with the socket that it came on.
pub record IsRuntime (s : Runtime) : Type 0 where
  pub unique : (id : Str) → times id (ids s.won) ≤ 1
  pub accounted :
      (id : Str)
      → times id (ids s.won)
        ≡ times id (pending_ids s.pending) + times id (ids s.relayed) + times id (ids s.closed)
  pub pending_won :
      (id : Str) (entry : PendingConnection)
      → In (id, entry) s.pending
      → In (grant_of id entry) s.won
  pub relayed_won : (g : Grant) → In g s.relayed → In g s.won

module _ (s : Runtime) (id : Str) (entry : PendingConnection) (r : IsRuntime s) where
  removed_won :
      (k : Str) (e : PendingConnection)
      → In (k, e) (pending_remove s.pending id)
      → In (grant_of k e) s.won
  removed_won k e i = r.pending_won k e (In-pending_remove s.pending id (k, e) i)

  moved :
      (other : Str)
      → pending_get s.pending id ≡ some entry
      → times other (pending_ids s.pending)
        ≡ times other (pending_ids (pending_remove s.pending id)) + times other (id ∷ [])
  moved other h =
      times-moved s.pending id other entry h (omega (arith, r.unique id, r.accounted id))

  closed-IsRuntime :
      pending_get s.pending id ≡ some entry
      → IsRuntime (record s {
        pending = pending_remove s.pending id;
        closed = grant_of id entry ∷ s.closed;
      })
  closed-IsRuntime h = record {
    unique = r.unique;
    accounted = λ other. ground (arith, moved other h, r.accounted other);
    pending_won = removed_won;
    relayed_won = r.relayed_won;
  }

  relayed-IsRuntime :
      (caller : Str)
      → pending_get s.pending id ≡ some entry
      → entry.client_id ≡ caller
      → IsRuntime (record s {
        pending = pending_remove s.pending id;
        relayed =
            record { connection_id = id; ingress = entry.ingress; client_id = caller } ∷ s.relayed;
      })
  relayed-IsRuntime caller h same = record {
    unique = r.unique;
    accounted = λ other. ground (arith, moved other h, r.accounted other);
    pending_won = removed_won;
    relayed_won = relayed_won;
  }
    where
      grant : Str → Grant
      grant client = record { connection_id = id; ingress = entry.ingress; client_id = client }

      relayed_won : (g : Grant) → In g (grant caller ∷ s.relayed) → In g s.won
      relayed_won g (inl e) =
          subst (λ g. In g s.won) (ap grant same ∙ sym e)
            (r.pending_won id entry (pending_get-some s.pending id h))
      relayed_won g (inr i) = r.relayed_won g i

-- An absent connection leaves the runtime as it is.
kept-IsRuntime :
    (s : Runtime) (id : Str)
    → IsRuntime s
    → pending_get s.pending id ≡ none
    → IsRuntime (record s { pending = pending_remove s.pending id })
kept-IsRuntime s id r h = rw (pending_remove-none s.pending id h) r

called_back-IsRuntime :
    (s : Runtime) (prefix : PrefixEnvelope)
    → IsRuntime s
    → IsRuntime (
        settle_callback prefix
          (handle_client_data prefix s.pending).0
          (handle_client_data prefix s.pending).1
          s)
unfolding settle_callback handle_client_data
called_back-IsRuntime s prefix r =
    elim (Option-cases (pending_get s.pending prefix.connection_id)) [
      | inl h ↦ rw h (kept-IsRuntime s prefix.connection_id r h)
      | inr (entry, h) ↦ elim (Bool-cases (str_eq entry.client_id prefix.client_id)) [
        | inl f ↦
            rw (h, f)
              (relayed-IsRuntime s prefix.connection_id entry r prefix.client_id h
                (str_eq_sound entry.client_id prefix.client_id f))
        | inr f ↦ rw (h, f) (closed-IsRuntime s prefix.connection_id entry r h)
      ]
    ]

cleaned-IsRuntime :
    (s : Runtime) (now : ℕ) (id : Str)
    → IsRuntime s
    → IsRuntime (
        settle_cleanup id
          (cleanup_pending now id s.pending).0
          (cleanup_pending now id s.pending).1
          s)
unfolding settle_cleanup cleanup_pending
cleaned-IsRuntime s now id r = elim (Option-cases (pending_get s.pending id)) [
  | inl h ↦ rw h r
  | inr (entry, h) ↦ elim (Bool-cases (leb entry.expires_at now)) [
    | inl f ↦ rw (h, f) (closed-IsRuntime s id entry r h)
    | inr f ↦ rw (h, f) r
  ]
]

claimed-IsRuntime :
    (s : Runtime) (now timeout stream : ℕ) (id preface : Str) (claim : ConnectionClaim)
    → IsRuntime s
    → times id (ids s.won) ≡ 0
    → IsRuntime (record s {
      pending = register_pending now timeout id stream preface claim s.pending;
      won = record { connection_id = id; ingress = stream; client_id = claim.client_id } ∷ s.won;
    })
unfolding register_pending pending_insert
claimed-IsRuntime s now timeout stream id preface claim r fresh =
    rw (pending_remove-fresh s.pending id (omega (arith, r.accounted id))) (record {
      unique = unique;
      accounted = λ other. ground (arith, r.accounted other);
      pending_won = pending_won;
      relayed_won = λ g i. inr (r.relayed_won g i);
    })
  where
    unique : (other : Str) → times other (id ∷ ids s.won) ≤ 1
    unique other = elim (Bool-cases (str_eq id other)) [
      | inl f ↦
          subst (λ o. times o (id ∷ ids s.won) ≤ 1) (str_eq_sound id other f)
            (rw (str_eq_refl id) (omega (arith, fresh)))
      | inr f ↦ rw f (r.unique other)
    ]

    pending_won :
        (k : Str) (e : PendingConnection)
        → In
            (k, e)
            ((
              id,
              record {
                ingress = stream;
                ingress_preface = preface;
                client_id = claim.client_id;
                expires_at = now + timeout;
              },
            )
              ∷ s.pending)
        → In
            (grant_of k e)
            (record { connection_id = id; ingress = stream; client_id = claim.client_id } ∷ s.won)
    pending_won k e (inl f) = inl (ap (λ x. grant_of x.0 x.1) f)
    pending_won k e (inr i) = inr (r.pending_won k e i)

empty-IsRuntime : IsRuntime empty_runtime
empty-IsRuntime = record {
  unique = λ id. omega arith;
  accounted = λ id. omega arith;
  pending_won = λ id e i. elim i [ ];
  relayed_won = λ g i. elim i [ ];
}

-- Whatever order claims, callbacks and cleanups come in, every connection won is pending, relayed or
-- closed, one of these and once. A relayed one goes to a callback whose prefix names the client that won it,
-- with the socket that it came on. The condition is that each connection claimed has an id that was not won
-- before.
pub Reachable-IsRuntime : (s : Runtime) → Reachable s → IsRuntime s
Reachable-IsRuntime s started = empty-IsRuntime
Reachable-IsRuntime t (stepped {s} reach (claimed now timeout stream id preface claim fresh)) =
    claimed-IsRuntime s now timeout stream id preface claim (Reachable-IsRuntime s reach) fresh
Reachable-IsRuntime t (stepped {s} reach (called_back prefix)) =
    called_back-IsRuntime s prefix (Reachable-IsRuntime s reach)
Reachable-IsRuntime t (stepped {s} reach (cleaned now id)) =
    cleaned-IsRuntime s now id (Reachable-IsRuntime s reach)

-- A callback takes its connection out of the table, whether its client is the winner or not: a second
-- one for that connection finds nothing.
handle_client_data-once :
    (first second : PrefixEnvelope) (pending : Pending)
    → first.connection_id ≡ second.connection_id
    → (handle_client_data second (handle_client_data first pending).1).0 ≡ unknown_connection
unfolding handle_client_data
handle_client_data-once first second pending e = ap (callback_of second) (
    subst (λ id. pending_get (pending_remove pending first.connection_id) id ≡ none) e
      (pending_get-removed pending first.connection_id))
