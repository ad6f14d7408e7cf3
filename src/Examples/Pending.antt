-- ===== src/Examples/Pending.antt =====
-- A connection that is claimed and called back.
use lfp_pipe.Base.{refl, [], ◌∷◌}
use lfp_pipe.Text.{codes}
use lfp_pipe.Text.Ascii
use lfp_pipe.Text.Ascii.{Str}
use lfp_pipe.Prefix.{new_prefix}
use lfp_pipe.Ingress.Claims.{ConnectionClaim}
use lfp_pipe.Ingress.Pending.{
  Pending, pending_get, pending_remove, pending_insert, register_pending, handle_client_data, Grant,
  Runtime, settle_callback, claimed, called_back, Reachable, started, stepped,
}
use lfp_pipe.Ingress.Pending.Once.{IsRuntime, Reachable-IsRuntime}

abbrev claim : ConnectionClaim
claim = record { client_id = codes "a"; connection_id = codes "u1" }

abbrev grant : Grant
grant = record { connection_id = codes "u1"; ingress = 7; client_id = codes "a" }

abbrev relayed : Runtime
relayed = record { pending = []; won = grant ∷ []; relayed = grant ∷ []; closed = [] }

reachable : Reachable relayed
unfolding register_pending pending_insert pending_remove pending_get handle_client_data
    settle_callback Ascii.str_eq
reachable =
    stepped (stepped started (claimed 0 10_000 7 (codes "u1") (codes "GET ") claim refl))
      (called_back (new_prefix (codes "a") (codes "u1")))

Reachable-IsRuntime_example : IsRuntime relayed
Reachable-IsRuntime_example = Reachable-IsRuntime relayed reachable

abbrev pending : Pending
pending =
    (
      codes "u1",
      record { ingress = 7; ingress_preface = []; client_id = codes "a"; expires_at = 10_000 },
    )
    ∷ []
