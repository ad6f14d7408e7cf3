-- ===== src/Ingress/Permits.antt =====
-- `accept_public_loop` and `accept_data_loop` (ingress/src/lib.rs): a socket that gets no permit of the
-- semaphore is dropped, and a permit comes back when its task or table entry is dropped.
pub mod Limit
use lfp_pipe.Base.{
  ℕ, ◌≡◌, Bool, true, Option, none, some, List, [], ◌∷◌, zero, suc, ltb, ◌==◌, if◌then◌else◌, In,
}

-- The free permits, where there is a limit.
abbrev pub Capacity : Type 0
Capacity = Option ℕ

unfoldable pub capacity_of : ℕ → Capacity
capacity_of max_connections = if ltb 0 max_connections then some max_connections else none

-- What `try_acquire_owned` gives: the semaphore behind it, unless no permit is free.
unfoldable pub try_acquire : Capacity → Option Capacity
try_acquire none = some none
try_acquire (some zero) = none
try_acquire (some (suc free)) = some (some free)

unfoldable pub release : Capacity → Capacity
release none = none
release (some free) = some (suc free)

-- A listener: its semaphore, the sockets accepted that still hold on, and those refused.
pub record Listener : Type 0 where
  pub capacity : Capacity
  pub held : List ℕ
  pub refused : List ℕ

abbrev pub listening : ℕ → Listener
listening max_connections = record {
  capacity = capacity_of max_connections;
  held = [];
  refused = [];
}

abbrev pub admit : ℕ → Option Capacity → Listener → Listener
admit stream none s = record s { refused = stream ∷ s.refused }
admit stream (some capacity) s = record s { capacity = capacity; held = stream ∷ s.held }

-- One round of the loop.
unfoldable pub accept_public : ℕ → Listener → Listener
accept_public stream s = admit stream (try_acquire s.capacity) s

unfoldable pub without : ℕ → List ℕ → List ℕ
without stream [] = []
without stream (s ∷ streams) =
    let rest = without stream streams in if s == stream then streams else s ∷ rest

-- The permit of a socket is dropped with its task, its entry or its relay.
unfoldable pub drop_permit : ℕ → Listener → Listener
drop_permit stream s = record s { capacity = release s.capacity; held = without stream s.held }

pub data Visit (s : Listener) : Listener → Type 0 where
  came : (stream : ℕ) → Visit s (accept_public stream s)
  left : (stream : ℕ) → In stream s.held → Visit s (drop_permit stream s)

pub data Served (max_connections : ℕ) : Listener → Type 0 where
  opened : Served max_connections (listening max_connections)
  turned : {s t : Listener} → Served max_connections s → Visit s t → Served max_connections t
