-- ===== src/Ingress/Permits/Limit.antt =====
-- The bound that the semaphores put on the sockets of a listener (ingress/src/lib.rs).
use lfp_pipe.Base.{
  ℕ, ◌+◌, ◌≤◌, ◌<◌, ◌≡◌, refl, ap, Bool-cases, none, some, List, [], ◌∷◌, arith, length, zero, suc,
  ◌==◌, In, inl, inr,
}
use lfp_pipe.Ingress.Permits.{
  Capacity, capacity_of, try_acquire, release, Listener, accept_public, without, drop_permit, came,
  left, Served, opened, turned,
}

-- The free permits and the sockets that hold one are as many as the limit, if there is one.
Balanced : ℕ → Capacity → ℕ → Type 0
Balanced max none count = max ≡ 0
Balanced max (some free) count = (0 < max) × (free + count ≡ max)

length-without :
    (stream : ℕ) (streams : List ℕ)
    → In stream streams
    → suc (length (without stream streams)) ≡ length streams
unfolding without
length-without stream [] i = elim i [ ]
length-without stream (s ∷ streams) i = elim (Bool-cases (s == stream)) [
  | inl e ↦ rw e refl
  | inr e ↦ elim i [
    | inl f ↦ ground arith
    | inr j ↦ rw e (ap suc (length-without stream streams j))
  ]
]

capacity_of-Balanced : (max : ℕ) → Balanced max (capacity_of max) 0
unfolding Balanced capacity_of
capacity_of-Balanced max = ground arith

accept_public-Balanced :
    (max stream : ℕ) (capacity : Capacity) (held refused : List ℕ)
    → Balanced max capacity (length held)
    → let s : Listener =
        accept_public stream (record { capacity = capacity; held = held; refused = refused }) in
      Balanced max s.capacity (length s.held)
unfolding Balanced accept_public try_acquire
accept_public-Balanced max stream none held refused b = b
accept_public-Balanced max stream (some zero) held refused b = b
accept_public-Balanced max stream (some (suc free)) held refused (p, b) = (p, omega (arith, b))

drop_permit-Balanced :
    (max stream : ℕ) (capacity : Capacity) (held : List ℕ)
    → In stream held
    → Balanced max capacity (length held)
    → Balanced max (release capacity) (length (without stream held))
unfolding Balanced release
drop_permit-Balanced max stream none held i b = b
drop_permit-Balanced max stream (some free) held i (p, b) =
    (p, omega (arith, b, length-without stream held i))

Served-Balanced : (max : ℕ) (s : Listener) → Served max s → Balanced max s.capacity (length s.held)
unfolding drop_permit
Served-Balanced max s opened = capacity_of-Balanced max
Served-Balanced max t (turned {s} r (came stream)) =
    accept_public-Balanced max stream s.capacity s.held s.refused (Served-Balanced max s r)
Served-Balanced max t (turned {s} r (left stream i)) =
    drop_permit-Balanced max stream s.capacity s.held i (Served-Balanced max s r)

-- What the next socket meets.
pub record IsLimited (max : ℕ) (s : Listener) : Type 0 where
  pub bounded : 0 < max → length s.held ≤ max
  pub full :
      (stream : ℕ)
      → 0 < max
      → length s.held ≡ max
      → accept_public stream s ≡ record s { refused = stream ∷ s.refused }
  pub room :
      (stream : ℕ)
      → length s.held < max
      → ((accept_public stream s).held ≡ stream ∷ s.held)
        × ((accept_public stream s).refused ≡ s.refused)
  pub unlimited :
      (stream : ℕ)
      → max ≡ 0
      → ((accept_public stream s).held ≡ stream ∷ s.held)
        × ((accept_public stream s).refused ≡ s.refused)

limited :
    (max : ℕ) (capacity : Capacity) (held refused : List ℕ)
    → Balanced max capacity (length held)
    → IsLimited max (record { capacity = capacity; held = held; refused = refused })
unfolding Balanced accept_public try_acquire
limited max none held refused b = record {
  bounded = λ p. omega (arith, p, b);
  full = λ stream p e. absurd (omega (arith, p, b));
  room = λ stream p. (refl, refl);
  unlimited = λ stream e. (refl, refl);
}
limited max (some zero) held refused (q, b) = record {
  bounded = λ p. omega (arith, b);
  full = λ stream p e. refl;
  room = λ stream p. absurd (omega (arith, p, b));
  unlimited = λ stream e. absurd (omega (arith, q, e));
}
limited max (some (suc free)) held refused (q, b) = record {
  bounded = λ p. omega (arith, b);
  full = λ stream p e. absurd (omega (arith, e, b));
  room = λ stream p. (refl, refl);
  unlimited = λ stream e. absurd (omega (arith, q, e));
}

-- However sockets come and go at a listener, it never holds more than its limit. It refuses a socket when
-- it holds as many as the limit, and takes every socket when it holds fewer, or when the limit is zero,
-- which means none.
pub Served-IsLimited : (max : ℕ) (s : Listener) → Served max s → IsLimited max s
Served-IsLimited max s r = limited max s.capacity s.held s.refused (Served-Balanced max s r)
