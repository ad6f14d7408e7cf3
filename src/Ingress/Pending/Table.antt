-- ===== src/Ingress/Pending/Table.antt =====
-- The laws of the table of claimed connections.
use lfp_pipe.Base.{
  suc, ◌≡◌, ◌≢◌, refl, sym, ap, subst, ◌+◌, ◌∙◌, ◌≤◌, ◌<◌, true, false, none, some, [], ◌∷◌, arith,
  if◌then◌else◌, Bool-cases, inl, inr, In,
}
use lfp_pipe.Text.Ascii.{Str, str_eq, str_eq_refl, str_eq_sound}
use lfp_pipe.Ingress.Pending.{
  Pending, PendingConnection, pending_get, pending_remove, times, pending_ids,
}

times-pending_remove : (p : Pending) (id : Str) → times id (pending_ids (pending_remove p id)) ≡ 0
unfolding pending_remove
times-pending_remove [] id = refl
times-pending_remove ((k, e) ∷ p) id = elim (Bool-cases (str_eq k id)) [
  | inl h ↦ rw h (times-pending_remove p id)
  | inr h ↦ rw (h, h) (times-pending_remove p id)
]

str_eq-other : (k id other : Str) → id ≢ other → str_eq k id ≡ true → str_eq k other ≡ false
str_eq-other k id other ne h = elim (Bool-cases (str_eq k other)) [
  | inl f ↦ absurd (ne (sym (str_eq_sound k id h) ∙ str_eq_sound k other f))
  | inr f ↦ f
]

times-pending_remove_other :
    (p : Pending) (id other : Str)
    → id ≢ other
    → times other (pending_ids (pending_remove p id)) ≡ times other (pending_ids p)
unfolding pending_remove
times-pending_remove_other [] id other ne = refl
times-pending_remove_other ((k, e) ∷ p) id other ne = elim (Bool-cases (str_eq k id)) [
  | inl h ↦ rw (h, str_eq-other k id other ne h) (times-pending_remove_other p id other ne)
  | inr h ↦
      rw h
        (ap (λ n. if str_eq k other then suc n else n) (times-pending_remove_other p id other ne))
]

pub pending_remove-fresh :
    (p : Pending) (id : Str) → times id (pending_ids p) ≡ 0 → pending_remove p id ≡ p
unfolding pending_remove
pending_remove-fresh [] id h = refl
pending_remove-fresh ((k, e) ∷ p) id h = elim (Bool-cases (str_eq k id)) [
  | inl f ↦ absurd (omega (arith, rw f at h))
  | inr f ↦ rw f (ap (◌∷◌ (k, e)) (pending_remove-fresh p id (rw f at h)))
]

pub pending_get-some :
    (p : Pending) (id : Str) {e : PendingConnection} → pending_get p id ≡ some e → In (id, e) p
unfolding pending_get
pending_get-some [] id h = cc
pending_get-some ((k, d) ∷ p) id {e} h = elim (Bool-cases (str_eq k id)) [
  | inl f ↦ let q : some d ≡ some e = rw f at h in inl (cc (str_eq_sound k id f))
  | inr f ↦ inr (pending_get-some p id (rw f at h))
]

times-In :
    (p : Pending) (id : Str) (e : PendingConnection) → In (id, e) p → 0 < times id (pending_ids p)
times-In [] id e i = elim i [ ]
times-In ((k, d) ∷ p) id e (inl h) =
    let f : str_eq k id ≡ true = rw (← ap (λ x. x.0) h) (str_eq_refl id) in rw f (omega arith)
times-In ((k, d) ∷ p) id e (inr i) = ground (arith, times-In p id e i)

pub In-pending_remove :
    (p : Pending) (id : Str) (x : Str × PendingConnection) → In x (pending_remove p id) → In x p
unfolding pending_remove
In-pending_remove [] id x i = i
In-pending_remove ((k, e) ∷ p) id x i = elim (Bool-cases (str_eq k id)) [
  | inl h ↦ inr (In-pending_remove p id x (rw h at i))
  | inr h ↦ elim (rw h at i) [ inl f ↦ inl f | inr j ↦ inr (In-pending_remove p id x j) ]
]

pub pending_remove-none :
    (p : Pending) (id : Str) → pending_get p id ≡ none → pending_remove p id ≡ p
unfolding pending_get pending_remove
pending_remove-none [] id h = refl
pending_remove-none ((k, e) ∷ p) id h = elim (Bool-cases (str_eq k id)) [
  | inl f ↦ cc (rw f at h)
  | inr f ↦ rw f (ap (◌∷◌ (k, e)) (pending_remove-none p id (rw f at h)))
]

-- Where an id stands once, removing it moves one occurrence out of the table.
pub times-moved :
    (p : Pending) (id other : Str) (e : PendingConnection)
    → pending_get p id ≡ some e
    → times id (pending_ids p) ≤ 1
    → times other (pending_ids p)
      ≡ times other (pending_ids (pending_remove p id)) + times other (id ∷ [])
times-moved p id other e h once = elim (Bool-cases (str_eq id other)) [
  | inl f ↦
      let same : id ≡ other = str_eq_sound id other f in
      subst
        (λ o.
          times o (pending_ids p) ≡ times o (pending_ids (pending_remove p id)) + times o (id ∷ []))
        same
        (rw (str_eq_refl id)
          (omega (arith, times-In p id e (pending_get-some p id h), times-pending_remove p id)))
  | inr f ↦ rw f (
      omega (
        arith,
        times-pending_remove_other p id other (λ q. cc (f, ap (str_eq id) q, str_eq_refl id)),
      ))
]

-- A removed connection is not found again.
pub pending_get-removed : (p : Pending) (id : Str) → pending_get (pending_remove p id) id ≡ none
unfolding pending_get pending_remove
pending_get-removed [] id = refl
pending_get-removed ((k, e) ∷ p) id = elim (Bool-cases (str_eq k id)) [
  | inl h ↦ rw h (pending_get-removed p id)
  | inr h ↦ rw (h, h) (pending_get-removed p id)
]
