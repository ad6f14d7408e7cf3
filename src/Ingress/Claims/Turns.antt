-- ===== src/Ingress/Claims/Turns.antt =====
-- The round robin of `next_claim_index`.
use lfp_pipe.Base.{
  ℕ, zero, suc, ◌+◌, ◌-◌, ◌%◌, ◌<◌, ◌≡◌, ◌≢◌, refl, sym, ap, ◌∙◌, [], ◌∷◌, arith, Bool-cases, inl,
  inr,
}
use native.Mathlib.Nat.{mod-mod, add-mod-mod, mod-add-mod, mod-lt, mod-eq_of_lt, add-mod_right}
use lfp_pipe.Text.Ascii.{Str, str_eq, str_eq_refl, str_eq_sound}
use lfp_pipe.Ingress.Claims.{Cursors, cursor_of, set_cursor, next_claim_index}

cursor_of-set_cursor :
    (cursors : Cursors) (key : Str) (n : ℕ) → cursor_of (set_cursor cursors key n) key ≡ n
unfolding cursor_of set_cursor
cursor_of-set_cursor [] key n = rw (str_eq_refl key) refl
cursor_of-set_cursor ((k, m) ∷ cursors) key n = elim (Bool-cases (str_eq k key)) [
  | inl e ↦ rw (e, e) refl
  | inr e ↦ rw (e, e) (cursor_of-set_cursor cursors key n)
]

cursor_of-set_cursor-other :
    (cursors : Cursors) (key other : Str) (n : ℕ)
    → key ≢ other
    → cursor_of (set_cursor cursors key n) other ≡ cursor_of cursors other
unfolding cursor_of set_cursor
cursor_of-set_cursor-other [] key other n ne = elim (Bool-cases (str_eq key other)) [
  | inl e ↦ absurd (ne (str_eq_sound key other e))
  | inr e ↦ rw e refl
]
cursor_of-set_cursor-other ((k, m) ∷ cursors) key other n ne = elim (Bool-cases (str_eq k key)) [
  | inl e ↦ elim (Bool-cases (str_eq k other)) [
    | inl f ↦ absurd (ne (sym (str_eq_sound k key e) ∙ str_eq_sound k other f))
    | inr f ↦ rw (e, f) refl
  ]
  | inr e ↦ elim (Bool-cases (str_eq k other)) [
    | inl f ↦ rw (e, f) refl
    | inr f ↦ rw (e, f) (cursor_of-set_cursor-other cursors key other n ne)
  ]
]

-- The cursors after so many connections in a row for one route, with so many claims for each.
unfoldable pub after_turns : Cursors → Str → ℕ → ℕ → Cursors
unfolding next_claim_index
after_turns cursors key count zero = cursors
after_turns cursors key count (suc turns) =
    (next_claim_index (after_turns cursors key count turns) key count).1

-- The index that the connection after so many turns gets.
turn_index :
    (cursors : Cursors) (key : Str) (count turns : ℕ)
    → 0 < count
    → (next_claim_index (after_turns cursors key count turns) key count).0
      ≡ (cursor_of cursors key + turns) % count
unfolding next_claim_index after_turns
turn_index cursors key count zero h = ap (λ t. t % count) (omega arith)
turn_index cursors key count (suc turns) h =
    let before = turn_index cursors key count turns h in
    let cursor : ℕ = cursor_of (after_turns cursors key count turns) key in
    ap (λ t. t % count)
      (cursor_of-set_cursor (after_turns cursors key count turns) key ((cursor + 1) % count))
    ∙ mod-mod (cursor + 1) count
    ∙ sym (mod-add-mod cursor count 1)
    ∙ ap (λ t. (t + 1) % count) before
    ∙ mod-add-mod (cursor_of cursors key + turns) count 1
    ∙ ap (λ t. t % count) (omega arith)

-- From any cursor, `wait j` connections later it is the turn of index `j`.
wait : ℕ → ℕ → ℕ → ℕ
wait cursor count j = (j + (count - cursor % count)) % count

wait-lt : (cursor count j : ℕ) → j < count → wait cursor count j < count
unfolding wait
wait-lt cursor count j h = mod-lt (j + (count - cursor % count)) (omega arith)

wait_lem : (cursor count j : ℕ) → j < count → (cursor + wait cursor count j) % count ≡ j
unfolding wait
wait_lem cursor count j h =
    let below : cursor % count < count = mod-lt cursor (omega arith) in
    add-mod-mod cursor (j + (count - cursor % count)) count
    ∙ sym (mod-add-mod cursor count (j + (count - cursor % count)))
    ∙ ap (λ t. t % count) (omega (arith, below))
    ∙ add-mod_right j count
    ∙ mod-eq_of_lt h

-- Each index of the claims has its turn within as many connections as there are claims.
pub every_index_turns :
    (cursors : Cursors) (key : Str) (count j : ℕ)
    → j < count
    → (turns : ℕ) × (turns < count)
      × ((next_claim_index (after_turns cursors key count turns) key count).0 ≡ j)
every_index_turns cursors key count j h =
    let turns : ℕ = wait (cursor_of cursors key) count j in
    (
      turns,
      wait-lt (cursor_of cursors key) count j h,
      turn_index cursors key count turns (omega arith) ∙ wait_lem (cursor_of cursors key) count j h,
    )

-- The connections of one route leave the turns of every other route alone.
next_claim_index-other :
    (cursors : Cursors) (key other : Str) (count : ℕ)
    → key ≢ other
    → cursor_of (next_claim_index cursors key count).1 other ≡ cursor_of cursors other
unfolding next_claim_index
next_claim_index-other cursors key other count ne =
    cursor_of-set_cursor-other cursors key other _ ne
