-- ===== src/Ingress/Claims/Winner.antt =====
-- The winner of `broadcast_and_wait_for_claim`, and what the others are told.
use lfp_pipe.Base.{
  ℕ, zero, suc, ◌+◌, ◌<◌, ◌≡◌, refl, sym, ap, subst, ◌∙◌, Bool, true, false, ◌==◌, Option, none,
  some, List, [], ◌∷◌, arith, get_elem?, length, In, filter, if◌then◌else◌, Option-cases, inl, inr,
  ok, err, ok-injective,
}
use lfp_pipe.Text.Ascii.{Str}
use lfp_pipe.Ingress.Claims.{
  ConnectionClaim, ConnectionClaimAck, index_out_of_range, Claimant, Cursors, next_claim_index,
  ack_of, onto, claim_acks, Selection, select_winner,
}
use lfp_pipe.Ingress.Claims.Turns.{after_turns, every_index_turns}

pub get_elem?-some :
    {A : Type 0} (xs : List A) (i : ℕ) → i < length xs → (a : A) × (get_elem? xs i ≡ some a)
get_elem?-some [] i h = absurd (omega arith)
get_elem?-some (x ∷ xs) zero h = (x, refl)
get_elem?-some (x ∷ xs) (suc i) h = get_elem?-some xs i (omega arith)

pub get_elem?-In : {A : Type 0} (xs : List A) (i : ℕ) {a : A} → get_elem? xs i ≡ some a → In a xs
get_elem?-In [] i h = cc
get_elem?-In (x ∷ xs) zero h = inl cc
get_elem?-In (x ∷ xs) (suc i) h = inr (get_elem?-In xs i h)

In-get_elem? :
    {A : Type 0} (xs : List A) {a : A}
    → In a xs
    → (i : ℕ) × (i < length xs) × (get_elem? xs i ≡ some a)
In-get_elem? [] i = elim i [ ]
In-get_elem? (x ∷ xs) (inl e) = (0, omega arith, ap some (sym e))
In-get_elem? (x ∷ xs) (inr i) = let (j, b, e) = In-get_elem? xs i in (suc j, omega arith, e)

-- The selection of some element at the index of this turn.
pub select_winner_at :
    (cursors : Cursors) (key : Str) (claims : List Claimant) (claim : Claimant)
    → get_elem? claims (next_claim_index cursors key (length claims)).0 ≡ some claim
    → select_winner cursors key claims
      ≡ ok (record {
        winner = claim.0;
        acks = claim_acks (next_claim_index cursors key (length claims)).0 0 claims;
        cursors = (next_claim_index cursors key (length claims)).1;
      })
unfolding select_winner
select_winner_at cursors key claims claim e = rw e refl

select_winner-none :
    (cursors : Cursors) (key : Str) (claims : List Claimant)
    → get_elem? claims (next_claim_index cursors key (length claims)).0 ≡ none
    → select_winner cursors key claims ≡ err index_out_of_range
unfolding select_winner
select_winner-none cursors key claims e = rw e refl

-- From any state of the cursors, where the connections of a route get the same claims, each claim wins
-- one of them within as many connections as there are claims.
pub every_claimant_wins :
    (cursors : Cursors) (key : Str) (claims : List Claimant) (claim : Claimant)
    → In claim claims
    → (turns : ℕ) × (turns < length claims)
      × ((s : Selection) × (select_winner (after_turns cursors key (length claims) turns) key claims
            ≡ ok s)
          × (s.winner ≡ claim.0)
          × (s.cursors ≡ after_turns cursors key (length claims) (suc turns)))
unfolding after_turns
every_claimant_wins cursors key claims claim i =
    let (j, b, e) = In-get_elem? claims i in
    let (turns, c, t) = every_index_turns cursors key (length claims) j b in
    (
      turns,
      c,
      (
        _,
        select_winner_at (after_turns cursors key (length claims) turns) key claims claim
            (ap (get_elem? claims) t ∙ e),
        refl,
        refl,
      ),
    )

abbrev pub accepts : Str × ConnectionClaimAck → Bool
accepts (subject, ack) = ack.accepted

accepts-onto :
    (reply : Option Str) (c : ConnectionClaim) (t : Bool) (acks : List (Str × ConnectionClaimAck))
    → filter accepts acks ≡ []
    → filter accepts (onto reply (ack_of t c) acks)
      ≡ (if t then onto reply (ack_of true c) [] else [])
accepts-onto none c true acks h = h
accepts-onto none c false acks h = h
accepts-onto (some subject) c true acks h = ap (◌∷◌ (subject, ack_of true c)) h
accepts-onto (some subject) c false acks h = h

accepts-onto_refused :
    (reply : Option Str) (c : ConnectionClaim) (acks : List (Str × ConnectionClaimAck))
    → filter accepts (onto reply (ack_of false c) acks) ≡ filter accepts acks
accepts-onto_refused none c acks = refl
accepts-onto_refused (some subject) c acks = refl

accepts_none :
    (w i : ℕ) (claims : List Claimant) → w < i → filter accepts (claim_acks w i claims) ≡ []
unfolding claim_acks
accepts_none w i [] h = refl
accepts_none w i ((c, reply) ∷ claims) h =
    let e : (i == w) ≡ false = ground arith in
    rw e (
      accepts-onto_refused reply c (claim_acks w (suc i) claims)
      ∙ accepts_none w (suc i) claims (omega arith))

accepts_one :
    (k i : ℕ) (claims : List Claimant) (c : Claimant)
    → get_elem? claims k ≡ some c
    → filter accepts (claim_acks (i + k) i claims) ≡ onto c.1 (ack_of true c.0) []
unfolding claim_acks
accepts_one k i [] c h = cc
accepts_one zero i ((d, reply) ∷ claims) c h =
    let e : (i == i + 0) ≡ true = ground arith in
    let same : (d, reply) ≡ c = cc in
    rw e (
      accepts-onto reply d true (claim_acks (i + 0) (suc i) claims)
        (accepts_none (i + 0) (suc i) claims (omega arith))
      ∙ ap (λ t. onto t.1 (ack_of true t.0) []) same)
accepts_one (suc k) i ((d, reply) ∷ claims) c h =
    let e : (i == i + suc k) ≡ false = ground arith in
    let further : i + suc k ≡ suc i + k = omega arith in
    rw e (
      accepts-onto_refused reply d (claim_acks (i + suc k) (suc i) claims)
      ∙ ap (λ n. filter accepts (claim_acks n (suc i) claims)) further
      ∙ accepts_one k (suc i) claims c h)

-- The winner of a selection is one of the claims, and of the acknowledgements exactly its own accepts;
-- none does where that claim named no subject for it.
pub select_winner-acks :
    (cursors : Cursors) (key : Str) (claims : List Claimant) (s : Selection)
    → select_winner cursors key claims ≡ ok s
    → (c : Claimant) × In c claims
      × (s.winner ≡ c.0)
      × (filter accepts s.acks ≡ onto c.1 (ack_of true s.winner) [])
select_winner-acks cursors key claims s h = elim (Option-cases (get_elem? claims index)) [
  | inl e ↦ cc (select_winner-none cursors key claims e)
  | inr (c, e) ↦
      let q = sym (select_winner_at cursors key claims c e) ∙ h in
      subst
        (λ s.
          (c : Claimant) × In c claims
          × (s.winner ≡ c.0)
          × (filter accepts s.acks ≡ onto c.1 (ack_of true s.winner) []))
        (ok-injective q)
        (
          c,
          get_elem?-In claims index e,
          refl,
          ap (λ n. filter accepts (claim_acks n 0 claims)) (omega arith)
              ∙ accepts_one index 0 claims c e,
        )
]
  where
    index : ℕ
    index = (next_claim_index cursors key (length claims)).0
