-- ===== src/Ingress/Claims/Wait.antt =====
-- The whole of `broadcast_and_wait_for_claim` (ingress/src/lib.rs).
use lfp_pipe.Base.{
  ℕ, suc, ◌%◌, ◌<◌, ◌≡◌, refl, sym, ap, subst, ◌∙◌, Option, List, [], ◌∷◌, arith, length, In, leb,
  Bool-cases, inl, inr, ok, ok_or, bind-eq-ok, ensure-eq-ok, ok-injective,
}
use native.Mathlib.Nat.{mod-lt}
use lfp_pipe.Text.Ascii.{str_leb, Str, str_eq, str_eq_sound}
use lfp_pipe.Config.Ingress.{IngressConfig, ingress_callback_addr}
use lfp_pipe.Ingress.Claims.{
  ConnectionClaim, Message, Claimant, Cursors, cursor_of, next_claim_index, Selection,
  select_winner, validate_claims, insert_claim, sort_claims, collect_claims, claim_subject,
  route_key_of, wait_for_claim, Caller, Exchange, connection_request,
}
use lfp_pipe.Ingress.Claims.Winner.{get_elem?-some, get_elem?-In, select_winner_at}

length-insert_claim :
    (c : Claimant) (cs : List Claimant) → length (insert_claim c cs) ≡ suc (length cs)
unfolding insert_claim
length-insert_claim c [] = refl
length-insert_claim c (d ∷ cs) = elim (Bool-cases (str_leb (c.0).client_id (d.0).client_id)) [
  | inl e ↦ rw e refl
  | inr e ↦ rw e (ap suc (length-insert_claim c cs))
]

length-sort_claims : (cs : List Claimant) → length (sort_claims cs) ≡ length cs
unfolding sort_claims
length-sort_claims [] = refl
length-sort_claims (c ∷ cs) =
    length-insert_claim c (sort_claims cs) ∙ ap suc (length-sort_claims cs)

In-insert_claim : (a c : Claimant) (cs : List Claimant) → In a (insert_claim c cs) → In a (c ∷ cs)
unfolding insert_claim
In-insert_claim a c [] i = i
In-insert_claim a c (d ∷ cs) i = elim (Bool-cases (str_leb (c.0).client_id (d.0).client_id)) [
  | inl e ↦ rw e at i
  | inr e ↦ elim (rw e at i) [
    | inl f ↦ inr (inl f)
    | inr j ↦ elim (In-insert_claim a c cs j) [ inl f ↦ inl f | inr k ↦ inr (inr k) ]
  ]
]

pub In-sort_claims : (a : Claimant) (cs : List Claimant) → In a (sort_claims cs) → In a cs
unfolding sort_claims
In-sort_claims a [] i = i
In-sort_claims a (c ∷ cs) i = elim (In-insert_claim a c (sort_claims cs) i) [
  | inl e ↦ inl e
  | inr j ↦ inr (In-sort_claims a cs j)
]

module _ (decode_json : Str → Option ConnectionClaim) (connection_id : Str) where
  length-validate_claims :
      (messages : List Message) (valid : List Claimant)
      → validate_claims decode_json connection_id messages ≡ ok valid
      → length valid ≡ length messages
  unfolding validate_claims
  length-validate_claims [] valid h = ap length (sym (ok-injective h))
  length-validate_claims (m ∷ ms) valid h =
      let (claim, d, h1) = bind-eq-ok (ok_or (decode_json m.payload) _) _ h in
      let (same, h2) = ensure-eq-ok (str_eq claim.connection_id connection_id) _ _ h1 in
      let (rest, e, h3) = bind-eq-ok (validate_claims decode_json connection_id ms) _ h2 in
      ap length (sym (ok-injective h3)) ∙ ap suc (length-validate_claims ms rest e)

  pub validate_claims-id :
      (messages : List Message) (valid : List Claimant) (c : Claimant)
      → validate_claims decode_json connection_id messages ≡ ok valid
      → In c valid
      → (c.0).connection_id ≡ connection_id
  unfolding validate_claims
  validate_claims-id [] valid c h i = elim (subst (In c) (sym (ok-injective h)) i) [ ]
  validate_claims-id (m ∷ ms) valid c h i =
      let (claim, d, h1) = bind-eq-ok (ok_or (decode_json m.payload) _) _ h in
      let (same, h2) = ensure-eq-ok (str_eq claim.connection_id connection_id) _ _ h1 in
      let (rest, e, h3) = bind-eq-ok (validate_claims decode_json connection_id ms) _ h2 in
      elim (subst (In c) (sym (ok-injective h3)) i) [
        | inl f ↦
            ap (λ c. (c.0).connection_id) f ∙ str_eq_sound claim.connection_id connection_id same
        | inr j ↦ validate_claims-id ms rest c e j
      ]

collect_claims-some :
    (timeout : ℕ) (arrivals : List (ℕ × Message)) (messages : List Message)
    → collect_claims timeout arrivals ≡ ok messages
    → 0 < length messages
unfolding collect_claims
collect_claims-some timeout [] messages h = cc
collect_claims-some timeout ((time, m) ∷ arrivals) messages h =
    elim (Bool-cases (leb timeout time)) [
      | inl e ↦ cc (rw e at h)
      | inr e ↦ subst (λ l. 0 < length l) (ok-injective (rw e at h)) (omega arith)
    ]

module _ (decode_json : Str → Option ConnectionClaim) (config : IngressConfig) (cursors : Cursors)
    (caller : Caller) (connection_id : Str) (hostname : Option Str) (arrivals : List (ℕ × Message))
    (subject : Str) (messages : List Message) (valid : List Claimant) where
  wait_for_claim_lem :
      (s : Selection)
      → claim_subject config hostname ≡ ok subject
      → collect_claims config.claim_timeout_ms arrivals ≡ ok messages
      → validate_claims decode_json connection_id messages ≡ ok valid
      → select_winner cursors (route_key_of hostname) (sort_claims valid) ≡ ok s
      → wait_for_claim decode_json config cursors caller connection_id hostname arrivals
        ≡ ok (record {
          subject = subject;
          request = connection_request config caller connection_id hostname;
          selection = s;
        })
  unfolding wait_for_claim
  wait_for_claim_lem s p q r e = rw (p, q, r, e) refl

  -- Once the request has a subject and the messages collected are all claims for this connection, one of
  -- them wins, and the selection does not fail. The request went out on that subject with the inbox of
  -- the caller and the callback address of the ingress.
  pub wait_for_claim-selects :
      claim_subject config hostname ≡ ok subject
      → collect_claims config.claim_timeout_ms arrivals ≡ ok messages
      → validate_claims decode_json connection_id messages ≡ ok valid
      → (e : Exchange) × (wait_for_claim decode_json config cursors caller connection_id hostname
            arrivals
          ≡ ok e)
        × (e.subject ≡ subject)
        × (e.request.reply_subject ≡ caller.reply_subject)
        × (e.request.ingress_callback_addr ≡ ingress_callback_addr config)
        × (e.selection.winner.connection_id ≡ connection_id)
        × ((c : Claimant) × In c valid × (e.selection.winner ≡ c.0))
  unfolding next_claim_index connection_request
  wait_for_claim-selects p q r =
      let key : Str = route_key_of hostname in
      let sorted : List Claimant = sort_claims valid in
      let index : ℕ = cursor_of cursors key % length sorted in
      let some_claim : 0 < length sorted = omega (
        arith,
        collect_claims-some config.claim_timeout_ms arrivals messages q,
        length-validate_claims decode_json connection_id messages valid r,
        length-sort_claims valid,
      ) in
      let (c, e) = get_elem?-some sorted index (mod-lt (cursor_of cursors key) some_claim) in
      let i = In-sort_claims c valid (get_elem?-In sorted index e) in
      (
        _,
        wait_for_claim_lem _ p q r (select_winner_at cursors key sorted c e),
        refl,
        refl,
        refl,
        validate_claims-id decode_json connection_id messages valid c r i,
        (c, i, refl),
      )
