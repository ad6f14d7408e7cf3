-- ===== src/Ingress/Accept/Admitted.antt =====
-- What `handle_ingress` (ingress/src/lib.rs) leaves behind a public connection.
use lfp_pipe.Base.{
  ℕ, ◌+◌, ◌≤◌, ◌≡◌, refl, sym, ap, subst, ◌∙◌, Option, none, some, List, [], ◌∷◌, ◌++◌, length,
  ◌||◌, Result, ok, err, In, inl, inr, leb, Bool-cases, Option-cases, ok_or, ok_or-ok, bind-eq-ok,
  ensure-eq-ok, ok-injective, find-some,
}
use lfp_pipe.Text.Ascii.{Str, str_eq, str_eq_refl, eq_ignore_ascii_case}
use lfp_pipe.Text.White.{is_empty}
use lfp_pipe.Config.Ingress.{IngressConfig, SniPassthroughRoute}
use lfp_pipe.Ingress.Detect.{SniParser, DetectError, Detected, detect_hostname, max_preface_bytes}
use lfp_pipe.Ingress.Detect.Fragments.{detect_hostname-preface}
use lfp_pipe.Ingress.Claims.{
  ConnectionClaim, Message, Claimant, ClaimError, Cursors, Caller, Exchange, collect_until,
  collect_claims, claim_subject, validate_claims, select_winner, sort_claims, route_key_of,
  wait_for_claim,
}
use lfp_pipe.Ingress.Claims.Winner.{select_winner-acks}
use lfp_pipe.Ingress.Claims.Wait.{In-sort_claims, validate_claims-id}
use lfp_pipe.Ingress.Pending.{
  PendingConnection, pending_get, pending_insert, register_pending, select_sni_passthrough,
}
use lfp_pipe.Ingress.Accept.{
  AppState, Arrival, Admission, passes, waits, same_detect, same_claim, caller_of, by_route,
  handle_ingress,
}

same_detect-ok : (m : Result DetectError Detected) (d : Detected) → same_detect m ≡ ok d → m ≡ ok d
same_detect-ok (ok x) d e = cc
same_detect-ok (err x) d e = cc

same_claim-ok : (m : Result ClaimError Exchange) (x : Exchange) → same_claim m ≡ ok x → m ≡ ok x
same_claim-ok (ok y) x e = cc
same_claim-ok (err y) x e = cc

In-collect_until :
    (deadline : ℕ) (arrivals : List (ℕ × Message)) (m : Message)
    → In m (collect_until deadline arrivals)
    → (time : ℕ) × In (time, m) arrivals
unfolding collect_until
In-collect_until deadline [] m i = elim i [ ]
In-collect_until deadline ((time, message) ∷ arrivals) m i = elim (Bool-cases (leb deadline time)) [
  | inl e ↦ elim (rw e at i) [ ]
  | inr e ↦ elim (rw e at i) [
    | inl f ↦ (time, inl (ap (λ m. (time, m)) f))
    | inr j ↦ let (t, k) = In-collect_until deadline arrivals m j in (t, inr k)
  ]
]

In-collect_claims :
    (timeout : ℕ) (arrivals : List (ℕ × Message)) (messages : List Message) (m : Message)
    → collect_claims timeout arrivals ≡ ok messages
    → In m messages
    → (time : ℕ) × In (time, m) arrivals
unfolding collect_claims
In-collect_claims timeout [] messages m h i = cc
In-collect_claims timeout ((time, message) ∷ arrivals) messages m h i =
    elim (Bool-cases (leb timeout time)) [
      | inl e ↦ cc (rw e at h)
      | inr e ↦ elim (subst (In m) (sym (ok-injective (rw e at h))) i) [
        | inl f ↦ (time, inl (ap (λ m. (time, m)) f))
        | inr j ↦ let (t, k) = In-collect_until _ arrivals m j in (t, inr k)
      ]
    ]

module _ (decode_json : Str → Option ConnectionClaim) (connection_id : Str) where
  validate_claims-In :
      (messages : List Message) (valid : List Claimant) (c : Claimant)
      → validate_claims decode_json connection_id messages ≡ ok valid
      → In c valid
      → (m : Message) × In m messages × (decode_json m.payload ≡ some c.0)
  unfolding validate_claims
  validate_claims-In [] valid c h i = elim (subst (In c) (sym (ok-injective h)) i) [ ]
  validate_claims-In (m ∷ ms) valid c h i =
      let (claim, d, h1) = bind-eq-ok (ok_or (decode_json m.payload) _) _ h in
      let (same, h2) = ensure-eq-ok (str_eq claim.connection_id connection_id) _ _ h1 in
      let (rest, e, h3) = bind-eq-ok (validate_claims decode_json connection_id ms) _ h2 in
      elim (subst (In c) (sym (ok-injective h3)) i) [
        | inl f ↦ (m, inl refl, ok_or-ok _ d ∙ ap (λ c. some c.0) (sym f))
        | inr j ↦ let (n, k, q) = validate_claims-In ms rest c e j in (n, inr k, q)
      ]

-- A claim that arrived for a connection.
pub record IsClaimed (decode_json : Str → Option ConnectionClaim) (arrivals : List (ℕ × Message))
    (connection_id : Str) (claim : ConnectionClaim) : Type 0 where
  pub named : claim.connection_id ≡ connection_id
  pub arrived :
      (time : ℕ) × (m : Message) × In (time, m) arrivals × (decode_json m.payload ≡ some claim)

wait_for_claim-IsClaimed :
    (decode_json : Str → Option ConnectionClaim) (config : IngressConfig) (cursors : Cursors)
    (caller : Caller) (connection_id : Str) (hostname : Option Str) (arrivals : List (ℕ × Message))
    (x : Exchange)
    → wait_for_claim decode_json config cursors caller connection_id hostname arrivals ≡ ok x
    → IsClaimed decode_json arrivals connection_id x.selection.winner
unfolding wait_for_claim
wait_for_claim-IsClaimed decode_json config cursors caller connection_id hostname arrivals x h =
    let (subject, s, h1) = bind-eq-ok (claim_subject config hostname) _ h in
    let (messages, a, h2) = bind-eq-ok (collect_claims config.claim_timeout_ms arrivals) _ h1 in
    let (valid, v, h3) = bind-eq-ok (validate_claims decode_json connection_id messages) _ h2 in
    let (won, w, h4) =
      bind-eq-ok (select_winner cursors (route_key_of hostname) (sort_claims valid)) _ h3 in
    let (c, i, q, acks) =
      select_winner-acks cursors (route_key_of hostname) (sort_claims valid) won w in
    let j = In-sort_claims c valid i in
    let (m, k, d) = validate_claims-In decode_json connection_id messages valid c v j in
    let (time, l) = In-collect_claims config.claim_timeout_ms arrivals messages m a k in
    let winner : x.selection.winner ≡ c.0 =
      ap (λ x. x.selection.winner) (sym (ok-injective h4)) ∙ q in
    record {
      named =
          ap (λ c. c.connection_id) winner
          ∙ validate_claims-id decode_json connection_id messages valid c v j;
      arrived = (time, m, l, d ∙ ap some (sym winner));
    }

-- What holds of a connection that is relayed to a passthrough backend, or waits in the table.
unfoldable pub IsAdmitted :
    (Str → Option ConnectionClaim)
    → IngressConfig
    → Arrival
    → Detected
    → AppState
    → Admission
    → AppState
    → Type 0
IsAdmitted decode_json config a d before (passes route preface unread) after =
    In route config.sni_passthrough_routes
    × (select_sni_passthrough config.sni_passthrough_routes d.hostname ≡ some route)
    × (preface ++ unread ≡ a.bytes)
    × (length preface ≤ max_preface_bytes)
    × (after ≡ before)
IsAdmitted decode_json config a d before (waits claim unread) after =
    (select_sni_passthrough config.sni_passthrough_routes d.hostname ≡ none)
    × IsClaimed decode_json a.claims a.connection_id claim
    × ((entry : PendingConnection) × (pending_get after.pending a.connection_id ≡ some entry)
        × (entry.ingress ≡ a.stream)
        × (entry.client_id ≡ claim.client_id)
        × (entry.expires_at ≡ a.now + config.pending_timeout_ms)
        × (entry.ingress_preface ++ unread ≡ a.bytes)
        × (length entry.ingress_preface ≤ max_preface_bytes))

select_sni_passthrough-In :
    (routes : List SniPassthroughRoute) (hostname : Option Str) (route : SniPassthroughRoute)
    → select_sni_passthrough routes hostname ≡ some route
    → In route routes
unfolding select_sni_passthrough
select_sni_passthrough-In routes none route h = cc
select_sni_passthrough-In routes (some name) route h =
    (find-some (λ r. eq_ignore_ascii_case r.hostname name) routes h).0

module _ (extract_sni : SniParser) (decode_json : Str → Option ConnectionClaim)
    (config : IngressConfig) (a : Arrival) (before after : AppState) (admission : Admission)
    (d : Detected) (whole : d.preface ++ d.unread ≡ a.bytes)
    (fits : length d.preface ≤ max_preface_bytes) where
  passes-IsAdmitted :
      (route : SniPassthroughRoute)
      → select_sni_passthrough config.sni_passthrough_routes d.hostname ≡ some route
      → by_route extract_sni decode_json config (some route) a d before ≡ ok (admission, after)
      → IsAdmitted decode_json config a d before admission after
  unfolding IsAdmitted
  passes-IsAdmitted route i h =
      let (connects, h1) = ensure-eq-ok a.connects _ _ h in
      let (writes, h2) = ensure-eq-ok a.writes _ _ h1 in
      subst (λ r. IsAdmitted decode_json config a d before r.0 r.1) (ok-injective h2)
        (
          select_sni_passthrough-In config.sni_passthrough_routes d.hostname route i,
          i,
          whole,
          fits,
          refl,
        )

  waits-IsAdmitted :
      select_sni_passthrough config.sni_passthrough_routes d.hostname ≡ none
      → by_route extract_sni decode_json config none a d before ≡ ok (admission, after)
      → IsAdmitted decode_json config a d before admission after
  unfolding IsAdmitted register_pending pending_insert pending_get
  waits-IsAdmitted n h =
      let (announced, h1) = ensure-eq-ok a.announces _ _ h in
      let (won, w, h2) =
        bind-eq-ok
          (same_claim (
            wait_for_claim decode_json config before.route_claim_cursor (caller_of a d.tls)
              a.connection_id d.hostname a.claims))
          _ h1 in
      let (acked, h3) = ensure-eq-ok (is_empty won.selection.acks || a.acknowledges) _ _ h2 in
      subst (λ r. IsAdmitted decode_json config a d before r.0 r.1) (ok-injective h3)
        (
          n,
          wait_for_claim-IsClaimed decode_json config before.route_claim_cursor (caller_of a d.tls)
              a.connection_id d.hostname a.claims won (same_claim-ok _ won w),
          (
            record {
              ingress = a.stream;
              ingress_preface = d.preface;
              client_id = won.selection.winner.client_id;
              expires_at = a.now + config.pending_timeout_ms;
            },
            rw (str_eq_refl a.connection_id) refl,
            refl,
            refl,
            refl,
            whole,
            fits,
          ),
        )

-- A public connection that `handle_ingress` accepts had its hostname detected. If a passthrough route of the
-- configuration names that host, the connection goes to the backend of that route and the table stays as it
-- is. If none does, the connection waits in the table under its id, with its own socket and its deadline,
-- for the client of a claim for that id that arrived. In both cases the bytes read first, at most 16 KiB, and
-- those still unread are all the bytes of the connection, in order.
pub handle_ingress-IsAdmitted :
    (extract_sni : SniParser) (decode_json : Str → Option ConnectionClaim) (config : IngressConfig)
    (a : Arrival) (before after : AppState) (admission : Admission)
    → handle_ingress extract_sni decode_json config a before ≡ ok (admission, after)
    → (d : Detected) × (detect_hostname extract_sni a.events [] a.bytes ≡ ok d)
      × IsAdmitted decode_json config a d before admission after
unfolding handle_ingress
handle_ingress-IsAdmitted extract_sni decode_json config a before after admission h =
    let (d, e, h1) =
      bind-eq-ok (same_detect (detect_hostname extract_sni a.events [] a.bytes)) _ h in
    let found = same_detect-ok _ d e in
    let (whole, fits) = detect_hostname-preface extract_sni a.events a.bytes d found in
    (
      d,
      found,
      elim (Option-cases (select_sni_passthrough config.sni_passthrough_routes d.hostname)) [
        | inl f ↦
            waits-IsAdmitted extract_sni decode_json config a before after admission d whole fits f
              (rw f at h1)
        | inr (route, f) ↦
            passes-IsAdmitted extract_sni decode_json config a before after admission d whole fits
              route f (rw f at h1)
      ],
    )
