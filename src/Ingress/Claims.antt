-- ===== src/Ingress/Claims.antt =====
-- `broadcast_and_wait_for_claim` and `next_claim_index` (ingress/src/lib.rs), with the messages of
-- shared/src/protocol.rs: who may call back for a connection.
pub mod Winner
pub mod Turns
pub mod Wait
use lfp_pipe.Base.{
  ℕ, suc, ◌+◌, ◌%◌, Bool, true, false, not, ◌&&◌, ◌||◌, ◌==◌, leb, ltb, min, Option, none, some,
  List, [], ◌∷◌, get_elem?, length, if◌then◌else◌, Result, ok, err, ok_or, ensure, ◌>>=◌, ◌>>◌,
}
use lfp_pipe.Text.{codes}
use lfp_pipe.Text.Ascii.{str_leb, Str, str_eq, to_ascii_lowercase}
use lfp_pipe.Config.Ingress.{IngressConfig, ingress_callback_addr}
use lfp_pipe.Routing.Subject.{hostname_request_subject}

pub record ConnectionClaim : Type 0 where
  pub client_id : Str
  pub connection_id : Str

pub record ConnectionClaimAck : Type 0 where
  pub accepted : Bool
  pub client_id : Str
  pub connection_id : Str
  pub reason : Option Str

-- A message of the claim inbox.
pub record Message : Type 0 where
  pub payload : Str
  pub reply : Option Str

pub data ClaimError : Type 0 where
  no_hostname bad_hostname no_claim bad_claim id_mismatch index_out_of_range : ClaimError

-- The subject that the request goes out on.
unfoldable pub claim_subject : IngressConfig → Option Str → Result ClaimError Str
claim_subject config hostname =
    if config.domain_subject_routing
    then (do
      name ← ok_or hostname no_hostname
      ok_or (hostname_request_subject config.request_subject name) bad_hostname)
    else ok config.request_subject

-- The messages that come before the deadline, each with the time of its arrival in milliseconds after
-- the request.
unfoldable pub collect_until : ℕ → List (ℕ × Message) → List Message
collect_until deadline [] = []
collect_until deadline ((time, message) ∷ arrivals) =
    let rest = collect_until deadline arrivals in if leb deadline time then [] else message ∷ rest

-- The first claim has the whole timeout; those behind it have at most 100 milliseconds more.
unfoldable pub collect_claims : ℕ → List (ℕ × Message) → Result ClaimError (List Message)
collect_claims claim_timeout_ms [] = err no_claim
collect_claims claim_timeout_ms ((time, message) ∷ arrivals) =
    if leb claim_timeout_ms time
    then err no_claim
    else ok (message ∷ collect_until (time + min claim_timeout_ms 100) arrivals)

-- A claim with the subject its acknowledgement goes to.
abbrev pub Claimant : Type 0
Claimant = ConnectionClaim × Option Str

unfoldable pub validate_claims :
    (Str → Option ConnectionClaim) → Str → List Message → Result ClaimError (List Claimant)
validate_claims decode_json connection_id [] = ok []
validate_claims decode_json connection_id (message ∷ messages) = do
  claim ← ok_or (decode_json message.payload) bad_claim
  ensure (str_eq claim.connection_id connection_id) id_mismatch
  valid_claims ← validate_claims decode_json connection_id messages
  ok ((claim, message.reply) ∷ valid_claims)

unfoldable pub insert_claim : Claimant → List Claimant → List Claimant
insert_claim claim [] = claim ∷ []
insert_claim claim (other ∷ claims) =
    let rest = insert_claim claim claims in
    if str_leb (claim.0).client_id (other.0).client_id then claim ∷ other ∷ claims else other ∷ rest

-- `valid_claims.sort_by(..)`, which is stable.
unfoldable pub sort_claims : List Claimant → List Claimant
unfolding insert_claim
sort_claims [] = []
sort_claims (claim ∷ claims) = insert_claim claim (sort_claims claims)

-- `route_claim_cursor`.
abbrev pub Cursors : Type 0
Cursors = List (Str × ℕ)

-- `cursors.entry(key).or_insert(0)`, and the assignment through it.
unfoldable pub cursor_of : Cursors → Str → ℕ
cursor_of [] key = 0
cursor_of ((k, n) ∷ cursors) key = if str_eq k key then n else cursor_of cursors key

unfoldable pub set_cursor : Cursors → Str → ℕ → Cursors
set_cursor [] key value = (key, value) ∷ []
set_cursor ((k, n) ∷ cursors) key value =
    let rest = set_cursor cursors key value in
    if str_eq k key then (k, value) ∷ cursors else (k, n) ∷ rest

unfoldable pub next_claim_index : Cursors → Str → ℕ → ℕ × Cursors
next_claim_index cursors route_key claim_count = (
  cursor_of cursors route_key % claim_count,
  set_cursor cursors route_key ((cursor_of cursors route_key + 1) % claim_count),
)

abbrev pub ack_of : Bool → ConnectionClaim → ConnectionClaimAck
ack_of accepted claim = record {
  accepted = accepted;
  client_id = claim.client_id;
  connection_id = claim.connection_id;
  reason = if accepted then none else some (codes "another client won round-robin selection");
}

abbrev pub onto :
    Option Str
    → ConnectionClaimAck
    → List (Str × ConnectionClaimAck)
    → List (Str × ConnectionClaimAck)
onto none ack acks = acks
onto (some subject) ack acks = (subject, ack) ∷ acks

-- The acknowledgements to publish, from the claim of this index on.
unfoldable pub claim_acks : ℕ → ℕ → List Claimant → List (Str × ConnectionClaimAck)
claim_acks winner_index index [] = []
claim_acks winner_index index ((claim, reply) ∷ claims) =
    onto reply (ack_of (index == winner_index) claim) (claim_acks winner_index (suc index) claims)

abbrev pub route_key_of : Option Str → Str
route_key_of none = codes "<default>"
route_key_of (some hostname) = to_ascii_lowercase hostname

-- What a selection ends with: the winner, the acknowledgements in their order, and the cursors.
pub record Selection : Type 0 where
  pub winner : ConnectionClaim
  pub acks : List (Str × ConnectionClaimAck)
  pub cursors : Cursors

-- The selection among valid claims, sorted. Indexing behind the list would panic.
unfoldable pub select_winner : Cursors → Str → List Claimant → Result ClaimError Selection
select_winner cursors route_key valid_claims = do
  let (winner_index, after) = next_claim_index cursors route_key (length valid_claims)
  winner ← ok_or (get_elem? valid_claims winner_index) index_out_of_range
  ok (record { winner = winner.0; acks = claim_acks winner_index 0 valid_claims; cursors = after })

-- What the ingress announces on the request subject.
pub record ConnectionRequest : Type 0 where
  pub connection_id : Str
  pub hostname : Option Str
  pub client_ip : Option Str
  pub tls : Bool
  pub reply_subject : Str
  pub ingress_callback_addr : Str
  pub deadline_unix_ms : ℕ

-- What the caller and the NATS client bring: the peer, the inbox and the time.
pub record Caller : Type 0 where
  pub client_ip : Str
  pub tls : Bool
  pub reply_subject : Str
  pub unix_time_ms : ℕ

unfoldable pub connection_request : IngressConfig → Caller → Str → Option Str → ConnectionRequest
connection_request config caller connection_id hostname = record {
  connection_id = connection_id;
  hostname = hostname;
  client_ip = some caller.client_ip;
  tls = caller.tls;
  reply_subject = caller.reply_subject;
  ingress_callback_addr = ingress_callback_addr config;
  deadline_unix_ms = caller.unix_time_ms + config.claim_timeout_ms;
}

-- What is published: the request with its subject, and the acknowledgements with theirs.
pub record Exchange : Type 0 where
  pub subject : Str
  pub request : ConnectionRequest
  pub selection : Selection

-- The whole function over a NATS client that is up and publishes: `arrivals` are what its inbox gets.
unfoldable pub wait_for_claim :
    (Str → Option ConnectionClaim)
    → IngressConfig
    → Cursors
    → Caller
    → Str
    → Option Str
    → List (ℕ × Message)
    → Result ClaimError Exchange
wait_for_claim decode_json config cursors caller connection_id hostname arrivals = do
  let request = connection_request config caller connection_id hostname
  subject ← claim_subject config hostname
  messages ← collect_claims config.claim_timeout_ms arrivals
  valid_claims ← validate_claims decode_json connection_id messages
  selection ← select_winner cursors (route_key_of hostname) (sort_claims valid_claims)
  ok (record { subject = subject; request = request; selection = selection })
