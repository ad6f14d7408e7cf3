-- ===== src/Client/OAuth.antt =====
-- client/src/oauth.rs, and the session loop `run_oauth` of client/src/lib.rs. A Unix time is a natural number
-- of seconds; an expiry before 1970 is past as that of 0 is.
pub mod Renewal
use lfp_pipe.Base.{
  ℕ, ◌+◌, ◌-◌, ◌/◌, ◌%◌, ◌^◌, Bool, true, false, not, ◌&&◌, Option, none, some, List, [], ◌∷◌, ◌++◌,
  get_elem?, max, ltb, leb, if◌then◌else◌, Result, ok, err, ok_or, ensure, ◌>>=◌, ◌>>◌,
}
use lfp_pipe.Text.{codes}
use lfp_pipe.Text.Ascii.{Str, str_eq}
use lfp_pipe.Text.Affix.{trim_end_matches}
use lfp_pipe.Text.Split.{split, join}
use lfp_pipe.Text.White.{is_empty, is_blank, trim}
use lfp_pipe.Config.Client.{ClientConfig, ClientOAuthConfig}

pub record OAuthTicket : Type 0 where
  pub token : Str
  pub expires_unix : ℕ
  pub client_id : Str
  pub request_subject : Str
  pub nats_urls : List Str

pub record TicketResponse : Type 0 where
  pub token : Str
  pub expires_unix : Option ℕ
  pub client_id : Str
  pub request_subject : Str
  pub nats_urls : List Str

pub record TicketRequest : Type 0 where
  pub hostname : Str
  pub client_name : Str

pub data OAuthError : Type 0 where
  no_secret empty_secret refused_token empty_token refused_ticket not_a_jwt bad_payload : OAuthError
  empty_ticket no_endpoints : OAuthError

-- The file of the secret, the two services with the crates that read their answers, and the decoders of a
-- token. `post_form` gives the access token of a success, `post_ticket` the ticket response of one.
pub record Services : Type 0 where
  pub read_to_string : Str → Option Str
  pub post_form : Str → List (Str × Str) → Option Str
  pub post_ticket : Str → Str → TicketRequest → Option TicketResponse
  pub decode : Str → Option Str
  pub exp_of : Str → Option ℕ

module _ (s : Services) where
  unfoldable pub obtain_access_token : Str → Str → Str → Str → List Str → Result OAuthError Str
  obtain_access_token token_url provider_client_id username client_secret_file scopes = do
    secret ← ok_or (s.read_to_string client_secret_file) no_secret
    ensure (not (is_blank secret)) empty_secret
    access ←
        ok_or
          (s.post_form token_url (
            (codes "grant_type", codes "client_credentials")
            ∷ (codes "client_id", provider_client_id)
            ∷ (codes "username", username)
            ∷ (codes "password", trim secret)
            ∷ (codes "scope", join (codes " ") scopes)
            ∷ []))
          refused_token
    ensure (not (is_empty access)) empty_token
    ok access

  unfoldable pub jwt_expiry : Str → Result OAuthError ℕ
  jwt_expiry token = do
    payload ← ok_or (get_elem? (split b'.' token) 1) not_a_jwt
    decoded ← ok_or (s.decode payload) bad_payload
    ok_or (s.exp_of decoded) bad_payload

  abbrev expiry_of : Str → Option ℕ → Result OAuthError ℕ
  expiry_of token none = jwt_expiry token
  expiry_of token (some expiry) = ok expiry

  -- The ticket of a response, and its two checks.
  unfoldable pub ticket_of : TicketResponse → Result OAuthError OAuthTicket
  ticket_of response = do
    expires_unix ← expiry_of response.token response.expires_unix
    ensure (not (is_empty response.token)) empty_ticket
    ensure (not (is_empty response.nats_urls)) no_endpoints
    ok (record {
      token = response.token;
      expires_unix = expires_unix;
      client_id = response.client_id;
      request_subject = response.request_subject;
      nats_urls = response.nats_urls;
    })

  -- The request for a ticket.
  unfoldable pub ticket_response : ClientOAuthConfig → Str → Str → Option TicketResponse
  ticket_response config client_name access_token =
      s.post_ticket (trim_end_matches b'/' config.control_plane_url ++ codes "/api/tunnel-tokens")
        access_token (record { hostname = config.hostname; client_name = client_name })

  unfoldable pub obtain_ticket : ClientOAuthConfig → Str → Result OAuthError OAuthTicket
  obtain_ticket config client_name = do
    access_token ←
        obtain_access_token config.token_url config.provider_client_id config.username
          config.client_secret_file config.scopes
    response ← ok_or (ticket_response config client_name access_token) refused_ticket
    ticket_of response

-- The sum and the difference wrap around as those of `u64` do.
unfoldable pub renew_after_of : ℕ → ℕ → ℕ
renew_after_of lifetime renew_before =
    if ltb ((renew_before + 5) % 2 ^ 64) lifetime
    then (lifetime + 2 ^ 64 - renew_before) % 2 ^ 64
    else max (lifetime / 2) 1

-- What a round of the loop comes to: a wait in seconds before the next one, the end of the session, a
-- session on an endpoint with the time after which it is renewed, or the panic of an index out of range.
pub data Round : Type 0 where
  retry : ℕ → Round
  stop : Round
  connect : Str → Str → Str → ℕ → Round
  panic : Round

abbrev pub on_endpoint : OAuthTicket → ℕ → Option Str → Round
on_endpoint ticket renew_after none = panic
on_endpoint ticket renew_after (some url) =
    connect url ticket.token ticket.request_subject renew_after

unfoldable pub oauth_round : Str → ClientOAuthConfig → Result OAuthError OAuthTicket → ℕ → Round
oauth_round client_id config (err e) now = retry 10
oauth_round client_id config (ok ticket) now =
    if not (str_eq ticket.client_id client_id)
    then stop
    else if leb ticket.expires_unix now
    then retry 5
    else on_endpoint ticket (renew_after_of (ticket.expires_unix - now) config.renew_before_seconds)
        (get_elem? ticket.nats_urls 0)
