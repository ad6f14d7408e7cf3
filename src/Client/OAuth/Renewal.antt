-- ===== src/Client/OAuth/Renewal.antt =====
-- The renewal of a ticket (client/src/oauth.rs and `run_oauth` of client/src/lib.rs).
use lfp_pipe.Base.{
  ℕ, ◌+◌, ◌-◌, ◌^◌, ◌≤◌, ◌<◌, ◌≡◌, ◌≢◌, refl, sym, ap, subst, ◌∙◌, true, not, Option, none, some,
  List, [], ◌∷◌, get_elem?, leb, arith, Bool-cases, inl, inr, ok, ok_or, bind-eq-ok, ensure-eq-ok,
  ok-injective, Result-cases,
}
use lfp_pipe.Text.Ascii.{Str, str_eq, str_eq_sound}
use lfp_pipe.Text.White.{is_empty}
use lfp_pipe.Config.Client.{ClientOAuthConfig}
use lfp_pipe.Client.OAuth.{
  OAuthTicket, TicketResponse, Services, obtain_access_token, ticket_of, obtain_ticket,
  renew_after_of, connect, panic, on_endpoint, oauth_round, empty_ticket, no_endpoints,
  refused_ticket, expiry_of, ticket_response,
}

-- A ticket is renewed after a second at least and before it expires, and with the margin of the
-- configuration where its lifetime is longer than that margin by more than 5 seconds.
renew_after_of-bounds :
    (lifetime renew_before : ℕ)
    → 0 < lifetime
    → lifetime < 2 ^ 63
    → renew_before < 2 ^ 63
    → (0 < renew_after_of lifetime renew_before)
      × (renew_after_of lifetime renew_before ≤ lifetime)
      × (renew_before + 5 < lifetime
          → renew_after_of lifetime renew_before + renew_before ≡ lifetime)
unfolding renew_after_of
renew_after_of-bounds lifetime renew_before p l r = (ground arith, ground arith, λ q. ground arith)

-- A session is renewed strictly after it starts and no later than its ticket expires.
pub record IsSession (client_id : Str) (ticket : OAuthTicket) (now : ℕ) (url token subject : Str)
    (after : ℕ) : Type 0 where
  pub same_client : ticket.client_id ≡ client_id
  pub endpoint : get_elem? ticket.nats_urls 0 ≡ some url
  pub same_token : ticket.token ≡ token
  pub same_subject : ticket.request_subject ≡ subject
  pub positive : 0 < after
  pub in_time : now + after ≤ ticket.expires_unix

on_endpoint-connect :
    (ticket : OAuthTicket) (n : ℕ) (o : Option Str) (url token subject : Str) (after : ℕ)
    → on_endpoint ticket n o ≡ connect url token subject after
    → (o ≡ some url) × (ticket.token ≡ token) × (ticket.request_subject ≡ subject) × (n ≡ after)
on_endpoint-connect ticket n none url token subject after e = cc
on_endpoint-connect ticket n (some x) url token subject after e = (cc, cc, cc, cc)

-- A round connects only with a ticket for this client, on the first of its endpoints, and plans the renewal
-- after a second at least and no later than the ticket expires. The conditions are that the expiry of the
-- ticket and the renewal margin of the configuration, both in seconds, are below 2^63.
pub oauth_round-IsSession :
    (client_id : Str) (config : ClientOAuthConfig) (ticket : OAuthTicket) (now : ℕ)
    (url token subject : Str) (after : ℕ)
    → ticket.expires_unix < 2 ^ 63
    → config.renew_before_seconds < 2 ^ 63
    → oauth_round client_id config (ok ticket) now ≡ connect url token subject after
    → IsSession client_id ticket now url token subject after
unfolding oauth_round
oauth_round-IsSession client_id config ticket now url token subject after x r e =
    elim (Bool-cases (str_eq ticket.client_id client_id)) [
      | inl s ↦ elim (Bool-cases (leb ticket.expires_unix now)) [
        | inl t ↦ cc (rw (s, t) at e)
        | inr f ↦
            let (o, k, j, n) =
              on_endpoint-connect ticket
                (renew_after_of (ticket.expires_unix - now) config.renew_before_seconds)
                (get_elem? ticket.nats_urls 0) url token subject after (rw (s, f) at e) in
            let life : now < ticket.expires_unix = ground arith in
            let (p, q, m) =
              renew_after_of-bounds (ticket.expires_unix - now) config.renew_before_seconds
                (omega arith) (omega arith) r in
            record {
              same_client = str_eq_sound ticket.client_id client_id s;
              endpoint = o;
              same_token = k;
              same_subject = j;
              positive = omega (arith, p, n);
              in_time = omega (arith, q, n, life);
            }
      ]
      | inr f ↦ cc (rw f at e)
    ]

some_first : (xs : List Str) → not (is_empty xs) ≡ true → (x : Str) × (get_elem? xs 0 ≡ some x)
some_first [] e = cc
some_first (x ∷ xs) e = (x, refl)

module _ (s : Services) where
  ticket_of-endpoints :
      (response : TicketResponse) (ticket : OAuthTicket)
      → ticket_of s response ≡ ok ticket
      → (x : Str) × (get_elem? ticket.nats_urls 0 ≡ some x)
  unfolding ticket_of
  ticket_of-endpoints response ticket h =
      let (expires_unix, e, h1) =
        bind-eq-ok (expiry_of s response.token response.expires_unix) _ h in
      let (t, h2) = ensure-eq-ok (not (is_empty response.token)) empty_ticket _ h1 in
      let (n, h3) = ensure-eq-ok (not (is_empty response.nats_urls)) no_endpoints _ h2 in
      subst (λ k. (x : Str) × (get_elem? k.nats_urls 0 ≡ some x)) (ok-injective h3)
        (some_first response.nats_urls n)

  obtain_ticket-endpoints :
      (config : ClientOAuthConfig) (client_name : Str) (ticket : OAuthTicket)
      → obtain_ticket s config client_name ≡ ok ticket
      → (x : Str) × (get_elem? ticket.nats_urls 0 ≡ some x)
  unfolding obtain_ticket
  obtain_ticket-endpoints config client_name ticket h =
      let (access, a, h1) =
        bind-eq-ok
          (obtain_access_token s config.token_url config.provider_client_id config.username
            config.client_secret_file config.scopes)
          _ h in
      let (response, r, h2) =
        bind-eq-ok (ok_or (ticket_response s config client_name access) refused_ticket) _ h1 in
      ticket_of-endpoints response ticket h2

  connects :
      (client_id : Str) (config : ClientOAuthConfig) (ticket : OAuthTicket) (now : ℕ) (x : Str)
      → get_elem? ticket.nats_urls 0 ≡ some x
      → oauth_round client_id config (ok ticket) now ≢ panic
  unfolding oauth_round
  connects client_id config ticket now x o e =
      elim (Bool-cases (str_eq ticket.client_id client_id)) [
        | inl t ↦ elim (Bool-cases (leb ticket.expires_unix now)) [
          | inl l ↦ cc (rw (t, l) at e)
          | inr f ↦ cc (rw (t, f, o) at e)
        ]
        | inr f ↦ cc (rw f at e)
      ]

  -- Whatever the services answer, the loop never takes an endpoint out of an empty list.
  oauth_round-no_panic :
      (client_id : Str) (config : ClientOAuthConfig) (now : ℕ)
      → oauth_round client_id config (obtain_ticket s config client_id) now ≢ panic
  unfolding oauth_round
  oauth_round-no_panic client_id config now e =
      elim (Result-cases (obtain_ticket s config client_id)) [
        | inl (ticket, t) ↦
            let (x, o) = obtain_ticket-endpoints config client_id ticket t in
            connects client_id config ticket now x o
              (ap (λ r. oauth_round client_id config r now) (sym t) ∙ e)
        | inr (f, t) ↦ cc (rw t at e)
      ]
