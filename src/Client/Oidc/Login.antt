-- ===== src/Client/Oidc/Login.antt =====
-- The sessions that `callback` starts and `session` finds (client/src/authorization.rs).
use lfp_pipe.Base.{
  ◌<◌, ◌≡◌, ◌∙◌, ◌∷◌, refl, ap, subst, true, not, Option, none, some, [], arith, ltb, is_some,
  Bool-cases, inl, inr, ok, ok_or, bind-eq-ok, ensure-eq-ok, ok-injective, ok_or-ok, ℕ,
}
use lfp_pipe.Text.{codes}
use lfp_pipe.Text.Ascii.{Str}
use lfp_pipe.Client.Claims.{Value, AuthenticatedIdentity}
use lfp_pipe.Client.Hyper.{HeaderMap, Uris, AuthResponse, redirect_response}
use lfp_pipe.Client.Cookies.{decrypt_cookie, encrypt_cookie, clear_cookie}
use lfp_pipe.Client.Cookies.Sealed.{IsSealed, decrypt_cookie-IsSealed}
use lfp_pipe.Client.Oidc.{
  OidcAuthorizer, OidcFlow, CoreClient, Payloads, Times, or_fail, param, decode_verified_claims,
  client, exchanged, session_identity, flow_in, code_in, callback_inner, session, unexpired,
  bad_cookie, no_flow, flow_expired, no_query, provider_error, no_state, wrong_state, no_code,
  not_sealed, bad_response,
}
use lfp_pipe.Client.Oidc.Exchanged.{
  IsClient, IsExchanged, IsPayload, IsGranted, or_fail-ok, session_identity-IsGranted,
  client-IsClient, exchanged-IsExchanged, decode_verified_claims-IsPayload,
}

not_some : {A : Type 0} (o : Option A) → not (is_some o) ≡ true → o ≡ none
not_some none e = refl
not_some (some a) e = cc

unexpired-some :
    (now : ℕ) (o : Option AuthenticatedIdentity) (i : AuthenticatedIdentity)
    → unexpired now o ≡ some i
    → (o ≡ some i) × (now < i.expires_unix)
unexpired-some now none i e = cc
unexpired-some now (some a) i e = elim (Bool-cases (ltb now a.expires_unix)) [
  | inl t ↦
      let q : some a ≡ some i = rw t at e in
      let same : a ≡ i = cc in
      let before : now < a.expires_unix = ground arith in
      (q, subst (λ a. now < a.expires_unix) same before)
  | inr f ↦ cc (rw f at e)
]

module _ {M U Tokens IdToken IdClaims : Type 0} (h : HeaderMap M) (u : Uris U)
    (json : Payloads) where
  -- What stands behind a login that is answered with a session.
  pub record IsLogin (self : OidcAuthorizer Tokens IdToken IdClaims) (uri : U) (headers : M)
      (t : Times) (response : AuthResponse M) : Type 0 where
    pub flow : OidcFlow
    pub query : Str
    pub code : Str
    pub core : CoreClient
    pub id : IdToken
    pub claims : Value
    pub identity : AuthenticatedIdentity
    pub cookie : Str
    pub sealed : IsSealed h self.cookie_key json.flow headers self.flow_cookie flow
    pub current : t.now < flow.expires_unix
    pub asked : u.query uri ≡ some query
    pub no_error : param (codes "error") (self.provider.form_urlencoded query) ≡ none
    pub same_state : param (codes "state") (self.provider.form_urlencoded query) ≡ some flow.state
    pub with_code : param (codes "code") (self.provider.form_urlencoded query) ≡ some code
    pub of_policy : IsClient self core
    pub exchange : IsExchanged self.provider core code flow id
    pub payload : IsPayload self.cookie_key json.claims (self.provider.to_string id) claims
    pub granted : IsGranted self claims t.later identity
    pub written :
        encrypt_cookie h self.cookie_key json.identity self.session_cookie identity
          self.config.oidc_session_ttl_seconds
        ≡ ok cookie
    pub answer :
        redirect_response h 303 flow.return_to (cookie ∷ clear_cookie self.flow_cookie ∷ [])
        ≡ ok response

  flow_in-ok :
      (self : OidcAuthorizer Tokens IdToken IdClaims) (headers : M) (now : ℕ) (flow : OidcFlow)
      → flow_in h u json self headers now ≡ ok flow
      → (decrypt_cookie h self.cookie_key json.flow headers self.flow_cookie ≡ ok (some flow))
        × (now < flow.expires_unix)
  unfolding flow_in
  flow_in-ok self headers now flow e =
      let d = decrypt_cookie h self.cookie_key json.flow headers self.flow_cookie in
      let (found, a, e1) = bind-eq-ok (or_fail d bad_cookie) _ e in
      let (f, b, e2) = bind-eq-ok (ok_or found no_flow) _ e1 in
      let (c, e3) = ensure-eq-ok (ltb now f.expires_unix) flow_expired _ e2 in
      subst
        (λ f.
          (decrypt_cookie h self.cookie_key json.flow headers self.flow_cookie ≡ ok (some f))
          × (now < f.expires_unix))
        (ok-injective e3) (or_fail-ok d bad_cookie a ∙ ap ok (ok_or-ok no_flow b), ground arith)

  -- The query of a callback that goes on.
  record IsAnswer (self : OidcAuthorizer Tokens IdToken IdClaims) (uri : U) (flow : OidcFlow)
      (code : Str) : Type 0 where
    query : Str
    asked : u.query uri ≡ some query
    no_error : param (codes "error") (self.provider.form_urlencoded query) ≡ none
    same_state : param (codes "state") (self.provider.form_urlencoded query) ≡ some flow.state
    with_code : param (codes "code") (self.provider.form_urlencoded query) ≡ some code

  code_in-IsAnswer :
      (self : OidcAuthorizer Tokens IdToken IdClaims) (uri : U) (flow : OidcFlow) (code : Str)
      → code_in h u json self uri flow ≡ ok code
      → IsAnswer self uri flow code
  unfolding code_in
  code_in-IsAnswer self uri flow code e =
      let p = self.provider in
      let (query, q, e1) = bind-eq-ok (ok_or (u.query uri) no_query) _ e in
      let params = p.form_urlencoded query in
      let (n, e2) =
        ensure-eq-ok (not (is_some (param (codes "error") params))) provider_error _ e1 in
      let (state, s, e3) = bind-eq-ok (ok_or (param (codes "state") params) no_state) _ e2 in
      let (c, e4) = ensure-eq-ok (p.constant_time_eq state flow.state) wrong_state _ e3 in
      record {
        query = query;
        asked = ok_or-ok no_query q;
        no_error = not_some (param (codes "error") params) n;
        same_state = ok_or-ok no_state s ∙ ap some ((p.constant_time_eq_iff state flow.state).0 c);
        with_code = ok_or-ok no_code e4;
      }

  -- A callback is answered with a session only if the request carries the encrypted cookie of a flow that
  -- has not expired, its query repeats the state of that flow and holds a code and no error, and the provider
  -- exchanges the code, for the client of the policy and with the verifier of the flow, for tokens with an ID
  -- token that is verified with the nonce of the flow and states no hash of the access token but the right
  -- one. The claims in that token hold the roles that the policy requires. The answer returns to the target
  -- of the flow, with the session in a cookie.
  pub callback_inner-IsLogin :
      (self : OidcAuthorizer Tokens IdToken IdClaims) (uri : U) (headers : M) (t : Times)
      (response : AuthResponse M)
      → callback_inner h u json self uri headers t ≡ ok response
      → IsLogin self uri headers t response
  unfolding callback_inner
  callback_inner-IsLogin self uri headers t response e =
      let (flow, f, e1) = bind-eq-ok (flow_in h u json self headers t.now) _ e in
      let (code, c, e2) = bind-eq-ok (code_in h u json self uri flow) _ e1 in
      let (core, k, e3) = bind-eq-ok (client self) _ e2 in
      let (id, x, e4) = bind-eq-ok (exchanged self.provider core code flow) _ e3 in
      let (claims, p, e5) =
        bind-eq-ok (decode_verified_claims self.cookie_key json.claims (self.provider.to_string id))
          _ e4 in
      let (identity, i, e6) = bind-eq-ok (session_identity self claims t.later) _ e5 in
      let sealing =
        encrypt_cookie h self.cookie_key json.identity self.session_cookie identity
          self.config.oidc_session_ttl_seconds in
      let (cookie, w, e7) = bind-eq-ok (or_fail sealing not_sealed) _ e6 in
      let (sealed, current) = flow_in-ok self headers t.now flow f in
      let answer = code_in-IsAnswer self uri flow code c in
      record {
        flow = flow;
        query = answer.query;
        code = code;
        core = core;
        id = id;
        claims = claims;
        identity = identity;
        cookie = cookie;
        sealed =
            decrypt_cookie-IsSealed h self.cookie_key json.flow headers self.flow_cookie flow
              sealed;
        current = current;
        asked = answer.asked;
        no_error = answer.no_error;
        same_state = answer.same_state;
        with_code = answer.with_code;
        of_policy = client-IsClient self core k;
        exchange = exchanged-IsExchanged self core code flow id x;
        payload =
            decode_verified_claims-IsPayload self.cookie_key json.claims
              (self.provider.to_string id) claims p;
        granted = session_identity-IsGranted self claims t.later identity i;
        written = or_fail-ok sealing not_sealed w;
        answer = or_fail-ok (redirect_response h 303 flow.return_to _) bad_response e7;
      }

  -- A session that is found is the content of the encrypted cookie, and has not expired.
  pub session-some :
      (self : OidcAuthorizer Tokens IdToken IdClaims) (headers : M) (now : ℕ)
      (i : AuthenticatedIdentity)
      → session h u json self headers now ≡ ok (some i)
      → IsSealed h self.cookie_key json.identity headers self.session_cookie i
        × (now < i.expires_unix)
  unfolding session
  session-some self headers now i e =
      let d = decrypt_cookie h self.cookie_key json.identity headers self.session_cookie in
      let (found, a, e1) = bind-eq-ok (or_fail d bad_cookie) _ e in
      let (b, c) = unexpired-some now found i (ok-injective e1) in
      (
        decrypt_cookie-IsSealed h self.cookie_key json.identity headers self.session_cookie i
            (or_fail-ok d bad_cookie a ∙ ap ok b),
        c,
      )
