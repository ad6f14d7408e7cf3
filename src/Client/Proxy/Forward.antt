-- ===== src/Client/Proxy/Forward.antt =====
-- The requests that reach a backend (client/src/http_proxy.rs).
use lfp_pipe.Base.{
  ◌≡◌, refl, ap, subst, ◌∙◌, true, false, Option, none, some, List, [], any, find, find-some,
  find-none, Option-cases, inl, inr, ok, ok_or, bind-eq-ok, ok-injective, ok_or-ok, ◌>>=◌,
}
use lfp_pipe.Text.{codes}
use lfp_pipe.Text.Ascii
use lfp_pipe.Text.Ascii.{Str}
use lfp_pipe.Client.Claims.{AuthenticatedIdentity}
use lfp_pipe.Client.Hyper.{HeaderMap, Uris, Request, AuthResponse}
use lfp_pipe.Client.Jwt.{Jwts, Trial}
use lfp_pipe.Client.Oidc.{Payloads, Times}
use lfp_pipe.Client.Authorize.{
  Authorizer, AuthorizationDecision, allow, respond, authorize, forward_authorization,
  handles_endpoint,
}
use lfp_pipe.Client.Authorize.Allow.{IsAuthenticated, authorize-IsAuthenticated, authorize-endpoint}
use lfp_pipe.Client.Proxy.{
  BackendRuntime, no_backend, select_runtime_for_path, authorizers_of, canonical_prefix_redirect,
  prepare_request,
}
use lfp_pipe.Client.Proxy.Handle.{
  answer, forward, kept_authorization, decision_for, or_prepare, by_decision, to_backend,
  handle_request_inner, endpoint_action,
}
use lfp_pipe.Client.Proxy.Told.{prepare_request-told}

module _ {M U Set Jwk Alg Key Tokens IdToken IdClaims : Type 0} (h : HeaderMap M) (u : Uris U)
    (json : Payloads) (j : Jwts Set Jwk Alg Key) where
  -- Who a backend's policy takes the request for: nobody where it has no policy.
  abbrev pub Admits :
      Option (Authorizer Set Alg Tokens IdToken IdClaims)
      → Request M U
      → Trial Set
      → Times
      → Option AuthenticatedIdentity
      → Type 0
  Admits none request trial times identity = identity ≡ none
  Admits (some a) request trial times identity =
      IsAuthenticated h u json j a request trial times identity

  -- A request that is forwarded: no authorizer answers its path, the backend is the one selected, its policy
  -- admits the request, and what is sent is prepared with that identity.
  pub record IsForwarded (request : Request M U) (hostname : Str) (client_ip : Option Str)
      (scheme : Str) (backends : List (BackendRuntime (Authorizer Set Alg Tokens IdToken IdClaims)))
      (trial : Trial Set) (times : Times)
      (backend : BackendRuntime (Authorizer Set Alg Tokens IdToken IdClaims)) (out : Request M U)
      : Type 0 where
    pub identity : Option AuthenticatedIdentity
    pub no_endpoint :
        any (λ a. handles_endpoint a (u.path request.uri)) (authorizers_of backends) ≡ false
    pub selected :
        select_runtime_for_path backends (some hostname) (u.path request.uri) ≡ some backend
    pub admitted : Admits backend.authorization request trial times identity
    pub prepared :
        prepare_request h u
          (record request { headers = kept_authorization h backend.authorization request.headers })
          backend
          client_ip
          scheme
          identity
        ≡ ok out

  decision_for-allow :
      (o : Option (Authorizer Set Alg Tokens IdToken IdClaims)) (request : Request M U)
      (trial : Trial Set) (times : Times) (i : Option AuthenticatedIdentity)
      → decision_for h u json j o request trial times ≡ allow i
      → Admits o request trial times i
  unfolding decision_for
  decision_for-allow none request trial times i e = cc
  decision_for-allow (some a) request trial times i e =
      (authorize-IsAuthenticated h u json j a request trial times i e).1

  -- Only a request that is allowed and not redirected is prepared and forwarded.
  by_decision-forward :
      (b backend : BackendRuntime (Authorizer Set Alg Tokens IdToken IdClaims))
      (request out : Request M U) (client_ip : Option Str) (scheme : Str)
      (d : AuthorizationDecision M)
      → by_decision h u json j b request client_ip scheme d ≡ ok (forward backend out)
      → (i : Option AuthenticatedIdentity) × (d ≡ allow i)
        × (b ≡ backend)
        × (prepare_request h u
              (record request { headers = kept_authorization h b.authorization request.headers })
              b
              client_ip
              scheme
              i
            ≡ ok out)
  unfolding by_decision
  by_decision-forward b backend request out client_ip scheme (respond r) e = cc
  by_decision-forward b backend request out client_ip scheme (allow i) e =
      let (redirect, r, e1) = bind-eq-ok (canonical_prefix_redirect h u request.uri b) _ e in
      go redirect e1
    where
      go :
          (redirect : Option (AuthResponse M))
          → or_prepare h u json j redirect (
              prepare_request h u
                (record request { headers = kept_authorization h b.authorization request.headers })
                b
                client_ip
                scheme
                i
              >>= λ prepared. ok (forward b prepared))
            ≡ ok (forward backend out)
          → (i' : Option AuthenticatedIdentity) × (◌≡◌ {A = AuthorizationDecision M}
              (allow i)
              (allow i'))
            × (b ≡ backend)
            × (prepare_request h u
                  (record request {
                    headers = kept_authorization h b.authorization request.headers;
                  })
                  b
                  client_ip
                  scheme
                  i'
                ≡ ok out)
      go (some response) q = cc
      go none q =
          let (prepared, p, q1) =
            bind-eq-ok
              (prepare_request h u
                (record request { headers = kept_authorization h b.authorization request.headers })
                b client_ip scheme i)
              _ q in
          let f : forward b prepared ≡ forward backend out = ok-injective q1 in
          (i, refl, cc, p ∙ cc)

  -- A request is forwarded only where no authorizer of the connection answers its path, to the backend that
  -- is selected for its host and path, and only if that backend has no policy or its policy takes the request
  -- for the identity that is told; without a policy no identity is.
  pub handle_request_inner-IsForwarded :
      (request : Request M U) (hostname : Str) (client_ip : Option Str) (scheme : Str)
      (backends : List (BackendRuntime (Authorizer Set Alg Tokens IdToken IdClaims)))
      (trial : Trial Set) (times : Times)
      (backend : BackendRuntime (Authorizer Set Alg Tokens IdToken IdClaims)) (out : Request M U)
      → handle_request_inner h u json j request hostname client_ip scheme backends trial times
        ≡ ok (forward backend out)
      → IsForwarded request hostname client_ip scheme backends trial times backend out
  unfolding handle_request_inner to_backend
  handle_request_inner-IsForwarded request hostname client_ip scheme backends trial times backend
        out e =
      elim (Option-cases
        (find (λ a. handles_endpoint a (u.path request.uri)) (authorizers_of backends))) [
          | inl n ↦
              let (b, s, e1) =
                bind-eq-ok
                  (ok_or (select_runtime_for_path backends (some hostname) (u.path request.uri))
                    no_backend)
                  _ (rw n at e) in
              let (i, d, q, p) =
                by_decision-forward b backend request out client_ip scheme
                  (decision_for h u json j b.authorization request trial times) e1 in
              subst (λ x. IsForwarded request hostname client_ip scheme backends trial times x out)
                q
                (record {
                  identity = i;
                  no_endpoint =
                      find-none (λ a. handles_endpoint a (u.path request.uri))
                        (authorizers_of backends) n;
                  selected = ok_or-ok no_backend s;
                  admitted = decision_for-allow b.authorization request trial times i d;
                  prepared = p;
                })
          | inr (a, s) ↦ answered a (rw s at e)
        ]
    where
      answered :
          (a : Authorizer Set Alg Tokens IdToken IdClaims)
          → endpoint_action h u json j (authorize h u json j a request trial times).0
            ≡ ok (forward backend out)
          → IsForwarded request hostname client_ip scheme backends trial times backend out
      answered a q = by_answer (authorize h u json j a request trial times).0 q
        where
          by_answer :
              (d : AuthorizationDecision M)
              → endpoint_action h u json j d ≡ ok (forward backend out)
              → IsForwarded request hostname client_ip scheme backends trial times backend out
          by_answer (respond r) q = cc
          by_answer (allow i) q = cc

  -- A path that some authorizer of the connection handles is answered with a response: the error for an
  -- endpoint that is not handled never arises.
  pub handle_request_inner-endpoint :
      (request : Request M U) (hostname : Str) (client_ip : Option Str) (scheme : Str)
      (backends : List (BackendRuntime (Authorizer Set Alg Tokens IdToken IdClaims)))
      (trial : Trial Set) (times : Times)
      → any (λ a. handles_endpoint a (u.path request.uri)) (authorizers_of backends) ≡ true
      → (response : AuthResponse M) × (handle_request_inner h u json j request hostname client_ip
            scheme backends trial times
          ≡ ok (answer response))
  unfolding handle_request_inner
  handle_request_inner-endpoint request hostname client_ip scheme backends trial times e =
      elim (Option-cases
        (find (λ a. handles_endpoint a (u.path request.uri)) (authorizers_of backends))) [
          | inl n ↦ cc (
            e,
            find-none (λ a. handles_endpoint a (u.path request.uri)) (authorizers_of backends) n,
          )
          | inr (a, s) ↦
              let (i, t) =
                find-some (λ a. handles_endpoint a (u.path request.uri)) (authorizers_of backends)
                  s in
              let (response, r) = authorize-endpoint h u json j a request trial times t in
              (response, rw (s, r) refl)
        ]

  kept_authorization-dropped :
      (o : Option (Authorizer Set Alg Tokens IdToken IdClaims))
      (a : Authorizer Set Alg Tokens IdToken IdClaims) (m : M)
      → o ≡ some a
      → forward_authorization a ≡ false
      → h.get_all (kept_authorization h o m) (codes "authorization") ≡ []
  kept_authorization-dropped none a m q f = cc
  kept_authorization-dropped (some b) a m q f =
      let same : b ≡ a = cc in
      let g : forward_authorization b ≡ false = ap forward_authorization same ∙ f in
      rw g (h.remove_same m (codes "authorization"))

  -- A backend whose policy does not forward credentials never sees an `Authorization` header.
  pub handle_request_inner-authorization :
      (request : Request M U) (hostname : Str) (client_ip : Option Str) (scheme : Str)
      (backends : List (BackendRuntime (Authorizer Set Alg Tokens IdToken IdClaims)))
      (trial : Trial Set) (times : Times)
      (backend : BackendRuntime (Authorizer Set Alg Tokens IdToken IdClaims)) (out : Request M U)
      (a : Authorizer Set Alg Tokens IdToken IdClaims)
      → handle_request_inner h u json j request hostname client_ip scheme backends trial times
        ≡ ok (forward backend out)
      → backend.authorization ≡ some a
      → forward_authorization a ≡ false
      → h.get_all out.headers (codes "authorization") ≡ []
  unfolding Ascii.str_eq
  handle_request_inner-authorization request hostname client_ip scheme backends trial times backend
        out a e q f =
      let s =
        handle_request_inner-IsForwarded request hostname client_ip scheme backends trial times
          backend out e in
      prepare_request-told h u _ backend client_ip scheme s.identity out (codes "authorization")
        s.prepared refl
      ∙ kept_authorization-dropped backend.authorization a request.headers q f
