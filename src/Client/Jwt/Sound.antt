-- ===== src/Client/Jwt/Sound.antt =====
-- The tokens that `authorize_token` and `authorize_headers` accept (client/src/authorization.rs).
use lfp_pipe.Base.{
  ℕ, ◌-◌, ◌≡◌, ◌≤◌, ◌⊎◌, inl, inr, refl, sym, ap, ◌∙◌, subst, Bool, true, false, some, [], ◌∷◌, any,
  arith, leb, ◌==◌, Bool-cases, Result, ok, err, ok_or, ensure, bind-eq-ok, ensure-eq-ok,
  ok-injective, Result-cases, ok_or-ok, ltb,
}
use lfp_pipe.Text.{codes}
use lfp_pipe.Text.Ascii.{Str}
use lfp_pipe.Config.Authorization.{ClientAuthorizationConfig}
use lfp_pipe.Client.Claims.{Value, unauthorized, validate_roles}
use lfp_pipe.Client.Claims.Roles.{HasRoles, validate_roles_iff}
use lfp_pipe.Client.Jwt.{
  Jwts, Validation, JwtAuthorizer, JwtError, Attempt, Trial, ensure_cache_age, seconds, stale, deny,
  key_for, key_after, find_key, no_key, not_signing, wrong_algorithm, bad_key, algorithm_agrees,
  fetched, refresh_if_due, minimum_interval, fetch_jwks, verify, validation_of, verified,
  token_header, after_refresh, authorize_token,
}

-- The keys are no older than the policy allows; 0 is no limit.
abbrev pub IsFresh : ClientAuthorizationConfig → ℕ → ℕ → Type 0
IsFresh config now obtained_at =
    (config.jwks_max_stale_seconds ≡ 0)
    ⊎ (now - obtained_at ≤ seconds config.jwks_max_stale_seconds)

ensure_cache_age-ok :
    (config : ClientAuthorizationConfig) (now obtained_at : ℕ)
    → ensure_cache_age config now obtained_at ≡ ok tt
    → IsFresh config now obtained_at
unfolding ensure_cache_age
ensure_cache_age-ok config now obtained_at h =
    elim (Bool-cases (config.jwks_max_stale_seconds == 0)) [
      | inl e ↦ inl (ground arith)
      | inr e ↦ inr (
          within (leb (now - obtained_at) (seconds config.jwks_max_stale_seconds)) (rw e at h) refl)
    ]
  where
    within :
        (t : Bool)
        → ensure t stale ≡ ok tt
        → leb (now - obtained_at) (seconds config.jwks_max_stale_seconds) ≡ t
        → now - obtained_at ≤ seconds config.jwks_max_stale_seconds
    within true q e = ground arith
    within false q e = cc

deny-ok : {A : Type 0} (m : Result JwtError A) {a : A} → deny m ≡ ok a → m ≡ ok a
deny-ok (ok a) h = cc
deny-ok (err e) h = cc

module _ {Set Jwk Alg Key : Type 0} (j : Jwts Set Jwk Alg Key) where
  -- A key of the set, for signatures with that algorithm.
  pub record IsKey (self : JwtAuthorizer Set Alg) (kid : Str) (algorithm : Alg) (now : ℕ)
      (key : Key) : Type 0 where
    pub jwk : Jwk
    pub found : j.find self.keys.set kid ≡ some jwk
    pub agrees : algorithm_agrees j (j.key_algorithm jwk) algorithm ≡ true
    pub made : j.from_jwk jwk ≡ some key
    pub fresh : IsFresh self.config now self.keys.obtained_at

  key_for-IsKey :
      (self : JwtAuthorizer Set Alg) (kid : Str) (algorithm : Alg) (now : ℕ) (key : Key)
      → key_for j self kid algorithm now ≡ ok key
      → IsKey self kid algorithm now key
  unfolding key_for
  key_for-IsKey self kid algorithm now key h =
      let (u, f, h1) = bind-eq-ok (ensure_cache_age self.config now self.keys.obtained_at) _ h in
      let (jwk, g, h2) = bind-eq-ok (ok_or (j.find self.keys.set kid) no_key) _ h1 in
      let (s, h3) = ensure-eq-ok _ not_signing _ h2 in
      let (a, h4) =
        ensure-eq-ok (algorithm_agrees j (j.key_algorithm jwk) algorithm) wrong_algorithm _ h3 in
      record {
        jwk = jwk;
        found = ok_or-ok no_key g;
        agrees = a;
        made = ok_or-ok bad_key h4;
        fresh = ensure_cache_age-ok self.config now self.keys.obtained_at f;
      }

  abbrev pub SamePolicy : JwtAuthorizer Set Alg → JwtAuthorizer Set Alg → Type 0
  SamePolicy a b = (a.config ≡ b.config) × (a.algorithms ≡ b.algorithms)

  -- A refresh changes the keys and the time of the attempt, and nothing of the policy.
  fetched-SamePolicy :
      (self : JwtAuthorizer Set Alg) (w : Attempt Set) (r : Result JwtError Set)
      → SamePolicy (fetched j self w r).1 self
  unfolding fetched
  fetched-SamePolicy self w (ok set) = elim (Bool-cases w.persisted) [
    | inl e ↦ rw e (refl, refl)
    | inr e ↦ rw e (refl, refl)
  ]
  fetched-SamePolicy self w (err e) = (refl, refl)

  refresh_if_due-SamePolicy :
      (self : JwtAuthorizer Set Alg) (force : Bool) (w : Attempt Set)
      → SamePolicy (refresh_if_due j self force w).1 self
  unfolding refresh_if_due
  refresh_if_due-SamePolicy self force w =
      elim (Bool-cases (ltb (w.instant - self.refresh) (minimum_interval self.config force))) [
        | inl e ↦ rw e (refl, refl)
        | inr e ↦
            rw e (
              fetched-SamePolicy (record self { refresh = w.stamp }) w (fetch_jwks j self.config w))
      ]

  find_key-SamePolicy :
      (self : JwtAuthorizer Set Alg) (kid : Str) (algorithm : Alg) (t : Trial Set)
      → SamePolicy (find_key j self kid algorithm t).1 self
  unfolding find_key key_after
  find_key-SamePolicy self kid algorithm t =
      elim (Result-cases (key_for j self kid algorithm t.looked_at)) [
        | inl (key, e) ↦ rw e (refl, refl)
        | inr (x, e) ↦ rw e (refresh_if_due-SamePolicy self true t.second)
      ]

  find_key-IsKey :
      (self : JwtAuthorizer Set Alg) (kid : Str) (algorithm : Alg) (t : Trial Set) (key : Key)
      → (find_key j self kid algorithm t).0 ≡ ok key
      → IsKey (find_key j self kid algorithm t).1 kid algorithm t.looked_at key
        ⊎ IsKey (find_key j self kid algorithm t).1 kid algorithm t.looked_again_at key
  unfolding find_key key_after
  find_key-IsKey self kid algorithm t key h =
      elim (Result-cases (key_for j self kid algorithm t.looked_at)) [
        | inl (k, e) ↦
            let q : ok k ≡ ok key = rw e at h in
            rw e (inl (key_for-IsKey self kid algorithm t.looked_at key (e ∙ q)))
        | inr (x, e) ↦
            let (r, self1) = refresh_if_due j self true t.second in
            let (u, f, g) = bind-eq-ok r _ (rw e at h) in
            rw e (inr (key_for-IsKey self1 kid algorithm t.looked_again_at key g))
      ]

  -- What the crate is told to check: the issuer and the audiences of the policy, the times with its leeway,
  -- and that the token has the three claims for these.
  abbrev pub Checks : ClientAuthorizationConfig → Alg → Validation Alg
  Checks config algorithm = record {
    algorithm = algorithm;
    leeway = config.leeway_seconds;
    validate_nbf = true;
    issuer = config.issuer ∷ [];
    audience = config.audiences;
    required_spec_claims = codes "exp" ∷ codes "iss" ∷ codes "aud" ∷ [];
  }

  -- The token names an algorithm that is allowed and a key of the set, and what the crate decodes with that
  -- key and the policy's issuer and audience has the roles that the policy requires.
  pub record IsVerified (self : JwtAuthorizer Set Alg) (token : Str) (t : Trial Set)
      (claims : Value) : Type 0 where
    pub algorithm : Alg
    pub kid : Str
    pub key : Key
    pub header : j.decode_header token ≡ some (algorithm, some kid)
    pub allowed : any (j.alg_eq algorithm) self.algorithms ≡ true
    pub from_set :
        IsKey self kid algorithm t.looked_at key ⊎ IsKey self kid algorithm t.looked_again_at key
    pub decoded : j.decode token key (Checks self.config algorithm) ≡ some claims
    pub roles : HasRoles claims self.config

  verify-ok :
      (config : ClientAuthorizationConfig) (token : Str) (algorithm : Alg)
      (found : Result JwtError Key) (claims : Value)
      → verify j config token algorithm found ≡ ok claims
      → (key : Key) × (found ≡ ok key)
        × (j.decode token key (validation_of j config algorithm) ≡ some claims)
        × (validate_roles claims config ≡ ok tt)
  unfolding verify
  verify-ok config token algorithm found claims h =
      let (key, f, h1) = bind-eq-ok (deny found) _ h in
      let (c, d, h2) =
        bind-eq-ok (ok_or (j.decode token key (validation_of j config algorithm)) unauthorized) _
          h1 in
      let (u, r, h3) = bind-eq-ok (validate_roles c config) _ h2 in
      subst
        (λ c.
          (key : Key) × (found ≡ ok key)
          × (j.decode token key (validation_of j config algorithm) ≡ some c)
          × (validate_roles c config ≡ ok tt))
        (ok-injective h3) (key, deny-ok found f, ok_or-ok unauthorized d, r)

  token_header-ok :
      (self : JwtAuthorizer Set Alg) (token : Str) (algorithm : Alg) (kid : Str)
      → token_header j self token ≡ ok (algorithm, kid)
      → (j.decode_header token ≡ some (algorithm, some kid))
        × (any (j.alg_eq algorithm) self.algorithms ≡ true)
  unfolding token_header
  token_header-ok self token algorithm kid h =
      let ((alg, named), d, h1) = bind-eq-ok (ok_or (j.decode_header token) unauthorized) _ h in
      let (a, h2) = ensure-eq-ok (any (j.alg_eq alg) self.algorithms) unauthorized _ h1 in
      let (k, n, h3) = bind-eq-ok (ok_or named unauthorized) _ h2 in
      subst
        (λ p.
          (j.decode_header token ≡ some (p.0, some p.1))
          × (any (j.alg_eq p.0) self.algorithms ≡ true))
        (ok-injective h3)
        (ok_or-ok unauthorized d ∙ ap (λ o. some (alg, o)) (ok_or-ok unauthorized n), a)

  verified-SamePolicy :
      (self : JwtAuthorizer Set Alg) (token : Str) (t : Trial Set) (algorithm : Alg) (kid : Str)
      → SamePolicy (verified j token algorithm (find_key j self kid algorithm t)).1 self
  unfolding verified
  verified-SamePolicy self token t algorithm kid = find_key-SamePolicy self kid algorithm t

  verified-IsVerified :
      (self : JwtAuthorizer Set Alg) (token : Str) (t : Trial Set) (algorithm : Alg) (kid : Str)
      (claims : Value)
      → token_header j self token ≡ ok (algorithm, kid)
      → (verified j token algorithm (find_key j self kid algorithm t)).0 ≡ ok claims
      → IsVerified (find_key j self kid algorithm t).1 token t claims
  unfolding verified validation_of
  verified-IsVerified self token t algorithm kid claims e h =
      let (found, self1) = find_key j self kid algorithm t in
      let (key, f, d, r) = verify-ok self1.config token algorithm found claims h in
      let (header, a) = token_header-ok self token algorithm kid e in
      record {
        algorithm = algorithm;
        kid = kid;
        key = key;
        header = header;
        allowed =
            subst (λ l. any (j.alg_eq algorithm) l ≡ true)
              (sym (find_key-SamePolicy self kid algorithm t).1) a;
        from_set = find_key-IsKey self kid algorithm t key f;
        decoded = d;
        roles = (validate_roles_iff claims self1.config).0 r;
      }

  -- Both parts of what is shown of a token that is accepted.
  abbrev Accepts : JwtAuthorizer Set Alg → Str → Trial Set → Value → JwtAuthorizer Set Alg → Type 0
  Accepts self token t claims after = SamePolicy after self × IsVerified after token t claims

  after_refresh-Accepts :
      (token : Str) (t : Trial Set) (r : Result JwtError (Unit {0})) (self : JwtAuthorizer Set Alg)
      (claims : Value)
      → (after_refresh j token t (r, self)).0 ≡ ok claims
      → Accepts self token t claims (after_refresh j token t (r, self)).1
  unfolding after_refresh verified find_key
  after_refresh-Accepts token t (err e) self claims h = cc
  after_refresh-Accepts token t (ok u) self claims h =
      elim (Result-cases (token_header j self token)) [
        | inl ((algorithm, kid), e) ↦ rw e (
          verified-SamePolicy self token t algorithm kid,
          verified-IsVerified self token t algorithm kid claims e (rw e at h),
        )
        | inr (d, e) ↦ cc (rw e at h)
      ]

  -- Where a token is accepted, the policy is the one from before and, in the state that is left, the token
  -- is verified: its algorithm is allowed, its key is one of the set for that algorithm, no older than the
  -- policy allows, the crate decodes the token with it for the issuer and audience of the policy, and its
  -- claims hold the roles that the policy requires.
  pub authorize_token-IsVerified :
      (self : JwtAuthorizer Set Alg) (token : Str) (t : Trial Set) (claims : Value)
      → (authorize_token j self token t).0 ≡ ok claims
      → SamePolicy (authorize_token j self token t).1 self
        × IsVerified (authorize_token j self token t).1 token t claims
  unfolding authorize_token
  authorize_token-IsVerified self token t claims h =
      let (r, self1) = refresh_if_due j self false t.first in
      let (p, v) = after_refresh-Accepts token t r self1 claims h in
      let q = refresh_if_due-SamePolicy self false t.first in ((p.0 ∙ q.0, p.1 ∙ q.1), v)
