-- ===== src/Client/Oidc/Exchanged.antt =====
-- The exchange of a code and what its ID token grants (client/src/authorization.rs).
use lfp_pipe.Base.{
  ◌≡◌, ◌∙◌, ◌⊎◌, ◌++◌, refl, sym, ap, subst, true, false, Option, none, some, get_elem?, ensure,
  inl, inr, Result, ok, err, ok_or, bind-eq-ok, ensure-eq-ok, ok-injective, ok_or-ok, ℕ, Bool,
}
use lfp_pipe.Text.{codes}
use lfp_pipe.Text.Ascii.{Str, str_eq, str_eq_sound}
use lfp_pipe.Text.Split.{split}
use lfp_pipe.Client.Claims.{Value, AuthenticatedIdentity, validate_roles, identity_from_claims}
use lfp_pipe.Client.Claims.Roles.{HasRoles, validate_roles_iff}
use lfp_pipe.Client.Cookies.{Jar, Json}
use lfp_pipe.Client.Oidc.{
  OidcAuthorizer, OidcFlow, CoreClient, Provider, OidcError, or_fail, saturating_add,
  decode_verified_claims, client, exchanged, session_identity, no_role, no_identity, no_client_id,
  bad_redirect, not_exchanged, no_id_token, not_verified, no_hash, wrong_hash, no_payload,
  bad_payload, hash_agrees,
}

pub or_fail-ok :
    {E A : Type 0} (m : Result E A) (f : OidcError) {a : A} → or_fail m f ≡ ok a → m ≡ ok a
or_fail-ok (ok a) f h = cc
or_fail-ok (err e) f h = cc

ensure-true : (t : Bool) → ensure t wrong_hash ≡ ok tt → t ≡ true
ensure-true true h = refl
ensure-true false h = cc

-- The client of a login is the one that the policy names, at the callback of its host.
pub record IsClient {Tokens IdToken IdClaims : Type 0}
    (self : OidcAuthorizer Tokens IdToken IdClaims) (core : CoreClient) : Type 0 where
  pub named : self.config.oidc_client_id ≡ some core.client_id
  pub secret : core.client_secret ≡ self.client_secret
  pub callback :
      core.redirect_uri ≡ codes "https://" ++ (self.hostname ++ self.config.oidc_callback_path)
  pub parsed : self.provider.redirect_url core.redirect_uri ≡ true

-- The provider exchanged the code, with the verifier of the flow, for tokens with an ID token that is verified
-- with the nonce of the flow. Its claims state no hash of the access token, or the one that the token has.
pub record IsExchanged {Tokens IdToken IdClaims : Type 0} (p : Provider Tokens IdToken IdClaims)
    (core : CoreClient) (code : Str) (flow : OidcFlow) (id : IdToken) : Type 0 where
  pub tokens : Tokens
  pub verified : IdClaims
  pub answered : p.exchange_code core code flow.pkce_verifier ≡ some tokens
  pub with_id : p.id_token tokens ≡ some id
  pub of_nonce : p.claims core id flow.nonce ≡ some verified
  pub hash :
      (p.access_token_hash verified ≡ none)
      ⊎ ((expected : Str) × (p.access_token_hash verified ≡ some expected)
          × (p.from_token core tokens id ≡ some expected))

-- The claims are the second of the texts between the dots of a token, decoded.
pub record IsPayload (jar : Jar) (json : Json Value) (token : Str) (claims : Value) : Type 0 where
  pub payload : Str
  pub bytes : Str
  pub second : get_elem? (split b'.' token) 1 ≡ some payload
  pub decoded : jar.decode payload ≡ some bytes
  pub parsed : json.from_slice bytes ≡ some claims

-- The identity of a session is that of claims with the roles that the policy requires, and expires after
-- the time that the policy gives a session.
pub record IsGranted {Tokens IdToken IdClaims : Type 0}
    (self : OidcAuthorizer Tokens IdToken IdClaims) (claims : Value) (now : ℕ)
    (identity : AuthenticatedIdentity) : Type 0 where
  pub told : AuthenticatedIdentity
  pub roles : HasRoles claims self.config
  pub of_claims : identity_from_claims claims self.config.roles_claim ≡ ok told
  pub bounded :
      identity
      ≡ record told { expires_unix = saturating_add now self.config.oidc_session_ttl_seconds }

module _ {Tokens IdToken IdClaims : Type 0} (self : OidcAuthorizer Tokens IdToken IdClaims) where
  pub session_identity-IsGranted :
      (claims : Value) (now : ℕ) (identity : AuthenticatedIdentity)
      → session_identity self claims now ≡ ok identity
      → IsGranted self claims now identity
  unfolding session_identity
  session_identity-IsGranted claims now identity h =
      let (u, r, h1) = bind-eq-ok (or_fail (validate_roles claims self.config) no_role) _ h in
      let (told, i, h2) =
        bind-eq-ok (or_fail (identity_from_claims claims self.config.roles_claim) no_identity) _
          h1 in
      record {
        told = told;
        roles =
            (validate_roles_iff claims self.config).0
              (or_fail-ok (validate_roles claims self.config) no_role r);
        of_claims = or_fail-ok (identity_from_claims claims self.config.roles_claim) no_identity i;
        bounded = sym (ok-injective h2);
      }

  pub client-IsClient : (core : CoreClient) → client self ≡ ok core → IsClient self core
  unfolding client
  client-IsClient core h =
      let (client_id, i, h1) = bind-eq-ok (ok_or self.config.oidc_client_id no_client_id) _ h in
      let (r, h2) =
        ensure-eq-ok
          (self.provider.redirect_url
            (codes "https://" ++ (self.hostname ++ self.config.oidc_callback_path)))
          bad_redirect _ h1 in
      subst (IsClient self) (ok-injective h2)
        (record { named = ok_or-ok no_client_id i; secret = refl; callback = refl; parsed = r })

  hash_agrees-ok :
      (core : CoreClient) (tokens : Tokens) (id : IdToken) (stated : Option Str)
      → hash_agrees self.provider core tokens id stated ≡ ok tt
      → (stated ≡ none)
        ⊎ ((expected : Str) × (stated ≡ some expected)
            × (self.provider.from_token core tokens id ≡ some expected))
  hash_agrees-ok core tokens id none h = inl refl
  hash_agrees-ok core tokens id (some expected) h =
      let (actual, a, h1) =
        bind-eq-ok (ok_or (self.provider.from_token core tokens id) no_hash) _ h in
      inr (
        expected,
        refl,
        ok_or-ok no_hash a
            ∙ ap some (str_eq_sound actual expected (ensure-true (str_eq actual expected) h1)),
      )

  pub exchanged-IsExchanged :
      (core : CoreClient) (code : Str) (flow : OidcFlow) (id : IdToken)
      → exchanged self.provider core code flow ≡ ok id
      → IsExchanged self.provider core code flow id
  unfolding exchanged
  exchanged-IsExchanged core code flow id h =
      let p = self.provider in
      let (tokens, t, h1) =
        bind-eq-ok (ok_or (p.exchange_code core code flow.pkce_verifier) not_exchanged) _ h in
      let (found, i, h2) = bind-eq-ok (ok_or (p.id_token tokens) no_id_token) _ h1 in
      let (verified, v, h3) =
        bind-eq-ok (ok_or (p.claims core found flow.nonce) not_verified) _ h2 in
      let (u, a, h4) =
        bind-eq-ok (hash_agrees p core tokens found (p.access_token_hash verified)) _ h3 in
      subst (IsExchanged p core code flow) (ok-injective h4) (record {
        tokens = tokens;
        verified = verified;
        answered = ok_or-ok not_exchanged t;
        with_id = ok_or-ok no_id_token i;
        of_nonce = ok_or-ok not_verified v;
        hash = hash_agrees-ok core tokens found (p.access_token_hash verified) a;
      })

pub decode_verified_claims-IsPayload :
    (jar : Jar) (json : Json Value) (token : Str) (claims : Value)
    → decode_verified_claims jar json token ≡ ok claims
    → IsPayload jar json token claims
unfolding decode_verified_claims
decode_verified_claims-IsPayload jar json token claims h =
    let (payload, p, h1) = bind-eq-ok (ok_or (get_elem? (split b'.' token) 1) no_payload) _ h in
    let (bytes, b, h2) = bind-eq-ok (ok_or (jar.decode payload) bad_payload) _ h1 in
    record {
      payload = payload;
      bytes = bytes;
      second = ok_or-ok no_payload p;
      decoded = ok_or-ok bad_payload b;
      parsed = ok_or-ok bad_payload h2;
    }
