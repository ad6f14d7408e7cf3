-- ===== src/Client/Runtime/Endpoints.antt =====
-- The login endpoints of one session (`process_messages`, client/src/lib.rs).
use lfp_pipe.Base.{◌≡◌, sym, ap₂, ◌∙◌, true, ◌&&◌, ◌||◌, Option, some, List, In, Result, ok, err}
use lfp_pipe.Text.Ascii.{Str, str_eq}
use lfp_pipe.Config.Authorization.{ClientAuthorizationConfig}
use lfp_pipe.Config.Client.{ClientConfig}
use lfp_pipe.Client.Jwt.{Jwts}
use lfp_pipe.Client.Authorize.{Authorizer, handles_endpoint, to_option}
use lfp_pipe.Client.Authorize.Load.{Boot, load, load-config}
use lfp_pipe.Client.Proxy.{BackendRuntime}
use lfp_pipe.Client.Runtime.{backends_of}
use lfp_pipe.Client.Runtime.Assemble.{policy_handles, backends_of-apart}

to_option-some : {E A : Type 0} (m : Result E A) (a : A) → to_option m ≡ some a → m ≡ ok a
to_option-some (ok x) a e = cc
to_option-some (err x) a e = cc

module _ {Set Jwk Alg Key Tokens IdToken IdClaims : Type 0} (j : Jwts Set Jwk Alg Key)
    (boots : ClientAuthorizationConfig → Str → Boot Set Tokens IdToken IdClaims) where
  -- The loading of a policy in a session, each with its own answers of the network.
  unfoldable pub loader :
      ClientAuthorizationConfig → Str → Option (Authorizer Set Alg Tokens IdToken IdClaims)
  loader policy hostname = to_option (load j (boots policy hostname) policy hostname)

  handles-policy :
      (policy : ClientAuthorizationConfig) (host : Str)
      (a : Authorizer Set Alg Tokens IdToken IdClaims) (path : Str)
      → loader policy host ≡ some a
      → policy_handles policy path ≡ handles_endpoint a path
  unfolding loader handles_endpoint
  handles-policy policy host a path e =
      let (c, o) =
        load-config j (boots policy host) policy host a
          (to_option-some (load j (boots policy host) policy host) a e) in
      ap₂ (λ t c. t && (str_eq path c.oidc_callback_path || str_eq path c.oidc_logout_path)) (sym o)
        (sym c)

  -- In a session that is set up, a path is a login endpoint of one authorizer at most: two backends whose
  -- authorizers both handle it share that authorizer.
  pub backends_of-one_login :
      (config : ClientConfig)
      (backends : List (BackendRuntime (Authorizer Set Alg Tokens IdToken IdClaims)))
      (x y : BackendRuntime (Authorizer Set Alg Tokens IdToken IdClaims))
      (a b : Authorizer Set Alg Tokens IdToken IdClaims) (path : Str)
      → backends_of loader config ≡ ok backends
      → In x backends
      → In y backends
      → x.authorization ≡ some a
      → y.authorization ≡ some b
      → handles_endpoint a path ≡ true
      → handles_endpoint b path ≡ true
      → a ≡ b
  backends_of-one_login config backends x y a b path h i k e f p q =
      let (c, d, host, other, l, m, same) =
        backends_of-apart loader config backends h x y a b i k e f in
      same path (handles-policy c host a path l ∙ p) (handles-policy d other b path m ∙ q)
