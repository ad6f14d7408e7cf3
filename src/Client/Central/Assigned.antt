-- ===== src/Client/Central/Assigned.antt =====
-- The configurations that a control plane assigns (client/src/config_source.rs).
use lfp_pipe.Base.{
  ℕ, ◌*◌, ◌≤◌, ◌≡◌, refl, subst, Option, some, List, [], ◌∷◌, All, min, arith, ok, ok_or,
  bind-eq-ok, ok-injective, ok_or-ok,
}
use lfp_pipe.Text.Ascii.{Str}
use lfp_pipe.Config.Client.{ClientConfig, ClientOAuthConfig}
use lfp_pipe.Config.Parse.{parse_client_configs}
use lfp_pipe.Client.Central.{
  CentralClientBootstrap, CentralSettings, CentralSnapshot, Plane, no_secret_file, no_response,
  no_oauth, central_access, parsed, hydrated, hydrate, fetch_central_snapshot, config_response,
  next_retry_delay, Turn, not_ready, stopped, replaced, pause, delay_after, pauses,
  initial_retry_delay,
}

-- A configuration that authenticates as this machine, at this control plane.
pub record IsOwn (bootstrap : CentralClientBootstrap) (config : ClientConfig) : Type 0 where
  pub oauth : ClientOAuthConfig
  pub present : config.oauth ≡ some oauth
  pub plane : oauth.control_plane_url ≡ bootstrap.control_plane_url
  pub secret : bootstrap.client_secret_file ≡ some oauth.client_secret_file

hydrate-IsOwn :
    (bootstrap : CentralClientBootstrap) (secret_file : Str) (settings : CentralSettings)
    (username : Str) (document configs : List ClientConfig)
    → bootstrap.client_secret_file ≡ some secret_file
    → hydrate bootstrap secret_file settings username document ≡ ok configs
    → All (IsOwn bootstrap) configs
unfolding hydrate hydrated
hydrate-IsOwn bootstrap secret_file settings username [] configs s h =
    subst (All (IsOwn bootstrap)) (ok-injective h) tt
hydrate-IsOwn bootstrap secret_file settings username (config ∷ document) configs s h =
    let (oauth, o, h1) = bind-eq-ok (ok_or config.oauth no_oauth) _ h in
    let (rest, r, h2) =
      bind-eq-ok (hydrate bootstrap secret_file settings username document) _ h1 in
    subst (All (IsOwn bootstrap)) (ok-injective h2) (
      record {
        oauth = hydrated bootstrap secret_file settings username oauth;
        present = refl;
        plane = refl;
        secret = s;
      },
      hydrate-IsOwn bootstrap secret_file settings username document rest s r,
    )

-- Every configuration that is fetched authenticates with the secret file and at the address of this
-- machine's own bootstrap, whatever the document names.
pub fetch_central_snapshot-IsOwn :
    (plane : Plane) (bootstrap : CentralClientBootstrap) (applied : Option Str)
    (snapshot : CentralSnapshot)
    → fetch_central_snapshot plane bootstrap applied ≡ ok snapshot
    → All (IsOwn bootstrap) snapshot.configs
unfolding fetch_central_snapshot
fetch_central_snapshot-IsOwn plane bootstrap applied snapshot h =
    let (secret_file, s, h1) = bind-eq-ok (ok_or bootstrap.client_secret_file no_secret_file) _ h in
    let ((settings, token), a, h2) = bind-eq-ok (central_access plane bootstrap) _ h1 in
    let (response, r, h3) =
      bind-eq-ok (ok_or (config_response plane bootstrap applied token) no_response) _ h2 in
    let (document, d, h4) =
      bind-eq-ok (parsed (parse_client_configs plane.from_toml response.config_toml)) _ h3 in
    let (configs, c, h5) =
      bind-eq-ok (hydrate bootstrap secret_file settings response.username document) _ h4 in
    subst (λ x. All (IsOwn bootstrap) x.configs) (ok-injective h5)
      (hydrate-IsOwn bootstrap secret_file settings response.username document configs
        (ok_or-ok no_secret_file s) c)

pauses-bounded_from :
    (delay : ℕ) (turns : List Turn) → delay ≤ 30 → All (λ p. p ≤ 30) (pauses delay turns)
unfolding pauses pause delay_after next_retry_delay
pauses-bounded_from delay [] l = tt
pauses-bounded_from delay (not_ready ∷ turns) l =
    (l, pauses-bounded_from (min (delay * 2) 30) turns (ground arith))
pauses-bounded_from delay (stopped ∷ turns) l =
    (l, pauses-bounded_from (min (delay * 2) 30) turns (ground arith))
pauses-bounded_from delay (replaced ∷ turns) l =
    (omega arith, pauses-bounded_from 1 turns (omega arith))

-- However the rounds end, the loop never pauses for more than 30 seconds.
pauses-bounded : (turns : List Turn) → All (λ p. p ≤ 30) (pauses initial_retry_delay turns)
pauses-bounded turns = pauses-bounded_from 1 turns (omega arith)
