-- ===== src/Client/Central.antt =====
-- client/src/config_source.rs: the configuration that a control plane assigns, its replacement and the
-- back-off of the loop `run_central_with_reporter`. A delay is in seconds.
pub mod Assigned
use lfp_pipe.Base.{
  ℕ, ◌+◌, ◌*◌, Bool, true, false, not, ◌||◌, Option, none, some, List, [], ◌∷◌, ◌++◌, min, length,
  unwrap_or, if◌then◌else◌, Result, ok, err, ok_or, ensure, ◌>>=◌, ◌>>◌,
}
use lfp_pipe.Text.{codes}
use lfp_pipe.Text.Ascii.{Str, str_eq}
use lfp_pipe.Text.Affix.{trim_end_matches}
use lfp_pipe.Config.Client.{ClientConfig, ClientOAuthConfig}
use lfp_pipe.Config.Layers.{ClientConfigDocument}
use lfp_pipe.Config.Merge.{ConfigError}
use lfp_pipe.Config.Parse.{parse_client_configs}
use lfp_pipe.Client.OAuth.{Services, OAuthError, obtain_access_token}

pub record CentralClientBootstrap : Type 0 where
  pub control_plane_url : Str
  pub control_plane_config : Bool
  pub username : Option Str
  pub client_secret_file : Option Str

pub record CentralResponse : Type 0 where
  pub config_toml : Str
  pub config_revision : Option Str
  pub username : Str

pub record CentralSettings : Type 0 where
  pub token_url : Str
  pub provider_client_id : Str
  pub scopes : List Str

pub record CentralSnapshot : Type 0 where
  pub configs : List ClientConfig
  pub revision : Str

pub data CentralError : Type 0 where
  no_secret_file no_username no_settings no_response no_oauth not_encoded : CentralError
  not_authenticated : OAuthError → CentralError
  bad_document : ConfigError → CentralError

-- The control plane, by the answers to the two requests, and the parser and serializer of configurations.
-- `get_config` has the address, the applied revision and the access token.
pub record Plane : Type 0 where
  pub services : Services
  pub get_settings : Str → Option CentralSettings
  pub get_config : Str → Option Str → Str → Option CentralResponse
  pub from_toml : Str → Option ClientConfigDocument
  pub to_vec : List ClientConfig → Option Str

abbrev pub initial_retry_delay : ℕ
initial_retry_delay = 1

abbrev pub max_retry_delay : ℕ
max_retry_delay = 30

unfoldable pub next_retry_delay : ℕ → ℕ
next_retry_delay current = min (current * 2) max_retry_delay

abbrev authenticated {ℓ} : {A : Type ℓ} → Result OAuthError A → Result CentralError A
authenticated (ok a) = ok a
authenticated (err e) = err (not_authenticated e)

abbrev pub parsed {ℓ} : {A : Type ℓ} → Result ConfigError A → Result CentralError A
parsed (ok a) = ok a
parsed (err e) = err (bad_document e)

unfoldable pub central_access :
    Plane → CentralClientBootstrap → Result CentralError (CentralSettings × Str)
central_access plane bootstrap = do
  username ← ok_or bootstrap.username no_username
  secret_file ← ok_or bootstrap.client_secret_file no_secret_file
  settings ←
      ok_or
        (plane.get_settings
          (trim_end_matches b'/' bootstrap.control_plane_url ++ codes "/api/client-settings"))
        no_settings
  token ← authenticated (
      obtain_access_token plane.services settings.token_url settings.provider_client_id username
        secret_file settings.scopes)
  ok (settings, token)

-- The credentials of the machine in place of those of the document.
unfoldable pub hydrated :
    CentralClientBootstrap → Str → CentralSettings → Str → ClientOAuthConfig → ClientOAuthConfig
hydrated bootstrap secret_file settings username oauth = record oauth {
  username = username;
  client_secret_file = secret_file;
  token_url = settings.token_url;
  provider_client_id = settings.provider_client_id;
  control_plane_url = bootstrap.control_plane_url;
  scopes = settings.scopes;
}

unfoldable pub hydrate :
    CentralClientBootstrap
    → Str
    → CentralSettings
    → Str
    → List ClientConfig
    → Result CentralError (List ClientConfig)
hydrate bootstrap secret_file settings username [] = ok []
hydrate bootstrap secret_file settings username (config ∷ configs) = do
  oauth ← ok_or config.oauth no_oauth
  rest ← hydrate bootstrap secret_file settings username configs
  ok (
      record config { oauth = some (hydrated bootstrap secret_file settings username oauth) }
      ∷ rest)

-- The request for the document.
unfoldable pub config_response :
    Plane → CentralClientBootstrap → Option Str → Str → Option CentralResponse
config_response plane bootstrap applied_revision access_token =
    plane.get_config
      (trim_end_matches b'/' bootstrap.control_plane_url ++ codes "/api/client-config")
      applied_revision access_token

unfoldable pub fetch_central_snapshot :
    Plane → CentralClientBootstrap → Option Str → Result CentralError CentralSnapshot
fetch_central_snapshot plane bootstrap applied_revision = do
  secret_file ← ok_or bootstrap.client_secret_file no_secret_file
  (settings, access_token) ← central_access plane bootstrap
  response ← ok_or (config_response plane bootstrap applied_revision access_token) no_response
  document ← parsed (parse_client_configs plane.from_toml response.config_toml)
  configs ← hydrate bootstrap secret_file settings response.username document
  ok (record {
    configs = configs;
    revision = unwrap_or response.config_revision (codes "unreported");
  })

-- What an update does to the active routes: it replaces them, keeps them, or ends the program where the
-- new ones cannot be encoded.
pub data Update : Type 0 where
  replace keep fail : Update

abbrev differs : Str → Option Str → Update
differs fingerprint none = fail
differs fingerprint (some bytes) = if str_eq bytes fingerprint then keep else replace

unfoldable pub on_update :
    Plane → CentralSnapshot → Str → Result CentralError CentralSnapshot → Update
on_update plane active fingerprint (err e) = keep
on_update plane active fingerprint (ok next) =
    if not (str_eq next.revision active.revision)
    then replace
    else differs fingerprint (plane.to_vec next.configs)

-- The rounds of the loop: a fetch that fails, routes that stop by themselves, and routes that are
-- replaced. `pause` is the sleep behind a round, and `delay` that of the next one.
pub data Turn : Type 0 where
  not_ready stopped replaced : Turn

unfoldable pub pause : ℕ → Turn → ℕ
pause delay not_ready = delay
pause delay stopped = delay
pause delay replaced = 0

unfoldable pub delay_after : ℕ → Turn → ℕ
delay_after delay not_ready = next_retry_delay delay
delay_after delay stopped = next_retry_delay delay
delay_after delay replaced = initial_retry_delay

-- The pauses of a run.
unfoldable pub pauses : ℕ → List Turn → List ℕ
pauses delay [] = []
pauses delay (t ∷ turns) = pause delay t ∷ pauses (delay_after delay t) turns
