-- ===== src/Examples/Parse.antt =====
-- A document of one client with a policy, a path rule and a rule for the rest of the host.
use lfp_pipe.Base.{◌≡◌, ◌≢◌, refl, true, false, Option, none, some, [], ◌∷◌, All, ok}
use lfp_pipe.Text.{codes}
use lfp_pipe.Text.Ascii
use lfp_pipe.Text.Ascii.{Str}
use lfp_pipe.Text.Affix
use lfp_pipe.Text.White
use lfp_pipe.Config.Authorization
use lfp_pipe.Config.Authorization.{ClientAuthorizationConfig}
use lfp_pipe.Config.Backend.{BackendRule}
use lfp_pipe.Config.Client.{ClientConfig, RelayMode}
use lfp_pipe.Config.Layers.{ClientConfigDocument, legacy}
use lfp_pipe.Config.Merge.{authorization_of}
use lfp_pipe.Config.Validate
use lfp_pipe.Config.Validate.Rules.{IsValidClient}
use lfp_pipe.Config.Parse.{inherit_rule, configs_of, validate_configs, parse_client_configs}
use lfp_pipe.Config.Parse.Protected.{
  IsProtected, parse_client_configs_sound, parse_client_configs-IsProtected,
}
use lfp_pipe.Examples.Config.{web_login}

policy : ClientAuthorizationConfig
policy = authorization_of (codes "https://id.test") (web_login ∷ [])

abbrev rule : Option Str → Option ClientAuthorizationConfig → BackendRule
rule path_prefix authorization = record {
  pattern = codes "app.test";
  path_prefix = path_prefix;
  strip_path_prefix = false;
  proxy_headers = true;
  backend_addr = codes "3000";
  backend_host = none;
  http_backend_addr = none;
  authorization = authorization;
}

abbrev client_with : Option ClientAuthorizationConfig → ClientConfig
client_with inherited = record {
  client_id = codes "c1";
  nats_url = codes "nats://n.test";
  nats_token_file = none;
  oauth = none;
  acme = some (record {
    domain = codes "app.test";
    contacts = [];
    cache_dir = codes "acme";
    production = false;
    directory_url = none;
  });
  authorization = some policy;
  tcp_passthrough = true;
  relay_mode = RelayMode.auto;
  request_subject = codes "req";
  claim_ack_timeout_ms = 1_500;
  backend_rules = rule (some (codes "/api")) inherited ∷ rule none none ∷ [];
}

-- A parser that reads this document from any text.
from_toml : Str → Option ClientConfigDocument
from_toml raw = some (legacy (client_with none))

read : from_toml [] ≡ some (legacy (client_with none))
unfolding from_toml
read = refl

parsed : parse_client_configs from_toml [] ≡ ok (client_with (some policy) ∷ [])
unfolding from_toml policy authorization_of parse_client_configs configs_of validate_configs
    inherit_rule Validate.validate_client_config Validate.validate_rules Validate.validate_prefix
    Validate.validate_authorization Validate.validate_bearer Validate.validate_oidc
    Authorization.bearer_enabled Authorization.oidc_enabled Ascii.str_eq Affix.starts_with
    Affix.contains White.trim White.trim_start White.trim_end
parsed = refl

parse_client_configs_sound_example :
    (client_with (some policy) ∷ [] ≢ []) × All IsValidClient (client_with (some policy) ∷ [])
parse_client_configs_sound_example =
    parse_client_configs_sound from_toml [] (client_with (some policy) ∷ []) parsed

parse_client_configs-IsProtected_example :
    All (λ config. All IsProtected config.backend_rules) (client_with (some policy) ∷ [])
parse_client_configs-IsProtected_example =
    parse_client_configs-IsProtected from_toml [] (client_with none) policy
      (client_with (some policy) ∷ []) read refl parsed
