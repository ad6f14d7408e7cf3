-- ===== src/Examples/Web/Running.antt =====
-- Sessions of a client: their backends, a bridge, a ticket and an assigned configuration.
use lfp_pipe.Base.{◌≡◌, refl, true, false, none, some, List, [], ◌∷◌, inl, inr, ok, All, arith}
use lfp_pipe.Text.{codes}
use lfp_pipe.Text.Ascii
use lfp_pipe.Text.Ascii.{Str}
use lfp_pipe.Text.Affix
use lfp_pipe.Text.Split
use lfp_pipe.Text.White
use lfp_pipe.Config.Authorization
use lfp_pipe.Config.Authorization.{ClientAuthorizationConfig}
use lfp_pipe.Config.Backend
use lfp_pipe.Config.Backend.{BackendRule}
use lfp_pipe.Config.Client.{ClientConfig, ClientOAuthConfig, RelayMode}
use lfp_pipe.Config.Layers.{legacy}
use lfp_pipe.Config.Parse
use lfp_pipe.Config.Validate
use lfp_pipe.Routing.Pattern
use lfp_pipe.Ingress.Claims.{ConnectionRequest}
use lfp_pipe.Client.Paths
use lfp_pipe.Client.Jwt
use lfp_pipe.Client.Authorize
use lfp_pipe.Client.Authorize.{Authorizer, handles_endpoint}
use lfp_pipe.Client.Authorize.Load
use lfp_pipe.Client.Authorize.Load.{Boot}
use lfp_pipe.Client.Proxy.{BackendRuntime}
use lfp_pipe.Client.Runtime
use lfp_pipe.Client.Runtime.{backends_of}
use lfp_pipe.Client.Runtime.Endpoints
use lfp_pipe.Client.Runtime.Endpoints.{loader, backends_of-one_login}
use lfp_pipe.Client.Bridge
use lfp_pipe.Client.Bridge.{bridge, relay, timed_out}
use lfp_pipe.Client.Bridge.Inspected.{IsRelay, bridge-IsRelay}
use lfp_pipe.Client.OAuth
use lfp_pipe.Client.OAuth.{OAuthTicket, Services, oauth_round, connect}
use lfp_pipe.Client.OAuth.Renewal.{IsSession, oauth_round-IsSession}
use lfp_pipe.Client.Central
use lfp_pipe.Client.Central.{CentralClientBootstrap, CentralSnapshot, Plane, fetch_central_snapshot}
use lfp_pipe.Client.Central.Assigned.{IsOwn, fetch_central_snapshot-IsOwn}
use lfp_pipe.Examples.Web.{provider, jar, policy, attempt, keys, bearer, rule}

abbrev boot : Boot (List Str) Str Str Str
boot = record {
  home = some (codes "/root");
  http = true;
  attempt = attempt;
  cache = λ file. none;
  read_to_string = λ file. none;
  issuer_url = λ url. true;
  discover = λ issuer. some (issuer, provider);
  cookie_key = λ file. some jar;
  namespace = λ issuer client_id hostname. codes "0";
}

abbrev loaded : Authorizer (List Str) Str Str Str Str
loaded = record {
  config = policy;
  bearer = some (record bearer {
    keys = record { set = codes "k1" ∷ []; obtained_at = 1_000 };
    refresh = 20_000_000_001;
  });
  oidc = some (record {
    config = policy;
    hostname = codes "app.test";
    provider = provider;
    client_secret = none;
    cookie_key = jar;
    flow_cookie = codes "__Host-lfp_flow_0";
    session_cookie = codes "__Host-lfp_session_0";
  });
}

abbrev pub oauth : ClientOAuthConfig
oauth = record {
  token_url = codes "https://id.test/token";
  provider_client_id = codes "pipe";
  username = codes "other";
  client_secret_file = codes "/elsewhere";
  control_plane_url = codes "https://elsewhere.test";
  hostname = codes "app.test";
  scopes = codes "openid" ∷ [];
  renew_before_seconds = 60;
}

abbrev pub whole_rule : BackendRule
whole_rule = record rule {
  path_prefix = none;
  strip_path_prefix = false;
  proxy_headers = false;
  authorization = none;
}

abbrev pub config : ClientConfig
config = record {
  client_id = codes "c1";
  nats_url = codes "nats://n.test";
  nats_token_file = none;
  oauth = some oauth;
  acme = some (record {
    domain = codes "app.test";
    contacts = [];
    cache_dir = codes "/var/acme";
    production = false;
    directory_url = none;
  });
  authorization = some policy;
  tcp_passthrough = false;
  relay_mode = RelayMode.auto;
  request_subject = codes "req";
  claim_ack_timeout_ms = 1_500;
  backend_rules = rule ∷ whole_rule ∷ [];
}

abbrev runtimes : List (BackendRuntime (Authorizer (List Str) Str Str Str Str))
runtimes =
    record { rule = rule; authorization = some loaded }
    ∷ record { rule = whole_rule; authorization = some loaded }
    ∷ []

assembled : backends_of (loader keys (λ p host. boot)) config ≡ ok runtimes
unfolding Runtime.backends_of Runtime.backends_from Runtime.authorizer_for Runtime.load_policy
    Runtime.policy_of Runtime.same_policy Runtime.same_list Runtime.shares_endpoint
    Runtime.check_acme Endpoints.loader Load.load Load.load_jwt Load.load_oidc Load.initial_keys
    Load.load_cached_jwks Jwt.parse_algorithms Jwt.parse_algorithm Jwt.fetch_jwks Paths.expand_home
    Paths.join_path Ascii.str_eq Ascii.eq_ignore_ascii_case Ascii.to_ascii_lowercase
    Ascii.lower_byte Affix.strip_prefix Affix.starts_with Affix.ends_with White.trim
    Authorization.bearer_enabled Authorization.oidc_enabled
assembled = refl

handles : handles_endpoint loaded (codes "/cb") ≡ true
unfolding Authorize.handles_endpoint Ascii.str_eq
handles = refl

backends_of-one_login_example : loaded ≡ loaded
backends_of-one_login_example =
    backends_of-one_login keys (λ p host. boot) config runtimes
      (record { rule = rule; authorization = some loaded })
      (record { rule = whole_rule; authorization = some loaded }) loaded loaded (codes "/cb")
      assembled (inl refl) (inr (inl refl)) refl refl handles handles

abbrev pub connection : ConnectionRequest
connection = record {
  connection_id = codes "u1";
  hostname = some (codes "app.test");
  client_ip = none;
  tls = true;
  reply_subject = codes "_INBOX.1";
  ingress_callback_addr = codes "10.0.0.1:7443";
  deadline_unix_ms = 1_000;
}

abbrev pub raw_backend : BackendRuntime Str
raw_backend = record { rule = whole_rule; authorization = none }

relayed :
    bridge connection (raw_backend ∷ []) false true timed_out ≡ ok (relay (codes "127.0.0.1:8080"))
unfolding Bridge.bridge Bridge.by_protocol Bridge.to_fallback Bridge.is_fallback
    Bridge.runtime_matches Bridge.inspects_http Bridge.connection_is_plaintext_http
    Bridge.protocol_allowed Pattern.matches_pattern Backend.resolved_backend_addr
    Backend.resolve_loopback_shorthand White.trim Ascii.is_ascii_digit Ascii.str_eq
    Ascii.eq_ignore_ascii_case Ascii.to_ascii_lowercase Ascii.lower_byte Affix.starts_with
    Affix.strip_prefix
relayed = refl

bridge-IsRelay_example :
    IsRelay connection (raw_backend ∷ []) false true timed_out (codes "127.0.0.1:8080")
bridge-IsRelay_example =
    bridge-IsRelay connection (raw_backend ∷ []) false true timed_out (codes "127.0.0.1:8080")
      relayed

abbrev ticket : OAuthTicket
ticket = record {
  token = codes "t";
  expires_unix = 1_600;
  client_id = codes "c1";
  request_subject = codes "req.app";
  nats_urls = codes "wss://n.test" ∷ [];
}

renewed :
    oauth_round (codes "c1") oauth (ok ticket) 1_000
    ≡ connect (codes "wss://n.test") (codes "t") (codes "req.app") 540
unfolding OAuth.oauth_round OAuth.renew_after_of Ascii.str_eq
renewed = refl

oauth_round-IsSession_example :
    IsSession (codes "c1") ticket 1_000 (codes "wss://n.test") (codes "t") (codes "req.app") 540
oauth_round-IsSession_example =
    oauth_round-IsSession (codes "c1") oauth ticket 1_000 (codes "wss://n.test") (codes "t")
      (codes "req.app") 540 (omega arith) (omega arith) renewed

abbrev services : Services
services = record {
  read_to_string = λ file. some (codes "secret");
  post_form = λ url fields. some (codes "access");
  post_ticket = λ url token request. none;
  decode = λ s. some s;
  exp_of = λ s. none;
}

abbrev plain : ClientConfig
plain = record config { acme = none; authorization = none; backend_rules = whole_rule ∷ [] }

abbrev plane : Plane
plane = record {
  services = services;
  get_settings = λ url. some (record {
    token_url = codes "https://id.test/t";
    provider_client_id = codes "p";
    scopes = [];
  });
  get_config = λ url revision token.
      some (record { config_toml = codes "x"; config_revision = none; username = codes "machine" });
  from_toml = λ raw. some (legacy plain);
  to_vec = λ configs. some [];
}

abbrev bootstrap : CentralClientBootstrap
bootstrap = record {
  control_plane_url = codes "https://cp.test";
  control_plane_config = true;
  username = some (codes "machine");
  client_secret_file = some (codes "/secret");
}

abbrev snapshot : CentralSnapshot
snapshot = record {
  configs =
      record plain {
        oauth = some (record oauth {
          username = codes "machine";
          client_secret_file = codes "/secret";
          token_url = codes "https://id.test/t";
          provider_client_id = codes "p";
          control_plane_url = codes "https://cp.test";
          scopes = [];
        });
      }
      ∷ [];
  revision = codes "unreported";
}

taken : fetch_central_snapshot plane bootstrap none ≡ ok snapshot
unfolding Central.fetch_central_snapshot Central.central_access Central.config_response
    Central.hydrate Central.hydrated OAuth.obtain_access_token White.trim Split.join
    Parse.parse_client_configs Parse.configs_of Parse.inherit_rule Parse.validate_configs
    Validate.validate_client_config Affix.trim_end_matches Validate.validate_rules
    Validate.validate_prefix
taken = refl

fetch_central_snapshot-IsOwn_example : All (IsOwn bootstrap) snapshot.configs
fetch_central_snapshot-IsOwn_example =
    fetch_central_snapshot-IsOwn plane bootstrap none snapshot taken
