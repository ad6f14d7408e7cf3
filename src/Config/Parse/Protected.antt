-- ===== src/Config/Parse/Protected.antt =====
-- `parse_client_configs` (shared/src/config.rs) and the policies of path rules.
use lfp_pipe.Base.{
  ◌≡◌, ◌≢◌, refl, subst, true, not, ◌&&◌, Option, some, List, [], ◌∷◌, arith, map, is_some, All,
  Bool-cases, inl, inr, ok, ok_or, bind-eq-ok, ok-injective,
}
use lfp_pipe.Text.Ascii.{Str}
use lfp_pipe.Config.Authorization.{ClientAuthorizationConfig}
use lfp_pipe.Config.Backend.{BackendRule}
use lfp_pipe.Config.Client.{ClientConfig}
use lfp_pipe.Config.Layers.{
  ClientConfigDocument, ClientConfigDefaults, ClientRouteConfig, multi_route, legacy,
}
use lfp_pipe.Config.Merge.{bad_toml}
use lfp_pipe.Config.Expand.Document.{Expands, expand_client_routes_iff}
use lfp_pipe.Config.Validate.{validate_client_config}
use lfp_pipe.Config.Validate.Rules.{IsValidClient, validate_client_config_iff}
use lfp_pipe.Config.Parse.{
  inherit_rule, inherit_rules, configs_of, validate_configs, parse_client_configs,
}

validate_configs_sound :
    (configs : List ClientConfig) → validate_configs configs ≡ ok tt → All IsValidClient configs
unfolding validate_configs
validate_configs_sound [] h = tt
validate_configs_sound (config ∷ configs) h =
    let (u, v, k) = bind-eq-ok (validate_client_config config) _ h in
    ((validate_client_config_iff config).0 v, validate_configs_sound configs k)

Expands-some :
    (defaults : ClientConfigDefaults) (routes : List ClientRouteConfig)
    (configs : List ClientConfig)
    → routes ≢ []
    → Expands defaults routes configs
    → configs ≢ []
Expands-some defaults [] configs ne x = absurd (ne refl)
Expands-some defaults (r ∷ rs) [] ne x = elim x [ ]
Expands-some defaults (r ∷ rs) (c ∷ cs) ne x = λ e. cc

configs_of-some :
    (document : ClientConfigDocument) (configs : List ClientConfig)
    → configs_of document ≡ ok configs
    → configs ≢ []
unfolding configs_of
configs_of-some (legacy config) configs h = λ e. cc (ok-injective h, e)
configs_of-some (multi_route document) configs h =
    let (ne, d, x) = (expand_client_routes_iff document configs).0 h in
    Expands-some document.defaults document.routes configs ne x

-- A document that parses gives at least one configuration, and each of them is valid.
pub parse_client_configs_sound :
    (from_toml : Str → Option ClientConfigDocument) (raw : Str) (configs : List ClientConfig)
    → parse_client_configs from_toml raw ≡ ok configs
    → (configs ≢ []) × All IsValidClient configs
unfolding parse_client_configs
parse_client_configs_sound from_toml raw configs h =
    let (document, d, h1) = bind-eq-ok (ok_or (from_toml raw) bad_toml) _ h in
    let (found, c, h2) = bind-eq-ok (configs_of document) _ h1 in
    let (u, v, h3) = bind-eq-ok (validate_configs found) _ h2 in
    subst (λ l. (l ≢ []) × All IsValidClient l) (ok-injective h3)
      (configs_of-some document found c, validate_configs_sound found v)

-- A path rule with a policy.
abbrev pub IsProtected : BackendRule → Type 0
IsProtected rule = is_some rule.path_prefix ≡ true → is_some rule.authorization ≡ true

inherit_rule-IsProtected :
    (a : ClientAuthorizationConfig) (rule : BackendRule) → IsProtected (inherit_rule (some a) rule)
unfolding inherit_rule
inherit_rule-IsProtected a rule =
    elim (Bool-cases (is_some rule.path_prefix && not (is_some rule.authorization))) [
      | inl e ↦ rw e (λ h. refl)
      | inr e ↦ rw e (λ h. ground arith)
    ]

inherit_rules-IsProtected :
    (a : ClientAuthorizationConfig) (rules : List BackendRule)
    → All IsProtected (map (inherit_rule (some a)) rules)
inherit_rules-IsProtected a [] = tt
inherit_rules-IsProtected a (rule ∷ rules) =
    (inherit_rule-IsProtected a rule, inherit_rules-IsProtected a rules)

-- In a document of one client that has a policy no path rule is left without one.
pub parse_client_configs-IsProtected :
    (from_toml : Str → Option ClientConfigDocument) (raw : Str) (client : ClientConfig)
    (a : ClientAuthorizationConfig) (configs : List ClientConfig)
    → from_toml raw ≡ some (legacy client)
    → client.authorization ≡ some a
    → parse_client_configs from_toml raw ≡ ok configs
    → All (λ config. All IsProtected config.backend_rules) configs
unfolding parse_client_configs configs_of
parse_client_configs-IsProtected from_toml raw client a configs t p h =
    let (u, v, q) = bind-eq-ok (validate_configs (inherit_rules client ∷ [])) _ (rw t at h) in
    subst (All (λ config. All IsProtected config.backend_rules)) (ok-injective q)
      (rw p (inherit_rules-IsProtected a client.backend_rules), tt)
