-- ===== src/Config/Expand/Shape.antt =====
-- The configuration that `expand_client_route` (shared/src/config.rs) makes of a route.
use lfp_pipe.Base.{
  ◌≡◌, refl, sym, ap, ap₂, subst, ◌∙◌, ok-injective, true, false, not, Option, none, some, List, [],
  ◌∷◌, map, arith, any, all, Result, ok, ok_or, bind-eq-ok, ensure-eq-ok, or_option, All,
  Option-cases, inl, inr,
}
use lfp_pipe.Text.Ascii.{Str}
use lfp_pipe.Text.White.{is_blank}
use lfp_pipe.Config.Authorization.{ClientAuthorizationConfig}
use lfp_pipe.Config.Backend.{BackendRule}
use lfp_pipe.Config.Client.{ClientConfig, ClientOAuthConfig, ClientAcmeConfig}
use lfp_pipe.Config.Layers.{
  ClientConfigDefaults, ClientRouteConfig, ClientPathRouteConfig, ClientOAuthDefaults,
  ClientAcmeDefaults,
}
use lfp_pipe.Config.Merge.{
  ConfigError, missing_nats_url, missing_backend_addr, merge_oauth_defaults, merge_acme_defaults,
  flatten_options, merge_authorization_layers, merge_authorization_defaults,
}
use lfp_pipe.Routing.Pattern.{matches_pattern}
use lfp_pipe.Routing.Select.{serves_host, select_backend_for_path, select_backend_for_path-none}
use lfp_pipe.Config.Expand.{route_pattern, path_rule, expand_path_routes, expand_client_route}

module _ (defaults route : Option ClientOAuthDefaults) (hostname : Str) where
  -- The ticket is for the host of the route, whatever the layers hold.
  hostname-merge_oauth :
      (o : ClientOAuthConfig)
      → merge_oauth_defaults defaults route hostname ≡ ok (some o)
      → o.hostname ≡ hostname
  unfolding merge_oauth_defaults
  hostname-merge_oauth o h = ground arith

module _ (defaults route : Option ClientAcmeDefaults) (hostname : Str) where
  domain-merge_acme :
      (a : ClientAcmeConfig)
      → merge_acme_defaults defaults route hostname ≡ ok (some a)
      → a.domain ≡ hostname
  unfolding merge_acme_defaults
  domain-merge_acme a h = ground arith

-- The rule list of an expanded route: all have the pattern of the route, the first alone has no prefix.
abbrev HasPattern : Str → BackendRule → Type 0
HasPattern pattern rule = rule.pattern ≡ pattern

module _ (defaults : ClientConfigDefaults) (route : ClientRouteConfig) where
  path_policy : ClientPathRouteConfig → Result ConfigError (Option ClientAuthorizationConfig)
  path_policy p =
      merge_authorization_layers
        (flatten_options (p.authorization ∷ route.authorization ∷ defaults.authorization ∷ []))

  path_rules-cons :
      (p : ClientPathRouteConfig) (ps : List ClientPathRouteConfig) (rules : List BackendRule)
      → expand_path_routes defaults route (p ∷ ps) ≡ ok rules
      → (rule : BackendRule) × (rest : List BackendRule) × (rules ≡ rule ∷ rest)
        × (expand_path_routes defaults route ps ≡ ok rest)
        × (rule.pattern ≡ route_pattern route)
        × (rule.path_prefix ≡ some p.path_prefix)
  unfolding expand_path_routes path_policy
  path_rules-cons p ps rules h =
      let (authorization, _, k) = bind-eq-ok (path_policy p) _ h in
      let (rest, e, q) = bind-eq-ok (expand_path_routes defaults route ps) _ k in
      (path_rule defaults route p authorization, rest, sym (ok-injective q), e, refl, refl)

  path_rules-nil :
      (rules : List BackendRule) → expand_path_routes defaults route [] ≡ ok rules → rules ≡ []
  unfolding expand_path_routes
  path_rules-nil rules h = cc

  path_rules-HasPattern :
      (path_routes : List ClientPathRouteConfig) (rules : List BackendRule)
      → expand_path_routes defaults route path_routes ≡ ok rules
      → All (HasPattern (route_pattern route)) rules
  path_rules-HasPattern [] rules h = rw (path_rules-nil rules h) tt
  path_rules-HasPattern (p ∷ ps) rules h =
      let (rule, rest, e, k, q, r) = path_rules-cons p ps rules h in
      rw e (q, path_rules-HasPattern ps rest k)

  path_rules-prefixes :
      (path_routes : List ClientPathRouteConfig) (rules : List BackendRule)
      → expand_path_routes defaults route path_routes ≡ ok rules
      → map (λ rule. rule.path_prefix) rules ≡ map (λ p. some p.path_prefix) path_routes
  path_rules-prefixes [] rules h = rw (path_rules-nil rules h) refl
  path_rules-prefixes (p ∷ ps) rules h =
      let (rule, rest, e, k, q, r) = path_rules-cons p ps rules h in
      rw e (ap₂ ◌∷◌ r (path_rules-prefixes ps rest k))

  -- What a client relies on of the configuration that a route becomes.
  pub record IsExpansion (config : ClientConfig) : Type 0 where
    pub client_id : config.client_id ≡ route.client_id
    pub client_id_given : is_blank route.client_id ≡ false
    pub hostname_given : is_blank route.hostname ≡ false
    pub ticket_host : (o : ClientOAuthConfig) → config.oauth ≡ some o → o.hostname ≡ route.hostname
    pub certificate_host : (a : ClientAcmeConfig) → config.acme ≡ some a → a.domain ≡ route.hostname
    pub patterns : All (HasPattern (route_pattern route)) config.backend_rules
    pub prefixes :
        map (λ rule. rule.path_prefix) config.backend_rules
        ≡ none ∷ map (λ p. some p.path_prefix) route.path_routes

  -- A route that expands has a client ID and a hostname. Its configuration has that client ID, asks for
  -- tickets and certificates for that hostname alone, whatever the shared defaults hold, and has one rule
  -- with no prefix and one for each path route, in their order, all with the pattern of the route.
  pub expand_client_route-IsExpansion :
      (config : ClientConfig) → expand_client_route defaults route ≡ ok config → IsExpansion config
  unfolding expand_client_route
  expand_client_route-IsExpansion config h =
      let (id_given, h1) = ensure-eq-ok (not (is_blank route.client_id)) _ _ h in
      let (host_given, h2) = ensure-eq-ok (not (is_blank route.hostname)) _ _ h1 in
      let (nats_url, _, h3) =
        bind-eq-ok (ok_or (or_option route.nats_url defaults.nats_url) missing_nats_url) _ h2 in
      let (backend_addr, _, h4) =
        bind-eq-ok (ok_or (or_option route.backend_addr defaults.backend_addr) missing_backend_addr)
          _ h3 in
      let (oauth, o, h5) =
        bind-eq-ok (merge_oauth_defaults defaults.oauth route.oauth route.hostname) _ h4 in
      let (acme, a, h6) =
        bind-eq-ok (merge_acme_defaults defaults.acme route.acme route.hostname) _ h5 in
      let (authorization, _, h7) =
        bind-eq-ok (merge_authorization_defaults defaults.authorization route.authorization) _ h6 in
      let (rules, r, h8) = bind-eq-ok (expand_path_routes defaults route route.path_routes) _ h7 in
      subst IsExpansion (ok-injective h8) (record {
        client_id = refl;
        client_id_given = ground arith;
        hostname_given = ground arith;
        ticket_host =
            λ x e. hostname-merge_oauth defaults.oauth route.oauth route.hostname x (o ∙ ap ok e);
        certificate_host =
            λ x e. domain-merge_acme defaults.acme route.acme route.hostname x (a ∙ ap ok e);
        patterns = (refl, path_rules-HasPattern route.path_routes rules r);
        prefixes = ap (◌∷◌ none) (path_rules-prefixes route.path_routes rules r);
      })

first_rule_serves :
    (pattern : Str) (hostname : Option Str) (rules : List BackendRule) (others : List (Option Str))
    → All (HasPattern pattern) rules
    → map (λ rule. rule.path_prefix) rules ≡ none ∷ others
    → matches_pattern pattern hostname ≡ true
    → any (serves_host hostname) rules ≡ true
unfolding serves_host
first_rule_serves pattern hostname [] others all e m = cc
first_rule_serves pattern hostname (r ∷ rules) others all e m = ground arith

-- Every path of every hostname that the route's pattern matches has a backend among the rules that the
-- route expands to.
pub expand_client_route-serves :
    (defaults : ClientConfigDefaults) (route : ClientRouteConfig) (config : ClientConfig)
    (hostname : Option Str) (path : Str)
    → expand_client_route defaults route ≡ ok config
    → matches_pattern (route_pattern route) hostname ≡ true
    → (r : BackendRule) × (select_backend_for_path config.backend_rules hostname path ≡ some r)
expand_client_route-serves defaults route config hostname path h m =
    elim (Option-cases (select_backend_for_path config.backend_rules hostname path)) [
      | inr found ↦ found
      | inl n ↦
          let x = expand_client_route-IsExpansion defaults route config h in
          let (_, nobody) = select_backend_for_path-none config.backend_rules hostname path n in
          cc (
            nobody,
            first_rule_serves (route_pattern route) hostname config.backend_rules _ x.patterns
                x.prefixes m,
          )
    ]
