-- ===== src/Config/Validate/Rules.antt =====
-- The conditions of `validate_client_config` (shared/src/config.rs), rule by rule and as a whole.
use lfp_pipe.Base.{
  ◌≡◌, ◌↔◌, ◌⊎◌, inl, inr, Bool-cases, refl, ap, sym, subst, ok-injective, Bool, true, false, not,
  ◌&&◌, ◌||◌, ◌==◌, Option, none, some, List, [], ◌∷◌, any, is_some, arith, All, ok, bind-eq-ok,
  ensure-eq-ok, ensure-ok,
}
use lfp_pipe.Text.{codes}
use lfp_pipe.Text.Ascii.{Str, str_eq, Distinct}
use lfp_pipe.Text.Affix.{starts_with}
use lfp_pipe.Config.Authorization.{ClientAuthorizationConfig}
use lfp_pipe.Config.Backend.{BackendRule}
use lfp_pipe.Config.Client.{ClientConfig}
use lfp_pipe.Config.Validate.{
  has_query, validate_policy, validate_prefix, validate_rules, has_path_routes, has_authorization,
  fallback_count, validate_client_config,
}
use lfp_pipe.Config.Validate.Sound.{
  IsPolicy, validate_authorization_sound, validate_authorization_complete,
}

abbrev pub prefix_onto : Option Str → List Str → List Str
prefix_onto none ps = ps
prefix_onto (some p) ps = p ∷ ps

abbrev pub rule_prefixes : List BackendRule → List Str
rule_prefixes [] = []
rule_prefixes (rule ∷ rules) = prefix_onto rule.path_prefix (rule_prefixes rules)

abbrev pub prefix_is_formed : Option Str → Bool
prefix_is_formed none = true
prefix_is_formed (some prefix) = starts_with prefix (codes "/") && not (has_query prefix)

abbrev pub IsOptionalPolicy : Option ClientAuthorizationConfig → Type 0
IsOptionalPolicy none = Unit
IsOptionalPolicy (some a) = IsPolicy a

-- What each rule of a validated configuration satisfies by itself.
pub record IsRule (rule : BackendRule) : Type 0 where
  pub formed : prefix_is_formed rule.path_prefix ≡ true
  pub policy : IsOptionalPolicy rule.authorization

validate_policy_sound :
    (o : Option ClientAuthorizationConfig) → validate_policy o ≡ ok tt → IsOptionalPolicy o
validate_policy_sound none h = tt
validate_policy_sound (some a) h = validate_authorization_sound a h

validate_policy_complete :
    (o : Option ClientAuthorizationConfig) → IsOptionalPolicy o → validate_policy o ≡ ok tt
validate_policy_complete none h = refl
validate_policy_complete (some a) h = validate_authorization_complete a h

validate_prefix_sound :
    (seen : List Str) (o : Option Str) (after : List Str) (others : List Str)
    → validate_prefix seen o ≡ ok after
    → Distinct after others
    → (prefix_is_formed o ≡ true) × Distinct seen (prefix_onto o others)
unfolding validate_prefix
validate_prefix_sound seen none after others h d =
    (refl, subst (λ s. Distinct s others) (sym (ok-injective h)) d)
validate_prefix_sound seen (some p) after others h d =
    let (h1, k1) = ensure-eq-ok (starts_with p (codes "/") && not (has_query p)) _ _ h in
    let (h2, k2) = ensure-eq-ok (not (any (str_eq p) seen)) _ _ k1 in
    (h1, (ground arith, subst (λ s. Distinct s others) (sym (ok-injective k2)) d))

-- The prefixes seen behind one rule.
abbrev seen_after : List Str → Option Str → List Str
seen_after seen none = seen
seen_after seen (some p) = p ∷ seen

validate_prefix_complete :
    (seen : List Str) (o : Option Str) (others : List Str)
    → prefix_is_formed o ≡ true
    → Distinct seen (prefix_onto o others)
    → (validate_prefix seen o ≡ ok (seen_after seen o)) × Distinct (seen_after seen o) others
unfolding validate_prefix
validate_prefix_complete seen none others h d = (refl, d)
validate_prefix_complete seen (some p) others h d = (
  ensure-ok (starts_with p (codes "/") && not (has_query p)) _ _ h
      (ensure-ok (not (any (str_eq p) seen)) _ _ (ap not d.0) refl),
  d.1,
)

validate_rules_sound :
    (seen : List Str) (rules : List BackendRule)
    → validate_rules seen rules ≡ ok tt
    → All IsRule rules × Distinct seen (rule_prefixes rules)
unfolding validate_rules
validate_rules_sound seen [] h = (tt, tt)
validate_rules_sound seen (r ∷ rs) h =
    let (after, h1, k1) = bind-eq-ok (validate_prefix seen r.path_prefix) _ h in
    let (_, h2, k2) = bind-eq-ok (validate_policy r.authorization) _ k1 in
    let (all, d) = validate_rules_sound after rs k2 in
    let (f, e) = validate_prefix_sound seen r.path_prefix after (rule_prefixes rs) h1 d in
    ((record { formed = f; policy = validate_policy_sound r.authorization h2 }, all), e)

validate_rules_complete :
    (seen : List Str) (rules : List BackendRule)
    → All IsRule rules
    → Distinct seen (rule_prefixes rules)
    → validate_rules seen rules ≡ ok tt
unfolding validate_rules
validate_rules_complete seen [] a d = refl
validate_rules_complete seen (r ∷ rs) a d =
    let (f, e) = validate_prefix_complete seen r.path_prefix (rule_prefixes rs) a.0.formed d in
    rw (f, validate_policy_complete r.authorization a.0.policy)
      (validate_rules_complete (seen_after seen r.path_prefix) rs a.1 e)

-- No rule has a path prefix, and no policy stands in the configuration or in a rule of it.
pub record NeedsNoReading (config : ClientConfig) : Type 0 where
  pub no_path : All (λ r. r.path_prefix ≡ none) config.backend_rules
  pub no_policy : config.authorization ≡ none
  pub no_rule_policy : All (λ r. r.authorization ≡ none) config.backend_rules

-- What the runtime relies on of a validated configuration.
pub record IsValidClient (config : ClientConfig) : Type 0 where
  pub inspected : NeedsNoReading config ⊎ (is_some config.acme ≡ true)
  pub one_fallback :
      All (λ r. r.path_prefix ≡ none) config.backend_rules
      ⊎ (fallback_count config.backend_rules ≡ 1)
  pub rules : All IsRule config.backend_rules
  pub prefixes : Distinct [] (rule_prefixes config.backend_rules)
  pub policy : IsOptionalPolicy config.authorization

none_of : {A : Type 0} (o : Option A) → is_some o ≡ false → o ≡ none
none_of none e = refl
none_of (some a) e = cc

module _ {A : Type 0} (field_of : BackendRule → Option A) where
  none_of_any :
      (rules : List BackendRule)
      → any (λ r. is_some (field_of r)) rules ≡ false
      → All (λ r. field_of r ≡ none) rules
  none_of_any [] e = tt
  none_of_any (r ∷ rules) e =
      (none_of (field_of r) (ground arith), none_of_any rules (ground arith))

  any-none :
      (rules : List BackendRule)
      → All (λ r. field_of r ≡ none) rules
      → any (λ r. is_some (field_of r)) rules ≡ false
  any-none [] h = refl
  any-none (r ∷ rules) h = rw (h.0, any-none rules h.1) refl

unread :
    (config : ClientConfig)
    → has_path_routes config.backend_rules ≡ false
    → has_authorization config ≡ false
    → NeedsNoReading config
unread config p a = record {
  no_path = none_of_any (λ r. r.path_prefix) config.backend_rules p;
  no_policy = none_of config.authorization (ground arith);
  no_rule_policy = none_of_any (λ r. r.authorization) config.backend_rules (ground arith);
}

inspected_test :
    (config : ClientConfig)
    → NeedsNoReading config ⊎ (is_some config.acme ≡ true)
    → not (has_path_routes config.backend_rules) && not (has_authorization config)
        || is_some config.acme
      ≡ true
inspected_test config (inl n) =
    rw
      (
        any-none (λ r. r.path_prefix) config.backend_rules n.no_path,
        n.no_policy,
        any-none (λ r. r.authorization) config.backend_rules n.no_rule_policy,
      )
      refl
inspected_test config (inr e) = ground arith

fallback_test :
    (rules : List BackendRule)
    → All (λ r. r.path_prefix ≡ none) rules ⊎ (fallback_count rules ≡ 1)
    → not (has_path_routes rules) || fallback_count rules == 1 ≡ true
fallback_test rules (inl a) = rw (any-none (λ r. r.path_prefix) rules a) refl
fallback_test rules (inr e) = ground arith

-- A client configuration is accepted exactly if it terminates TLS wherever a path or a policy has to be
-- read, has one rule without a prefix beside path rules, distinct prefixes that begin with a slash and
-- hold no query, and sound policies.
pub validate_client_config_iff :
    (config : ClientConfig) → (validate_client_config config ≡ ok tt) ↔ IsValidClient config
unfolding validate_client_config
validate_client_config_iff config = (to, from)
  where
    rules : List BackendRule
    rules = config.backend_rules

    inspect : Bool
    inspect = not (has_path_routes rules) && not (has_authorization config) || is_some config.acme

    single : Bool
    single = not (has_path_routes rules) || fallback_count rules == 1

    to : validate_client_config config ≡ ok tt → IsValidClient config
    to h =
        let (h1, k1) = ensure-eq-ok inspect _ _ h in
        let (h2, k2) = ensure-eq-ok single _ _ k1 in
        let (_, h3, k3) = bind-eq-ok (validate_rules [] rules) _ k2 in
        let (a, d) = validate_rules_sound [] rules h3 in
        record {
          inspected = elim (Bool-cases (is_some config.acme)) [
            | inl e ↦ inr e
            | inr e ↦ inl (unread config (ground arith) (ground arith))
          ];
          one_fallback = elim (Bool-cases (has_path_routes rules)) [
            | inl e ↦ inr (ground arith)
            | inr e ↦ inl (none_of_any (λ r. r.path_prefix) rules e)
          ];
          rules = a;
          prefixes = d;
          policy = validate_policy_sound config.authorization k3;
        }

    from : IsValidClient config → validate_client_config config ≡ ok tt
    from v = ensure-ok inspect _ _ (inspected_test config v.inspected) (
        ensure-ok single _ _ (fallback_test rules v.one_fallback) (
          rw (validate_rules_complete [] rules v.rules v.prefixes)
            (validate_policy_complete config.authorization v.policy)))
