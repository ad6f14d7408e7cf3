-- ===== src/Config/Ingress/Routes.antt =====
-- The conditions of `validate_ingress_config` (shared/src/config.rs).
use lfp_pipe.Base.{
  ◌≡◌, ◌≢◌, ◌↔◌, refl, ap, true, false, not, List, [], ◌∷◌, map, any, arith, All, ok, ensure-eq-ok,
  ensure-ok,
}
use lfp_pipe.Text.Ascii.{Str, str_eq, to_ascii_lowercase, Distinct}
use lfp_pipe.Text.White.{trim, is_empty, is_blank}
use lfp_pipe.Config.Ingress.{
  SniPassthroughRoute, IngressConfig, validate_routes, validate_ingress_config,
}

-- The name that a route is compared by.
abbrev pub route_name : SniPassthroughRoute → Str
route_name route = to_ascii_lowercase (trim route.hostname)

pub record IsRoute (route : SniPassthroughRoute) : Type 0 where
  pub named : route_name route ≢ []
  pub backed : is_blank route.backend_addr ≡ false

not_empty_iff : (s : Str) → (not (is_empty s) ≡ true) ↔ (s ≢ [])
not_empty_iff [] = (λ h e. cc, λ h. absurd (h refl))
not_empty_iff (x ∷ s) = (λ h e. cc, λ h. refl)

validate_routes_sound :
    (seen : List Str) (routes : List SniPassthroughRoute)
    → validate_routes seen routes ≡ ok tt
    → All IsRoute routes × Distinct seen (map route_name routes)
unfolding validate_routes
validate_routes_sound seen [] h = (tt, tt)
validate_routes_sound seen (route ∷ routes) h =
    let (named, h1) = ensure-eq-ok (not (is_empty (route_name route))) _ _ h in
    let (backed, h2) = ensure-eq-ok (not (is_blank route.backend_addr)) _ _ h1 in
    let (fresh, h3) = ensure-eq-ok (not (any (str_eq (route_name route)) seen)) _ _ h2 in
    let (rest, distinct) = validate_routes_sound (route_name route ∷ seen) routes h3 in
    (
      (record { named = (not_empty_iff (route_name route)).0 named; backed = ground arith }, rest),
      (ground arith, distinct),
    )

validate_routes_complete :
    (seen : List Str) (routes : List SniPassthroughRoute)
    → All IsRoute routes
    → Distinct seen (map route_name routes)
    → validate_routes seen routes ≡ ok tt
unfolding validate_routes
validate_routes_complete seen [] a d = refl
validate_routes_complete seen (route ∷ routes) a d =
    ensure-ok (not (is_empty (route_name route))) _ _
      ((not_empty_iff (route_name route)).1 a.0.named)
      (ensure-ok (not (is_blank route.backend_addr)) _ _ (ap not a.0.backed) (
        ensure-ok (not (any (str_eq (route_name route)) seen)) _ _ (ap not d.0)
          (validate_routes_complete (route_name route ∷ seen) routes a.1 d.1)))

-- An ingress configuration is accepted exactly if each passthrough route has a hostname and a backend,
-- and no two of them one hostname, up to ASCII case and white space at the ends.
pub validate_ingress_config_iff :
    (config : IngressConfig)
    → (validate_ingress_config config ≡ ok tt) ↔ (
        All IsRoute config.sni_passthrough_routes
        × Distinct [] (map route_name config.sni_passthrough_routes))
unfolding validate_ingress_config
validate_ingress_config_iff config = (
  validate_routes_sound [] config.sni_passthrough_routes,
  λ h. validate_routes_complete [] config.sni_passthrough_routes h.0 h.1,
)
