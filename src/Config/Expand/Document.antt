-- ===== src/Config/Expand/Document.antt =====
-- `expand_client_routes` (shared/src/config.rs) on a whole document.
use lfp_pipe.Base.{
  ℕ, ◌+◌, ◌≡◌, refl, subst, ap, not, List, [], ◌∷◌, map, any, arith, Result, ok, err, ok-injective,
  bind-eq-ok, ensure-eq-ok, ensure-ok, ◌↔◌, ◌≢◌,
}
use lfp_pipe.Text.Ascii.{Str, str_eq, Distinct}
use lfp_pipe.Text.White.{is_empty}
use lfp_pipe.Config.Client.{ClientConfig}
use lfp_pipe.Config.Layers.{ClientConfigDefaults, ClientRouteConfig, MultiRouteClientConfig}
use lfp_pipe.Config.Merge.{ConfigError}
use lfp_pipe.Config.Expand.{with_route, expand_client_route, expand_from, expand_client_routes}

-- One configuration for each route, in their order, each the expansion of its own route.
pub data Expands (defaults : ClientConfigDefaults)
    : List ClientRouteConfig → List ClientConfig → Type 0 where
  done : Expands defaults [] []
  route :
      {r : ClientRouteConfig} {c : ClientConfig} {rs : List ClientRouteConfig}
      {cs : List ClientConfig}
      → expand_client_route defaults r ≡ ok c
      → Expands defaults rs cs
      → Expands defaults (r ∷ rs) (c ∷ cs)

with_route-ok :
    {A : Type 0} (n : ℕ) (m : Result ConfigError A) {a : A} → with_route n m ≡ ok a → m ≡ ok a
with_route-ok n (ok a) h = h
with_route-ok n (err e) h = cc

ids : List ClientRouteConfig → List Str
ids = map (λ r. r.client_id)

expand_from-ok :
    (defaults : ClientConfigDefaults) (n : ℕ) (seen : List Str) (routes : List ClientRouteConfig)
    (configs : List ClientConfig)
    → expand_from defaults n seen routes ≡ ok configs
    → Expands defaults routes configs × Distinct seen (ids routes)
unfolding expand_from ids
expand_from-ok defaults n seen [] configs h =
    (subst (Expands defaults []) (ok-injective h) done, tt)
expand_from-ok defaults n seen (r ∷ rs) configs h =
    let (fresh, h1) = ensure-eq-ok (not (any (str_eq r.client_id) seen)) _ _ h in
    let (c, e, h2) = bind-eq-ok (with_route n (expand_client_route defaults r)) _ h1 in
    let (cs, f, h3) = bind-eq-ok (expand_from defaults (n + 1) (r.client_id ∷ seen) rs) _ h2 in
    let (x, d) = expand_from-ok defaults (n + 1) (r.client_id ∷ seen) rs cs f in
    (
      subst (Expands defaults (r ∷ rs)) (ok-injective h3) (route (with_route-ok n _ e) x),
      (ground arith, d),
    )

with_route_ok-expand :
    (defaults : ClientConfigDefaults) (n : ℕ) (r : ClientRouteConfig) {c : ClientConfig}
    → expand_client_route defaults r ≡ ok c
    → with_route n (expand_client_route defaults r) ≡ ok c
with_route_ok-expand defaults n r e = rw e

expand_from_complete :
    (defaults : ClientConfigDefaults) (n : ℕ) (seen : List Str) (routes : List ClientRouteConfig)
    (configs : List ClientConfig)
    → Expands defaults routes configs
    → Distinct seen (ids routes)
    → expand_from defaults n seen routes ≡ ok configs
unfolding expand_from ids
expand_from_complete defaults n seen [] [] done d = refl
expand_from_complete defaults n seen [] (c ∷ cs) x d = elim x [ ]
expand_from_complete defaults n seen (r ∷ rs) [] x d = elim x [ ]
expand_from_complete defaults n seen (r ∷ rs) (c ∷ cs) (route e x) d =
    let rest = expand_from_complete defaults (n + 1) (r.client_id ∷ seen) rs cs x d.1 in
    ensure-ok (not (any (str_eq r.client_id) seen)) _ _ (ground arith)
      (rw (with_route_ok-expand defaults n r e, rest) refl)

-- A document expands exactly if it has a route, no client ID twice, and routes that all expand; the
-- configurations are those of its routes, in their order.
pub expand_client_routes_iff :
    (document : MultiRouteClientConfig) (configs : List ClientConfig)
    → (expand_client_routes document ≡ ok configs) ↔ (
        (document.routes ≢ [])
        × Distinct [] (map (λ r. r.client_id) document.routes)
        × Expands document.defaults document.routes configs)
unfolding expand_client_routes ids
expand_client_routes_iff document configs = (to, from)
  where
    to :
        expand_client_routes document ≡ ok configs
        → (document.routes ≢ [])
          × Distinct [] (map (λ r. r.client_id) document.routes)
          × Expands document.defaults document.routes configs
    to h =
        let (some_route, h1) = ensure-eq-ok (not (is_empty document.routes)) _ _ h in
        let (x, d) = expand_from-ok document.defaults 1 [] document.routes configs h1 in
        (λ e. cc (some_route, ap is_empty e), d, x)

    from :
        (document.routes ≢ [])
          × Distinct [] (map (λ r. r.client_id) document.routes)
          × Expands document.defaults document.routes configs
        → expand_client_routes document ≡ ok configs
    from (ne, d, x) =
        ensure-ok (not (is_empty document.routes)) _ _ (ground arith)
          (expand_from_complete document.defaults 1 [] document.routes configs x d)
