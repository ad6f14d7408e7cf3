-- ===== src/Client/Proxy/Select.antt =====
-- `select_runtime_for_path` (client/src/lib.rs) and `select_backend_for_path` (shared/src/routing.rs).
use lfp_pipe.Base.{
  ℕ, ◌≡◌, refl, ap, ap₂, ◌∙◌, Bool, true, false, Option, none, some, List, [], ◌∷◌, map, filter,
  find, leb, if◌then◌else◌, or_option, Bool-cases, inl, inr,
}
use lfp_pipe.Text.Ascii.{Str}
use lfp_pipe.Config.Backend.{BackendRule}
use lfp_pipe.Routing.Select.{
  max_from, max_by_key, serves_path, serves_host, specificity, select_backend_for_path,
}
use lfp_pipe.Client.Proxy.{BackendRuntime, select_runtime_for_path}

abbrev pub map_option : {A B : Type 0} → (A → B) → Option A → Option B
map_option f none = none
map_option f (some a) = some (f a)

module _ {A B : Type 0} (f : A → B) where
  filter-map : (p : B → Bool) (xs : List A) → map f (filter (λ a. p (f a)) xs) ≡ filter p (map f xs)
  filter-map p [] = refl
  filter-map p (x ∷ xs) = elim (Bool-cases (p (f x))) [
    | inl e ↦ rw e (ap (◌∷◌ (f x)) (filter-map p xs))
    | inr e ↦ rw e (filter-map p xs)
  ]

  find-map :
      (p : B → Bool) (xs : List A) → map_option f (find (λ a. p (f a)) xs) ≡ find p (map f xs)
  find-map p [] = refl
  find-map p (x ∷ xs) = elim (Bool-cases (p (f x))) [
    | inl e ↦ rw e refl
    | inr e ↦ rw e (find-map p xs)
  ]

  if_map : (t : Bool) (x y : A) → f (if t then x else y) ≡ (if t then f x else f y)
  if_map true x y = refl
  if_map false x y = refl

  max_from-map :
      (key : B → ℕ) (best : A) (xs : List A)
      → f (max_from (λ a. key (f a)) best xs) ≡ max_from key (f best) (map f xs)
  unfolding max_from
  max_from-map key best [] = refl
  max_from-map key best (x ∷ xs) =
      let t = leb (key (f best)) (key (f x)) in
      max_from-map key (if t then x else best) xs
      ∙ ap (λ b. max_from key b (map f xs)) (if_map t x best)

  max_by_key-map :
      (key : B → ℕ) (xs : List A)
      → map_option f (max_by_key (λ a. key (f a)) xs) ≡ max_by_key key (map f xs)
  unfolding max_by_key
  max_by_key-map key [] = refl
  max_by_key-map key (x ∷ xs) = ap some (max_from-map key x xs)

  map_option-or_option :
      (a b : Option A) → map_option f (or_option a b) ≡ or_option (map_option f a) (map_option f b)
  map_option-or_option none b = refl
  map_option-or_option (some a) b = refl

-- The runtime that a request is sent to has the rule that `select_backend_for_path` selects from the rules,
-- and there is none where that selects none.
pub select_runtime_for_path-rule :
    {A : Type 0} (rules : List (BackendRuntime A)) (hostname : Option Str) (path : Str)
    → map_option (λ runtime. runtime.rule) (select_runtime_for_path rules hostname path)
      ≡ select_backend_for_path (map (λ runtime. runtime.rule) rules) hostname path
unfolding select_runtime_for_path select_backend_for_path
select_runtime_for_path-rule {A} rules hostname path =
    let rule_of : BackendRuntime A → BackendRule = λ runtime. runtime.rule in
    map_option-or_option rule_of _ _
    ∙ ap₂ or_option
        (max_by_key-map rule_of specificity _
          ∙ ap (max_by_key specificity) (filter-map rule_of (serves_path hostname path) rules))
        (find-map rule_of (serves_host hostname) rules)
