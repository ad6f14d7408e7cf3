-- ===== src/Client/Claims/Roles.antt =====
-- `validate_roles` (client/src/authorization.rs).
use lfp_pipe.Base.{
  ◌≡◌, ◌↔◌, ◌⊎◌, refl, sym, subst, Bool, true, false, List, [], ◌∷◌, any, all, any-In, In, All, inl,
  inr, Bool-cases, &&_split, Result, ok, err, ensure, bind-eq-ok, none,
}
use lfp_pipe.Text.Ascii.{Str, str_eq, str_eq_iff}
use lfp_pipe.Text.Split.{split}
use lfp_pipe.Text.White.{is_empty}
use lfp_pipe.Config.Authorization.{ClientAuthorizationConfig, RoleMatch}
use lfp_pipe.Client.Claims.{
  Value, ClaimsError, Denial, forbidden, claim_strings, role_ok, forbid, validate_roles,
}
use lfp_pipe.Client.Claims.Held.{
  Reaches, IsRoles, Holds, claim_strings_sound, claim_strings_complete,
}

any-some :
    {A : Type 0} (p : A → Bool) (xs : List A) → any p xs ≡ true → (a : A) × In a xs × (p a ≡ true)
any-some p [] h = cc
any-some p (x ∷ xs) h = elim (Bool-cases (p x)) [
  | inl e ↦ (x, inl refl, e)
  | inr e ↦ let (a, i, q) = any-some p xs (rw e at h) in (a, inr i, q)
]

has_iff : (r : Str) (roles : List Str) → (any (str_eq r) roles ≡ true) ↔ In r roles
has_iff r roles = (to, from)
  where
    to : any (str_eq r) roles ≡ true → In r roles
    to h =
        let (a, i, e) = any-some (str_eq r) roles h in
        subst (λ t. In t roles) (sym ((str_eq_iff r a).0 e)) i

    from : In r roles → any (str_eq r) roles ≡ true
    from i = any-In (str_eq r) roles i ((str_eq_iff r r).1 refl)

-- What a policy asks of the roles that are held: one of those required, or all.
abbrev pub Grants : RoleMatch → List Str → (Str → Type 0) → Type 0
Grants RoleMatch.any required held = (r : Str) × In r required × held r
Grants RoleMatch.all required held = All held required

-- The policy requires no roles, or the claim at its path holds some that suffice.
abbrev pub HasRoles : Value → ClientAuthorizationConfig → Type 0
HasRoles claims config =
    (config.required_roles ≡ [])
    ⊎ ((value : Value) × Reaches claims (split b'.' config.roles_claim) value
        × IsRoles value
        × Grants config.role_match config.required_roles (Holds value))

All-map : (p q : Str → Type 0) (xs : List Str) → ((r : Str) → p r → q r) → All p xs → All q xs
All-map p q [] f h = tt
All-map p q (x ∷ xs) f h = (f x h.0, All-map p q xs f h.1)

Grants-map :
    (p q : Str → Type 0) (m : RoleMatch) (required : List Str)
    → ((r : Str) → p r → q r)
    → Grants m required p
    → Grants m required q
Grants-map p q RoleMatch.any required f (r, i, h) = (r, i, f r h)
Grants-map p q RoleMatch.all required f h = All-map p q required f h

all_sound :
    (required roles : List Str)
    → all (λ r. any (str_eq r) roles) required ≡ true
    → All (λ r. In r roles) required
all_sound [] roles h = tt
all_sound (r ∷ required) roles h =
    let (a, b) = &&_split (any (str_eq r) roles) (all (λ r. any (str_eq r) roles) required) h in
    ((has_iff r roles).0 a, all_sound required roles b)

all_complete :
    (required roles : List Str)
    → All (λ r. In r roles) required
    → all (λ r. any (str_eq r) roles) required ≡ true
all_complete [] roles h = refl
all_complete (r ∷ required) roles h =
    rw ((has_iff r roles).1 h.0, all_complete required roles h.1) refl

ensure-true : (t : Bool) (d : Denial) → ensure t d ≡ ok tt → t ≡ true
ensure-true true d h = refl
ensure-true false d h = cc

role_ok_iff :
    (m : RoleMatch) (required roles : List Str)
    → (role_ok m required roles ≡ true) ↔ Grants m required (λ r. In r roles)
unfolding role_ok
role_ok_iff RoleMatch.any required roles = (
  λ h.
      let (r, i, e) = any-some (λ r. any (str_eq r) roles) required h in
      (r, i, (has_iff r roles).0 e),
  λ (r, i, j). any-In (λ r. any (str_eq r) roles) required i ((has_iff r roles).1 j),
)
role_ok_iff RoleMatch.all required roles = (all_sound required roles, all_complete required roles)

forbid-ok : {A : Type 0} (m : Result ClaimsError A) {a : A} → forbid m ≡ ok a → m ≡ ok a
forbid-ok (ok a) h = cc
forbid-ok (err e) h = cc

-- The roles of a token suffice exactly if the policy requires none, or the claim that it names is a text
-- or an array of texts with one of the required roles, or with all of them where the policy asks for all.
-- The claim is named by its members, with dots between them, none of them empty.
pub validate_roles_iff :
    (claims : Value) (config : ClientAuthorizationConfig)
    → (validate_roles claims config ≡ ok tt) ↔ HasRoles claims config
unfolding validate_roles
validate_roles_iff claims config = (to config.required_roles refl, from)
  where
    path : Str
    path = config.roles_claim

    to :
        (required : List Str)
        → config.required_roles ≡ required
        → validate_roles claims config ≡ ok tt
        → (required ≡ [])
          ⊎ ((value : Value) × Reaches claims (split b'.' path) value
              × IsRoles value
              × Grants config.role_match required (Holds value))
    to [] e h = inl refl
    to (r ∷ required) e h =
        let (roles, c, k) = bind-eq-ok (forbid (claim_strings claims path)) _ (rw e at h) in
        let t = ensure-true (role_ok config.role_match (r ∷ required) roles) (forbidden none) k in
        let (value, reached, readable, holds) =
          claim_strings_sound claims path roles (forbid-ok (claim_strings claims path) c) in
        inr (
          value,
          reached,
          readable,
          Grants-map (λ r. In r roles) (Holds value) config.role_match (r ∷ required)
              (λ r. (holds r).0) ((role_ok_iff config.role_match (r ∷ required) roles).0 t),
        )

    suffices :
        (value : Value) (roles : List Str)
        → Grants config.role_match config.required_roles (Holds value)
        → ((r : Str) → Holds value r → In r roles)
        → role_ok config.role_match config.required_roles roles ≡ true
    suffices value roles g f =
        (role_ok_iff config.role_match config.required_roles roles).1
          (Grants-map (Holds value) (λ r. In r roles) config.role_match config.required_roles f g)

    from : HasRoles claims config → validate_roles claims config ≡ ok tt
    from (inl e) = rw e refl
    from (inr (value, reached, readable, g)) =
        let (roles, c, holds) = claim_strings_complete claims path value reached readable in
        elim (Bool-cases (is_empty config.required_roles)) [
          | inl e ↦ rw e refl
          | inr e ↦ rw (e, c, suffices value roles g (λ r. (holds r).1)) refl
        ]
