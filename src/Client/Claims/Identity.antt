-- ===== src/Client/Claims/Identity.antt =====
-- `identity_from_claims` and `safe_return_to` (client/src/authorization.rs).
use lfp_pipe.Base.{
  ◌≡◌, ◌≤◌, refl, sym, ap, subst, ◌∙◌, Bool, true, false, not, ◌&&◌, leb, Option, none, some, List,
  [], ◌∷◌, ◌++◌, arith, any, All, inl, inr, Bool-cases, unwrap_or, length, ok, ok_or, bind-eq-ok,
  ensure-eq-ok, ok-injective,
}
use lfp_pipe.Text.{codes}
use lfp_pipe.Text.Ascii.{Str}
use lfp_pipe.Text.Affix.{contains, starts_with}
use lfp_pipe.Client.Claims.{
  Value, get, as_str, claim_strings, groups_claim, or_result, breaks_line, identity_texts, optional,
  AuthenticatedIdentity, identity_from_claims, identity_of, no_subject, safe_return_to,
}

-- A return target that begins with one slash, not two, and is not too long.
record IsLocal (target : Str) : Type 0 where
  pub path : starts_with target (codes "/") ≡ true
  pub no_host : starts_with target (codes "//") ≡ false
  pub bounded : length target ≤ 1024

root-IsLocal : IsLocal (codes "/")
unfolding starts_with
root-IsLocal = record { path = refl; no_host = refl; bounded = omega arith }

-- Whatever a request asks for, the return target begins with one slash, not two, and has at most 1024
-- bytes.
safe_return_to-IsLocal : (path_and_query : Option Str) → IsLocal (safe_return_to path_and_query)
unfolding safe_return_to
safe_return_to-IsLocal path_and_query = elim (Bool-cases test) [
  | inl e ↦ rw e (record { path = ground arith; no_host = ground arith; bounded = ground arith })
  | inr e ↦ rw e root-IsLocal
]
  where
    test : Bool
    test =
        let value = unwrap_or path_and_query (codes "/") in
        starts_with value (codes "/")
        && not (starts_with value (codes "//"))
        && leb (length value) 1024

-- A text without a carriage return and without a newline.
abbrev pub OneLine : Str → Type 0
OneLine s = (contains b'\r' s ≡ false) × (contains b'\n' s ≡ false)

abbrev pub OptionalLine : Option Str → Type 0
OptionalLine none = Unit
OptionalLine (some s) = OneLine s

-- Whatever of an identity a header line can tell is one line.
pub record IsPrintable (i : AuthenticatedIdentity) : Type 0 where
  pub subject : OneLine i.subject
  pub username : OneLine i.username
  pub name : OptionalLine i.name
  pub email : OptionalLine i.email
  pub groups : All OneLine i.groups

lines_of_texts : (texts : List Str) → any breaks_line texts ≡ false → All OneLine texts
lines_of_texts [] h = tt
lines_of_texts (s ∷ texts) h = ((ground arith, ground arith), lines_of_texts texts (ground arith))

optional_line :
    (o : Option Str) (texts : List Str)
    → All OneLine (optional o ++ texts)
    → OptionalLine o × All OneLine texts
optional_line none texts h = (tt, h)
optional_line (some s) texts h = h

identity_texts-IsPrintable :
    (i : AuthenticatedIdentity) → All OneLine (identity_texts i) → IsPrintable i
unfolding identity_texts
identity_texts-IsPrintable i (subject, (username, h)) =
    let (name, h1) = optional_line i.name (optional i.email ++ i.groups) h in
    let (email, groups) = optional_line i.email i.groups h1 in
    record { subject = subject; username = username; name = name; email = email; groups = groups }

ok_or-some : {A : Type 0} {o : Option A} {a : A} → ok_or o no_subject ≡ ok a → o ≡ some a
ok_or-some {o = none} h = cc
ok_or-some {o = some b} h = ap some (ok-injective h)

subject-identity_of :
    (claims : Value) (subject : Str) (groups : List Str)
    → (identity_of claims subject groups).subject ≡ subject
unfolding identity_of
subject-identity_of claims subject groups = refl

-- An identity that is passed on has the `sub` claim for its subject, and its subject, its username, its name
-- and e-mail address where it has one, and each of its groups hold no carriage return and no newline.
pub identity_from_claims-lines :
    (claims : Value) (roles_claim : Str) (i : AuthenticatedIdentity)
    → identity_from_claims claims roles_claim ≡ ok i
    → (as_str (get claims (codes "sub")) ≡ some i.subject) × IsPrintable i
unfolding identity_from_claims
identity_from_claims-lines claims roles_claim i h =
    let (subject, s, h1) = bind-eq-ok (ok_or (as_str (get claims (codes "sub"))) no_subject) _ h in
    let (groups, g, h2) =
      bind-eq-ok
        (or_result (claim_strings claims roles_claim) (groups_claim (get claims (codes "groups"))))
        _ h1 in
    let (t, q) =
      ensure-eq-ok (not (any breaks_line (identity_texts (identity_of claims subject groups)))) _ _
        h2 in
    subst (λ i. (as_str (get claims (codes "sub")) ≡ some i.subject) × IsPrintable i)
      (ok-injective q)
      (
        ok_or-some s ∙ ap some (sym (subject-identity_of claims subject groups)),
        identity_texts-IsPrintable (identity_of claims subject groups)
            (lines_of_texts (identity_texts (identity_of claims subject groups)) (ground arith)),
      )
