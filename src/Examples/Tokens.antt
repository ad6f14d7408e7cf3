-- ===== src/Examples/Tokens.antt =====
-- The claims of one token, and a return target.
use lfp_pipe.Base.{◌≡◌, ◌↔◌, refl, none, some, [], ◌∷◌, ok}
use lfp_pipe.Text.{codes}
use lfp_pipe.Text.Ascii
use lfp_pipe.Text.Ascii.{Str}
use lfp_pipe.Text.Affix.{contains}
use lfp_pipe.Text.Split.{cons_first, split}
use lfp_pipe.Config.Authorization.{ClientAuthorizationConfig}
use lfp_pipe.Config.Merge.{authorization_of}
use lfp_pipe.Client.Claims.{
  Value, string, array, object, nil, item, end, member, member_of, claim_at, role_set, strings_of,
  claim_strings, validate_roles, insert_str, sort_strs, identity_of, identity_texts, get, as_str,
  AuthenticatedIdentity, identity_from_claims,
}
use lfp_pipe.Client.Claims.Roles.{HasRoles, validate_roles_iff}
use lfp_pipe.Client.Claims.Identity.{IsPrintable, identity_from_claims-lines}
use lfp_pipe.Examples.Config.{web_login}

abbrev claims : Value
claims = object (
    member (codes "sub") (string (codes "u7")) (
      member (codes "groups")
        (array (item (string (codes "ops")) (item (string (codes "dev")) nil))) end))

policy : ClientAuthorizationConfig
policy =
    authorization_of (codes "https://id.test")
      (record web_login { required_roles = some (codes "dev" ∷ []) } ∷ [])

validate_roles_iff_example : (validate_roles claims policy ≡ ok tt) ↔ HasRoles claims policy
validate_roles_iff_example = validate_roles_iff claims policy

abbrev identity : AuthenticatedIdentity
identity = record {
  subject = codes "u7";
  username = codes "u7";
  name = none;
  email = none;
  groups = codes "dev" ∷ codes "ops" ∷ [];
  expires_unix = 0;
}

identified : identity_from_claims claims (codes "groups") ≡ ok identity
unfolding identity_from_claims identity_of identity_texts claim_strings claim_at strings_of role_set
    member_of sort_strs insert_str Ascii.str_eq cons_first split contains Ascii.str_leb
identified = refl

identity_from_claims-lines_example :
    (as_str (get claims (codes "sub")) ≡ some identity.subject) × IsPrintable identity
identity_from_claims-lines_example =
    identity_from_claims-lines claims (codes "groups") identity identified
