-- ===== src/Client/Claims.antt =====
-- The claims of a verified token (client/src/authorization.rs): the roles that a policy requires, and the
-- identity that the backend is told.
pub mod Held
pub mod Roles
pub mod Identity
use lfp_pipe.Base.{
  ℕ, leb, Bool, true, false, not, ◌&&◌, ◌||◌, Option, none, some, List, [], ◌∷◌, ◌++◌, length, any,
  all, or_option, unwrap_or, if◌then◌else◌, Result, ok, err, ok_or, ensure, ◌>>=◌, ◌>>◌,
}
use lfp_pipe.Text.{codes}
use lfp_pipe.Text.Ascii.{str_leb, Str, str_eq}
use lfp_pipe.Text.Affix.{contains, starts_with}
use lfp_pipe.Text.Split.{split}
use lfp_pipe.Text.White.{is_empty}
use lfp_pipe.Config.Authorization
use lfp_pipe.Config.Authorization.{ClientAuthorizationConfig, RoleMatch}

-- A JSON value. The keys of an object are distinct, as in the crate's map.
mutual
  pub data Value : Type 0 where
    null : Value
    bool : Bool → Value
    number : ℕ → Value
    string : Str → Value
    array : Items → Value
    object : Members → Value

  pub data Items : Type 0 where
    nil : Items
    item : Value → Items → Items

  pub data Members : Type 0 where
    end : Members
    member : Str → Value → Members → Members

pub data ClaimsError : Type 0 where
  empty_component missing_claim not_a_role no_subject has_newline : ClaimsError

-- The two denials; a claim that cannot be read denies as a missing role does.
pub data Denial : Type 0 where
  unauthorized : Denial
  forbidden : Option ClaimsError → Denial

unfoldable pub member_of : Members → Str → Option Value
member_of end key = none
member_of (member k value members) key = if str_eq k key then some value else member_of members key

-- `value.get(key)`, `value.as_str()` and `value.as_u64()`.
abbrev pub get : Value → Str → Option Value
get (object members) key = member_of members key
get _ key = none

abbrev pub as_str : Option Value → Option Str
as_str (some (string s)) = some s
as_str _ = none

abbrev pub as_u64 : Option Value → Option ℕ
as_u64 (some (number n)) = some n
as_u64 _ = none

-- The walk along the components of the claim's path.
unfoldable pub claim_at : Value → List Str → Result ClaimsError Value
claim_at value [] = ok value
claim_at value (component ∷ path) = do
  ensure (not (is_empty component)) empty_component
  inner ← ok_or (get value component) missing_claim
  claim_at inner path

-- A `HashSet` as a list without repetition.
abbrev pub insert_set : Str → List Str → List Str
insert_set s set = if any (str_eq s) set then set else s ∷ set

unfoldable pub role_set : List Str → Items → Result ClaimsError (List Str)
role_set values nil = ok values
role_set values (item role roles) = do
  name ← ok_or (as_str (some role)) not_a_role
  role_set (insert_set name values) roles

unfoldable pub strings_of : Value → Result ClaimsError (List Str)
strings_of (string role) = ok (role ∷ [])
strings_of (array roles) = role_set [] roles
strings_of _ = err not_a_role

unfoldable pub claim_strings : Value → Str → Result ClaimsError (List Str)
claim_strings claims path = do value ← claim_at claims (split b'.' path); strings_of value

unfoldable pub role_ok : RoleMatch → List Str → List Str → Bool
role_ok RoleMatch.any required roles = any (λ r. any (str_eq r) roles) required
role_ok RoleMatch.all required roles = all (λ r. any (str_eq r) roles) required

-- `.map_err(Denial::Forbidden)`.
abbrev pub forbid : {A : Type 0} → Result ClaimsError A → Result Denial A
forbid (ok a) = ok a
forbid (err e) = err (forbidden (some e))

unfoldable pub validate_roles : Value → ClientAuthorizationConfig → Result Denial (Unit {0})
validate_roles claims config = if is_empty config.required_roles then ok tt else do
  roles ← forbid (claim_strings claims config.roles_claim)
  ensure (role_ok config.role_match config.required_roles roles) (forbidden none)

pub record AuthenticatedIdentity : Type 0 where
  pub subject : Str
  pub username : Str
  pub name : Option Str
  pub email : Option Str
  pub groups : List Str
  pub expires_unix : ℕ

-- `claim_value_strings`, with repetitions.
unfoldable pub item_strings : Items → Result ClaimsError (List Str)
item_strings nil = ok []
item_strings (item value values) = do
  s ← ok_or (as_str (some value)) not_a_role
  rest ← item_strings values
  ok (s ∷ rest)

unfoldable pub claim_value_strings : Value → Result ClaimsError (List Str)
claim_value_strings (string s) = ok (s ∷ [])
claim_value_strings (array values) = item_strings values
claim_value_strings _ = err not_a_role

abbrev pub groups_claim : Option Value → Result ClaimsError (List Str)
groups_claim none = ok []
groups_claim (some value) = claim_value_strings value

-- `first.or_else(|_| second)`.
abbrev pub or_result :
    {A : Type 0} → Result ClaimsError A → Result ClaimsError A → Result ClaimsError A
or_result (ok a) second = ok a
or_result (err e) second = second

unfoldable pub insert_str : Str → List Str → List Str
insert_str s [] = s ∷ []
insert_str s (t ∷ ts) = let rest = insert_str s ts in if str_leb s t then s ∷ t ∷ ts else t ∷ rest

-- `groups.sort()`.
unfoldable pub sort_strs : List Str → List Str
sort_strs [] = []
sort_strs (s ∷ ss) = insert_str s (sort_strs ss)

-- `value.contains(['\r', '\n'])`.
abbrev pub breaks_line : Str → Bool
breaks_line s = contains b'\r' s || contains b'\n' s

abbrev pub optional : Option Str → List Str
optional none = []
optional (some s) = s ∷ []

-- The texts that are looked through.
unfoldable pub identity_texts : AuthenticatedIdentity → List Str
identity_texts i = i.subject ∷ i.username ∷ (optional i.name ++ (optional i.email ++ i.groups))

-- The identity with its fallbacks: the name for the username, then the e-mail address, then the subject.
unfoldable pub identity_of : Value → Str → List Str → AuthenticatedIdentity
identity_of claims subject groups =
    let email = as_str (get claims (codes "email")) in
    let name = as_str (get claims (codes "name")) in
    let preferred = or_option (as_str (get claims (codes "preferred_username"))) name in
    record {
      subject = subject;
      username = unwrap_or (or_option preferred email) subject;
      name = name;
      email = email;
      groups = sort_strs groups;
      expires_unix = unwrap_or (as_u64 (get claims (codes "exp"))) 0;
    }

unfoldable pub identity_from_claims : Value → Str → Result ClaimsError AuthenticatedIdentity
identity_from_claims claims roles_claim = do
  subject ← ok_or (as_str (get claims (codes "sub"))) no_subject
  groups ← or_result (claim_strings claims roles_claim) (groups_claim (get claims (codes "groups")))
  ensure (not (any breaks_line (identity_texts (identity_of claims subject groups)))) has_newline
  ok (identity_of claims subject groups)

-- `safe_return_to`, on `uri.path_and_query()`.
unfoldable pub safe_return_to : Option Str → Str
safe_return_to path_and_query =
    let value = unwrap_or path_and_query (codes "/") in
    if starts_with value (codes "/")
      && not (starts_with value (codes "//"))
      && leb (length value) 1024
    then value
    else codes "/"
