-- ===== src/Examples/Routing.antt =====
-- Hostnames, paths and subjects of a small rule list.
use lfp_pipe.Base.{
  ℕ, ◌≡◌, ◌≢◌, ◌↔◌, refl, true, false, Option, none, some, List, [], ◌∷◌, ◌++◌, all, ap, get_elem?,
  unwrap_or, arith,
}
use lfp_pipe.Text.{codes}
use lfp_pipe.Text.Ascii
use lfp_pipe.Text.Ascii.{Str, to_ascii_lowercase}
use lfp_pipe.Text.Affix.{starts_with, ends_with, strip_prefix, trim_cons, trim_end_matches}
use lfp_pipe.Text.Split.{cons_first, split, join}
use lfp_pipe.Config.Backend.{BackendRule}
use lfp_pipe.Routing.Pattern
use lfp_pipe.Routing.Pattern.{
  matches_pattern, Covers, matches_pattern_iff, wildcard_is_case_sensitive,
}
use lfp_pipe.Routing.PathPrefix
use lfp_pipe.Routing.PathPrefix.{matches_path_prefix, Below, matches_path_prefix_iff}
use lfp_pipe.Routing.Select
use lfp_pipe.Routing.Select.{
  IsChoice, select_backend_for_path, select_backend_for_path-IsChoice, select_backend_for_path-none,
}
use lfp_pipe.Routing.Subject
use lfp_pipe.Routing.Subject.{
  hostname_request_subject, hostname_request_subject-injective, hostname_request_subject-safe,
  dns_name,
}

matches_pattern_iff_example :
    (matches_pattern (codes "*.example.com") (some (codes "app.example.com")) ≡ true)
    ↔ Covers (codes "*.example.com") (some (codes "app.example.com"))
matches_pattern_iff_example =
    matches_pattern_iff (codes "*.example.com") (some (codes "app.example.com"))

first_byte : Str → ℕ
first_byte s = unwrap_or (get_elem? s 0) 0

first_differs : codes "Example.com" ≡ codes "example.com" → ◌≡◌ {A = ℕ} b'E' b'e'
unfolding first_byte
first_differs e = ap first_byte e

other_name : codes "Example.com" ≢ codes "example.com"
other_name e = omega (arith, first_differs e)

wildcard_is_case_sensitive_example :
    matches_pattern
      (codes "*." ++ codes "example.com")
      (some (codes "app" ++ b'.' ∷ codes "Example.com"))
    ≡ false
wildcard_is_case_sensitive_example =
    wildcard_is_case_sensitive (codes "example.com") (codes "Example.com") (codes "app") refl
      other_name

rule : Option Str → BackendRule
rule path_prefix = record {
  pattern = codes "app.test";
  path_prefix = path_prefix;
  strip_path_prefix = false;
  proxy_headers = true;
  backend_addr = codes "3000";
  backend_host = none;
  http_backend_addr = none;
  authorization = none;
}

abbrev rules : List BackendRule
rules = rule (some (codes "/api")) ∷ rule none ∷ rule (some (codes "/api/v1")) ∷ []

abbrev selected : BackendRule
selected = rule (some (codes "/api/v1"))

selects :
    select_backend_for_path rules (some (codes "app.test")) (codes "/api/v1/x") ≡ some selected
unfolding rule select_backend_for_path Select.max_by_key Select.max_from Select.serves_path
    Select.specificity Pattern.matches_pattern Pattern.matches_hostname
    PathPrefix.matches_path_prefix Ascii.eq_ignore_ascii_case Ascii.to_ascii_lowercase
    Ascii.lower_byte Ascii.str_eq starts_with strip_prefix trim_cons trim_end_matches
selects = refl

select_backend_for_path-IsChoice_example :
    IsChoice rules (some (codes "app.test")) (codes "/api/v1/x") selected
select_backend_for_path-IsChoice_example =
    select_backend_for_path-IsChoice rules (some (codes "app.test")) (codes "/api/v1/x") selected
      selects

selects_none : select_backend_for_path rules (some (codes "other.test")) (codes "/api") ≡ none
unfolding rule select_backend_for_path Select.max_by_key Select.max_from Select.serves_path
    Select.specificity Select.serves_host Pattern.matches_pattern Pattern.matches_hostname
    PathPrefix.matches_path_prefix Ascii.eq_ignore_ascii_case Ascii.to_ascii_lowercase
    Ascii.lower_byte Ascii.str_eq starts_with strip_prefix trim_cons trim_end_matches
selects_none = refl

subject_of :
    hostname_request_subject (codes "req.") (codes "App.Test.") ≡ some (codes "req.test.app")
unfolding hostname_request_subject dns_name Subject.bad_label Ascii.to_ascii_lowercase
    Ascii.lower_byte Ascii.str_eq Ascii.is_ascii_digit Ascii.is_ascii_alphanumeric starts_with
    ends_with trim_cons trim_end_matches cons_first split join
subject_of = refl

subject_of_lower :
    hostname_request_subject (codes "req.") (codes "app.test") ≡ some (codes "req.test.app")
unfolding hostname_request_subject dns_name Subject.bad_label Ascii.to_ascii_lowercase
    Ascii.lower_byte Ascii.str_eq Ascii.is_ascii_digit Ascii.is_ascii_alphanumeric starts_with
    ends_with trim_cons trim_end_matches cons_first split join
subject_of_lower = refl

hostname_request_subject-injective_example :
    dns_name (codes "App.Test.") ≡ dns_name (codes "app.test")
hostname_request_subject-injective_example =
    hostname_request_subject-injective (codes "req.") (codes "App.Test.") (codes "app.test")
      subject_of subject_of_lower

hostname_request_subject-safe_example :
    (host : Str) × (codes "req.test.app" ≡ trim_end_matches b'.' (codes "req.") ++ b'.' ∷ host)
    × (all Subject.is_subject_byte host ≡ true)
hostname_request_subject-safe_example =
    hostname_request_subject-safe (codes "req.") (codes "App.Test.") subject_of
