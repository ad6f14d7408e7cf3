-- ===== src/Examples/Web/Signed.antt =====
-- A token, and a request that brings it.
use lfp_pipe.Base.{◌≡◌, refl, false, some, ok}
use lfp_pipe.Text.{codes}
use lfp_pipe.Text.Ascii
use lfp_pipe.Text.Affix
use lfp_pipe.Text.Split
use lfp_pipe.Text.White
use lfp_pipe.Client.Claims
use lfp_pipe.Client.Claims.{AuthenticatedIdentity}
use lfp_pipe.Client.Jwt
use lfp_pipe.Client.Jwt.{authorize_token}
use lfp_pipe.Client.Jwt.Sound.{SamePolicy, IsVerified, authorize_token-IsVerified}
use lfp_pipe.Client.Authorize
use lfp_pipe.Client.Authorize.{allow, authorize, handles_endpoint, to_option}
use lfp_pipe.Client.Authorize.Allow.{IsAuthenticated, authorize-IsAuthenticated}
use lfp_pipe.Examples.Web
use lfp_pipe.Examples.Web.{
  entries, parts, payloads, keys, bearer, claims, trial, times, authorizer, request, identity,
}

accepted : (authorize_token keys bearer (codes "good") trial).0 ≡ ok claims
unfolding Jwt.authorize_token Jwt.refresh_if_due Jwt.fetch_jwks Jwt.fetched Jwt.after_refresh
    Jwt.token_header Jwt.find_key Jwt.key_for Jwt.key_after Jwt.ensure_cache_age Jwt.verified
    Jwt.verify Jwt.validation_of Claims.validate_roles Claims.claim_strings Claims.claim_at
    Claims.strings_of Claims.role_set Claims.role_ok Claims.member_of Ascii.str_eq Split.split
    Split.cons_first
accepted = refl

authorize_token-IsVerified_example :
    SamePolicy keys (authorize_token keys bearer (codes "good") trial).1 bearer
    × IsVerified keys
        (authorize_token keys bearer (codes "good") trial).1
        (codes "good")
        trial
        claims
authorize_token-IsVerified_example =
    authorize_token-IsVerified keys bearer (codes "good") trial claims accepted

abbrev told : AuthenticatedIdentity
told = record identity { expires_unix = 0 }

allowed :
    (authorize entries parts payloads keys authorizer request trial times).0 ≡ allow (some told)
unfolding Authorize.authorize Authorize.by_credentials Authorize.endpoint_response
    Authorize.by_bearer Authorize.bearer_decision Jwt.authorize_headers Jwt.bearer_token_of
    Jwt.authorize_token Jwt.refresh_if_due Jwt.fetch_jwks Jwt.fetched Jwt.after_refresh
    Jwt.token_header Jwt.find_key Jwt.key_for Jwt.key_after Jwt.ensure_cache_age Jwt.verified
    Jwt.verify Jwt.validation_of Claims.validate_roles Claims.claim_strings Claims.claim_at
    Claims.strings_of Claims.role_set Claims.role_ok Claims.member_of Ascii.str_eq Split.split
    Split.cons_first Split.split_once Claims.identity_from_claims Claims.identity_of
    Claims.identity_texts Claims.sort_strs Claims.insert_str Affix.contains Web.values_of
    Ascii.eq_ignore_ascii_case Ascii.to_ascii_lowercase Ascii.lower_byte White.trim White.is_white_1
    White.is_white_2 White.is_white_3 Ascii.str_leb
allowed = refl

authorize-IsAuthenticated_example :
    (handles_endpoint authorizer (parts.path request.uri) ≡ false)
    × IsAuthenticated entries parts payloads keys authorizer request trial times (some told)
authorize-IsAuthenticated_example =
    authorize-IsAuthenticated entries parts payloads keys authorizer request trial times (some told)
      allowed
