-- ===== src/Examples/Web/Proxied.antt =====
-- A request that is forwarded under a prefix, with the identity of its token.
use lfp_pipe.Base.{◌≡◌, refl, true, none, some, [], ◌∷◌, ◌++◌, any, ok, ok_or, if◌then◌else◌}
use lfp_pipe.Text.{codes}
use lfp_pipe.Text.Ascii
use lfp_pipe.Text.Ascii.{Str}
use lfp_pipe.Text.Affix
use lfp_pipe.Text.Affix.{starts_with, trim_end_matches}
use lfp_pipe.Text.Split
use lfp_pipe.Text.White
use lfp_pipe.Routing.Pattern
use lfp_pipe.Routing.PathPrefix
use lfp_pipe.Routing.PathPrefix.{matches_path_prefix}
use lfp_pipe.Routing.Select
use lfp_pipe.Routing.Select.{select_backend_for_path}
use lfp_pipe.Client.Claims
use lfp_pipe.Client.Hyper.{Request, AuthResponse, get_header}
use lfp_pipe.Client.Jwt
use lfp_pipe.Client.Authorize
use lfp_pipe.Client.Authorize.{handles_endpoint}
use lfp_pipe.Client.Proxy
use lfp_pipe.Client.Proxy.{
  identity_headers, identity_fields, prepare_request, select_runtime_for_path, authorizers_of,
  strip_uri_prefix, with_query, bad_uri,
}
use lfp_pipe.Client.Proxy.Headers.{among, set_to}
use lfp_pipe.Client.Proxy.Told.{prepare_request-told}
use lfp_pipe.Client.Proxy.Trusted.{IsTrusted, prepare_request-IsTrusted}
use lfp_pipe.Client.Proxy.Strip.{path_behind, strip_uri_prefix-matches}
use lfp_pipe.Client.Proxy.Select.{map_option, select_runtime_for_path-rule}
use lfp_pipe.Client.Proxy.Handle
use lfp_pipe.Client.Proxy.Handle.{forward, answer, handle_request_inner}
use lfp_pipe.Client.Proxy.Forward.{
  IsForwarded, handle_request_inner-IsForwarded, handle_request_inner-endpoint,
  handle_request_inner-authorization,
}
use lfp_pipe.Examples.Web
use lfp_pipe.Examples.Web.{
  Entries, Parts, entries, parts, payloads, keys, trial, times, authorizer, backend, rule, request,
  identity,
}

-- The headers in the order of their changes, the last one first.
abbrev sent_headers : Entries
sent_headers =
    (codes "accept-encoding", codes "gzip" ∷ [])
    ∷ (codes "x-forwarded-host", codes "app.test" ∷ [])
    ∷ (codes "x-forwarded-proto", codes "https" ∷ [])
    ∷ (codes "x-forwarded-for", codes "203.0.113.9" ∷ [])
    ∷ (codes "x-forwarded-host", [])
    ∷ (codes "x-forwarded-proto", [])
    ∷ (codes "x-forwarded-for", [])
    ∷ (codes "forwarded", [])
    ∷ (codes "x-authentik-groups", codes "admins" ∷ [])
    ∷ (codes "x-auth-request-groups", codes "admins" ∷ [])
    ∷ (codes "x-forwarded-groups", codes "admins" ∷ [])
    ∷ (codes "x-authentik-name", codes "u1" ∷ [])
    ∷ (codes "x-authentik-username", codes "u1" ∷ [])
    ∷ (codes "x-authentik-uid", codes "u1" ∷ [])
    ∷ (codes "x-auth-request-preferred-username", codes "u1" ∷ [])
    ∷ (codes "x-auth-request-user", codes "u1" ∷ [])
    ∷ (codes "x-forwarded-user", codes "u1" ∷ [])
    ∷ (codes "x-authentik-groups", [])
    ∷ (codes "x-authentik-email", [])
    ∷ (codes "x-authentik-name", [])
    ∷ (codes "x-authentik-username", [])
    ∷ (codes "x-authentik-uid", [])
    ∷ (codes "x-auth-request-preferred-username", [])
    ∷ (codes "x-auth-request-groups", [])
    ∷ (codes "x-auth-request-email", [])
    ∷ (codes "x-auth-request-user", [])
    ∷ (codes "x-forwarded-groups", [])
    ∷ (codes "x-forwarded-email", [])
    ∷ (codes "x-forwarded-user", [])
    ∷ (codes "authorization", [])
    ∷ request.headers

abbrev sent : Request Entries Parts
sent = record {
  method = codes "GET";
  uri = (codes "/jobs", some (codes "a=b"));
  headers = sent_headers;
}

abbrev without_token : Request Entries Parts
without_token = record request { headers = (codes "authorization", []) ∷ request.headers }

prepared :
    prepare_request entries parts without_token backend
      (some (codes "203.0.113.9"))
      (codes "https")
      (some identity)
    ≡ ok sent
unfolding Proxy.prepare_request Proxy.with_identity Proxy.remove_all Proxy.set_headers
    Proxy.set_header Proxy.with_proxy_headers Proxy.with_encoding Proxy.strip_uri_prefix
    Web.values_of Ascii.str_eq Split.join Split.split_once Affix.strip_prefix Affix.trim_end_matches
    Affix.starts_with White.trim
prepared = refl

prepare_request-told_example : entries.get_all sent.headers (codes "x-forwarded-user") ≡ (
    if among (codes "x-forwarded-user") identity_headers
    then set_to (codes "x-forwarded-user") (identity_fields (some identity)) []
    else entries.get_all without_token.headers (codes "x-forwarded-user"))
unfolding Ascii.str_eq
prepare_request-told_example =
    prepare_request-told entries parts without_token backend (some (codes "203.0.113.9"))
      (codes "https") (some identity) sent (codes "x-forwarded-user") prepared refl

prepare_request-IsTrusted_example :
    (host : Str) × (get_header entries without_token.headers (codes "host") ≡ some host)
    × IsTrusted entries sent.headers (some (codes "203.0.113.9")) (codes "https") host
prepare_request-IsTrusted_example =
    prepare_request-IsTrusted entries parts without_token backend (some (codes "203.0.113.9"))
      (codes "https") (some identity) sent prepared refl

matched : matches_path_prefix (codes "/api/") (parts.path request.uri) ≡ true
unfolding PathPrefix.matches_path_prefix Ascii.str_eq Affix.strip_prefix Affix.trim_end_matches
    Affix.starts_with
matched = refl

strip_uri_prefix-matches_example :
    (rest : Str) × (parts.path request.uri ≡ trim_end_matches b'/' (codes "/api/") ++ rest)
    × (starts_with (path_behind rest) (codes "/") ≡ true)
    × (strip_uri_prefix parts request.uri (codes "/api/")
        ≡ ok_or (parts.from_str (with_query (path_behind rest) (parts.query request.uri))) bad_uri)
strip_uri_prefix-matches_example =
    strip_uri_prefix-matches parts request.uri (codes "/api/") matched

select_runtime_for_path-rule_example :
    map_option
      (λ runtime. runtime.rule)
      (select_runtime_for_path (backend ∷ []) (some (codes "app.test")) (codes "/api/jobs"))
    ≡ select_backend_for_path (rule ∷ []) (some (codes "app.test")) (codes "/api/jobs")
select_runtime_for_path-rule_example =
    select_runtime_for_path-rule (backend ∷ []) (some (codes "app.test")) (codes "/api/jobs")

forwarded :
    handle_request_inner entries parts payloads keys request
      (codes "app.test")
      (some (codes "203.0.113.9"))
      (codes "https")
      (backend ∷ [])
      trial
      times
    ≡ ok (forward backend sent)
unfolding Handle.handle_request_inner Handle.to_backend Handle.by_decision Handle.decision_for
    Authorize.handles_endpoint Authorize.forward_authorization Proxy.authorizers_of
    Proxy.select_runtime_for_path Proxy.canonical_prefix_redirect Proxy.redirect_to_prefix
    Select.max_by_key Select.max_from Select.serves_path Select.serves_host Select.specificity
    Pattern.matches_pattern PathPrefix.matches_path_prefix Authorize.authorize
    Authorize.by_credentials Authorize.endpoint_response Authorize.by_bearer
    Authorize.bearer_decision Jwt.authorize_headers Jwt.bearer_token_of Jwt.authorize_token
    Jwt.refresh_if_due Jwt.fetch_jwks Jwt.fetched Jwt.after_refresh Jwt.token_header Jwt.find_key
    Jwt.key_for Jwt.key_after Jwt.ensure_cache_age Jwt.verified Jwt.verify Jwt.validation_of
    Claims.validate_roles Claims.claim_strings Claims.claim_at Claims.strings_of Claims.role_set
    Claims.role_ok Claims.member_of Split.split Split.cons_first Claims.identity_from_claims
    Claims.identity_of Claims.identity_texts Claims.sort_strs Claims.insert_str Affix.contains
    Ascii.eq_ignore_ascii_case Ascii.to_ascii_lowercase Ascii.lower_byte Ascii.str_leb
    Proxy.prepare_request Proxy.with_identity Proxy.remove_all Proxy.set_headers Proxy.set_header
    Proxy.with_proxy_headers Proxy.with_encoding Proxy.strip_uri_prefix Web.values_of Ascii.str_eq
    Split.join Split.split_once Affix.strip_prefix Affix.trim_end_matches Affix.starts_with
    White.trim
forwarded = refl

handle_request_inner-IsForwarded_example :
    IsForwarded entries parts payloads keys request
      (codes "app.test")
      (some (codes "203.0.113.9"))
      (codes "https")
      (backend ∷ [])
      trial
      times
      backend
      sent
handle_request_inner-IsForwarded_example =
    handle_request_inner-IsForwarded entries parts payloads keys request (codes "app.test")
      (some (codes "203.0.113.9")) (codes "https") (backend ∷ []) trial times backend sent forwarded

handle_request_inner-authorization_example :
    entries.get_all sent.headers (codes "authorization") ≡ []
unfolding Authorize.forward_authorization
handle_request_inner-authorization_example =
    handle_request_inner-authorization entries parts payloads keys request (codes "app.test")
      (some (codes "203.0.113.9")) (codes "https") (backend ∷ []) trial times backend sent
      authorizer forwarded refl refl

abbrev logging_out : Request Entries Parts
logging_out = record request { uri = (codes "/out", none) }

handled :
    any (λ a. handles_endpoint a (parts.path logging_out.uri)) (authorizers_of (backend ∷ []))
    ≡ true
unfolding Authorize.handles_endpoint Proxy.authorizers_of Ascii.str_eq
handled = refl

handle_request_inner-endpoint_example :
    (response : AuthResponse Entries) × (handle_request_inner entries parts payloads keys
        logging_out
        (codes "app.test")
        (some (codes "203.0.113.9"))
        (codes "https")
        (backend ∷ [])
        trial
        times
      ≡ ok (answer response))
handle_request_inner-endpoint_example =
    handle_request_inner-endpoint entries parts payloads keys logging_out (codes "app.test")
      (some (codes "203.0.113.9")) (codes "https") (backend ∷ []) trial times handled
