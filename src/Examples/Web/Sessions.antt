-- ===== src/Examples/Web/Sessions.antt =====
-- A login that the provider answers.
use lfp_pipe.Base.{◌≡◌, refl, some, [], ◌∷◌, ok}
use lfp_pipe.Text.{codes}
use lfp_pipe.Text.Ascii
use lfp_pipe.Text.Affix
use lfp_pipe.Text.Split
use lfp_pipe.Text.White
use lfp_pipe.Client.Claims
use lfp_pipe.Client.Hyper
use lfp_pipe.Client.Hyper.{AuthResponse}
use lfp_pipe.Client.Cookies
use lfp_pipe.Client.Oidc
use lfp_pipe.Client.Oidc.{callback_inner}
use lfp_pipe.Client.Oidc.Login.{IsLogin, callback_inner-IsLogin}
use lfp_pipe.Examples.Web
use lfp_pipe.Examples.Web.{Entries, Parts, entries, parts, payloads, oidc, times}

abbrev callback_uri : Parts
callback_uri = (codes "/cb", some (codes "state=s1&code=c1"))

abbrev callback_headers : Entries
callback_headers = (codes "cookie", codes "x=1; f=sealed" ∷ []) ∷ []

abbrev response : AuthResponse Entries
response = record {
  status = 303;
  headers =
      (
        codes "set-cookie",
        codes "s=u1" ∷ codes "f=; Path=/; HttpOnly; SameSite=Lax; Secure; Max-Age=0" ∷ [],
      )
      ∷ (codes "set-cookie", codes "s=u1" ∷ [])
      ∷ (codes "cache-control", codes "no-store" ∷ [])
      ∷ (codes "location", codes "/app" ∷ [])
      ∷ [];
  body = [];
}

logged_in :
    callback_inner entries parts payloads oidc callback_uri callback_headers times ≡ ok response
unfolding Oidc.callback_inner Oidc.flow_in Oidc.code_in Oidc.client Oidc.exchanged Oidc.param
    Oidc.decode_verified_claims Oidc.session_identity Oidc.saturating_add Cookies.decrypt_cookie
    Cookies.encrypt_cookie Cookies.open_cookie Cookies.request_cookie Cookies.find_cookie
    Cookies.cookie_pairs Cookies.clear_cookie Hyper.redirect_response Hyper.redirect_headers
    Hyper.append_cookies Web.values_of Claims.validate_roles Claims.claim_strings Claims.claim_at
    Claims.strings_of Claims.role_set Claims.role_ok Claims.member_of Ascii.str_eq Split.split
    Split.cons_first Split.split_once Claims.identity_from_claims Claims.identity_of
    Claims.identity_texts Claims.sort_strs Claims.insert_str Affix.contains White.trim Ascii.str_leb
logged_in = refl

callback_inner-IsLogin_example :
    IsLogin entries parts payloads oidc callback_uri callback_headers times response
callback_inner-IsLogin_example =
    callback_inner-IsLogin entries parts payloads oidc callback_uri callback_headers times response
      logged_in
