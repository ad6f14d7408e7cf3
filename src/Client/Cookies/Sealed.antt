-- ===== src/Client/Cookies/Sealed.antt =====
-- What `decrypt_cookie` (client/src/authorization.rs) finds in a request.
use lfp_pipe.Base.{
  ◌≡◌, Option, none, some, ok, ok_or, ok_or-ok, Option-cases, inl, inr, bind-eq-ok, ok-injective,
  ap, ◌∙◌,
}
use lfp_pipe.Text.Ascii.{Str}
use lfp_pipe.Client.Hyper.{HeaderMap}
use lfp_pipe.Client.Cookies.{
  Jar, Json, bad_base64, bad_payload, request_cookie, sealed_value, open_cookie, decrypt_cookie,
}

module _ {M : Type 0} (h : HeaderMap M) (jar : Jar) {T : Type 0} (json : Json T) where
  -- The request has a cookie of that name, which the private jar opens to the base64 text of the value.
  pub record IsSealed (headers : M) (name : Str) (value : T) : Type 0 where
    pub raw : Str
    pub opened : Str
    pub bytes : Str
    pub carried : request_cookie h headers name ≡ some raw
    pub unsealed : jar.get name raw ≡ some opened
    pub decoded : jar.decode opened ≡ some bytes
    pub parsed : json.from_slice bytes ≡ some value

  sealed_value-some :
      (name : Str) (o : Option Str) (opened : Str)
      → sealed_value h jar json name o ≡ some opened
      → (raw : Str) × (o ≡ some raw) × (jar.get name raw ≡ some opened)
  sealed_value-some name none opened e = cc
  sealed_value-some name (some raw) opened e = (raw, cc, e)

  pub decrypt_cookie-IsSealed :
      (headers : M) (name : Str) (value : T)
      → decrypt_cookie h jar json headers name ≡ ok (some value)
      → IsSealed headers name value
  unfolding decrypt_cookie open_cookie
  decrypt_cookie-IsSealed headers name value e =
      elim (Option-cases (sealed_value h jar json name (request_cookie h headers name))) [
        | inl n ↦ let q : ok none ≡ ok (some value) = rw n at e in cc (ok-injective q)
        | inr (opened, s) ↦
            let (raw, c, u) = sealed_value-some name (request_cookie h headers name) opened s in
            let (bytes, b, e1) = bind-eq-ok (ok_or (jar.decode opened) bad_base64) _ (rw s at e) in
            let (payload, p, e2) = bind-eq-ok (ok_or (json.from_slice bytes) bad_payload) _ e1 in
            let same : payload ≡ value = cc (ok-injective e2) in
            record {
              raw = raw;
              opened = opened;
              bytes = bytes;
              carried = c;
              unsealed = u;
              decoded = ok_or-ok bad_base64 b;
              parsed = ok_or-ok bad_payload p ∙ ap some same;
            }
      ]
