-- ===== src/Client/Cookies.antt =====
-- The cookies of the browser login (client/src/authorization.rs): reading them from a request, and the
-- encrypted ones that hold a flow or a session.
pub mod Sealed
use lfp_pipe.Base.{
  ℕ, Option, none, some, List, [], ◌∷◌, ◌++◌, filter, length, leb, if◌then◌else◌, Result, ok, ok_or,
  ensure, ◌>>=◌, ◌>>◌, min, ◌-◌, ◌^◌,
}
use lfp_pipe.Text.{codes}
use lfp_pipe.Text.Ascii.{Str, str_eq}
use lfp_pipe.Text.Split.{split, split_once}
use lfp_pipe.Text.White.{trim}
use lfp_pipe.Client.Hyper.{HeaderMap}

-- The crates `cookie` and `base64` with the session key. `add` makes the text of a cookie of a private jar
-- with the path `/`, secure, for HTTP alone, of the same site (lax) and with that age, and `get` takes the
-- value out of a sealed one.
pub record Jar : Type 0 where
  pub add : Str → Str → ℕ → Option Str
  pub get : Str → Str → Option Str
  pub encode : Str → Str
  pub decode : Str → Option Str

-- `serde_json` for one type.
pub record Json (T : Type 0) : Type 0 where
  pub to_vec : T → Option Str
  pub from_slice : Str → Option T

pub data CookieError : Type 0 where
  not_encoded not_created too_long bad_base64 bad_payload : CookieError

-- The pieces of all the values that are text.
unfoldable pub cookie_pairs : List Str → List Str
cookie_pairs [] = []
cookie_pairs (value ∷ values) = split b';' value ++ cookie_pairs values

abbrev pub pair_value : Str → Option (Str × Str) → Option Str → Option Str
pair_value name none rest = rest
pair_value name (some (candidate, value)) rest = if str_eq candidate name then some value else rest

unfoldable pub find_cookie : Str → List Str → Option Str
find_cookie name [] = none
find_cookie name (pair ∷ pairs) =
    pair_value name (split_once b'=' (trim pair)) (find_cookie name pairs)

abbrev pub i64_max : ℕ
i64_max = 2 ^ 63 - 1

unfoldable pub clear_cookie : Str → Str
clear_cookie name = name ++ codes "=; Path=/; HttpOnly; SameSite=Lax; Secure; Max-Age=0"

module _ {M : Type 0} (h : HeaderMap M) where
  unfoldable pub request_cookie : M → Str → Option Str
  request_cookie headers name =
      find_cookie name (cookie_pairs (filter h.to_str (h.get_all headers (codes "cookie"))))

module _ {M : Type 0} (h : HeaderMap M) (jar : Jar) {T : Type 0} (json : Json T) where
  unfoldable pub open_cookie : Option Str → Result CookieError (Option T)
  open_cookie none = ok none
  open_cookie (some value) = do
    decoded ← ok_or (jar.decode value) bad_base64
    payload ← ok_or (json.from_slice decoded) bad_payload
    ok (some payload)

  abbrev pub sealed_value : Str → Option Str → Option Str
  sealed_value name none = none
  sealed_value name (some raw) = jar.get name raw

  unfoldable pub decrypt_cookie : M → Str → Result CookieError (Option T)
  decrypt_cookie headers name = open_cookie (sealed_value name (request_cookie h headers name))

  unfoldable pub encrypt_cookie : Str → T → ℕ → Result CookieError Str
  encrypt_cookie name value max_age_seconds = do
    payload ← ok_or (json.to_vec value) not_encoded
    output ← ok_or (jar.add name (jar.encode payload) (min max_age_seconds i64_max)) not_created
    ensure (leb (length output) 4096) too_long
    ok output
