-- ===== src/Client/Hyper.antt =====
-- What the client uses of the crates `http` and `hyper`, as interfaces, with the responses that
-- client/src/authorization.rs makes of them.
use lfp_pipe.Base.{
  ℕ, ◌≡◌, Bool, false, Option, none, some, List, [], ◌∷◌, ◌++◌, is_some, Result, ok, err,
  if◌then◌else◌,
}
use lfp_pipe.Text.{codes}
use lfp_pipe.Text.Ascii.{Str, str_eq}

-- `HeaderMap`: a name, in lower case, has a list of values. `insert` replaces all of them, `remove` takes
-- all of them away, and both leave the other names alone. `from_str` is the test of
-- `HeaderValue::from_str`, `to_str` that of `HeaderValue::to_str`.
pub record HeaderMap (M : Type 0) : Type 0 where
  pub new : M
  pub get_all : M → Str → List Str
  pub insert : M → Str → Str → M
  pub append : M → Str → Str → M
  pub remove : M → Str → M
  pub from_str : Str → Bool
  pub to_str : Str → Bool
  pub insert_same : (m : M) (name value : Str) → get_all (insert m name value) name ≡ value ∷ []
  pub insert_other :
      (m : M) (name value other : Str)
      → str_eq name other ≡ false
      → get_all (insert m name value) other ≡ get_all m other
  pub remove_same : (m : M) (name : Str) → get_all (remove m name) name ≡ []
  pub remove_other :
      (m : M) (name other : Str)
      → str_eq name other ≡ false
      → get_all (remove m name) other ≡ get_all m other

-- `Uri`, by the parts that are read and the parser.
pub record Uris (U : Type 0) : Type 0 where
  pub path : U → Str
  pub query : U → Option Str
  pub path_and_query : U → Option Str
  pub from_str : Str → Option U

pub record Request (M U : Type 0) : Type 0 where
  pub method : Str
  pub uri : U
  pub headers : M

abbrev pub first_value : List Str → Option Str
first_value [] = none
first_value (v ∷ vs) = some v

module _ {M : Type 0} (h : HeaderMap M) where
  -- `headers.get(name)`: the first value.
  abbrev pub get_header : M → Str → Option Str
  get_header m name = first_value (h.get_all m name)

  abbrev pub contains_key : M → Str → Bool
  contains_key m name = is_some (get_header m name)

pub record AuthResponse (M : Type 0) : Type 0 where
  pub status : ℕ
  pub headers : M
  pub body : Str

pub data ResponseError : Type 0 where
  invalid_location invalid_set_cookie : ResponseError

module _ {M : Type 0} (h : HeaderMap M) where
  unfoldable pub append_cookies : M → List Str → Result ResponseError M
  append_cookies m [] = ok m
  append_cookies m (c ∷ cs) =
      let rest = append_cookies (h.append m (codes "set-cookie") c) cs in
      if h.from_str c then rest else err invalid_set_cookie

  -- The two headers in front of the cookies.
  unfoldable pub redirect_headers : Str → M
  redirect_headers location =
      h.insert (h.insert h.new (codes "location") location) (codes "cache-control")
        (codes "no-store")

  abbrev with_cookies : ℕ → Result ResponseError M → Result ResponseError (AuthResponse M)
  with_cookies status (ok m) = ok (record { status = status; headers = m; body = [] })
  with_cookies status (err e) = err e

  unfoldable pub redirect_response : ℕ → Str → List Str → Result ResponseError (AuthResponse M)
  redirect_response status location cookies =
      if h.from_str location
      then with_cookies status (append_cookies (redirect_headers location) cookies)
      else err invalid_location

  unfoldable pub json_response : ℕ → Str → AuthResponse M
  json_response status body = record {
    status = status;
    headers =
        h.insert (h.insert h.new (codes "content-type") (codes "application/json"))
          (codes "cache-control") (codes "no-store");
    body = body;
  }

  -- `{"error":"..."}` and a newline.
  abbrev pub error_body : Str → Str
  error_body message =
      b'{' ∷ b'"' ∷ codes "error" ++ (b'"' ∷ b':' ∷ b'"' ∷ message ++ (b'"' ∷ b'}' ∷ b'\n' ∷ []))

  unfoldable pub unauthorized_response : AuthResponse M
  unauthorized_response =
      let response = json_response 401 (error_body (codes "unauthorized")) in
      record response {
        headers =
            h.insert response.headers (codes "www-authenticate")
              (codes "Bearer realm=" ++ (b'"' ∷ codes "lfp-pipe" ++ (b'"' ∷ [])));
      }

  unfoldable pub forbidden_response : AuthResponse M
  forbidden_response = json_response 403 (error_body (codes "forbidden"))

  unfoldable pub internal_error_response : AuthResponse M
  internal_error_response = json_response 500 (error_body (codes "authentication unavailable"))

  unfoldable pub method_not_allowed_response : AuthResponse M
  method_not_allowed_response = json_response 405 (error_body (codes "method not allowed"))
