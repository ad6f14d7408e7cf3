-- ===== src/Client/Proxy/Trusted.antt =====
-- The headers that tell the backend of the client (client/src/http_proxy.rs).
use lfp_pipe.Base.{
  ◌≡◌, refl, sym, ap, ◌∙◌, true, false, not, Option, none, some, List, [], ◌∷◌, if◌then◌else◌,
  Bool-cases, inl, inr, ok,
}
use lfp_pipe.Text.{codes}
use lfp_pipe.Text.Ascii
use lfp_pipe.Text.Ascii.{Str, str_eq}
use lfp_pipe.Text.White.{is_blank}
use lfp_pipe.Client.Claims.{AuthenticatedIdentity}
use lfp_pipe.Client.Hyper.{HeaderMap, Uris, Request, get_header}
use lfp_pipe.Client.Proxy.{
  BackendRuntime, proxy_header_names, remove_all, client_fields, prepare_request, proxied,
  set_headers, with_proxy_headers,
}
use lfp_pipe.Client.Proxy.Headers.{
  set_to, get_all-remove_all, get_all-set_headers, get_all-insert_other, among,
}
use lfp_pipe.Client.Proxy.Rewritten.{
  get_all-with_encoding, with_proxy_headers-steps, with_backend_host-other,
}
use lfp_pipe.Client.Proxy.Told.{prepare_request-IsPrepared}

abbrev pub told_client : Option Str → List Str
told_client none = []
told_client (some ip) = if not (is_blank ip) then ip ∷ [] else []

-- The four headers, from the connection and the first `Host` header.
pub record IsTrusted {M : Type 0} (h : HeaderMap M) (headers : M) (client_ip : Option Str)
    (scheme host : Str) : Type 0 where
  pub no_forwarded : h.get_all headers (codes "forwarded") ≡ []
  pub address : h.get_all headers (codes "x-forwarded-for") ≡ told_client client_ip
  pub proto : h.get_all headers (codes "x-forwarded-proto") ≡ scheme ∷ []
  pub original_host : h.get_all headers (codes "x-forwarded-host") ≡ host ∷ []

set_to-client :
    (ip : Option Str) → set_to (codes "x-forwarded-for") (client_fields ip) [] ≡ told_client ip
unfolding Ascii.str_eq
set_to-client none = refl
set_to-client (some ip) = elim (Bool-cases (not (is_blank ip))) [
  | inl t ↦ rw t refl
  | inr f ↦ rw f refl
]

set_to-forwarded : (ip : Option Str) → set_to (codes "forwarded") (client_fields ip) [] ≡ []
unfolding Ascii.str_eq
set_to-forwarded none = refl
set_to-forwarded (some ip) = elim (Bool-cases (not (is_blank ip))) [
  | inl t ↦ rw t refl
  | inr f ↦ rw f refl
]

module _ {M : Type 0} (h : HeaderMap M) where
  -- A name that is removed first holds what the fields set it to.
  removed_and_set :
      (m named : M) (client_ip : Option Str) (name : Str)
      → among name proxy_header_names ≡ true
      → set_headers h (remove_all h proxy_header_names m) (client_fields client_ip) ≡ ok named
      → h.get_all named name ≡ set_to name (client_fields client_ip) []
  removed_and_set m named client_ip name a s =
      get_all-set_headers h (client_fields client_ip) _ named name s
      ∙ ap (set_to name (client_fields client_ip)) (
          get_all-remove_all h proxy_header_names m name
          ∙ ap (λ t. if t then [] else h.get_all m name) a)

  with_proxy_headers-IsTrusted :
      (m m' : M) (client_ip : Option Str) (scheme host : Str)
      → with_proxy_headers h m client_ip scheme host ≡ ok m'
      → IsTrusted h m' client_ip scheme host
  unfolding Ascii.str_eq
  with_proxy_headers-IsTrusted m m' client_ip scheme host e =
      let (named, s, w) = with_proxy_headers-steps h m m' client_ip scheme host e in
      let proto_set = h.insert named (codes "x-forwarded-proto") scheme in
      let host_set = h.insert proto_set (codes "x-forwarded-host") host in
      let last : (name : Str)
          → str_eq (codes "accept-encoding") name ≡ false
          → h.get_all m' name ≡ h.get_all host_set name =
        λ name f. ap (λ x. h.get_all x name) (sym w) ∙ get_all-with_encoding h host_set name f in
      let first : (name : Str)
          → str_eq (codes "x-forwarded-host") name ≡ false
          → str_eq (codes "x-forwarded-proto") name ≡ false
          → h.get_all host_set name ≡ h.get_all named name =
        λ name f g.
          get_all-insert_other h proto_set (codes "x-forwarded-host") host name f
          ∙ get_all-insert_other h named (codes "x-forwarded-proto") scheme name g in
      record {
        no_forwarded =
            last (codes "forwarded") refl
            ∙ first (codes "forwarded") refl refl
            ∙ removed_and_set m named client_ip (codes "forwarded") refl s
            ∙ set_to-forwarded client_ip;
        address =
            last (codes "x-forwarded-for") refl
            ∙ first (codes "x-forwarded-for") refl refl
            ∙ removed_and_set m named client_ip (codes "x-forwarded-for") refl s
            ∙ set_to-client client_ip;
        proto =
            last (codes "x-forwarded-proto") refl
            ∙ get_all-insert_other h proto_set (codes "x-forwarded-host") host
                (codes "x-forwarded-proto") refl
            ∙ h.insert_same named (codes "x-forwarded-proto") scheme;
        original_host =
            last (codes "x-forwarded-host") refl
            ∙ h.insert_same proto_set (codes "x-forwarded-host") host;
      }

module _ {M U A : Type 0} (h : HeaderMap M) (u : Uris U) where
  -- A backend with `proxy_headers` is told the address and scheme of the connection, where the address is
  -- known, and the first `Host` header of the request, each in one value, and no `Forwarded` header: what a
  -- client says of these itself does not arrive.
  pub prepare_request-IsTrusted :
      (request : Request M U) (backend : BackendRuntime A) (client_ip : Option Str) (scheme : Str)
      (identity : Option AuthenticatedIdentity) (out : Request M U)
      → prepare_request h u request backend client_ip scheme identity ≡ ok out
      → backend.rule.proxy_headers ≡ true
      → (host : Str) × (get_header h request.headers (codes "host") ≡ some host)
        × IsTrusted h out.headers client_ip scheme host
  unfolding Ascii.str_eq
  prepare_request-IsTrusted request backend client_ip scheme identity out e p =
      let s = prepare_request-IsPrepared h u request backend client_ip scheme identity out e in
      let t =
        with_proxy_headers-IsTrusted h s.told s.forwarded client_ip scheme s.host
          (ap (λ b. proxied h b s.told client_ip scheme s.host) (sym p) ∙ s.forwarding) in
      let later : (name : Str)
          → str_eq (codes "host") name ≡ false
          → h.get_all out.headers name ≡ h.get_all s.forwarded name =
        λ name f.
          with_backend_host-other h backend.rule.backend_host s.forwarded out.headers name f
            s.hosting in
      (
        s.host,
        s.has_host,
        record {
          no_forwarded = later (codes "forwarded") refl ∙ t.no_forwarded;
          address = later (codes "x-forwarded-for") refl ∙ t.address;
          proto = later (codes "x-forwarded-proto") refl ∙ t.proto;
          original_host = later (codes "x-forwarded-host") refl ∙ t.original_host;
        },
      )
