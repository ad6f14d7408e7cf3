-- ===== src/Client/Proxy/Rewritten.antt =====
-- The headers that `prepare_request` rewrites for the user, the proxy and the backend
-- (client/src/http_proxy.rs).
use lfp_pipe.Base.{
  ◌≡◌, inl, inr, refl, sym, ap, ◌∙◌, Bool, true, false, not, ◌&&◌, Option, none, some, List, [],
  ◌∷◌, ◌++◌, all, arith, if◌then◌else◌, Bool-cases, ok, bind-eq-ok, ensure-eq-ok, ok-injective,
}
use lfp_pipe.Text.{codes}
use lfp_pipe.Text.White.{is_blank}
use lfp_pipe.Text.Ascii
use lfp_pipe.Text.Ascii.{Str, str_eq, str_eq_sound}
use lfp_pipe.Client.Claims.{AuthenticatedIdentity}
use lfp_pipe.Client.Hyper.{HeaderMap, contains_key}
use lfp_pipe.Client.Proxy.{
  remove_all, set_headers, identity_headers, identity_fields, email_fields, group_fields,
  proxy_header_names, client_fields, with_identity, with_encoding, with_proxy_headers,
  with_backend_host, proxied, bad_scheme, bad_backend_host,
}
use lfp_pipe.Client.Proxy.Headers.{
  set_to, names_of, among, set_to-other, get_all-remove_all, get_all-set_headers,
  get_all-insert_other,
}

-- The names behind those of the user that `prepare_request` writes.
abbrev pub rewritten_headers : List Str
rewritten_headers =
    codes "forwarded"
    ∷ codes "x-forwarded-for"
    ∷ codes "x-forwarded-proto"
    ∷ codes "x-forwarded-host"
    ∷ codes "accept-encoding"
    ∷ codes "host"
    ∷ []

among-subset :
    (name : Str) (sub names : List Str)
    → all (λ n. among n names) sub ≡ true
    → among name names ≡ false
    → among name sub ≡ false
among-subset name [] names a f = refl
among-subset name (n ∷ sub) names a f = elim (Bool-cases (str_eq n name)) [
  | inl t ↦ cc (f, ap (λ k. among k names) (str_eq_sound n name t), left (among n names) _ a)
  | inr g ↦ rw g (among-subset name sub names (right (among n names) _ a) f)
]
  where
    left : (p q : Bool) → p && q ≡ true → p ≡ true
    left p q e = ground arith

    right : (p q : Bool) → p && q ≡ true → q ≡ true
    right p q e = ground arith

-- The fields of an identity have names of the list.
fields_known :
    (i : Option AuthenticatedIdentity)
    → all (λ n. among n identity_headers) (names_of (identity_fields i)) ≡ true
unfolding Ascii.str_eq
fields_known none = refl
fields_known (some i) = by_parts i.email i.groups
  where
    by_parts :
        (email : Option Str) (groups : List Str)
        → all (λ n. among n identity_headers) (names_of (email_fields email ++ group_fields groups))
          ≡ true
    by_parts none [] = refl
    by_parts none (g ∷ gs) = refl
    by_parts (some e) [] = refl
    by_parts (some e) (g ∷ gs) = refl

module _ {M : Type 0} (h : HeaderMap M) where
  pub with_identity-told :
      (m told : M) (i : Option AuthenticatedIdentity) (name : Str)
      → with_identity h m i ≡ ok told
      → h.get_all told name ≡ (
          if among name identity_headers
          then set_to name (identity_fields i) []
          else h.get_all m name)
  unfolding with_identity
  with_identity-told m told i name e =
      get_all-set_headers h (identity_fields i) _ told name e
      ∙ ap (set_to name (identity_fields i)) (get_all-remove_all h identity_headers m name)
      ∙ kept (among name identity_headers) refl
    where
      kept :
          (t : Bool)
          → among name identity_headers ≡ t
          → set_to name (identity_fields i) (if t then [] else h.get_all m name)
            ≡ (if t then set_to name (identity_fields i) [] else h.get_all m name)
      kept true q = refl
      kept false q =
          set_to-other name (identity_fields i) _
            (among-subset name (names_of (identity_fields i)) identity_headers (fields_known i) q)

pub not_in :
    (n name : Str) (names : List Str)
    → among n names ≡ true
    → among name names ≡ false
    → str_eq n name ≡ false
not_in n name names a f = elim (Bool-cases (str_eq n name)) [
  | inl t ↦ cc (f, ap (λ k. among k names) (str_eq_sound n name t), a)
  | inr g ↦ g
]

-- Of a client the address is told, or nothing.
client_known :
    (ip : Option Str) → all (λ n. among n rewritten_headers) (names_of (client_fields ip)) ≡ true
unfolding Ascii.str_eq
client_known none = refl
client_known (some ip) = elim (Bool-cases (not (is_blank ip))) [
  | inl t ↦ rw t refl
  | inr f ↦ rw f refl
]

pub known :
    (all (λ n. among n rewritten_headers) proxy_header_names ≡ true)
    × (among (codes "x-forwarded-proto") rewritten_headers ≡ true)
    × (among (codes "x-forwarded-host") rewritten_headers ≡ true)
    × (among (codes "accept-encoding") rewritten_headers ≡ true)
    × (among (codes "host") rewritten_headers ≡ true)
unfolding Ascii.str_eq
known = (refl, refl, refl, refl, refl)

module _ {M : Type 0} (h : HeaderMap M) where
  pub get_all-with_encoding :
      (m : M) (name : Str)
      → str_eq (codes "accept-encoding") name ≡ false
      → h.get_all (with_encoding h m) name ≡ h.get_all m name
  unfolding with_encoding
  get_all-with_encoding m name f = elim (Bool-cases (contains_key h m (codes "accept-encoding"))) [
    | inl t ↦ rw t refl
    | inr e ↦ rw e (get_all-insert_other h m (codes "accept-encoding") (codes "gzip") name f)
  ]

  pub with_proxy_headers-steps :
      (m m' : M) (client_ip : Option Str) (scheme host : Str)
      → with_proxy_headers h m client_ip scheme host ≡ ok m'
      → (named : M) × (set_headers h (remove_all h proxy_header_names m) (client_fields client_ip)
          ≡ ok named)
        × (with_encoding h (
              h.insert
                (h.insert named (codes "x-forwarded-proto") scheme)
                (codes "x-forwarded-host")
                host)
            ≡ m')
  unfolding with_proxy_headers
  with_proxy_headers-steps m m' client_ip scheme host e =
      let (named, s, e1) =
        bind-eq-ok (set_headers h (remove_all h proxy_header_names m) (client_fields client_ip)) _
          e in
      let (v, e2) = ensure-eq-ok (h.from_str scheme) bad_scheme _ e1 in (named, s, ok-injective e2)

  pub proxied-other :
      (b : Bool) (m m' : M) (client_ip : Option Str) (scheme host name : Str)
      → among name rewritten_headers ≡ false
      → proxied h b m client_ip scheme host ≡ ok m'
      → h.get_all m' name ≡ h.get_all m name
  proxied-other false m m' client_ip scheme host name f e =
      ap (λ x. h.get_all x name) (sym (ok-injective e))
  proxied-other true m m' client_ip scheme host name f e =
      let (named, s, w) = with_proxy_headers-steps m m' client_ip scheme host e in
      let (ps, proto, fhost, encoding, hst) = known in
      let proto_set = h.insert named (codes "x-forwarded-proto") scheme in
      ap (λ x. h.get_all x name) (sym w)
      ∙ get_all-with_encoding _ name
          (not_in (codes "accept-encoding") name rewritten_headers encoding f)
      ∙ get_all-insert_other h proto_set (codes "x-forwarded-host") host name
          (not_in (codes "x-forwarded-host") name rewritten_headers fhost f)
      ∙ get_all-insert_other h named (codes "x-forwarded-proto") scheme name
          (not_in (codes "x-forwarded-proto") name rewritten_headers proto f)
      ∙ get_all-set_headers h (client_fields client_ip) _ named name s
      ∙ set_to-other name (client_fields client_ip) _ (
          among-subset name (names_of (client_fields client_ip)) rewritten_headers
            (client_known client_ip) f)
      ∙ get_all-remove_all h proxy_header_names m name
      ∙ ap (λ t. if t then [] else h.get_all m name)
          (among-subset name proxy_header_names rewritten_headers ps f)

  pub with_backend_host-other :
      (o : Option Str) (m m' : M) (name : Str)
      → str_eq (codes "host") name ≡ false
      → with_backend_host h o m ≡ ok m'
      → h.get_all m' name ≡ h.get_all m name
  with_backend_host-other none m m' name f e = ap (λ x. h.get_all x name) (sym (ok-injective e))
  with_backend_host-other (some host) m m' name f e =
      let (v, e1) = ensure-eq-ok (h.from_str host) bad_backend_host _ e in
      ap (λ x. h.get_all x name) (sym (ok-injective e1))
      ∙ get_all-insert_other h m (codes "host") host name f
