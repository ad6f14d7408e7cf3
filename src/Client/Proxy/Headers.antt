-- ===== src/Client/Proxy/Headers.antt =====
-- Setting and removing headers in turn (client/src/http_proxy.rs).
use lfp_pipe.Base.{
  ◌≡◌, inl, inr, refl, sym, ap, subst, ◌∙◌, Bool, true, false, ◌||◌, List, [], ◌∷◌, any,
  if◌then◌else◌, Bool-cases, ok, bind-eq-ok, ok-injective,
}
use lfp_pipe.Text.Ascii.{Str, str_eq, str_eq_sound}
use lfp_pipe.Client.Hyper.{HeaderMap}
use lfp_pipe.Client.Proxy.{remove_all, set_header, set_headers}

-- What a name has after the fields are set in turn.
abbrev pub set_to : Str → List (Str × Str) → List Str → List Str
set_to name [] old = old
set_to name ((n, v) ∷ fields) old = set_to name fields (if str_eq n name then v ∷ [] else old)

abbrev pub names_of : List (Str × Str) → List Str
names_of [] = []
names_of ((n, v) ∷ fields) = n ∷ names_of fields

abbrev pub among : Str → List Str → Bool
among name names = any (λ n. str_eq n name) names

pub set_to-other :
    (name : Str) (fields : List (Str × Str)) (old : List Str)
    → among name (names_of fields) ≡ false
    → set_to name fields old ≡ old
set_to-other name [] old h = refl
set_to-other name ((n, v) ∷ fields) old h = elim (Bool-cases (str_eq n name)) [
  | inl t ↦ cc (rw t at h)
  | inr f ↦ rw f (set_to-other name fields old (rw f at h))
]

module _ {M : Type 0} (h : HeaderMap M) where
  get_all-insert :
      (m : M) (n v name : Str)
      → h.get_all (h.insert m n v) name ≡ (if str_eq n name then v ∷ [] else h.get_all m name)
  get_all-insert m n v name = elim (Bool-cases (str_eq n name)) [
    | inl t ↦ rw t (
        subst (λ k. h.get_all (h.insert m n v) k ≡ v ∷ []) (str_eq_sound n name t)
          (h.insert_same m n v))
    | inr f ↦ rw f (h.insert_other m n v name f)
  ]

  get_all-remove :
      (m : M) (n name : Str)
      → h.get_all (h.remove m n) name ≡ (if str_eq n name then [] else h.get_all m name)
  get_all-remove m n name = elim (Bool-cases (str_eq n name)) [
    | inl t ↦
        rw t
          (subst (λ k. h.get_all (h.remove m n) k ≡ []) (str_eq_sound n name t) (h.remove_same m n))
    | inr f ↦ rw f (h.remove_other m n name f)
  ]

  pub get_all-insert_other :
      (m : M) (n v name : Str)
      → str_eq n name ≡ false
      → h.get_all (h.insert m n v) name ≡ h.get_all m name
  get_all-insert_other m n v name f = h.insert_other m n v name f

  -- Nothing stays of a name that is removed, and the other names keep their values.
  pub get_all-remove_all :
      (names : List Str) (m : M) (name : Str)
      → h.get_all (remove_all h names m) name ≡ (if among name names then [] else h.get_all m name)
  unfolding remove_all
  get_all-remove_all [] m name = refl
  get_all-remove_all (n ∷ names) m name =
      get_all-remove_all names (h.remove m n) name
      ∙ merge (str_eq n name) (among name names) _ _ (get_all-remove m n name)
    where
      merge :
          (t s : Bool) (a b : List Str)
          → a ≡ (if t then [] else b)
          → (if s then [] else a) ≡ (if t || s then [] else b)
      merge true true a b e = refl
      merge true false a b e = e
      merge false true a b e = refl
      merge false false a b e = e

  set_header-ok : (m : M) (n v : Str) (m' : M) → set_header h m n v ≡ ok m' → h.insert m n v ≡ m'
  unfolding set_header
  set_header-ok m n v m' e = elim (Bool-cases (h.from_str v)) [
    | inl t ↦ ok-injective (rw t at e)
    | inr f ↦ cc (rw f at e)
  ]

  pub get_all-set_headers :
      (fields : List (Str × Str)) (m m' : M) (name : Str)
      → set_headers h m fields ≡ ok m'
      → h.get_all m' name ≡ set_to name fields (h.get_all m name)
  unfolding set_headers
  get_all-set_headers [] m m' name e = ap (λ x. h.get_all x name) (sym (ok-injective e))
  get_all-set_headers ((n, v) ∷ fields) m m' name e =
      let (set, s, e1) = bind-eq-ok (set_header h m n v) _ e in
      get_all-set_headers fields set m' name e1
      ∙ ap (set_to name fields)
          (ap (λ x. h.get_all x name) (sym (set_header-ok m n v set s)) ∙ get_all-insert m n v name)
