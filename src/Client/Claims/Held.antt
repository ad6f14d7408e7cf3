-- ===== src/Client/Claims/Held.antt =====
-- The roles that a claim holds (client/src/authorization.rs): what `claim_strings` reads.
use lfp_pipe.Base.{
  ◌≡◌, ◌≢◌, ◌↔◌, ◌⊎◌, inl, inr, refl, sym, ap, ◌∙◌, subst, true, not, some, List, [], ◌∷◌, any, In,
  Bool-cases, ok, ok_or, ok_or-ok, bind-eq-ok, ensure-eq-ok, ok-injective,
}
use lfp_pipe.Text.Ascii.{Str, str_eq, str_eq_sound}
use lfp_pipe.Text.Split.{split}
use lfp_pipe.Text.White.{is_empty}
use lfp_pipe.Client.Claims.{
  Value, Items, null, bool, number, string, array, object, nil, item, get, as_str, empty_component,
  missing_claim, not_a_role, claim_at, insert_set, role_set, strings_of, claim_strings,
}

-- The way from a value along named members, none of them the empty name.
abbrev pub Reaches : Value → List Str → Value → Type 0
Reaches value [] target = value ≡ target
Reaches value (component ∷ path) target =
    (component ≢ [])
    × ((inner : Value) × (get value component ≡ some inner) × Reaches inner path target)

abbrev pub AllTexts : Items → Type 0
AllTexts nil = Unit
AllTexts (item value items) = ((s : Str) × (value ≡ string s)) × AllTexts items

abbrev pub HasItem : Str → Items → Type 0
HasItem r nil = ⊥
HasItem r (item value items) = (value ≡ string r) ⊎ HasItem r items

-- A text, or an array of texts.
abbrev pub IsRoles : Value → Type 0
IsRoles (string s) = Unit
IsRoles (array items) = AllTexts items
IsRoles null = ⊥
IsRoles (bool b) = ⊥
IsRoles (number n) = ⊥
IsRoles (object members) = ⊥

abbrev pub Holds : Value → Str → Type 0
Holds (string s) r = r ≡ s
Holds (array items) r = HasItem r items
Holds null r = ⊥
Holds (bool b) r = ⊥
Holds (number n) r = ⊥
Holds (object members) r = ⊥

claim_at-Reaches :
    (value : Value) (path : List Str) (target : Value)
    → claim_at value path ≡ ok target
    → Reaches value path target
unfolding claim_at
claim_at-Reaches value [] target h = ok-injective h
claim_at-Reaches value (c ∷ path) target h =
    let (n, h1) = ensure-eq-ok (not (is_empty c)) empty_component _ h in
    let (inner, g, h2) = bind-eq-ok (ok_or (get value c) missing_claim) _ h1 in
    (λ e. cc (rw e at n), (inner, ok_or-ok missing_claim g, claim_at-Reaches inner path target h2))

not_empty : (s : Str) → s ≢ [] → not (is_empty s) ≡ true
not_empty [] n = absurd (n refl)
not_empty (c ∷ s) n = refl

Reaches-claim_at :
    (value : Value) (path : List Str) (target : Value)
    → Reaches value path target
    → claim_at value path ≡ ok target
unfolding claim_at
Reaches-claim_at value [] target r = ap ok r
Reaches-claim_at value (c ∷ path) target (n, (inner, g, r)) =
    rw (not_empty c n, g) (Reaches-claim_at inner path target r)

In-insert_set : (s r : Str) (set : List Str) → In r (insert_set s set) ↔ ((s ≡ r) ⊎ In r set)
In-insert_set s r set = elim (Bool-cases (any (str_eq s) set)) [
  | inl e ↦
      rw e (λ i. inr i, λ p. elim p [ inl q ↦ subst (λ t. In t set) q (known s set e) | inr i ↦ i ])
  | inr e ↦ rw e (
    λ i. elim i [ inl q ↦ inl (sym q) | inr j ↦ inr j ],
    λ p. elim p [ inl q ↦ inl (sym q) | inr j ↦ inr j ],
  )
]
  where
    known : (s : Str) (set : List Str) → any (str_eq s) set ≡ true → In s set
    known s [] e = cc
    known s (t ∷ set) e = elim (Bool-cases (str_eq s t)) [
      | inl f ↦ inl (str_eq_sound s t f)
      | inr f ↦ inr (known s set (rw f at e))
    ]

as_str-string : (value : Value) (s : Str) → as_str (some value) ≡ some s → value ≡ string s
as_str-string (string t) s e = cc
as_str-string null s e = cc
as_str-string (bool b) s e = cc
as_str-string (number n) s e = cc
as_str-string (array items) s e = cc
as_str-string (object members) s e = cc

string-injective : {s t : Str} → string s ≡ string t → s ≡ t
string-injective e = cc

-- What the set holds behind the loop: what it held, and the items.
role_set_sound :
    (values : List Str) (items : Items) (roles : List Str)
    → role_set values items ≡ ok roles
    → AllTexts items × ((r : Str) → In r roles ↔ (In r values ⊎ HasItem r items))
unfolding role_set
role_set_sound values nil roles h = (
  tt,
  λ r. (
    λ i. inl (subst (In r) (sym (ok-injective h)) i),
    λ p. elim p [ inl i ↦ subst (In r) (ok-injective h) i | inr n ↦ absurd n ],
  ),
)
role_set_sound values (item value items) roles h =
    let (name, n, h1) = bind-eq-ok (ok_or (as_str (some value)) not_a_role) _ h in
    let (texts, holds) = role_set_sound (insert_set name values) items roles h1 in
    let is_name = as_str-string value name (ok_or-ok not_a_role n) in
    (
      ((name, is_name), texts),
      λ r. (
        λ i. elim ((holds r).0 i) [
          | inl j ↦ elim ((In-insert_set name r values).0 j) [
            | inl q ↦ inr (inl (is_name ∙ ap string q))
            | inr k ↦ inl k
          ]
          | inr k ↦ inr (inr k)
        ],
        λ p. elim p [
          | inl k ↦ (holds r).1 (inl ((In-insert_set name r values).1 (inr k)))
          | inr (inl q) ↦
              (holds r).1
                (inl ((In-insert_set name r values).1 (inl (string-injective (sym is_name ∙ q)))))
          | inr (inr k) ↦ (holds r).1 (inr k)
        ],
      ),
    )

role_set_complete :
    (values : List Str) (items : Items)
    → AllTexts items
    → (roles : List Str) × (role_set values items ≡ ok roles)
unfolding role_set
role_set_complete values nil t = (values, refl)
role_set_complete values (item value items) ((s, e), t) =
    let (roles, h) = role_set_complete (insert_set s values) items t in (roles, rw e h)

strings_of_sound :
    (value : Value) (roles : List Str)
    → strings_of value ≡ ok roles
    → IsRoles value × ((r : Str) → In r roles ↔ Holds value r)
unfolding strings_of
strings_of_sound (string s) roles h = (
  tt,
  λ r. (
    λ i. elim (subst (In r) (sym (ok-injective h)) i) [ inl q ↦ q | inr n ↦ absurd n ],
    λ q. subst (In r) (ok-injective h) (inl q),
  ),
)
strings_of_sound (array items) roles h =
    let (texts, holds) = role_set_sound [] items roles h in
    (
      texts,
      λ r. (λ i. elim ((holds r).0 i) [ inl n ↦ absurd n | inr k ↦ k ], λ k. (holds r).1 (inr k)),
    )
strings_of_sound null roles h = cc
strings_of_sound (bool b) roles h = cc
strings_of_sound (number n) roles h = cc
strings_of_sound (object members) roles h = cc

strings_of_complete :
    (value : Value) → IsRoles value → (roles : List Str) × (strings_of value ≡ ok roles)
unfolding strings_of
strings_of_complete (string s) t = (s ∷ [], refl)
strings_of_complete (array items) t = role_set_complete [] items t
strings_of_complete null t = elim t [ ]
strings_of_complete (bool b) t = elim t [ ]
strings_of_complete (number n) t = elim t [ ]
strings_of_complete (object members) t = elim t [ ]

pub claim_strings_sound :
    (claims : Value) (path : Str) (roles : List Str)
    → claim_strings claims path ≡ ok roles
    → (value : Value) × Reaches claims (split b'.' path) value
      × IsRoles value
      × ((r : Str) → In r roles ↔ Holds value r)
unfolding claim_strings
claim_strings_sound claims path roles h =
    let (value, v, h1) = bind-eq-ok (claim_at claims (split b'.' path)) _ h in
    let (t, holds) = strings_of_sound value roles h1 in
    (value, claim_at-Reaches claims (split b'.' path) value v, t, holds)

pub claim_strings_complete :
    (claims : Value) (path : Str) (value : Value)
    → Reaches claims (split b'.' path) value
    → IsRoles value
    → (roles : List Str) × (claim_strings claims path ≡ ok roles)
      × ((r : Str) → In r roles ↔ Holds value r)
unfolding claim_strings
claim_strings_complete claims path value r t =
    let (roles, h) = strings_of_complete value t in
    (
      roles,
      rw (Reaches-claim_at claims (split b'.' path) value r) h,
      (strings_of_sound value roles h).1,
    )
