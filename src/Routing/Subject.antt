-- ===== src/Routing/Subject.antt =====
-- `hostname_request_subject` (shared/src/routing.rs): the DNS labels of a name, reversed.
use lfp_pipe.Base.{
  ℕ, ◌≡◌, refl, sym, ap, ◌∙◌, Bool, true, false, ◌||◌, not, Option, none, some, List, [], ◌∷◌, ◌++◌,
  arith, ltb, ◌==◌, if◌then◌else◌, length, any, all, reverse, All,
}
use mathlib.Core.List.{reverse_aux, reverse-reverse}
use lfp_pipe.Text.{codes}
use lfp_pipe.Text.Ascii.{Str, to_ascii_lowercase, is_ascii_alphanumeric}
use lfp_pipe.Text.Affix.{starts_with, ends_with, trim_end_matches}
use lfp_pipe.Text.Split.{
  split, join, join-split, split-join, Free, Free-split, NonEmpty, NonEmpty-split,
}
use lfp_pipe.Text.White.{is_empty}

abbrev is_label_byte : ℕ → Bool
is_label_byte byte = is_ascii_alphanumeric byte || byte == b'-'

unfoldable pub bad_label : Str → Bool
bad_label label =
    is_empty label
    || ltb 63 (length label)
    || starts_with label (codes "-")
    || ends_with label (codes "-")
    || not (all is_label_byte label)

-- The name that the labels are taken from.
unfoldable pub dns_name : Str → Str
dns_name hostname = to_ascii_lowercase (trim_end_matches b'.' hostname)

unfoldable pub hostname_request_subject : Str → Str → Option Str
hostname_request_subject prefix hostname =
    let labels = split b'.' (dns_name hostname) in
    if ltb (length labels) 2 || any bad_label labels
    then none
    else some (trim_end_matches b'.' prefix ++ b'.' ∷ join (codes ".") (reverse labels))

All-reverse_aux {ℓ} :
    {A : Type ℓ} (P : A → Type 0) (xs acc : List A)
    → All P xs
    → All P acc
    → All P (reverse_aux xs acc)
All-reverse_aux P [] acc h k = k
All-reverse_aux P (x ∷ xs) acc h k = All-reverse_aux P xs (x ∷ acc) h.1 (h.0, k)

NonEmpty-reverse_aux : (ws acc : List Str) → NonEmpty (ws ++ acc) → NonEmpty (reverse_aux ws acc)
NonEmpty-reverse_aux [] acc h = h
NonEmpty-reverse_aux (w ∷ []) acc h = tt
NonEmpty-reverse_aux (w ∷ v ∷ ws) acc h = NonEmpty-reverse_aux (v ∷ ws) (w ∷ acc) tt

NonEmpty-reverse : (ws : List Str) → NonEmpty ws → NonEmpty (reverse ws)
NonEmpty-reverse [] h = h
NonEmpty-reverse (w ∷ ws) h = NonEmpty-reverse_aux (w ∷ ws) [] tt

-- The part of a subject that names the host.
abbrev reversed_labels : Str → Str
reversed_labels hostname = join (codes ".") (reverse (split b'.' (dns_name hostname)))

module _ (prefix hostname : Str) {subject : Str}
    (found : hostname_request_subject prefix hostname ≡ some subject) where
  subject_text : subject ≡ trim_end_matches b'.' prefix ++ b'.' ∷ reversed_labels hostname
  unfolding hostname_request_subject
  subject_text = ground arith

  labels_good : any bad_label (split b'.' (dns_name hostname)) ≡ false
  unfolding hostname_request_subject
  labels_good = ground arith

-- The labels come back from the joined text, in either order.
join-reverse-split :
    (s : Str)
    → join (codes ".") (reverse (split b'.' (join (codes ".") (reverse (split b'.' s))))) ≡ s
join-reverse-split s =
    let ws = split b'.' s in
    let back : split b'.' (join (codes ".") (reverse ws)) ≡ reverse ws =
      split-join b'.' (reverse ws) (NonEmpty-reverse ws (NonEmpty-split b'.' s))
        (All-reverse_aux (Free b'.') ws [] (Free-split b'.' s) tt) in
    ap (λ t. join (codes ".") (reverse t)) back
    ∙ ap (join (codes ".")) (reverse-reverse ws)
    ∙ join-split b'.' s

append_cancel : (p : Str) {s t : Str} → p ++ s ≡ p ++ t → s ≡ t
append_cancel [] e = e
append_cancel (x ∷ p) e = append_cancel p cc

-- Under one prefix two hostnames have the same subject only if they are one DNS name: equal up to ASCII
-- case and dots at the end.
pub hostname_request_subject-injective :
    (prefix a b : Str) {subject : Str}
    → hostname_request_subject prefix a ≡ some subject
    → hostname_request_subject prefix b ≡ some subject
    → dns_name a ≡ dns_name b
hostname_request_subject-injective prefix a b f g =
    let same : b'.' ∷ reversed_labels a ≡ b'.' ∷ reversed_labels b =
      append_cancel (trim_end_matches b'.' prefix)
        (sym (subject_text prefix a f) ∙ subject_text prefix b g) in
    let e : reversed_labels a ≡ reversed_labels b = cc in
    sym (join-reverse-split (dns_name a))
    ∙ ap (λ t. join (codes ".") (reverse (split b'.' t))) e
    ∙ join-reverse-split (dns_name b)

-- The bytes that a host adds to a subject.
abbrev pub is_subject_byte : ℕ → Bool
is_subject_byte c = is_label_byte c || c == b'.'

abbrev IsLabel : Str → Type 0
IsLabel w = all is_label_byte w ≡ true

labels-IsLabel : (ws : List Str) → any bad_label ws ≡ false → All IsLabel ws
unfolding bad_label
labels-IsLabel [] h = tt
labels-IsLabel (w ∷ ws) h = (ground arith, labels-IsLabel ws (ground arith))

all-subject : (w : Str) → IsLabel w → all is_subject_byte w ≡ true
all-subject [] h = refl
all-subject (c ∷ w) h = ground (arith, all-subject w)

all-append : (p : ℕ → Bool) (s t : Str) → all p s ≡ true → all p t ≡ true → all p (s ++ t) ≡ true
all-append p [] t h k = k
all-append p (c ∷ s) t h k = ground (arith, all-append p s t)

join-subject : (ws : List Str) → All IsLabel ws → all is_subject_byte (join (codes ".") ws) ≡ true
unfolding join
join-subject [] h = refl
join-subject (w ∷ []) h = all-subject w h.0
join-subject (w ∷ v ∷ ws) h =
    all-append is_subject_byte w (b'.' ∷ join (codes ".") (v ∷ ws)) (all-subject w h.0)
      (ground (arith, join-subject (v ∷ ws) h.1))

-- A subject is the prefix, without dots at its end, a dot, and letters, digits, hyphens and dots alone:
-- a hostname brings no `*`, `>` or space into a NATS subject.
pub hostname_request_subject-safe :
    (prefix hostname : Str) {subject : Str}
    → hostname_request_subject prefix hostname ≡ some subject
    → (host : Str) × (subject ≡ trim_end_matches b'.' prefix ++ b'.' ∷ host)
      × (all is_subject_byte host ≡ true)
hostname_request_subject-safe prefix hostname f = (
  reversed_labels hostname,
  subject_text prefix hostname f,
  join-subject (reverse (split b'.' (dns_name hostname))) (
      All-reverse_aux IsLabel (split b'.' (dns_name hostname)) []
        (labels-IsLabel _ (labels_good prefix hostname f)) tt),
)
