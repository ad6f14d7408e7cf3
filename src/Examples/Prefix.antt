-- ===== src/Examples/Prefix.antt =====
-- One envelope over a small codec: the fields with their lengths in front, and two letters for a byte.
use lfp_pipe.Base.{
  ℕ, suc, ◌+◌, ◌-◌, ◌*◌, ◌%◌, ◌/◌, ◌≤◌, ◌≡◌, refl, Option, none, some, [], ◌∷◌, ◌++◌, arith, length,
  take, drop, ok,
}
use lfp_pipe.Text.{codes}
use lfp_pipe.Text.Ascii
use lfp_pipe.Text.Ascii.{Str}
use lfp_pipe.Text.Affix.{trim_cons, trim_end_matches}
use lfp_pipe.Text.Utf8
use lfp_pipe.Prefix.{PrefixEnvelope, Codec, new_prefix, current_version, encode_line, decode_line}
use lfp_pipe.Prefix.RoundTrip.{Carries, is_base64_byte}
use lfp_pipe.Ingress.Callback.{silent, closed, max_line, read_line, read_prefix}
use lfp_pipe.Ingress.Callback.Bounds.{read_prefix-encode_line, read_prefix-bounded}

unfoldable pub fields : PrefixEnvelope → Str
fields e = e.version ∷ length e.client_id ∷ e.client_id ++ e.connection_id

unfoldable pub of_fields : Str → Option PrefixEnvelope
of_fields (version ∷ n ∷ s) =
    some (record { version = version; client_id = take n s; connection_id = drop n s })
of_fields _ = none

unfoldable pub letters : Str → Str
letters [] = []
letters (c ∷ s) = (b'A' + c / 16) ∷ (b'A' + c % 16) ∷ letters s

abbrev cons_letter : ℕ → Option Str → Option Str
cons_letter c none = none
cons_letter c (some s) = some (c ∷ s)

unfoldable pub of_letters : Str → Option Str
of_letters [] = some []
of_letters (a ∷ []) = none
of_letters (a ∷ b ∷ s) = cons_letter ((a - b'A') * 16 + (b - b'A')) (of_letters s)

unfoldable pub codec : Codec
codec = record {
  to_json = λ e. some (fields e);
  from_json = of_fields;
  encode64 = letters;
  decode64 = of_letters;
}

abbrev pub envelope : PrefixEnvelope
envelope = new_prefix (codes "c1") (codes "x9")

abbrev pub json : Str
json = 1 ∷ 2 ∷ codes "c1x9"

abbrev pub text : Str
text = codes "ABACGDDBHIDJ"

pub carries : Carries codec envelope json
unfolding codec fields of_fields letters of_letters is_base64_byte Ascii.is_ascii_alphanumeric
    Ascii.is_ascii_digit
carries = record { writes = refl; reads = refl; decodes = refl; alphabet = refl; given = λ e. cc }

pub json_fits : length (codec.encode64 json) ≤ max_line
unfolding codec letters
json_fits = omega arith

read_prefix-encode_line_example :
    (line : Str) × (encode_line codec envelope ≡ ok line)
    × (read_prefix codec silent (line ++ codes "relayed") ≡ ok (envelope, codes "relayed"))
read_prefix-encode_line_example =
    read_prefix-encode_line codec silent envelope json (codes "relayed") carries refl json_fits

read : read_prefix codec closed (text ++ b'\n' ∷ codes "rest") ≡ ok (envelope, codes "rest")
unfolding read_prefix read_line decode_line codec of_fields of_letters trim_cons trim_end_matches
    Utf8.is_utf8 Utf8.valid_from Utf8.next_byte Utf8.after_lead
read = refl

read_prefix-bounded_example :
    (envelope.version ≡ current_version)
    × ((line : Str) × (line ++ codes "rest" ≡ text ++ b'\n' ∷ codes "rest")
        × (length line ≤ suc max_line))
read_prefix-bounded_example =
    read_prefix-bounded codec closed (text ++ b'\n' ∷ codes "rest") envelope (codes "rest") read
