-- ===== src/Prefix.antt =====
-- shared/src/prefix.rs: the first line of a callback connection.
pub mod RoundTrip
use lfp_pipe.Base.{
  ℕ, Bool, not, Option, [], ◌∷◌, ◌++◌, ◌==◌, Result, ok, err, ok_or, ensure, ◌>>=◌, ◌>>◌,
}
use lfp_pipe.Text.Ascii.{Str}
use lfp_pipe.Text.Affix.{trim_end_matches}
use lfp_pipe.Text.White.{is_empty}
use lfp_pipe.Text.Utf8.{is_utf8}

pub record PrefixEnvelope : Type 0 where
  pub version : ℕ
  pub client_id : Str
  pub connection_id : Str

pub data PrefixError : Type 0 where
  unserializable not_utf8 empty_line bad_base64 bad_json unsupported_version : PrefixError
  closed_before_prefix line_too_large timed_out : PrefixError

-- The crates that write and read JSON and standard base64.
pub record Codec : Type 0 where
  pub to_json : PrefixEnvelope → Option Str
  pub from_json : Str → Option PrefixEnvelope
  pub encode64 : Str → Str
  pub decode64 : Str → Option Str

abbrev pub current_version : ℕ
current_version = 1

-- `PrefixEnvelope::new`.
abbrev pub new_prefix : Str → Str → PrefixEnvelope
new_prefix client_id connection_id = record {
  version = current_version;
  client_id = client_id;
  connection_id = connection_id;
}

unfoldable pub encode_line : Codec → PrefixEnvelope → Result PrefixError Str
encode_line codec self = do
  json ← ok_or (codec.to_json self) unserializable
  ok (codec.encode64 json ++ b'\n' ∷ [])

abbrev pub trim_line : Str → Str
trim_line line = trim_end_matches b'\r' (trim_end_matches b'\n' line)

unfoldable pub decode_line : Codec → Str → Result PrefixError PrefixEnvelope
decode_line codec line = do
  ensure (is_utf8 line) not_utf8
  ensure (not (is_empty (trim_line line))) empty_line
  decoded ← ok_or (codec.decode64 (trim_line line)) bad_base64
  envelope ← ok_or (codec.from_json decoded) bad_json
  ensure (envelope.version == current_version) unsupported_version
  ok envelope
