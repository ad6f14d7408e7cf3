-- ===== src/Ingress/Detect.antt =====
-- `detect_hostname` (ingress/src/lib.rs): bytes are read until they name a host, or show that they
-- will not.
pub mod Decide
pub mod Fragments
use lfp_pipe.Base.{
  ℕ, zero, suc, ◌+◌, ◌-◌, ◌*◌, Bool, true, false, Option, none, some, List, [], ◌∷◌, ◌++◌, min,
  get_elem?, length, take, drop, ltb, leb, ◌==◌, is_some, unwrap_or, if◌then◌else◌, Result, ok, err,
  ◌>>=◌,
}
use lfp_pipe.Text.Ascii.{Str}
use lfp_pipe.Http.{extract_http_host, looks_like_http_prefix, position, header_end}
use lfp_pipe.Tls.{validate_tls_record_header}
use lfp_pipe.Text.White.{is_empty}

abbrev pub max_preface_bytes : ℕ
max_preface_bytes = 16 * 1024

abbrev pub tls_header_bytes : ℕ
tls_header_bytes = 5

pub data DetectError : Type 0 where
  bad_tls_header hello_too_large bad_client_hello headers_too_large : DetectError
  read_failed timed_out : DetectError

-- The crate that parses a ClientHello record: it fails, or gives the server name, if there is one.
abbrev pub SniParser : Type 0
SniParser = Str → Option (Option Str)

-- What the loop does with the bytes read so far: it reads on, returns, or fails.
pub data Decision : Type 0 where
  more : Decision
  done : Option Str → Bool → Decision
  fail : DetectError → Decision

abbrev pub byte_at : Str → ℕ → ℕ
byte_at buf i = unwrap_or (get_elem? buf i) 0

-- The length of the record, `u16::from_be_bytes` behind the header.
abbrev pub record_length : Str → ℕ
record_length buf = tls_header_bytes + (byte_at buf 3 * 256 + byte_at buf 4)

abbrev pub sni_decision : Option (Option Str) → Decision
sni_decision none = fail bad_client_hello
sni_decision (some hostname) = done hostname true

unfoldable pub decide_tls : SniParser → Str → Decision
decide_tls extract_sni buf =
    if ltb (length buf) tls_header_bytes then more else elim (validate_tls_record_header buf) [
      | err e ↦ fail bad_tls_header
      | ok _ ↦
          if ltb max_preface_bytes (record_length buf)
          then fail hello_too_large
          else if ltb (length buf) (record_length buf)
          then more
          else sni_decision (extract_sni (take (record_length buf) buf))
    ]

-- What is left to do with the host that the bytes name, or with bytes that name none.
abbrev pub http_decision : Option Str → Str → Decision
http_decision (some host) buf = done (some host) false
http_decision none buf =
    if looks_like_http_prefix buf
    then if is_some (position header_end buf)
      then done none false
      else if ltb (length buf) max_preface_bytes
      then more
      else fail headers_too_large
    else done none false

unfoldable pub decide_http : Str → Decision
decide_http buf = http_decision (extract_http_host buf) buf

-- One round of the loop behind the read. `buf` holds a byte by then.
unfoldable pub decide : SniParser → Str → Decision
decide extract_sni [] = more
decide extract_sni (b ∷ buf) =
    if b == 0x16 then decide_tls extract_sni (b ∷ buf) else decide_http (b ∷ buf)

-- What a read meets: this many bytes have arrived (none: the peer closed), or an I/O error.
pub data ReadEvent : Type 0 where
  ready : ℕ → ReadEvent
  broken : ReadEvent

pub record Detected : Type 0 where
  pub hostname : Option Str
  pub tls : Bool
  pub preface : Str
  pub unread : Str

abbrev pub detected : Option Str → Bool → Str → Str → Detected
detected hostname tls preface unread = record {
  hostname = hostname;
  tls = tls;
  preface = preface;
  unread = unread;
}

-- The bytes that one read moves: at most 512, and no more than the preface has room for.
abbrev pub chunk_len : Str → ℕ → ℕ
chunk_len buf n = min n (min 512 (max_preface_bytes - length buf))

-- What a round does with its decision.
abbrev pub follow : Decision → Result DetectError Detected → Str → Str → Result DetectError Detected
follow more continue buf unread = continue
follow (done hostname tls) continue buf unread = ok (detected hostname tls buf unread)
follow (fail e) continue buf unread = err e

-- The loop over what the reads meet, on the bytes read and those still to come. Where the peer stays
-- silent the deadline of `detect_hostname_before` ends it.
unfoldable pub detect_hostname :
    SniParser → List ReadEvent → Str → Str → Result DetectError Detected
detect_hostname extract_sni [] buf stream = err timed_out
detect_hostname extract_sni (broken ∷ events) buf stream = err read_failed
detect_hostname extract_sni (ready n ∷ events) buf stream =
    let chunk = take (chunk_len buf n) stream in
    let unread = drop (chunk_len buf n) stream in
    let continue = detect_hostname extract_sni events (buf ++ chunk) unread in
    if is_empty chunk
    then ok (detected none false buf stream)
    else follow (decide extract_sni (buf ++ chunk)) continue (buf ++ chunk) unread
