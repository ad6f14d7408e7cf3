-- ===== src/Tls.antt =====
-- shared/src/tls.rs: the header of a TLS record. The ClientHello inside it is parsed by a third-party
-- crate, a parameter where it is used.
use lfp_pipe.Base.{ℕ, not, Result, ok, err, if◌then◌else◌, ltb, length, ◌==◌, [], ◌∷◌}
use lfp_pipe.Text.Ascii.{Str}

pub data TlsError : Type 0 where
  too_short not_handshake : TlsError

abbrev first_is : ℕ → Str → Result TlsError (Unit {0})
first_is b [] = err not_handshake
first_is b (x ∷ s) = if not (x == b) then err not_handshake else ok tt

unfoldable pub validate_tls_record_header : Str → Result TlsError (Unit {0})
validate_tls_record_header record_bytes =
    if ltb (length record_bytes) 5 then err too_short else first_is 0x16 record_bytes
