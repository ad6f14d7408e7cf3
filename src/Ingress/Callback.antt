-- ===== src/Ingress/Callback.antt =====
-- `read_prefix` (ingress/src/lib.rs): the callback socket is read a byte at a time up to a newline, so
-- that nothing behind the prefix line is taken from the relay.
pub mod Bounds
use lfp_pipe.Base.{ℕ, Bool, [], ◌∷◌, ◌++◌, ◌==◌, ltb, length, if◌then◌else◌, Result, ok, err, ◌>>=◌}
use lfp_pipe.Text.Ascii.{Str}
use lfp_pipe.Prefix.{
  PrefixEnvelope, PrefixError, Codec, decode_line, closed_before_prefix, line_too_large, timed_out,
}

-- How the bytes of the peer end: it closes the socket, or stays silent until the deadline of
-- `read_prefix_before`.
pub data Ending : Type 0 where
  closed silent : Ending

abbrev pub max_line : ℕ
max_line = 4096

abbrev pub ending_error : Ending → PrefixError
ending_error closed = closed_before_prefix
ending_error silent = timed_out

-- The loop: the line read so far, and the bytes to come.
unfoldable pub read_line : Ending → Str → Str → Result PrefixError (Str × Str)
read_line ending line [] = err (ending_error ending)
read_line ending line (byte ∷ stream) =
    let rest = read_line ending (line ++ byte ∷ []) stream in
    if byte == b'\n'
    then ok (line ++ byte ∷ [], stream)
    else if ltb max_line (length (line ++ byte ∷ []))
    then err line_too_large
    else rest

-- The envelope, and what is left on the socket.
unfoldable pub read_prefix : Codec → Ending → Str → Result PrefixError (PrefixEnvelope × Str)
read_prefix codec ending stream = do
  read ← read_line ending [] stream
  envelope ← decode_line codec read.0
  ok (envelope, read.1)
