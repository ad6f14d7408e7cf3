-- ===== src/Examples/Ingress.antt =====
-- A plaintext request and a TLS record on the public port.
use lfp_pipe.Base.{◌≡◌, ◌≢◌, refl, false, some, [], ◌∷◌, ◌++◌, arith, drop}
use lfp_pipe.Text.{codes}
use lfp_pipe.Text.Ascii
use lfp_pipe.Text.Ascii.{Str}
use lfp_pipe.Text.Affix.{starts_with, strip_prefix, trim_cons, trim_end_matches}
use lfp_pipe.Text.Split.{cons_first, split, split_once}
use lfp_pipe.Text.White
use lfp_pipe.Text.Utf8
use lfp_pipe.Http
use lfp_pipe.Http.{extract_http_host, looks_like_http_prefix, position, header_end}
use lfp_pipe.Tls.{validate_tls_record_header}
use lfp_pipe.Ingress.Detect.{
  SniParser, more, done, decide, decide_tls, decide_http, ready, detect_hostname,
}
use lfp_pipe.Ingress.Detect.Fragments.{verdict_of, detect_hostname-fragments}

abbrev lf : Str
lf = b'\r' ∷ b'\n' ∷ []

abbrev request : Str
request = codes "GET / HTTP/1.1" ++ (lf ++ (codes "Host: a.test:80" ++ (lf ++ lf)))

-- A parser that takes the text behind the header for the name.
unfoldable pub sni : SniParser
sni record_bytes = some (some (drop 5 record_bytes))

abbrev pub hello : Str
hello = 0x16 ∷ 3 ∷ 1 ∷ 0 ∷ 6 ∷ codes "b.test"

whole :
    verdict_of (detect_hostname sni (ready 512 ∷ []) [] request)
    ≡ some (done (some (codes "a.test")) false)
unfolding detect_hostname decide decide_http extract_http_host looks_like_http_prefix position
    Http.comparable Http.strip_cr Http.lines_of Http.strip_port Http.host_of_lines
    Http.host_of_headers starts_with strip_prefix trim_cons trim_end_matches cons_first split
    split_once White.trim White.trim_start White.trim_end Utf8.is_utf8 Utf8.valid_from
    Utf8.next_byte Utf8.after_lead Ascii.str_eq Ascii.eq_ignore_ascii_case Ascii.to_ascii_lowercase
    Ascii.lower_byte
whole = refl

cut :
    verdict_of (detect_hostname sni (ready 2 ∷ ready 17 ∷ ready 100 ∷ []) [] request)
    ≡ some (done (some (codes "a.test")) false)
unfolding detect_hostname decide decide_http extract_http_host looks_like_http_prefix position
    Http.comparable Http.strip_cr Http.lines_of Http.strip_port Http.host_of_lines
    Http.host_of_headers starts_with strip_prefix trim_cons trim_end_matches cons_first split
    split_once White.trim White.trim_start White.trim_end Utf8.is_utf8 Utf8.valid_from
    Utf8.next_byte Utf8.after_lead Ascii.str_eq Ascii.eq_ignore_ascii_case Ascii.to_ascii_lowercase
    Ascii.lower_byte
cut = refl

detect_hostname-fragments_example :
    done (some (codes "a.test")) false ≡ done (some (codes "a.test")) false
detect_hostname-fragments_example =
    detect_hostname-fragments sni (ready 512 ∷ []) (ready 2 ∷ ready 17 ∷ ready 100 ∷ []) request
      (done (some (codes "a.test")) false) (done (some (codes "a.test")) false) (omega arith, tt)
      (omega arith, (omega arith, (omega arith, tt))) whole cut

decided : decide sni hello ≢ more
unfolding decide decide_tls validate_tls_record_header sni
decided e = cc

head_at : position header_end request ≡ some 31
unfolding position starts_with
head_at = refl

no_request : looks_like_http_prefix (codes "SSH-2.0") ≡ false
unfolding looks_like_http_prefix Http.comparable starts_with
no_request = refl
