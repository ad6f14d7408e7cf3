-- ===== src/Config/Backend.antt =====
-- `BackendRule` and the resolution of its addresses (shared/src/config.rs).
use lfp_pipe.Base.{Bool, ◌&&◌, not, Option, none, some, ◌++◌, all, if◌then◌else◌}
use lfp_pipe.Text.{codes}
use lfp_pipe.Text.Ascii.{Str, is_ascii_digit}
use lfp_pipe.Text.Affix.{starts_with}
use lfp_pipe.Text.White.{trim, is_empty}
use lfp_pipe.Config.Authorization.{ClientAuthorizationConfig}

pub record BackendRule : Type 0 where
  pub pattern : Str
  pub path_prefix : Option Str
  pub strip_path_prefix : Bool
  pub proxy_headers : Bool
  pub backend_addr : Str
  pub backend_host : Option Str
  pub http_backend_addr : Option Str
  pub authorization : Option ClientAuthorizationConfig

-- A bare port, or a port behind a colon, is on the loopback address.
unfoldable pub resolve_loopback_shorthand : Str → Str
resolve_loopback_shorthand address =
    let trimmed = trim address in
    if all is_ascii_digit trimmed && not (is_empty trimmed)
    then codes "127.0.0.1:" ++ trimmed
    else if starts_with trimmed (codes ":")
    then codes "127.0.0.1" ++ trimmed
    else trimmed

unfoldable pub resolved_backend_addr : BackendRule → Str
resolved_backend_addr rule = resolve_loopback_shorthand rule.backend_addr

unfoldable pub resolved_http_backend_addr : BackendRule → Str
resolved_http_backend_addr rule = elim rule.http_backend_addr [
  | some address ↦ resolve_loopback_shorthand address
  | none ↦ resolved_backend_addr rule
]
