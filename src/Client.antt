-- ===== src/Client.antt =====
-- client/src: the private side of a tunnel. Claims, Jwt, Cookies, Oidc and Authorize are the parts of
-- client/src/authorization.rs, Proxy is client/src/http_proxy.rs, Runtime is client/src/lib.rs.
pub mod Claims
pub mod Hyper
pub mod Jwt
pub mod Paths
pub mod Cookies
pub mod Oidc
pub mod Authorize
pub mod Proxy
pub mod Runtime
pub mod Bridge
pub mod OAuth
pub mod Central
