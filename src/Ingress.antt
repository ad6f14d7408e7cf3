-- ===== src/Ingress.antt =====
-- ingress/src/lib.rs: the runtime that accepts public connections and pairs them with callbacks.
pub mod Detect
pub mod Callback
pub mod Claims
pub mod Pending
pub mod Accept
pub mod Permits
pub mod Serve
