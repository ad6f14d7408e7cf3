-- ===== src/Routing.antt =====
-- shared/src/routing.rs: hostname patterns, path prefixes, the choice of a backend rule, and the NATS
-- subject of a hostname.
pub mod Pattern
pub mod PathPrefix
pub mod Select
pub mod Subject
