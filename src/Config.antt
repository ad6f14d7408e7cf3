-- ===== src/Config.antt =====
-- shared/src/config.rs: the typed configuration, its defaults, and the layering of route values over
-- shared defaults. What TOML text stands for a document is serde's, and is not modelled.
pub mod Authorization
pub mod Backend
pub mod Client
pub mod Ingress
pub mod Layers
pub mod Merge
pub mod Expand
pub mod Validate
pub mod Parse
