-- ===== src/Examples.antt =====
-- Concrete runs: each theorem of the list in Lib.antt at an input that exercises its code.
mod Routing
mod Prefix
mod Ingress
mod Config
mod Claims
mod Pending
mod Parse
mod Tokens
mod Web
mod Accepted
mod Crowded
mod Served
