-- ===== src/Lib.antt =====
-- lfp-pipe: a reverse tunnel. An ingress accepts public TCP connections, reads the host that the first
-- bytes name (a TLS server name or an HTTP Host header), announces the connection on a NATS subject,
-- selects one of the clients that claim it, and relays the public socket to the callback that the winner
-- opens. A client is configured with the hosts and paths it serves; it bridges a connection to a backend,
-- byte by byte or as HTTP requests that it authorizes. This library models the shared crate, the ingress
-- runtime and the client runtime.
--
-- Base: numbers, options, lists, the result type of fallible code. Text: `&str` and `&[u8]` as lists of
--   bytes, with what the program uses of `core::str`.
-- Config (shared/src/config.rs): Authorization, Backend, Client, Ingress and Layers hold the records with
--   the fields and defaults of the source; Merge the functions `merge_*`; Expand `expand_client_route` and
--   `expand_client_routes`; Validate `validate_client_config` and `validate_authorization`;
--   Parse `parse_client_configs`; Ingress `validate_ingress_config`.
-- Routing (shared/src/routing.rs): Pattern `matches_pattern`, PathPrefix `matches_path_prefix`, Select
--   `select_backend_for_path`, Subject `hostname_request_subject`.
-- Http (shared/src/http.rs), Tls (shared/src/tls.rs), Prefix (shared/src/prefix.rs).
-- Ingress (ingress/src/lib.rs): Detect `detect_hostname`, Callback `read_prefix`, Claims
--   `broadcast_and_wait_for_claim` with `next_claim_index` and the messages of shared/src/protocol.rs,
--   Pending the table of claimed connections with `handle_client_data` and `spawn_pending_cleanup`, Accept
--   `handle_ingress`, Permits the semaphores of `accept_public_loop` and `accept_data_loop`, Serve the
--   handlers on one state over a sequence of events, with what each of them is seen to do; Serve/Seen reads
--   such a run as a runtime of Pending.
-- Client (client/src). Of authorization.rs: Claims the roles and the identity of a token, Jwt
--   `JwtAuthorizer` with its key cache, Cookies and Oidc `OidcAuthorizer`, Authorize `Authorizer::authorize`,
--   its children Load the three `load` functions. Of http_proxy.rs: Proxy `prepare_request` and what it
--   calls, its child Handle `handle_request`. Of lib.rs: Runtime the backends and authorizers of
--   `process_messages`, Bridge the claim and `bridge_connection`, OAuth the loop `run_oauth` with oauth.rs.
--   Central is config_source.rs, Paths is paths.rs. Hyper holds the interfaces of the HTTP crates.
-- Tunnel relates the two ends: Client.Bridge against Ingress.Pending and Ingress.Callback.
-- Examples: each theorem of the list below at an input.
--
-- The parts meet as in the source: Detect reads with Http and Tls and gives the hostname; Claims publishes
-- on a subject of Routing.Subject and selects the winner; Pending holds the connection for the envelope
-- of Prefix that Callback reads. Expand and Validate produce the backend rules that Routing.Select
-- selects from. Runtime gives these rules their authorizers; Bridge takes a connection to Proxy, which
-- selects a rule as Routing.Select does, asks Authorize and prepares the request for the backend.
--
-- Code outside the repository is a parameter. The ClientHello parser is a function `SniParser`, without
-- hypotheses. JSON and base64 are the record `Codec`, and where a line is written and read back
-- `Carries` states for that envelope that its JSON reads back and that its base64 decodes and is text of
-- the base64 alphabet, not empty. The JSON of a claim and the TOML of a document are functions. A HashMap
-- is an association list, a HashSet a list, a Mutex makes one operation one step. Of the client's crates the
-- interfaces are records: `HeaderMap` and `Uris` (the laws say that an insertion or removal is seen under
-- its own name and no other), `Jwts`, `Jar`, `Provider` (its law is that `constant_time_eq` decides
-- equality), `Services`, `Plane` and `Boot`. What the network, the files and the clocks answer to one request
-- are fields of such a record or of `Attempt`, `Trial` and `Times`.
--
-- The sockets of `detect_hostname` and `read_prefix` are the list of bytes to come, with the reads as a
-- list of events: the loops recurse on these lists and need no fuel. A deadline is the end of the events.
-- Times are milliseconds as natural numbers; the sums that the source makes of them are far below 2^64.
-- Errors are values without their message texts.
--
-- Not modelled: the NATS and TLS connections with the watchdog, the sockets and tasks of `run`, the byte relay,
-- logging, the command line, the sending of a request to the backend, the writing of key and
-- cache files, the certificates of ACME, the desktop client and the control plane.
pub mod Base
pub mod Text
pub mod Config
pub mod Routing
pub mod Http
pub mod Tls
pub mod Tunnel
pub mod Prefix
pub mod Ingress
pub mod Client
pub mod Examples
