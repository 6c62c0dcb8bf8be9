-- ===== src/Server.antt =====
-- internal/server: answering file requests on persistent connections.
pub mod Paths
pub mod Resolver
pub mod Mime
pub mod Requests
pub mod Loop
pub mod Lifecycle
pub mod Startup
