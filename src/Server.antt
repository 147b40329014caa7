-- ===== src/Server.antt =====
-- internal/server: the route table and how a request runs through it.
pub mod Routes
pub mod Serve
pub mod Guards
pub mod Chain
pub mod Success
pub mod Access
pub mod Permitted
pub mod Startup
pub mod Shutdown
pub mod Postgres
pub mod Consistent
pub mod System
