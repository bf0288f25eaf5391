-- ===== src/Tests.antt =====
-- Concrete data for the examples: an app, a license, a client, and stand-ins for what is outside.
pub mod Codec
pub mod Fixtures
pub mod Examples
pub mod Requests
pub mod Registry
pub mod Sessions
pub mod Admins
pub mod Clients
pub mod Catalog
