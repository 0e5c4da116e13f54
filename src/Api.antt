-- ===== src/Api.antt =====
-- src/api: what the server makes of a request.
pub mod Json
pub mod Requests
pub mod Handlers
pub mod Server
mod Tests
mod JsonTests
mod ServerTests
