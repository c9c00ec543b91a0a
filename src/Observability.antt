-- ===== src/Observability.antt =====
-- What the backend knows of a request, and the connections that it lends.
pub mod RequestId
pub mod Counters
pub mod Connections
pub mod Finish
mod Tests
