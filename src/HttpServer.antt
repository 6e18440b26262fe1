-- ===== src/HttpServer.antt =====
-- src/brutils/HttpServer: requests and responses.
pub mod Response
pub mod Request
pub mod RequestParser
pub mod Connection
mod Tests
