-- ===== src/Api.antt =====
-- internal/api: the raw HTTP server and the handler of the requests.
pub mod RawHttp
pub mod Conn
pub mod Handler
pub mod Body
