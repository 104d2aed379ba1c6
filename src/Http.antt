-- ===== src/Http.antt =====
-- weightless/http: messages on the wire, the client's and the server's readers, the socket pool.
pub mod Regexp
pub mod Headers
pub mod Names
pub mod Chunked
pub mod Body
pub mod SocketPool
pub mod Server
pub mod Strategy
pub mod Response
pub mod Driver
pub mod Reader
pub mod OldRequest
pub mod Tests
