-- ===== src/Spin.antt =====
-- lib/Spin: messages, connections, sockets and their handlers.
pub mod Message
pub mod Exceptions
pub mod Address
pub mod DataHandler
pub mod Response
pub mod Connection
pub mod UdpSocket
pub mod Listener
pub mod HttpConnections
pub mod Pipe
pub mod HexAdapter
pub mod Grammar
pub mod ConnectionHandler
pub mod RequestHandler
pub mod Tests
