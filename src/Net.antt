-- ===== src/Net.antt =====
-- src/prost_net/: the clients and the server by which instances of the program talk to one another.
pub mod Messages
pub mod BwClient
pub mod ClientHandler
pub mod BwServer
