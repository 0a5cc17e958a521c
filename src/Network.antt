-- ===== src/Network.antt =====
-- The network layer: src/network.
pub mod Connection
pub mod TcpServer
pub mod TcpClient
