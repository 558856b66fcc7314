-- ===== src/Tcp.antt =====
-- TcpSocketDll: a reliable byte stream over UDP datagrams.
pub mod ByteStream
pub mod Packet
pub mod Address
pub mod Conn
pub mod Receive
pub mod Socket
pub mod Client
pub mod Server
pub mod Lock
pub mod System
pub mod Channel
pub mod InitSocketLib
