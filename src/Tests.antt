-- ===== src/Tests.antt =====
-- Concrete inputs, and the theorems at them.
pub mod Transport
pub mod Sockets
pub mod Pool
pub mod System
pub mod Messages
pub mod Windows
pub mod Arrivals
pub mod Serving
pub mod Threads
pub mod Channel
