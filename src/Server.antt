-- ===== src/Server.antt =====
-- SchoolSystemServer/CServer.h and CServer.cpp: the server.
pub mod Tables
pub mod Requests
pub mod Results
pub mod Tasks
pub mod Loop
pub mod Threads
pub mod Sending
pub mod Arrival
