-- ===== src/Client.antt =====
-- The client of package client: its pool of connections and one connection.
pub mod Pool
pub mod Conn
pub mod Api
pub mod Calls
