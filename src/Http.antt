-- ===== src/Http.antt =====
-- HTTP: messages, their queries and headers, the server and the client.
pub mod Query
pub mod Message
pub mod Parser
pub mod Print
pub mod Callbacks
pub mod Framing
pub mod Server
pub mod Client
