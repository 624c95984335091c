-- ===== src/Io.antt =====
-- Descriptors, sockets, acceptors and the loops of TLS sockets (include/arc/io, src/io/io_base.cc).
pub mod Socket
pub mod Transfer
pub mod Readiness
pub mod Acceptor
pub mod Tls
pub mod TlsOwnership
pub mod Ownership
pub mod Retries
pub mod Persistence
