-- ===== src/Net.antt =====
-- Network addresses.
pub mod Address
pub mod Identity
