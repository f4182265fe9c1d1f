-- ===== src/Tls/Records.antt =====
-- The records of SslEncrypt.
pub mod Area
pub mod Seals
