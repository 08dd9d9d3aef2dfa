-- ===== src/Crates/Samples.antt =====
-- Values of the interfaces, with their laws. They show that the assumptions can be met, and they
-- run in tests; they are not the crates.
pub mod PlainCrypto
pub mod PlainHttp
pub mod PlainAxum
