-- ===== src/Crates.antt =====
-- Interfaces to the code that is not in the repository. Each is a record of operations, with its
-- documented behaviour in a record of laws beside it; the development takes both as parameters.
pub mod Crypto
pub mod Http
pub mod Axum
pub mod Bhttp
pub mod Json
pub mod Dstack
pub mod Samples
