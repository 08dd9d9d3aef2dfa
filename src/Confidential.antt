-- ===== src/Confidential.antt =====
-- src/confidential.rs and the files of src/confidential/: `POST /confidential`.
pub mod Errors
pub mod Framing
pub mod Inner
pub mod Upstream
pub mod Outcome
pub mod InnerCall
pub mod Exchange
pub mod Task
