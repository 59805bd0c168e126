-- ===== src/Platform.antt =====
-- The parts of Rust's standard library that the adapters act through: paths and the file system.
pub mod Path
pub mod Files
