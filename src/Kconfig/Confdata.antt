-- ===== src/Kconfig/Confdata.antt =====
-- scripts/kconfig/confdata.c: the .config file, written and read back.
pub mod Escape
pub mod Line
pub mod Store
pub mod Statement
pub mod RoundTrip
pub mod File
pub mod Comment
pub mod Whole
mod Examples
