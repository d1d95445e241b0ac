-- ===== src/Fixdep.antt =====
-- scripts/basic/fixdep.c: the dependencies of a compiled file on configuration options.
pub mod Words
pub mod Set
pub mod Depfile
mod Examples
