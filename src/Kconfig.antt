-- ===== src/Kconfig.antt =====
-- scripts/kconfig: the configuration language behind `make xconfig` and `make menuconfig`.
pub mod Tristate
pub mod Symbol
pub mod Expr
pub mod Text
pub mod Confdata
pub mod Toggle
pub mod Print
pub mod Calc
pub mod Choice
pub mod Samples
mod Examples
