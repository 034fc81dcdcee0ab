-- ===== src/Wrappers.antt =====
-- The functions of `src/helper.c` by which the compiler, written in Vix, calls the LLVM library.
pub mod Call
pub mod Declarations
pub mod Accesses
pub mod Operations
pub mod Conversions
pub mod Controls
pub mod Types
pub mod Messages
