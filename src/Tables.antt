-- ===== src/Tables.antt =====
-- The code generator's symbol tables in `src/helper.c`: variables, function signatures and struct
-- layouts. Each is an array of fixed size with a count, given here as the list of its entries in
-- use, the newest first; what lies behind the count is never read.
pub mod Search
pub mod Update
pub mod Vars
pub mod Functions
pub mod Structs
