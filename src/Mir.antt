-- ===== src/Mir.antt =====
-- The scalar optimiser for the textual middle representation, `vix_mir_opt_scalar` of
-- `src/helper.c`: copy propagation, branch folding and dead code removal in each function.
pub mod Tokens
pub mod Line
pub mod Function
pub mod Pass
