-- ===== src/Runtime.antt =====
-- `src/runtime.c`, the library linked into every compiled program: growable arrays, safe
-- division, and string concatenation and slicing.
pub mod Range
pub mod Array
pub mod Division
pub mod Strings
