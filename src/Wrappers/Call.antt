-- ===== src/Wrappers/Call.antt =====
-- A call of the LLVM library: the function and what it is passed. A reference of the library is a
-- handle, and a null text is `none`.
use vix_lang.Common.Int.{ℤ}
use vix_lang.Common.Text.{Bytes}
use vix_lang.Common.{ℕ, Option, List}

pub data Arg : Type 0 where
  handle : ℕ → Arg
  handles : List ℕ → Arg
  text : Option Bytes → Arg
  number : ℕ → Arg
  integer : ℤ → Arg

pub record Call : Type 0 where
  pub function : Bytes
  pub args : List Arg
