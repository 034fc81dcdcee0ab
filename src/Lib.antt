-- ===== src/Lib.antt =====
-- Verification of the C part of the Vix compiler: what the compiler, itself written in Vix, calls
-- in C, and the runtime that compiled programs link.
--
-- The parts and their files:
--
-- - Runtime: `src/runtime.c`, linked into every compiled program. `Runtime/Array` has the growable
--   arrays (`vix_array_len`, `vix_array_push_i32`, `_ptr` and `_bytes`, `vix_array_slice_bytes`),
--   `Runtime/Division` the division that never traps, `Runtime/Strings` the concatenation and the
--   slices of strings, and `Runtime/Range` the two clampings of a range, that of an array's slice
--   (`clamp_range`) and that of a string's (`clamp_sized`). The modules below `Runtime/Array`
--   prove: `Growth` the growth of the capacity, `Push` and `Elements` the pushes, `Slice` the
--   slices.
-- - Mir: the optimiser `vix_mir_opt_scalar` of `src/helper.c`, which works on the text that the
--   compiler prints for its intermediate representation. `Mir/Tokens` has the scanners
--   (`mir_token_at`, `mir_contains_token`, `mir_replace_token`, `mir_trim_copy`), `Mir/Line` what
--   is read from one line (`mir_assignment_dest`, `mir_alias_value`, `mir_fold_branch`),
--   `Mir/Function` the work on the lines of a function (`mir_opt_function`), and `Mir/Pass` the
--   text (`vix_mir_opt_scalar`). `Mir/Pass` uses `Mir/Function`, which uses the other two. The
--   modules below these four prove: `Trim`, `Replace`, `Absent`, `Split`, `Alias` and `Branch` the
--   scanners and lines, `Justified`, `DeadCode` and `Propagation` the work on a function,
--   `Outside`, `Total` and `Functions` the pass. `Mir/Tokens/Words` describes the tokens of a line
--   apart from the scanners, and `Substitution` and `Membership` compare the two;
--   `Mir/Function/Meaning` has
--   the behaviour of the lines of a function, and `Behaviour` what dead code removal keeps of it;
--   `Mir/Function/Operands` has the behaviour of a block of lines and what a line may depend on,
--   `Rewriting` is about one line, `Copies` about what propagation keeps of a block, `Whole` about
--   the optimiser on a function with jumps, and `Terms` is a meaning for which the laws of
--   `Operands` hold. `Mir/Tokens/Renamed` has the tokens of a line in which a word is replaced,
--   `Mir/Line/Shapes` the lines as they are printed, and `Mir/Line/Folded` the texts that branch
--   folding changes.
-- - Tables: the symbol tables that the code generator keeps in `src/helper.c`. `Tables/Vars` has
--   the variables (`vix_set_var` to `vix_get_var`), `Tables/Functions` the signatures
--   (`vix_register_function_sig_vararg` and its lookups), `Tables/Structs` the structs
--   (`vix_declare_struct_sig` to `vix_register_struct_sig_abi`) and `Tables/Structs/Find` their
--   fields (`vix_get_struct_field_index` to `vix_find_field_in_any_struct`). `Tables/Search` has
--   the search and the cutting of names that they share, and `Tables/Update` its lemmas.
--   `Tables/Vars/Scope` has the map from names to values and types that the variables stand
--   for, `Tables/Functions/Runs` the last registration of a name, and `Tables/Structs/Runs` the
--   map from names to layouts that the structs stand for, which `Tables/Structs/Known` describes.
-- - Link: the command of the linker that `vix_api_link_executable` of `lib/api.c` assembles in a
--   buffer of 65536 bytes. `Link` has the search for the start files and the arguments, in their
--   order; `Link/Bounds` and `Link/Joined` are about what the buffer holds. `Link/Linker` has
--   `lib/llvm/Linker.cpp`, which splits the command again (`addSplitArgs`) and calls LLD
--   (`runElfLink`), and the entry points of `lib/api.c` to it; `Link/Linker/Split` is about what
--   LLD is called with, and `Link/Linker/Quoted` about quotes. `Link/Coff` and `Link/Coff/Words`
--   are the same for Windows.
-- - Driver: the LLVM drivers. `Driver` has what they share, `Driver/Passes` the optimisation of an
--   IR file (`optimizeIrFile` of `lib/llvm/Passes.cpp`), `Driver/Llc` its compilation
--   (`compileIrFile` of `lib/llvm/Llc.cpp`), and `Driver/Api` the entry points of `lib/api.c`,
--   each driver with its own `LastError` and `InitOnce`. `Driver/Steps` has their common lemmas,
--   and `Driver/Passes/Written`, `Driver/Llc/Written` and `Driver/Api/Once` are about what they
--   leave behind.
-- - Helper: the string helpers of `src/helper.c` (`vix_source_line_copy`, `vix_join_lines`,
--   `vix_substr`, `vix_trim_ascii`, `vix_clean_symbol_name`) and the diagnostic settings
--   (`vix_diag_configure`); `Substring`, `Trim`, `Lines` and `Symbol` below it are about each, and
--   `Output` has `vix_asm_write_line` and `vix_print_stderr`.
-- - Paths: the search of `src/helper.c` for the runtime's object file
--   (`vix_compiler_runtime_object_path`); `Paths/Candidates` is about its order.
-- - Alloca: `vix_LLVMBuildAlloca` of `src/helper.c`, which places the locals of a function in its
--   entry block; `Alloca/Entry` is about where.
-- - Wrappers: the other functions at the end of `src/helper.c`, from `vix_LLVMFunctionType1` on, by
--   which the compiler calls the LLVM library. `Declarations`, `Accesses`, `Operations`,
--   `Conversions` and `Controls` have those that pass their arguments on, each as the `Call` that
--   it makes. `Types` has the function types, the constants and
--   the operands of phi nodes, and `Messages` the functions that get a message from the library.
-- - Collector: `src/compiler_gc.c`, the allocation functions of the compiler's executable;
--   `Collector/Owners` is about which allocator gets a block.
-- - Scanner: the peeks of the lexer in `src/helper.c`, `vix_lexer_peek_char` and
--   `vix_lexer_next_non_space_char`; `Scanner/Trivia` proves what they skip.
-- - Common: Boolean tests, lists, the integers of C and byte strings.
-- - Tests: the definitions and the theorems at concrete inputs.
--
-- How code becomes definitions. A C string is the list of its bytes in front of the null, and a
-- pointer into one is the rest from there on. `NULL` is `none`. A function that changes global
-- state takes the state and returns it. A table is the list of the entries in use, the newest
-- first: what lies behind the count is never read. An `int` is a number of `Common/Int` within its
-- bounds; where the code casts a `size_t` to `int` the wrap-around is written out (`to_int`).
--
-- An effect on files is an entry of a log, in the order in which they happen.
--
-- What is not under the repository is a parameter: `realloc` and `malloc` (the record `Allocator`
-- with the documented laws, or a predicate on sizes for strings), `access` (the predicate
-- `readable` on paths), the file system and the environment (the record `System` of `Paths`), the
-- types of the LLVM library that the tables use (the record `Llvm`), what the drivers call of it
-- (the record `Library` of `Driver`), its builders (the record `Ir` of `Alloca`, with what is
-- documented of them in `IsDocumented`), LLD (the function `lld`), `PATH_MAX` on Windows, and the
-- collector (the record `Memory`, with the documented law of `GC_base`). So are the streams that
-- `Helper/Output` writes to, what the library answers in `Wrappers/Messages`, and what a line of
-- the intermediate representation means (the records `Meaning` and `Operands`). `strtoul`,
-- `strrchr` and `strtok_r` are written out as their standards have them. The optimiser does not
-- test most of its allocations, and its model takes them to succeed. `Helper` is about texts of at
-- most `INT_MAX` bytes where the code keeps a length in an `int`.
--
-- Fuel. A loop that is no recursion on its data has fuel, and `none` means that the fuel ran out:
-- `mir_replace_token` has a round for each byte and one more, the rounds of dead code removal are
-- one more than the lines, the doubling of a capacity has 32 rounds, from 8 to beyond an `int`,
-- and the lexer's peek has one more than the bytes that are left. The results say when each is
-- enough.
--
-- Not modelled: the Windows branches of the path search, and the compiler proper, which is written
-- in Vix. The message that a full function table prints is left out.
pub mod Common
pub mod Runtime
pub mod Mir
pub mod Tables
pub mod Link
pub mod Scanner
pub mod Driver
pub mod Helper
pub mod Paths
pub mod Alloca
pub mod Wrappers
pub mod Collector
pub mod Tests
