-- ===== src/Alloca.antt =====
-- `vix_LLVMBuildAlloca` of `src/helper.c`, which places the locals of a function in its entry block.
-- The builders of the LLVM library are the parameter `Ir`; what the code relies on of them is
-- `IsDocumented`. A null reference is `none`.
pub mod Entry
use vix_lang.Common.Text.{Bytes}
use vix_lang.Common.{◌≡◌, ◌≢◌, Option, none, some, List, [], ◌∷◌, ◌++◌}

pub record Ir : Type 1 where
  pub Module : Type 0
  pub Builder : Type 0
  pub Block : Type 0
  pub Function : Type 0
  pub Value : Type 0
  pub Ty : Type 0
  pub insert_block : Builder → Module → Option Block
  pub parent : Block → Module → Option Function
  pub entry_block : Function → Module → Option Block
  pub first_instruction : Block → Module → Option Value
  pub create_builder : Module → Option Builder × Module
  pub position_before : Builder → Value → Module → Module
  pub position_at_end : Builder → Block → Module → Module
  pub llvm_alloca : Builder → Ty → Bytes → Module → Value × Module
  pub dispose_builder : Builder → Module → Module

-- `code` is the instructions of a block, and `position` the block in which a builder inserts, with
-- the instruction in front of which it does so, `none` for the end of the block.
pub record IsDocumented (ir : Ir) : Type 0 where
  pub code : ir.Block → ir.Module → List ir.Value
  pub position : ir.Builder → ir.Module → Option (ir.Block × Option ir.Value)
  pub inserts :
      (b : ir.Builder) (s : ir.Module) (k : ir.Block) (p : Option ir.Value)
      → position b s ≡ some (k, p)
      → ir.insert_block b s ≡ some k
  pub first_none : (k : ir.Block) (s : ir.Module) → ir.first_instruction k s ≡ none → code k s ≡ []
  pub first_some :
      (k : ir.Block) (s : ir.Module) (i : ir.Value)
      → ir.first_instruction k s ≡ some i
      → (rest : List ir.Value) × (code k s ≡ i ∷ rest)
  pub created_fresh :
      (b : ir.Builder) (s s' : ir.Module) → ir.create_builder s ≡ (some b, s') → position b s ≡ none
  pub created_code :
      (b : ir.Builder) (s s' : ir.Module) (k : ir.Block)
      → ir.create_builder s ≡ (some b, s')
      → (code k s' ≡ code k s) × (ir.first_instruction k s' ≡ ir.first_instruction k s)
  pub created_position :
      (b c : ir.Builder) (s s' : ir.Module)
      → ir.create_builder s ≡ (some b, s')
      → c ≢ b
      → position c s' ≡ position c s
  pub before_position :
      (b : ir.Builder) (i : ir.Value) (s : ir.Module) (k : ir.Block) (rest : List ir.Value)
      → code k s ≡ i ∷ rest
      → position b (ir.position_before b i s) ≡ some (k, some i)
  pub before_others :
      (b c : ir.Builder) (i : ir.Value) (s : ir.Module)
      → c ≢ b
      → position c (ir.position_before b i s) ≡ position c s
  pub before_code :
      (b : ir.Builder) (i : ir.Value) (s : ir.Module) (k : ir.Block)
      → code k (ir.position_before b i s) ≡ code k s
  pub end_position :
      (b : ir.Builder) (k : ir.Block) (s : ir.Module)
      → position b (ir.position_at_end b k s) ≡ some (k, none)
  pub end_others :
      (b c : ir.Builder) (k : ir.Block) (s : ir.Module)
      → c ≢ b
      → position c (ir.position_at_end b k s) ≡ position c s
  pub end_code :
      (b : ir.Builder) (j k : ir.Block) (s : ir.Module)
      → code k (ir.position_at_end b j s) ≡ code k s
  pub alloca_before :
      (b : ir.Builder) (ty : ir.Ty) (name : Bytes) (s : ir.Module) (k : ir.Block) (i : ir.Value)
      (rest : List ir.Value)
      → position b s ≡ some (k, some i)
      → code k s ≡ i ∷ rest
      → code k (ir.llvm_alloca b ty name s).1 ≡ (ir.llvm_alloca b ty name s).0 ∷ i ∷ rest
  pub alloca_end :
      (b : ir.Builder) (ty : ir.Ty) (name : Bytes) (s : ir.Module) (k : ir.Block)
      → position b s ≡ some (k, none)
      → code k (ir.llvm_alloca b ty name s).1 ≡ code k s ++ (ir.llvm_alloca b ty name s).0 ∷ []
  pub alloca_others :
      (b : ir.Builder) (ty : ir.Ty) (name : Bytes) (s : ir.Module) (j k : ir.Block)
      (p : Option ir.Value)
      → position b s ≡ some (k, p)
      → j ≢ k
      → code j (ir.llvm_alloca b ty name s).1 ≡ code j s
  pub alloca_position :
      (b c : ir.Builder) (ty : ir.Ty) (name : Bytes) (s : ir.Module)
      → position c (ir.llvm_alloca b ty name s).1 ≡ position c s
  pub disposed_code :
      (b : ir.Builder) (s : ir.Module) (k : ir.Block) → code k (ir.dispose_builder b s) ≡ code k s
  pub disposed_position :
      (b c : ir.Builder) (s : ir.Module)
      → c ≢ b
      → position c (ir.dispose_builder b s) ≡ position c s

module _ (ir : Ir) where
  open ir use {
    Module, Builder, Block, Function, Value, Ty, insert_block, parent, entry_block,
    first_instruction, create_builder, position_before, position_at_end, llvm_alloca,
    dispose_builder,
  }

  -- `LLVMBuildAlloca(builder, ty, name)`
  abbrev pub plain : Builder → Ty → Bytes → Module → Option Value × Module
  plain b ty name s = let (v, s') = llvm_alloca b ty name s in (some v, s')

  abbrev pub at_front : Option Value → Builder → Block → Module → Module
  at_front (some first) b entry s = position_before b first s
  at_front none b entry s = position_at_end b entry s

  -- From the creation of the second builder, with its result.
  abbrev pub in_entry : Block → Ty → Bytes → Option Builder × Module → Option Value × Module
  in_entry entry ty name (none, s) = (none, s)
  in_entry entry ty name (some b, s) =
      let (v, s') = llvm_alloca b ty name (at_front (first_instruction entry s) b entry s) in
      (some v, dispose_builder b s')

  abbrev pub from_entry : Option Block → Builder → Ty → Bytes → Module → Option Value × Module
  from_entry none b ty name s = plain b ty name s
  from_entry (some entry) b ty name s = in_entry entry ty name (create_builder s)

  abbrev pub from_function : Option Function → Builder → Ty → Bytes → Module → Option Value × Module
  from_function none b ty name s = plain b ty name s
  from_function (some function) b ty name s = from_entry (entry_block function s) b ty name s

  abbrev pub from_block : Option Block → Builder → Ty → Bytes → Module → Option Value × Module
  from_block none b ty name s = plain b ty name s
  from_block (some current) b ty name s = from_function (parent current s) b ty name s

  -- `vix_LLVMBuildAlloca`
  unfoldable pub build_alloca : Option Builder → Option Ty → Bytes → Module → Option Value × Module
  build_alloca none ty name s = (none, s)
  build_alloca (some b) none name s = (none, s)
  build_alloca (some b) (some ty) name s = from_block (insert_block b s) b ty name s
