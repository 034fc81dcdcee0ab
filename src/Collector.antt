-- ===== src/Collector.antt =====
-- `src/compiler_gc.c`, the allocation functions that compiler executables link in place of those of
-- the C library. The collector and the C library are the parameter `Memory`: a state of some type,
-- and the functions of both on it. A pointer is an address, and `none` is `NULL`.
pub mod Owners
use vix_lang.Common.Int.{size_max}
use vix_lang.Common.{
  ℕ, zero, suc, ◌+◌, ◌-◌, ◌≤◌, ◌≡◌, Bool, true, false, not, ◌&&◌, Option, none, some, List, [], ◌∷◌,
  leb, ◌==◌, if◌then◌else◌,
}

-- Which allocator has a block at the address, `none` where there is none.
pub data Owner : Type 0 where
  collector : Owner
  library : Owner

-- As documented, `GC_base` finds the blocks of the collector and no others.
pub record Memory : Type 1 where
  pub Heap : Type 0
  pub gc_malloc : ℕ → Heap → Option ℕ × Heap
  pub gc_realloc : Option ℕ → ℕ → Heap → Option ℕ × Heap
  pub gc_free : ℕ → Heap → Heap
  pub gc_base : ℕ → Heap → Bool
  pub real_realloc : ℕ → ℕ → Heap → Option ℕ × Heap
  pub real_free : ℕ → Heap → Heap
  pub owner : ℕ → Heap → Option Owner
  pub gc_base_sound : (p : ℕ) (h : Heap) → gc_base p h ≡ true → owner p h ≡ some collector
  pub gc_base_complete : (p : ℕ) (h : Heap) → owner p h ≡ some collector → gc_base p h ≡ true

-- `if (size <= (size_t)-1 - 3) size += 3;`
unfoldable pub with_tail : ℕ → ℕ
with_tail size = if leb size (size_max - 3) then size + 3 else size

-- The same unless the size is 0.
unfoldable pub regrown : ℕ → ℕ
regrown size = if not (size == 0) && leb size (size_max - 3) then size + 3 else size

module _ (m : Memory) where
  open m use {Heap, gc_malloc, gc_realloc, gc_free, gc_base, real_realloc, real_free}

  unfoldable pub wrap_malloc : ℕ → Heap → Option ℕ × Heap
  unfolding with_tail
  wrap_malloc size h = gc_malloc (with_tail size) h

  unfoldable pub wrap_realloc : Option ℕ → ℕ → Heap → Option ℕ × Heap
  unfolding regrown
  wrap_realloc none size h = gc_realloc none (regrown size) h
  wrap_realloc (some p) size h =
      if gc_base p h then gc_realloc (some p) (regrown size) h else real_realloc p size h

  unfoldable pub wrap_free : Option ℕ → Heap → Heap
  wrap_free none h = h
  wrap_free (some p) h = if gc_base p h then gc_free p h else real_free p h
