-- ===== src/Collector/Owners.antt =====
-- Every block is resized and freed by the allocator that gave it.
use vix_lang.Common.Int.{size_max}
use vix_lang.Common.{ℕ, ◌+◌, ◌≤◌, ◌<◌, ◌≡◌, ◌⊎◌, refl, Bool, true, false, Option, none, some, arith}
use vix_lang.Collector.{
  Owner, collector, library, Memory, with_tail, regrown, wrap_realloc, wrap_free,
}

-- The tail never shrinks a request, never overflows, and is there unless the size leaves no room
-- for it; a resizing to 0 stays one.
with_tail-regrown :
    (size : ℕ)
    → size ≤ size_max
    → (with_tail size ≤ size_max)
      × (size ≤ with_tail size)
      × ((with_tail size ≡ size + 3) ⊎ (size_max < size + 3))
      × (regrown size ≤ size_max)
      × (size ≤ regrown size)
      × ((regrown size ≡ with_tail size) ⊎ ((size ≡ 0) × (regrown size ≡ 0)))
unfolding with_tail regrown
with_tail-regrown size h =
    (ground arith, ground arith, ground arith, ground arith, ground arith, ground arith)

-- What a program does to a block that it holds.
pub data Request : Type 0 where
  resize : ℕ → Request
  release : Request

-- The same by the allocator that has the block.
module _ (m : Memory) where
  open m use {
    Heap, gc_realloc, gc_free, real_realloc, real_free, gc_base, owner, gc_base_sound,
    gc_base_complete,
  }

  abbrev pub serve : Request → ℕ → Heap → Option ℕ × Heap
  serve (resize size) p h = wrap_realloc m (some p) size h
  serve release p h = (none, wrap_free m (some p) h)

  abbrev pub serve_by : Owner → Request → ℕ → Heap → Option ℕ × Heap
  serve_by collector (resize size) p h = gc_realloc (some p) (regrown size) h
  serve_by collector release p h = (none, gc_free p h)
  serve_by library (resize size) p h = real_realloc p size h
  serve_by library release p h = (none, real_free p h)

  -- A block that the collector or the C library has is resized and freed by that one.
  pub serve-serve_by :
      (o : Owner) (r : Request) (p : ℕ) (h : Heap)
      → owner p h ≡ some o
      → serve r p h ≡ serve_by o r p h
  unfolding wrap_realloc wrap_free
  serve-serve_by collector (resize size) p h e = rw (gc_base_complete p h e) refl
  serve-serve_by collector release p h e = rw (gc_base_complete p h e) refl
  serve-serve_by library r p h e = other r (found (gc_base p h) refl)
    where
      found : (b : Bool) → gc_base p h ≡ b → gc_base p h ≡ false
      found false k = k
      found true k = cc (gc_base_sound p h k, e)

      other : (r : Request) → gc_base p h ≡ false → serve r p h ≡ serve_by library r p h
      other (resize size) k = rw k refl
      other release k = rw k refl
