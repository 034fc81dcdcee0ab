-- ===== src/Tests/Collector.antt =====
-- The allocation functions at concrete inputs.
use vix_lang.Common.{ℕ, ◌+◌, ◌≡◌, refl, Bool, true, Option, none, some, ◌==◌, if◌then◌else◌, arith}
use vix_lang.Collector.Owners.{resize, serve, serve_by, serve-serve_by}
use vix_lang.Collector.{Owner, collector, library, Memory}

-- A heap with one block of each allocator, whose state is how many calls of the C library it saw.
abbrev is_collected : ℕ → ℕ → Bool
is_collected p h = p == 16

abbrev owner_of : ℕ → ℕ → Option Owner
owner_of p h = if p == 16 then some collector else if p == 32 then some library else none

is_collected_sound : (p h : ℕ) → is_collected p h ≡ true → owner_of p h ≡ some collector
is_collected_sound p h e = ground arith

is_collected_complete : (p h : ℕ) → owner_of p h ≡ some collector → is_collected p h ≡ true
is_collected_complete p h e = ground arith

abbrev two_blocks : Memory
two_blocks = record {
  Heap = ℕ;
  gc_malloc = λ size h. (some 16, h);
  gc_realloc = λ p size h. (some 16, h);
  gc_free = λ p h. h;
  gc_base = is_collected;
  real_realloc = λ p size h. (some 32, h + 1);
  real_free = λ p h. h + 1;
  owner = owner_of;
  gc_base_sound = is_collected_sound;
  gc_base_complete = is_collected_complete;
}

serve-serve_by_example :
    serve two_blocks (resize 40) 32 0 ≡ serve_by two_blocks library (resize 40) 32 0
serve-serve_by_example = serve-serve_by two_blocks library (resize 40) 32 0 refl
