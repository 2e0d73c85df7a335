-- ===== src/Malloc/Tests.antt =====
-- The theorems on the kernel's allocator at a heap of 256 bytes at 0x1000.
use dc2021f_ooows_public.Base.{ℕ, ◌≡◌, refl, Bool, true, false, some, List, [], ◌∷◌, arith}
use dc2021f_ooows_public.Malloc.{
  Block, Heap, split, place, alloc_from, alloc, malloc, merge_from, merge, mark_free, release, free,
}
use dc2021f_ooows_public.Malloc.Tiling.{IsTiled, malloc-IsTiled, free-IsTiled}
use dc2021f_ooows_public.Malloc.Placing.{Placed, malloc-Placed}

abbrev block : ℕ → ℕ → Bool → Block
block a s f = record { addr = a; size = s; free = f }

abbrev heap_of : List Block → Heap
heap_of bs = record { memory = 0x1000; heapsz = 256; blocks = bs }

-- 20 and 30 bytes in use, the rest free.
abbrev two_used : Heap
two_used = heap_of (block 0x1000 20 false ∷ block 0x1020 30 false ∷ block 0x104a 170 true ∷ [])

-- The same, with 50 more bytes in use at the front of what was free.
abbrev three_used : Heap
three_used = heap_of (
    block 0x1000 20 false
    ∷ block 0x1020 30 false
    ∷ block 0x104a 50 false
    ∷ block 0x1088 108 true
    ∷ [])

abbrev gap : Heap
gap = heap_of (block 0x1000 20 true ∷ block 0x1020 30 false ∷ block 0x104a 170 true ∷ [])

two_used-IsTiled : IsTiled two_used
two_used-IsTiled = omega arith

malloc-IsTiled_example : IsTiled (malloc two_used 50).0
malloc-IsTiled_example = malloc-IsTiled two_used 50 (omega arith) two_used-IsTiled

malloc_run : malloc two_used 50 ≡ (three_used, some 0x1056)
unfolding malloc alloc alloc_from place split
malloc_run = refl

free_run : free two_used 0x100c ≡ some gap
unfolding free release mark_free merge merge_from
free_run = refl

free-IsTiled_example : IsTiled gap
free-IsTiled_example = free-IsTiled two_used 0x100c free_run two_used-IsTiled

malloc-Placed_example : Placed 50 0x1056 two_used.blocks three_used.blocks
malloc-Placed_example = malloc-Placed two_used 50 (omega arith) refl malloc_run

abbrev full : Heap
full = heap_of (block 0x1000 20 false ∷ block 0x1020 212 false ∷ [])
