-- ===== src/Malloc.antt =====
-- The guest kernel's allocator, boot/kernel/malloc.c, built for i686: `size_t` and pointers have 32
-- bits, and a block's header (`size`, `free`, `next`) has 12 bytes. The headers are a list in the
-- order of their `next` pointers, each with its address; a read through a null pointer, or a
-- header where there is none, is `none`. That headers lie apart, so that the list is what memory
-- holds, is the invariant of Malloc.Tiling.
pub mod Faults
pub mod Placing
pub mod Tiling
mod Tests
use dc2021f_ooows_public.Base.{
  ℕ, ◌+◌, ◌-◌, ◌%◌, ◌^◌, Bool, true, false, not, ◌&&◌, ◌||◌, Option, none, some, List, [], ◌∷◌, ltb,
  leb, ◌==◌, if◌then◌else◌,
}

-- `sizeof(struct block)`
abbrev pub header : ℕ
header = 12

pub record Block : Type 0 where
  pub addr : ℕ
  pub size : ℕ
  pub free : Bool

-- `memory` and `HEAPSZ`, and the blocks from `freeList` on.
pub record Heap : Type 0 where
  pub memory : ℕ
  pub heapsz : ℕ
  pub blocks : List Block

-- `size_t` subtraction wraps.
abbrev pub sub32 : ℕ → ℕ → ℕ
sub32 a b = (a + 2 ^ 32 - b) % 2 ^ 32

unfoldable pub malloc_init : ℕ → ℕ → Heap
malloc_init ptr sz = record {
  memory = ptr;
  heapsz = sz;
  blocks = record { addr = ptr; size = sub32 sz header; free = true } ∷ [];
}

-- `split`: the block keeps `size` bytes and the rest becomes a free block behind it.
unfoldable pub split : Block → ℕ → List Block → List Block
split slot size next =
    record slot { size = size; free = false }
    ∷ record {
      addr = (slot.addr + size + header) % 2 ^ 32;
      size = sub32 (sub32 slot.size size) header;
      free = true;
    }
    ∷ next

-- The end of `malloc`, at the block where its search has stopped.
unfoldable pub place : ℕ → Block → List Block → List Block × Option ℕ
place n curr next =
    if curr.size == n
    then (record curr { free = false } ∷ next, some (curr.addr + header))
    else if ltb ((n + header) % 2 ^ 32) curr.size
    then (split curr n next, some (curr.addr + header))
    else (curr ∷ next, none)

-- The search: past each block that is too small or in use, as long as there is a next one.
unfoldable pub alloc_from : ℕ → Block → List Block → List Block × Option ℕ
alloc_from n curr [] = place n curr []
alloc_from n curr (next ∷ more) =
    let (blocks, ptr) = alloc_from n next more in
    if ltb curr.size n || not curr.free then (curr ∷ blocks, ptr) else place n curr (next ∷ more)

-- The allocation in a chain of blocks; `none` is the null pointer.
unfoldable pub alloc : ℕ → List Block → List Block × Option ℕ
alloc n [] = ([], none)
alloc n (first ∷ more) = if first.size == 0 then (first ∷ more, none) else alloc_from n first more

unfoldable pub malloc : Heap → ℕ → Heap × Option ℕ
unfolding alloc
malloc h n = let (blocks, ptr) = alloc n h.blocks in (record h { blocks = blocks }, ptr)

abbrev pub kept : Block → Option (List Block) → Option (List Block)
kept b none = none
kept b (some bs) = some (b ∷ bs)

-- `merge` from a block on. A block that takes in its successor is left for the one behind, whose
-- `next` the loop's test then reads: at the end of the chain that is a null pointer.
unfoldable pub merge_from : Block → List Block → Option (List Block)
merge_from curr [] = some (curr ∷ [])
merge_from curr (next ∷ []) = if curr.free && next.free then none else some (curr ∷ next ∷ [])
merge_from curr (next ∷ third ∷ more) =
    if curr.free && next.free
    then kept (record curr { size = (curr.size + next.size + header) % 2 ^ 32 })
        (merge_from third more)
    else kept curr (merge_from next (third ∷ more))

unfoldable pub merge : List Block → Option (List Block)
unfolding merge_from
merge [] = none
merge (first ∷ more) = merge_from first more

-- `curr->free = 1` on the header before the pointer; `none` where no header is there.
unfoldable pub mark_free : ℕ → List Block → Option (List Block)
mark_free ptr [] = none
mark_free ptr (b ∷ bs) =
    if b.addr + header == ptr
    then some (record b { free = true } ∷ bs)
    else kept b (mark_free ptr bs)

abbrev pub and_then : Option (List Block) → (List Block → Option (List Block)) → Option (List Block)
and_then none f = none
and_then (some bs) f = f bs

-- The blocks after `free`, for a pointer within the heap.
unfoldable pub release : ℕ → List Block → Option (List Block)
unfolding mark_free merge
release ptr blocks = and_then (mark_free ptr blocks) merge

abbrev pub with_blocks : Heap → Option (List Block) → Option Heap
with_blocks h none = none
with_blocks h (some bs) = some (record h { blocks = bs })

-- A pointer outside the heap is ignored.
unfoldable pub free : Heap → ℕ → Option Heap
unfolding release
free h ptr =
    if leb h.memory ptr && leb ptr (h.memory + h.heapsz)
    then with_blocks h (release ptr h.blocks)
    else some h
