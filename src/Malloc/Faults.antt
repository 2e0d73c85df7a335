-- ===== src/Malloc/Faults.antt =====
-- Three ways in which the kernel's allocator fails its callers.
use dc2021f_ooows_public.Base.{
  ℕ, ◌+◌, ◌-◌, ◌^◌, ◌<◌, ◌≡◌, refl, ap, sym, ◌∙◌, true, false, not, ◌&&◌, ◌||◌, Option, none, some,
  List, [], ◌∷◌, ◌++◌, arith, ltb, leb, ◌==◌,
}
use dc2021f_ooows_public.Malloc.{
  header, Block, Heap, sub32, malloc_init, split, place, alloc_from, alloc, malloc, kept,
  merge_from, merge, mark_free, release, with_blocks, free,
}

-- No two neighbours of the chain are both free.
abbrev pub Apart : List Block → Type 0
Apart [] = Unit {0}
Apart (b ∷ []) = Unit {0}
Apart (b ∷ c ∷ bs) = ((b.free && c.free) ≡ false) × Apart (c ∷ bs)

-- Giving back memory runs into a null pointer whenever the last two blocks are free after it and
-- no two neighbours before them are.
pub merge-null :
    (front : List Block) (a b : Block)
    → Apart (front ++ (a ∷ []))
    → (a.free && b.free) ≡ true
    → merge (front ++ (a ∷ b ∷ [])) ≡ none
unfolding merge merge_from
merge-null [] a b apart both = rw both
merge-null (c ∷ []) a b apart both = rw (apart.0, both)
merge-null (c ∷ d ∷ []) a b apart both = rw (apart.0, apart.1.0, both)
merge-null (c ∷ d ∷ e ∷ front) a b apart both =
    rw apart.0 (ap (kept c) (merge-null (d ∷ e ∷ front) a b apart.1 both))

first_alloc :
    (ptr sz n : ℕ)
    → ptr + sz < 2 ^ 32
    → n + 24 < sz
    → alloc n (record { addr = ptr; size = sub32 sz header; free = true } ∷ []) ≡ (
      record { addr = ptr; size = n; free = false }
          ∷ record { addr = ptr + n + header; size = sz - header - n - header; free = true }
          ∷ [],
      some (ptr + header),
    )
unfolding alloc alloc_from place split
first_alloc ptr sz n fits room = ground arith

-- The first allocation of a fresh heap can never be given back: `free` joins it with the free
-- block behind it, which is the last, and reads through a null pointer.
pub free_first_faults :
    (ptr sz n : ℕ)
    → ptr + sz < 2 ^ 32
    → n + 24 < sz
    → let (h, p) = malloc (malloc_init ptr sz) n in
      (p ≡ some (ptr + header)) × (free h (ptr + header) ≡ none)
unfolding malloc malloc_init free release mark_free
free_first_faults ptr sz n fits room = rw (first_alloc ptr sz n fits room) (
  refl,
  rw (inside, here)
      (ap
        (with_blocks (record {
          memory = ptr;
          heapsz = sz;
          blocks =
              record { addr = ptr; size = n; free = false }
              ∷ record { addr = ptr + n + header; size = sz - header - n - header; free = true }
              ∷ [];
        }))
        joined),
)
  where
    inside : (leb ptr (ptr + header) && leb (ptr + header) (ptr + sz)) ≡ true
    inside = ground arith

    here : (ptr + header == ptr + header) ≡ true
    here = ground arith

    joined :
        merge (
          record { addr = ptr; size = n; free = true }
          ∷ record { addr = ptr + n + header; size = sz - header - n - header; free = true }
          ∷ [])
        ≡ none
    joined =
        merge-null [] (record { addr = ptr; size = n; free = true })
          (record { addr = ptr + n + header; size = sz - header - n - header; free = true }) tt refl

-- What the search for `n` bytes passes.
abbrev pub Unfit : ℕ → List Block → Type 0
Unfit n [] = Unit {0}
Unfit n (b ∷ bs) = ((ltb b.size n || not b.free) ≡ true) × Unfit n bs

last_from :
    (n : ℕ) (front : List Block) (curr b : Block)
    → Unfit n (curr ∷ front)
    → b.free ≡ false
    → b.size ≡ n
    → alloc_from n curr (front ++ (b ∷ [])) ≡ (curr ∷ front ++ (b ∷ []), some (b.addr + header))
unfolding alloc_from place
last_from n [] curr b unfit used size = rw unfit.0 (ground arith)
last_from n (next ∷ front) curr b unfit used size =
    rw (unfit.0, last_from n front next b unfit.1 used size)

-- When the last block is in use, a request of its size that no block before it can serve is
-- given that same block again, and the heap shows no change.
pub malloc_reuses :
    (h : Heap) (n : ℕ) (front : List Block) (curr b : Block)
    → h.blocks ≡ curr ∷ front ++ (b ∷ [])
    → (curr.size == 0) ≡ false
    → Unfit n (curr ∷ front)
    → b.free ≡ false
    → b.size ≡ n
    → malloc h n ≡ (h, some (b.addr + header))
unfolding malloc alloc
malloc_reuses h n front curr b e alive unfit used size =
    ap (λ (r : List Block × Option ℕ). (record h { blocks = r.0 }, r.1)) found
  where
    found : alloc n h.blocks ≡ (h.blocks, some (b.addr + header))
    found =
        ap (alloc n) e
        ∙ rw alive (last_from n front curr b unfit used size)
        ∙ ap (λ bs. (bs, some (b.addr + header))) (sym e)
