-- ===== src/Malloc/Tiling.antt =====
-- The blocks of the kernel's heap tile it: the header of each stands right behind the one before.
use mathlib.Core.Path.{subst}
use dc2021f_ooows_public.Base.{
  ℕ, ◌+◌, ◌%◌, ◌^◌, ◌≤◌, ◌<◌, ◌≡◌, refl, not, ◌&&◌, ◌||◌, Option, none, some, List, [], ◌∷◌, arith,
  ltb, leb, ◌==◌, inl, inr, Bool-cases,
}
use dc2021f_ooows_public.Malloc.{
  header, Block, Heap, malloc_init, split, place, alloc_from, alloc, malloc, kept, merge_from,
  merge, mark_free, and_then, release, with_blocks, free,
}

-- From `base` to `end` the blocks follow one another without a gap.
abbrev pub Tiles : ℕ → List Block → ℕ → Type 0
Tiles base [] end = base ≡ end
Tiles base (b ∷ bs) end = (b.addr ≡ base) × Tiles (base + header + b.size) bs end

pub record IsTiled (h : Heap) : Type 0 where
  pub fits : h.memory + h.heapsz < 2 ^ 32
  pub tiles : Tiles h.memory h.blocks (h.memory + h.heapsz)

Tiles-le : (base end : ℕ) (bs : List Block) → Tiles base bs end → base ≤ end
Tiles-le base end [] t = omega arith
Tiles-le base end (b ∷ bs) t = omega (arith, Tiles-le (base + header + b.size) end bs t.1)

Tiles-from :
    (base base' end : ℕ) (bs : List Block) → base ≡ base' → Tiles base bs end → Tiles base' bs end
Tiles-from base base' end bs e t = subst (λ b. Tiles b bs end) e t

place-Tiles :
    (n : ℕ) (curr : Block) (next : List Block) (base end : ℕ)
    → end < 2 ^ 32
    → n + header < 2 ^ 32
    → Tiles base (curr ∷ next) end
    → Tiles base (place n curr next).0 end
unfolding place split
place-Tiles n curr next base end small request t =
    let le = Tiles-le (base + header + curr.size) end next t.1 in
    elim (Bool-cases (curr.size == n)) [
      | inl same ↦ rw same t
      | inr other ↦ elim (Bool-cases (ltb ((n + header) % 2 ^ 32) curr.size)) [
        | inr tight ↦ rw (other, tight) t
        | inl room ↦
            rw (other, room) (t.0, (ground arith, Tiles-from _ _ end next (ground arith) t.1))
      ]
    ]

alloc_from-Tiles :
    (n : ℕ) (curr : Block) (next : List Block) (base end : ℕ)
    → end < 2 ^ 32
    → n + header < 2 ^ 32
    → Tiles base (curr ∷ next) end
    → Tiles base (alloc_from n curr next).0 end
unfolding alloc_from
alloc_from-Tiles n curr [] base end small request t = place-Tiles n curr [] base end small request t
alloc_from-Tiles n curr (next ∷ more) base end small request t =
    elim (Bool-cases (ltb curr.size n || not curr.free)) [
      | inl past ↦
          rw past
            (t.0, alloc_from-Tiles n next more (base + header + curr.size) end small request t.1)
      | inr here ↦ rw here (place-Tiles n curr (next ∷ more) base end small request t)
    ]

-- An allocation keeps the blocks tiling the heap, if the request and its header do not wrap.
pub malloc-IsTiled : (h : Heap) (n : ℕ) → n + header < 2 ^ 32 → IsTiled h → IsTiled (malloc h n).0
unfolding malloc
malloc-IsTiled h n request v = record { fits = v.fits; tiles = alloc_tiles h.blocks v.tiles }
  where
    alloc_tiles :
        (bs : List Block)
        → Tiles h.memory bs (h.memory + h.heapsz)
        → Tiles h.memory (alloc n bs).0 (h.memory + h.heapsz)
    alloc_tiles [] t = t
    alloc_tiles (first ∷ more) t = elim (Bool-cases (first.size == 0)) [
      | inl none_left ↦ rw none_left t
      | inr some_left ↦ rw some_left (alloc_from-Tiles n first more h.memory _ v.fits request t)
    ]

-- Where a chain is left, it tiles.
abbrev IfTiles : ℕ → ℕ → Option (List Block) → Type 0
IfTiles base end none = Unit {0}
IfTiles base end (some bs) = Tiles base bs end

kept-IfTiles :
    (b : Block) (base end : ℕ) (o : Option (List Block))
    → b.addr ≡ base
    → IfTiles (base + header + b.size) end o
    → IfTiles base end (kept b o)
kept-IfTiles b base end none e t = tt
kept-IfTiles b base end (some bs) e t = (e, t)

merge_from-IfTiles :
    (next : List Block) (curr : Block) (base end : ℕ)
    → end < 2 ^ 32
    → Tiles base (curr ∷ next) end
    → IfTiles base end (merge_from curr next)
unfolding merge_from
merge_from-IfTiles [] curr base end small t = t
merge_from-IfTiles (next ∷ []) curr base end small t = elim (Bool-cases (curr.free && next.free)) [
  | inl both ↦ rw both tt
  | inr one ↦ rw one t
]
merge_from-IfTiles (next ∷ third ∷ more) curr base end small t =
    elim (Bool-cases (curr.free && next.free)) [
      | inr one ↦ rw one (
          kept-IfTiles curr base end _ t.0
            (merge_from-IfTiles (third ∷ more) next (base + header + curr.size) end small t.1))
      | inl both ↦
          let le = Tiles-le _ end (third ∷ more) t.1.1 in
          let sum : (curr.size + next.size + header) % 2 ^ 32 ≡ curr.size + next.size + header =
            omega arith in
          let at = base + header + (curr.size + next.size + header) % 2 ^ 32 in
          let rest : Tiles at (third ∷ more) end =
            Tiles-from _ at end (third ∷ more) (omega arith) t.1.1 in
          rw both (
            kept-IfTiles (record curr { size = (curr.size + next.size + header) % 2 ^ 32 }) base end
              _ t.0 (merge_from-IfTiles more third at end small rest))
    ]

mark_free-IfTiles :
    (ptr : ℕ) (bs : List Block) (base end : ℕ)
    → Tiles base bs end
    → IfTiles base end (mark_free ptr bs)
unfolding mark_free
mark_free-IfTiles ptr [] base end t = tt
mark_free-IfTiles ptr (b ∷ bs) base end t = elim (Bool-cases (b.addr + header == ptr)) [
  | inl here ↦ rw here t
  | inr later ↦
      rw later
        (kept-IfTiles b base end _ t.0 (mark_free-IfTiles ptr bs (base + header + b.size) end t.1))
]

release-IfTiles :
    (ptr : ℕ) (bs : List Block) (base end : ℕ)
    → end < 2 ^ 32
    → Tiles base bs end
    → IfTiles base end (release ptr bs)
unfolding release
release-IfTiles ptr bs base end small t =
    merged (mark_free ptr bs) (mark_free-IfTiles ptr bs base end t)
  where
    merged : (o : Option (List Block)) → IfTiles base end o → IfTiles base end (and_then o merge)
    merged none u = tt
    merged (some []) u = tt
    merged (some (first ∷ more)) u = merge_from-IfTiles more first base end small u

-- Giving memory back keeps the blocks tiling the heap, wherever it does not run into a null
-- pointer.
pub free-IsTiled : (h : Heap) (ptr : ℕ) {h' : Heap} → free h ptr ≡ some h' → IsTiled h → IsTiled h'
unfolding free
free-IsTiled h ptr {h'} e v =
    elim (Bool-cases (leb h.memory ptr && leb ptr (h.memory + h.heapsz))) [
      | inr outside ↦ let same : h ≡ h' = ground arith in subst IsTiled same v
      | inl inside ↦
          by_chain (release ptr h.blocks)
            (release-IfTiles ptr h.blocks h.memory (h.memory + h.heapsz) v.fits v.tiles)
            (ground arith)
    ]
  where
    by_chain :
        (o : Option (List Block))
        → IfTiles h.memory (h.memory + h.heapsz) o
        → with_blocks h o ≡ some h'
        → IsTiled h'
    by_chain none t e = cc
    by_chain (some bs) t e =
        let same : record h { blocks = bs } ≡ h' = cc in
        subst IsTiled same (record { fits = v.fits; tiles = t })

-- `malloc_init` makes one block that tiles the heap, if there is room for its header.
pub init-IsTiled : (ptr sz : ℕ) → header ≤ sz → ptr + sz < 2 ^ 32 → IsTiled (malloc_init ptr sz)
unfolding malloc_init
init-IsTiled ptr sz h k = record { fits = k; tiles = (refl, omega arith) }

-- The heaps that calls of `malloc` and `free` make from a fresh one, with sizes that do not wrap and
-- without faults.
pub data Reach (ptr sz : ℕ) : Heap → Type 0 where
  start : Reach ptr sz (malloc_init ptr sz)
  allocate : {h : Heap} (n : ℕ) → n + header < 2 ^ 32 → Reach ptr sz h → Reach ptr sz (malloc h n).0
  give_back : {h h' : Heap} (p : ℕ) → free h p ≡ some h' → Reach ptr sz h → Reach ptr sz h'
