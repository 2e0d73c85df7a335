-- ===== src/Malloc/Placing.antt =====
-- Where an allocation lies.
use mathlib.Core.Path.{subst}
use dc2021f_ooows_public.Base.{
  ℕ, ◌+◌, ◌%◌, ◌^◌, ◌≤◌, ◌<◌, ◌≡◌, refl, ap, true, false, not, ◌||◌, some, List, [], ◌∷◌, ◌++◌,
  arith, ltb, ◌==◌, inl, inr, Bool-cases,
}
use dc2021f_ooows_public.Malloc.{
  header, Block, Heap, sub32, split, place, alloc_from, alloc, malloc,
}

-- The last block, which is where a search ends that finds nothing, is free.
abbrev pub LastFree : List Block → Type 0
LastFree [] = Unit
LastFree (b ∷ []) = b.free ≡ true
LastFree (b ∷ c ∷ bs) = LastFree (c ∷ bs)

-- One free block of the chain, big enough, has become an allocated one of the size that was
-- asked for, maybe with a free block behind it; all others are as before.
pub record Placed (n ptr : ℕ) (blocks blocks' : List Block) : Type 0 where
  pub front : List Block
  pub slot : Block
  pub back : List Block
  pub remainder : List Block
  pub was : blocks ≡ front ++ (slot ∷ back)
  pub is : blocks' ≡ front ++ (record slot { size = n; free = false } ∷ (remainder ++ back))
  pub at : ptr ≡ slot.addr + header
  pub idle : slot.free ≡ true
  pub enough : n ≤ slot.size

place-Placed :
    (n : ℕ) (curr : Block) (next : List Block) {blocks : List Block} {ptr : ℕ}
    → n + header < 2 ^ 32
    → curr.free ≡ true
    → place n curr next ≡ (blocks, some ptr)
    → Placed n ptr (curr ∷ next) blocks
unfolding place split
place-Placed n curr next {blocks} {ptr} request idle e = elim (Bool-cases (curr.size == n)) [
  | inl same ↦ record {
    front = [];
    slot = curr;
    back = next;
    remainder = [];
    was = refl;
    is = ground arith;
    at = ground arith;
    idle = idle;
    enough = ground arith;
  }
  | inr other ↦ elim (Bool-cases (ltb ((n + header) % 2 ^ 32) curr.size)) [
    | inl room ↦ record {
      front = [];
      slot = curr;
      back = next;
      remainder =
          record {
            addr = (curr.addr + n + header) % 2 ^ 32;
            size = sub32 (sub32 curr.size n) header;
            free = true;
          }
          ∷ [];
      was = refl;
      is = ground arith;
      at = ground arith;
      idle = idle;
      enough = ground arith;
    }
    | inr tight ↦ absurd (ground arith)
  ]
]

behind :
    {n ptr : ℕ} (b : Block) {bs bs' : List Block}
    → Placed n ptr bs bs'
    → Placed n ptr (b ∷ bs) (b ∷ bs')
behind b p = record {
  front = b ∷ p.front;
  slot = p.slot;
  back = p.back;
  remainder = p.remainder;
  was = ap (λ t. b ∷ t) p.was;
  is = ap (λ t. b ∷ t) p.is;
  at = p.at;
  idle = p.idle;
  enough = p.enough;
}

alloc_from-Placed :
    (n : ℕ) (curr : Block) (next : List Block) {blocks : List Block} {ptr : ℕ}
    → n + header < 2 ^ 32
    → LastFree (curr ∷ next)
    → alloc_from n curr next ≡ (blocks, some ptr)
    → Placed n ptr (curr ∷ next) blocks
unfolding alloc_from
alloc_from-Placed n curr [] request idle e = place-Placed n curr [] request idle e
alloc_from-Placed n curr (next ∷ more) {blocks} {ptr} request idle e =
    let r = alloc_from n next more in
    elim (Bool-cases (ltb curr.size n || not curr.free)) [
      | inl past ↦
          let found : alloc_from n next more ≡ (r.0, some ptr) = ground arith in
          let grown : curr ∷ r.0 ≡ blocks = ground arith in
          subst (Placed n ptr (curr ∷ next ∷ more)) grown
            (behind curr (alloc_from-Placed n next more request idle found))
      | inr here ↦ place-Placed n curr (next ∷ more) request (ground arith) (ground arith)
    ]

-- As long as the last block is free and the size that is asked for does not run over 32 bits with a
-- header, an allocation that succeeds comes from one free block that is big enough, and touches no
-- other: no memory in use is given out again.
pub malloc-Placed :
    (h : Heap) (n : ℕ) {h' : Heap} {ptr : ℕ}
    → n + header < 2 ^ 32
    → LastFree h.blocks
    → malloc h n ≡ (h', some ptr)
    → Placed n ptr h.blocks h'.blocks
unfolding malloc
malloc-Placed h n {h'} {ptr} request idle e = by_chain h.blocks idle (ground arith)
  where
    by_chain :
        (bs : List Block)
        → LastFree bs
        → alloc n bs ≡ (h'.blocks, some ptr)
        → Placed n ptr bs h'.blocks
    by_chain [] i f = absurd (ground arith)
    by_chain (first ∷ more) i f = alloc_from-Placed n first more request i (ground arith)
