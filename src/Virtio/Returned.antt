-- ===== src/Virtio/Returned.antt =====
-- The buffers that a device gives back: what `put_buf` writes.
use dc2021f_ooows_public.Base.{
  ℕ, ◌+◌, ◌-◌, ◌*◌, ◌%◌, ◌^◌, ◌≤◌, ◌<◌, ◌≡◌, refl, ap, ◌∙◌, true, false, none, some, Option, List,
  ◌==◌, ltb, leb, get_or, length, arith, both_ways,
}
use dc2021f_ooows_public.Net.Guest.{MemoryManager, oob, host_addr, with_bytes, write}
use dc2021f_ooows_public.Virtio.{VirtQueue}
use dc2021f_ooows_public.Virtio.Numbers.{
  AreBytes, append-AreBytes, bytes_of-AreBytes, length-bytes_of,
}
use dc2021f_ooows_public.Virtio.Registers.{bytes_of}
use dc2021f_ooows_public.Virtio.Queue.{
  read_u16, used_full, Buf, Put, thrown, failed, done, used_elem, elem_addr, head_written,
  elem_written, head_read, unless_full, put_buf,
}
use dc2021f_ooows_public.Virtio.Valid.{
  IsMemory, SamePlace, AreasInside, read_u16-some, with_bytes-IsMemory, same_place,
}

-- The memory is still one, in the same place; the ring of the queue's used area is as it was; and
-- what has been written in full stands right behind the ring.
abbrev RingKept : MemoryManager → VirtQueue → MemoryManager → Type 0
RingKept m q m' =
    (i : ℕ)
    → q.used_gaddr + 4 ≤ m.guest_start_paddr + i
    → m.guest_start_paddr + i < q.used_gaddr + 4 + 8 * q.num_bufs
    → m'.memory i ≡ m.memory i

abbrev Behind : MemoryManager → VirtQueue → Buf → MemoryManager → Type 0
Behind m q b m' =
    (j : ℕ)
    → j < 8
    → m'.memory (q.used_gaddr + 4 + 8 * q.num_bufs - m.guest_start_paddr + j)
      ≡ get_or (used_elem b) j 0

abbrev pub PutMissed : MemoryManager → VirtQueue → Buf → Put → Type 0
PutMissed m q b thrown = ⊥
PutMissed m q b (failed m') = IsMemory m' × SamePlace m m' × RingKept m q m'
PutMissed m q b (done m') = IsMemory m' × SamePlace m m' × RingKept m q m' × Behind m q b m'

length-used_elem : (b : Buf) → length (used_elem b) ≡ 8
length-used_elem b = refl

used_elem-AreBytes : (b : Buf) → AreBytes (used_elem b)
used_elem-AreBytes b =
    append-AreBytes (bytes_of 4 b.id) (bytes_of 4 b.nbytes_written) (bytes_of-AreBytes 4 b.id)
      (bytes_of-AreBytes 4 b.nbytes_written)

module _ (m : MemoryManager) (q : VirtQueue) (b : Buf) (v : IsMemory m) (a : AreasInside m q) where
  abbrev with_elem : MemoryManager
  with_elem = record m { memory = with_bytes m.memory (host_addr m (elem_addr q)) (used_elem b) }

  elem_ring : RingKept m q with_elem
  elem_ring i low high =
      let off : (leb (host_addr m (elem_addr q)) i) ≡ false = ground (arith, a.used_inside.from) in
      rw off refl

  head_outside :
      (bs : List ℕ) (f : ℕ → ℕ) (i : ℕ)
      → length bs ≡ 2
      → q.used_gaddr + 4 ≤ m.guest_start_paddr + i
      → with_bytes f (host_addr m (q.used_gaddr + 2)) bs i ≡ f i
  head_outside bs f i short low =
      let off : ltb i (host_addr m (q.used_gaddr + 2) + length bs) ≡ false =
        ground (arith, a.used_inside.from) in
      ground arith

  module _ (new_head_idx : ℕ) where
    abbrev with_head : MemoryManager
    with_head = record with_elem {
      memory =
          with_bytes with_elem.memory (host_addr with_elem (q.used_gaddr + 2))
            (bytes_of 2 new_head_idx);
    }

    elem_valid : IsMemory with_elem
    elem_valid =
        with_bytes-IsMemory m (host_addr m (elem_addr q)) (used_elem b) v (used_elem-AreBytes b)

    head_kept :
        (i : ℕ)
        → q.used_gaddr + 4 ≤ m.guest_start_paddr + i
        → with_head.memory i ≡ with_elem.memory i
    head_kept i low =
        head_outside (bytes_of 2 new_head_idx) with_elem.memory i (length-bytes_of 2 new_head_idx)
          low

    elem_there : Behind m q b with_elem
    elem_there j small =
        let same : get_or (used_elem b) (host_addr m (elem_addr q) + j - host_addr m (elem_addr q))
              0
            ≡ get_or (used_elem b) j 0 =
          ap (λ (k : ℕ). get_or (used_elem b) k 0) (omega arith) in
        ground (arith, length-used_elem b)

    elem_written-Missed :
        PutMissed m q b (elem_written m q new_head_idx (write m (elem_addr q) (used_elem b)))
    unfolding write
    elem_written-Missed =
        both_ways (λ o. PutMissed m q b (elem_written m q new_head_idx o))
          (oob m (elem_addr q) (length (used_elem b))) none (some with_elem)
          (λ bad. (v, same_place m, λ i low high. refl))
          λ free.
            both_ways (λ o. PutMissed m q b (head_written with_elem o))
              (oob with_elem (q.used_gaddr + 2) (length (bytes_of 2 new_head_idx))) none
              (some with_head) (λ bad. (elem_valid, record { start = refl; end = refl }, elem_ring))
              λ free'. (
                with_bytes-IsMemory with_elem (host_addr with_elem (q.used_gaddr + 2))
                    (bytes_of 2 new_head_idx) elem_valid (bytes_of-AreBytes 2 new_head_idx),
                record { start = refl; end = refl },
                λ i low high. head_kept i low ∙ elem_ring i low high,
                λ j small.
                    head_kept (q.used_gaddr + 4 + 8 * q.num_bufs - m.guest_start_paddr + j)
                      (omega (arith, a.used_inside.from))
                    ∙ elem_there j small,
              )

  head_read-Missed : (o : Option ℕ) → PutMissed m q b (head_read m q b o)
  head_read-Missed none = (v, same_place m, λ i low high. refl)
  head_read-Missed (some head_idx) = elem_written-Missed ((head_idx + 1) % 2 ^ 16)

-- `put_buf` on a queue whose areas were checked throws no exception, whatever the guest's memory
-- holds, and never changes an element of the used ring: an element that it writes stands right
-- behind the ring, whatever the ring's head is.
pub put_buf-Missed :
    (m : MemoryManager) (q : VirtQueue) (b : Buf)
    → IsMemory m
    → (q.ready ≡ true → AreasInside m q)
    → PutMissed m q b (put_buf m q b)
unfolding put_buf used_full
put_buf-Missed m q b v areas =
    both_ways (PutMissed m q b) q.ready (unless_full m q b (used_full m q)) (failed m)
      (λ is.
        let a = areas is in
        let (head, e, small) =
          read_u16-some m q.used_gaddr (4 + q.num_bufs * 8) (q.used_gaddr + 2) v a.used_inside
            (omega arith) (omega (arith, a.some_bufs)) in
        rw e (
          both_ways (PutMissed m q b) (head == q.avail_tail_idx) (failed m)
            (head_read m q b (read_u16 m (q.used_gaddr + 2)))
            (λ h. (v, same_place m, λ i low high. refl))
            λ h. head_read-Missed m q b v a (read_u16 m (q.used_gaddr + 2))))
      λ h. (v, same_place m, λ i low high. refl)
