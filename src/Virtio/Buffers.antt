-- ===== src/Virtio/Buffers.antt =====
-- The buffers of a virtqueue: what `get_buf` hands out and what `put_buf` writes.
use dc2021f_ooows_public.Base.{
  ℕ, ◌+◌, ◌*◌, ◌≤◌, ◌≡◌, refl, true, none, some, Option, List, ◌==◌, ltb, take, drop, length-take,
  arith, both_ways,
}
use dc2021f_ooows_public.Net.Guest.{MemoryManager, oob, host_addr, bytes_at, read}
use dc2021f_ooows_public.Virtio.{VirtQueue}
use dc2021f_ooows_public.Virtio.Numbers.{
  AreBytes, bytes_at-AreBytes, number-lt, take-AreBytes, drop-AreBytes,
}
use dc2021f_ooows_public.Virtio.Queue.{
  desc_addr, ring_addr, read_u16, avail_empty, Got, got, thrown, null, buf_of, tail_moved,
  desc_read, id_read, unless_empty, get_buf,
}
use dc2021f_ooows_public.Virtio.Valid.{IsMemory, Inside, AreasInside, oob-Inside, read_u16-some}

-- No exception; a buffer lies inside the guest's memory and was the next one of the queue.
abbrev pub GotKept : MemoryManager → VirtQueue → Got → Type 0
GotKept m q thrown = ⊥
GotKept m q null = Unit
GotKept m q (got q' b) = (q' ≡ tail_moved q) × Inside m b.guest_addr b.len × (b.id ≤ q.num_bufs)

module _ (m : MemoryManager) (q : VirtQueue) (stale : ℕ) (v : IsMemory m) where
  desc_read-Kept :
      (desc_id : ℕ) (desc : List ℕ)
      → AreBytes desc
      → desc_id ≤ q.num_bufs
      → GotKept m q (desc_read m q stale desc_id (some desc))
  desc_read-Kept desc_id desc all small =
      let b = buf_of stale desc_id desc in
      both_ways (GotKept m q) (oob m b.guest_addr b.len) null (got (tail_moved q) b) (λ bad. tt)
        λ free. (
          refl,
          oob-Inside m b.guest_addr b.len v
              (number-lt 8 (take 8 desc) (take-AreBytes 8 desc all)
                (omega (arith, length-take 8 desc)))
              (omega (
                arith,
                number-lt 4 (take 4 (drop 8 desc))
                    (take-AreBytes 4 (drop 8 desc) (drop-AreBytes 8 desc all))
                    (omega (arith, length-take 4 (drop 8 desc))),
              ))
              free,
          small,
        )

  id_read-Kept : (o : Option ℕ) → GotKept m q (id_read m q stale o)
  unfolding read
  id_read-Kept none = tt
  id_read-Kept (some desc_id) =
      both_ways (GotKept m q) (ltb q.num_bufs desc_id) null
        (desc_read m q stale desc_id (read m (desc_addr q desc_id) 16)) (λ h. tt)
        λ small.
          both_ways (λ o. GotKept m q (desc_read m q stale desc_id o))
            (oob m (desc_addr q desc_id) 16) none
            (some (bytes_at m.memory (host_addr m (desc_addr q desc_id)) 16)) (λ h. tt)
            λ free.
              desc_read-Kept desc_id (bytes_at m.memory (host_addr m (desc_addr q desc_id)) 16)
                (bytes_at-AreBytes m.memory (host_addr m (desc_addr q desc_id)) 16 v.bytes)
                (ground arith)

-- Whatever the guest has put into its memory, `get_buf` on a queue whose areas were checked throws
-- no exception, and a buffer that it returns lies inside the guest's memory; with it the queue's
-- tail moves on by one, modulo 2 ^ 16, and nothing else of the queue changes.
pub get_buf-Kept :
    (m : MemoryManager) (q : VirtQueue) (stale : ℕ)
    → IsMemory m
    → (q.ready ≡ true → AreasInside m q)
    → GotKept m q (get_buf m q stale)
unfolding get_buf avail_empty
get_buf-Kept m q stale v areas =
    both_ways (GotKept m q) q.ready (unless_empty m q stale (avail_empty m q)) null
      (λ is.
        let a = areas is in
        let (head, e, small) =
          read_u16-some m q.avail_gaddr (4 + q.num_bufs * 2) (q.avail_gaddr + 2) v a.avail_inside
            (omega arith) (omega (arith, a.some_bufs)) in
        rw e (
          both_ways (GotKept m q) (head == q.avail_tail_idx) null
            (id_read m q stale (read_u16 m (ring_addr q))) (λ h. tt)
            λ h. id_read-Kept m q stale v (read_u16 m (ring_addr q))))
      λ h. tt
