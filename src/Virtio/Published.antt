-- ===== src/Virtio/Published.antt =====
-- The guest kernel's driver and the device together: what the driver puts into a queue is what the
-- device takes out.
use native.Mathlib.Nat.{mod-lt, mod-le}
use dc2021f_ooows_public.Base.{
  ℕ, ◌+◌, ◌*◌, ◌%◌, ◌^◌, ◌≤◌, ◌<◌, ◌≡◌, ◌≢◌, ◌⊎◌, inl, inr, refl, ap, sym, ◌∙◌, true, false, some,
  ◌==◌, ltb, take, drop, arith,
}
use dc2021f_ooows_public.Net.Guest.{MemoryManager, oob, host_addr, bytes_at, with_bytes}
use dc2021f_ooows_public.Virtio.{VirtQueue}
use dc2021f_ooows_public.Virtio.Numbers.{number-bytes_of}
use dc2021f_ooows_public.Virtio.Copied.{bytes_at-take, bytes_at-part, bytes_at-with, bytes_at-apart}
use dc2021f_ooows_public.Virtio.Registers.{number, bytes_of}
use dc2021f_ooows_public.Virtio.Queue.{
  read_u16, avail_empty, Buf, got, buf_of, tail_moved, checked_buf, get_buf,
}
use dc2021f_ooows_public.Virtio.Valid.{IsMemory, Inside, AreasInside, not-oob, read-some}
use dc2021f_ooows_public.Virtio.Driver.{Virtq, load_u16, entry_stored, next_desc, add_buf}

-- The driver's view of a queue: the same areas and the same number of buffers.
abbrev pub shared : VirtQueue → Virtq
shared q = record {
  num = q.num_bufs;
  desc = q.desc_table_gaddr;
  avail = q.avail_gaddr;
  used = q.used_gaddr;
}

module _ (m : MemoryManager) (q : VirtQueue) (buf len : ℕ) (i new_idx : ℕ) where
  abbrev d_at : ℕ
  d_at = host_addr m (q.desc_table_gaddr + 16 * i)

  abbrev l_at : ℕ
  l_at = host_addr m (q.desc_table_gaddr + 16 * i + 8)

  abbrev r_at : ℕ
  r_at = host_addr m (q.avail_gaddr + 4 + 2 * i)

  abbrev h_at : ℕ
  h_at = host_addr m (q.avail_gaddr + 2)

  abbrev f1 : ℕ → ℕ
  f1 = with_bytes m.memory d_at (bytes_of 8 buf)

  abbrev f2 : ℕ → ℕ
  f2 = with_bytes f1 l_at (bytes_of 4 len)

  abbrev f3 : ℕ → ℕ
  f3 = with_bytes f2 r_at (bytes_of 2 i)

  abbrev f4 : ℕ → ℕ
  f4 = with_bytes f3 h_at (bytes_of 2 new_idx)

  abbrev published : MemoryManager
  published = record m { memory = f4 }

  -- The buffer as the device finds it.
  abbrev found : (stale : ℕ) → Buf
  found stale = record {
    guest_addr = buf;
    len = len;
    flags = number (bytes_at m.memory (host_addr m (q.desc_table_gaddr + 16 * i + 12)) 2);
    id = i;
    nbytes_written = stale;
  }

  module _ (v : IsMemory m) (a : AreasInside m q) (i_small : i < q.num_bufs)
      (apart : (q.desc_table_gaddr + 16 * q.num_bufs ≤ q.avail_gaddr)
        ⊎ (q.avail_gaddr + 4 + 2 * q.num_bufs ≤ q.desc_table_gaddr)) where
    -- The part of the descriptor at `at` is as it was before the rings were written.
    rings_apart : (at n : ℕ) → d_at ≤ at → at + n ≤ d_at + 16 → bytes_at f4 at n ≡ bytes_at f2 at n
    rings_apart at n low high =
        bytes_at-apart f3 at n h_at (bytes_of 2 new_idx)
          (ground (arith, a.desc_table_inside.from, a.avail_inside.from))
        ∙ bytes_at-apart f2 at n r_at (bytes_of 2 i)
            (ground (arith, a.desc_table_inside.from, a.avail_inside.from))

    addr_there : bytes_at f4 d_at 8 ≡ bytes_of 8 buf
    addr_there =
        rings_apart d_at 8 (omega arith) (omega arith)
        ∙ bytes_at-apart f1 d_at 8 l_at (bytes_of 4 len)
            (inl (omega (arith, a.desc_table_inside.from)))
        ∙ bytes_at-with m.memory d_at (bytes_of 8 buf)

    len_there : bytes_at f4 l_at 4 ≡ bytes_of 4 len
    len_there =
        rings_apart l_at 4 (omega arith) (omega (arith, a.desc_table_inside.from))
        ∙ bytes_at-with f1 l_at (bytes_of 4 len)

    flags_there :
        bytes_at f4 (host_addr m (q.desc_table_gaddr + 16 * i + 12)) 2
        ≡ bytes_at m.memory (host_addr m (q.desc_table_gaddr + 16 * i + 12)) 2
    flags_there =
        let at = host_addr m (q.desc_table_gaddr + 16 * i + 12) in
        rings_apart at 2 (omega arith) (omega (arith, a.desc_table_inside.from))
        ∙ bytes_at-apart f1 at 2 l_at (bytes_of 4 len)
            (inr (omega (arith, a.desc_table_inside.from)))
        ∙ bytes_at-apart m.memory at 2 d_at (bytes_of 8 buf)
            (inr (omega (arith, a.desc_table_inside.from)))

    id_there : bytes_at f4 r_at 2 ≡ bytes_of 2 i
    id_there =
        bytes_at-apart f3 r_at 2 h_at (bytes_of 2 new_idx)
          (inr (omega (arith, a.avail_inside.from)))
        ∙ bytes_at-with f2 r_at (bytes_of 2 i)

    head_there : bytes_at f4 h_at 2 ≡ bytes_of 2 new_idx
    head_there = bytes_at-with f3 h_at (bytes_of 2 new_idx)

    head_before : bytes_at f3 h_at 2 ≡ bytes_at m.memory h_at 2
    head_before =
        bytes_at-apart f2 h_at 2 r_at (bytes_of 2 i) (inl (omega (arith, a.avail_inside.from)))
        ∙ bytes_at-apart f1 h_at 2 l_at (bytes_of 4 len)
            (ground (arith, a.desc_table_inside.from, a.avail_inside.from))
        ∙ bytes_at-apart m.memory h_at 2 d_at (bytes_of 8 buf)
            (ground (arith, a.desc_table_inside.from, a.avail_inside.from))

    same_oob : (at n : ℕ) → oob published at n ≡ oob m at n
    unfolding oob
    same_oob at n = refl

    u16_there :
        (at value : ℕ)
        → Inside m q.avail_gaddr (4 + q.num_bufs * 2)
        → q.avail_gaddr ≤ at
        → at + 2 ≤ q.avail_gaddr + (4 + q.num_bufs * 2)
        → bytes_at f4 (host_addr m at) 2 ≡ bytes_of 2 value
        → value < 2 ^ 16
        → read_u16 published at ≡ some value
    unfolding read_u16
    u16_there at value inside low high e small =
        let free : oob published at 2 ≡ false =
          same_oob at 2
          ∙ not-oob m q.avail_gaddr (4 + q.num_bufs * 2) at 2 v inside low high (omega arith) in
        rw (read-some published at 2 free)
          (ap some (ap number e ∙ number-bytes_of 2 value (omega arith)))

    fields_there :
        (stale : ℕ)
        → buf < 2 ^ 64
        → len < 2 ^ 32
        → buf_of stale i (bytes_at f4 d_at 16) ≡ found stale
    fields_there stale buf_small len_small =
        ap
          (λ (p : ℕ × ℕ × ℕ). record {
            guest_addr = p.0;
            len = p.1;
            flags = p.2;
            id = i;
            nbytes_written = stale;
          })
          (λ k. (the_addr k, the_len k, the_flags k))
      where
        the_addr : number (take 8 (bytes_at f4 d_at 16)) ≡ buf
        the_addr =
            ap number (bytes_at-take f4 d_at 8 16 (omega arith) ∙ addr_there)
            ∙ number-bytes_of 8 buf (omega arith)

        the_len : number (take 4 (drop 8 (bytes_at f4 d_at 16))) ≡ len
        the_len =
            ap number (
              bytes_at-part f4 d_at l_at 8 4 16 (omega (arith, a.desc_table_inside.from))
                (omega arith)
              ∙ len_there)
            ∙ number-bytes_of 4 len (omega arith)

        the_flags :
            number (take 2 (drop 12 (bytes_at f4 d_at 16)))
            ≡ number (bytes_at m.memory (host_addr m (q.desc_table_gaddr + 16 * i + 12)) 2)
        the_flags = ap number (
            bytes_at-part f4 d_at (host_addr m (q.desc_table_gaddr + 16 * i + 12)) 12 2 16
              (omega (arith, a.desc_table_inside.from)) (omega arith)
            ∙ flags_there)

    -- The device takes the buffer out, if its tail is where the driver put it.
    found_there :
        (stale : ℕ)
        → q.ready ≡ true
        → i ≡ q.avail_tail_idx % q.num_bufs
        → i < 2 ^ 16
        → new_idx < 2 ^ 16
        → new_idx ≢ q.avail_tail_idx
        → buf < 2 ^ 64
        → len < 2 ^ 32
        → oob m buf len ≡ false
        → get_buf published q stale ≡ got (tail_moved q) (found stale)
    unfolding get_buf avail_empty
    found_there stale is at_tail i_word new_word more buf_small len_small fits =
        let head : read_u16 published (q.avail_gaddr + 2) ≡ some new_idx =
          u16_there (q.avail_gaddr + 2) new_idx a.avail_inside (omega arith)
            (omega (arith, a.some_bufs)) head_there new_word in
        let some_left : (new_idx == q.avail_tail_idx) ≡ false = ground arith in
        let slot : read_u16 published (q.avail_gaddr + 4 + 2 * i) ≡ some i =
          u16_there (q.avail_gaddr + 4 + 2 * i) i a.avail_inside (omega arith) (omega arith)
            id_there i_word in
        let known : ltb q.num_bufs i ≡ false = ground arith in
        let desc_free : oob published (q.desc_table_gaddr + 16 * i) 16 ≡ false =
          same_oob (q.desc_table_gaddr + 16 * i) 16
          ∙ not-oob m q.desc_table_gaddr (16 * q.num_bufs) (q.desc_table_gaddr + 16 * i) 16 v
              a.desc_table_inside (omega arith) (omega arith) (omega arith) in
        let fits' : oob published buf len ≡ false = same_oob buf len ∙ fits in
        let desc_there = read-some published (q.desc_table_gaddr + 16 * i) 16 desc_free in
        rw (is, head, some_left, sym at_tail, slot, known, desc_there)
          (ap (checked_buf published (record q { ready = true }))
              (fields_there stale buf_small len_small)
            ∙ rw fits' refl)

-- The round trip of a buffer: when the guest kernel adds a buffer to a ready queue whose used-up
-- entries the device has all taken (its tail is the ring's index), and the queue's descriptors and
-- available ring lie inside the guest's memory and do not overlap, the next `get_buf` returns that
-- buffer, with its address, its length and its descriptor, and moves the tail on by one. This
-- holds for any number of buffers, also when the 16-bit index runs over.
pub add_buf-get_buf :
    (m : MemoryManager) (q : VirtQueue) (device vq_idx buf len stale : ℕ)
    → IsMemory m
    → AreasInside m q
    → q.ready ≡ true
    → q.avail_tail_idx < 2 ^ 16
    → load_u16 m (q.avail_gaddr + 2) ≡ q.avail_tail_idx
    → (q.desc_table_gaddr + 16 * q.num_bufs ≤ q.avail_gaddr)
      ⊎ (q.avail_gaddr + 4 + 2 * q.num_bufs ≤ q.desc_table_gaddr)
    → buf < 2 ^ 64
    → len < 2 ^ 32
    → oob m buf len ≡ false
    → get_buf (add_buf device vq_idx (shared q) buf len m).0 q stale
      ≡ got (tail_moved q) (record {
        guest_addr = buf;
        len = len;
        flags = load_u16 m (q.desc_table_gaddr + 16 * (q.avail_tail_idx % q.num_bufs) + 12);
        id = q.avail_tail_idx % q.num_bufs;
        nbytes_written = stale;
      })
unfolding add_buf
add_buf-get_buf m q device vq_idx buf len stale v a is tail known apart buf_small len_small fits =
    let i = q.avail_tail_idx % q.num_bufs in
    let i_small : i < q.num_bufs = mod-lt q.avail_tail_idx a.some_bufs in
    let i_word : i < 2 ^ 16 = omega (arith, mod-le q.avail_tail_idx q.num_bufs) in
    let new_idx = (q.avail_tail_idx + 1) % 2 ^ 16 in
    let same_i : next_desc m (shared q) ≡ i = ap (λ (t : ℕ). t % q.num_bufs) known in
    let before = head_before m q buf len i new_idx v a i_small apart in
    let stored =
      ap
        (λ (j : ℕ).
          published m q buf len j
            ((load_u16 (entry_stored m (shared q) j buf len) (q.avail_gaddr + 2) + 1) % 2 ^ 16))
        same_i
      ∙ ap (λ (t : ℕ). published m q buf len i ((t + 1) % 2 ^ 16)) (ap number before ∙ known) in
    ap (λ m'. get_buf m' q stale) stored
    ∙ found_there m q buf len i new_idx v a i_small apart stale is refl i_word (omega arith)
        (λ same. absurd (omega arith)) buf_small len_small fits
