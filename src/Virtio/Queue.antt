-- ===== src/Virtio/Queue.antt =====
-- The virtqueues in the guest's memory: `ready_queue`, `avail_empty`, `used_full`, `get_buf` and
-- `put_buf` of devices/utils/virtio.cpp.
use dc2021f_ooows_public.Base.{
  ℕ, ◌+◌, ◌*◌, ◌%◌, ◌^◌, Bool, true, Option, none, some, List, ◌++◌, ltb, leb, ◌==◌, if◌then◌else◌,
  take, drop,
}
use dc2021f_ooows_public.Net.Guest.{MemoryManager, oob, read, write}
use dc2021f_ooows_public.Virtio.{VirtQueue, VirtioDev, with_vq}
use dc2021f_ooows_public.Virtio.Registers.{number, bytes_of}

-- The sizes of a queue's areas: `VirtqDesc` has 16 bytes, `VirtqAvail` 4 and 2 for an element of its
-- ring, `VirtqUsed` 4 and 8.
abbrev pub desc_table_sz : ℕ → ℕ
desc_table_sz num_bufs = 16 * num_bufs

abbrev pub avail_sz : ℕ → ℕ
avail_sz num_bufs = 4 + num_bufs * 2

abbrev pub used_sz : ℕ → ℕ
used_sz num_bufs = 4 + num_bufs * 8

-- `(high << 32) | low`
abbrev pub gaddr : (high low : ℕ) → ℕ
gaddr high low = high * 2 ^ 32 + low

abbrev pub desc_table_addr : VirtQueue → ℕ
desc_table_addr q = gaddr q.queue_desc_high q.queue_desc_low

abbrev pub avail_addr : VirtQueue → ℕ
avail_addr q = gaddr q.queue_driver_high q.queue_driver_low

abbrev pub used_addr : VirtQueue → ℕ
used_addr q = gaddr q.queue_device_high q.queue_device_low

abbrev pub made_ready : VirtQueue → VirtQueue
made_ready q = record q {
  desc_table_gaddr = desc_table_addr q;
  avail_gaddr = avail_addr q;
  used_gaddr = used_addr q;
  ready = true;
}

-- `ready_queue` on the selected queue; `none` is its result -1.
unfoldable pub ready_queue : MemoryManager → VirtQueue → Option VirtQueue
ready_queue m q =
    if q.num_bufs == 0
    then none
    else if oob m (desc_table_addr q) (desc_table_sz q.num_bufs)
    then none
    else if oob m (avail_addr q) (avail_sz q.num_bufs)
    then none
    else if oob m (used_addr q) (used_sz q.num_bufs)
    then none
    else some (made_ready q)

abbrev pub value_of : Option (List ℕ) → Option ℕ
value_of none = none
value_of (some bytes) = some (number bytes)

-- `readX<uint16_t>`
unfoldable pub read_u16 : MemoryManager → (guest_addr : ℕ) → Option ℕ
read_u16 m guest_addr = value_of (read m guest_addr 2)

-- `head_idx` of an available or used ring stands 2 bytes into it, and both tests compare it with
-- the queue's `avail_tail_idx`; `none` is the exception `std::out_of_range`.
abbrev pub at_tail : VirtQueue → Option ℕ → Option Bool
at_tail q none = none
at_tail q (some head_idx) = some (head_idx == q.avail_tail_idx)

unfoldable pub avail_empty : MemoryManager → VirtQueue → Option Bool
avail_empty m q = at_tail q (read_u16 m (q.avail_gaddr + 2))

unfoldable pub used_full : MemoryManager → VirtQueue → Option Bool
used_full m q = at_tail q (read_u16 m (q.used_gaddr + 2))

-- A buffer. Nothing sets `m_nbytes_written` of a new one.
pub record Buf : Type 0 where
  pub guest_addr : ℕ
  pub len : ℕ
  pub flags : ℕ
  pub id : ℕ
  pub nbytes_written : ℕ

-- What `get_buf` does: an exception, `NULL`, or a buffer, with which the queue's tail moves on.
pub data Got : Type 0 where
  thrown : Got
  null : Got
  got : VirtQueue → Buf → Got

abbrev pub desc_addr : VirtQueue → (desc_id : ℕ) → ℕ
desc_addr q desc_id = q.desc_table_gaddr + 16 * desc_id

abbrev pub ring_addr : VirtQueue → ℕ
ring_addr q = q.avail_gaddr + 4 + 2 * (q.avail_tail_idx % q.num_bufs)

abbrev pub buf_of : (stale desc_id : ℕ) → List ℕ → Buf
buf_of stale desc_id desc = record {
  guest_addr = number (take 8 desc);
  len = number (take 4 (drop 8 desc));
  flags = number (take 2 (drop 12 desc));
  id = desc_id;
  nbytes_written = stale;
}

abbrev pub tail_moved : VirtQueue → VirtQueue
tail_moved q = record q { avail_tail_idx = (q.avail_tail_idx + 1) % 2 ^ 16 }

abbrev pub checked_buf : MemoryManager → VirtQueue → Buf → Got
checked_buf m q b = if oob m b.guest_addr b.len then null else got (tail_moved q) b

abbrev pub desc_read : MemoryManager → VirtQueue → (stale desc_id : ℕ) → Option (List ℕ) → Got
desc_read m q stale desc_id none = null
desc_read m q stale desc_id (some desc) = checked_buf m q (buf_of stale desc_id desc)

abbrev pub id_read : MemoryManager → VirtQueue → (stale : ℕ) → Option ℕ → Got
id_read m q stale none = null
id_read m q stale (some desc_id) =
    if ltb q.num_bufs desc_id
    then null
    else desc_read m q stale desc_id (read m (desc_addr q desc_id) 16)

abbrev pub unless_empty : MemoryManager → VirtQueue → (stale : ℕ) → Option Bool → Got
unless_empty m q stale none = thrown
unless_empty m q stale (some empty) =
    if empty then null else id_read m q stale (read_u16 m (ring_addr q))

-- `get_buf` on a queue that exists; `stale` is what the memory of the new buffer held.
unfoldable pub get_buf : MemoryManager → VirtQueue → (stale : ℕ) → Got
get_buf m q stale = if q.ready then unless_empty m q stale (avail_empty m q) else null

-- What `put_buf` does: an exception, a result of -1 with what it had written until then, or 0.
pub data Put : Type 0 where
  thrown : Put
  failed : MemoryManager → Put
  done : MemoryManager → Put

abbrev pub used_elem : Buf → List ℕ
used_elem b = bytes_of 4 b.id ++ bytes_of 4 b.nbytes_written

-- Where the element is written: the index `head_idx` has been computed, but `num_bufs` is used.
abbrev pub elem_addr : VirtQueue → ℕ
elem_addr q = q.used_gaddr + 4 + 8 * q.num_bufs

abbrev pub head_written : MemoryManager → Option MemoryManager → Put
head_written m none = failed m
head_written m (some m') = done m'

abbrev pub elem_written :
    MemoryManager → VirtQueue → (new_head_idx : ℕ) → Option MemoryManager → Put
elem_written m q new_head_idx none = failed m
elem_written m q new_head_idx (some m') =
    head_written m' (write m' (q.used_gaddr + 2) (bytes_of 2 new_head_idx))

abbrev pub head_read : MemoryManager → VirtQueue → Buf → Option ℕ → Put
head_read m q b none = failed m
head_read m q b (some head_idx) =
    elem_written m q ((head_idx + 1) % 2 ^ 16) (write m (elem_addr q) (used_elem b))

abbrev pub unless_full : MemoryManager → VirtQueue → Buf → Option Bool → Put
unless_full m q b none = thrown
unless_full m q b (some full) =
    if full then failed m else head_read m q b (read_u16 m (q.used_gaddr + 2))

unfoldable pub put_buf : MemoryManager → VirtQueue → Buf → Put
put_buf m q b = if q.ready then unless_full m q b (used_full m q) else failed m

-- Both on a device, by the queue's index; for an index that there is not they return `NULL` and -1.
abbrev pub device_got : {S : Type 0} → VirtioDev S → ℕ → Got → Option (VirtioDev S × Option Buf)
device_got d vq_idx thrown = none
device_got d vq_idx null = some (d, none)
device_got d vq_idx (got q b) = some (with_vq d vq_idx q, some b)

unfoldable pub device_get_buf :
    {S : Type 0} → VirtioDev S → (vq_idx stale : ℕ) → Option (VirtioDev S × Option Buf)
device_get_buf d vq_idx stale =
    if leb d.num_queues vq_idx
    then some (d, none)
    else device_got d vq_idx (get_buf d.mem (d.vqs vq_idx) stale)

abbrev pub device_put : {S : Type 0} → VirtioDev S → Put → Option (VirtioDev S)
device_put d thrown = none
device_put d (failed m) = some (record d { mem = m })
device_put d (done m) = some (record d { mem = m })

unfoldable pub device_put_buf :
    {S : Type 0} → VirtioDev S → (vq_idx : ℕ) → Buf → Option (VirtioDev S)
device_put_buf d vq_idx b =
    if leb d.num_queues vq_idx then some d else device_put d (put_buf d.mem (d.vqs vq_idx) b)
