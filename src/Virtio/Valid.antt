-- ===== src/Virtio/Valid.antt =====
-- What holds of a device's memory and its queues at any time, and of the areas of a ready queue.
use dc2021f_ooows_public.Base.{
  ℕ, ◌+◌, ◌^◌, ◌≤◌, ◌<◌, ◌≡◌, refl, true, false, none, some, Option, List, ◌==◌, length, arith,
  both_ways,
}
use dc2021f_ooows_public.Net.Guest.{
  MemoryManager, oob, host_addr, bytes_at, with_bytes, read, write,
}
use dc2021f_ooows_public.Net.Access.{oob_lem}
use dc2021f_ooows_public.Virtio.{VirtQueue, VirtioDev, with_vq, max_vq_size, config_space_max}
use dc2021f_ooows_public.Virtio.Numbers.{AreBytes, bytes_at-AreBytes, with_bytes-lt, number-lt}
use dc2021f_ooows_public.Virtio.Registers.{number}
use dc2021f_ooows_public.Virtio.Queue.{
  desc_table_sz, avail_sz, used_sz, desc_table_addr, avail_addr, used_addr, ready_queue, read_u16,
}

-- A memory of bytes, in the lower half of the addresses.
pub record IsMemory (m : MemoryManager) : Type 0 where
  pub order : m.guest_start_paddr ≤ m.guest_end_paddr
  pub half : m.guest_end_paddr ≤ 2 ^ 63
  pub bytes : (i : ℕ) → m.memory i < 256

pub record Inside (m : MemoryManager) (guest_addr size : ℕ) : Type 0 where
  pub from : m.guest_start_paddr ≤ guest_addr
  pub to : guest_addr + size ≤ m.guest_end_paddr

-- Another memory at the same addresses.
pub record SamePlace (m m' : MemoryManager) : Type 0 where
  pub start : m'.guest_start_paddr ≡ m.guest_start_paddr
  pub end : m'.guest_end_paddr ≡ m.guest_end_paddr

pub record AreAreas (m : MemoryManager) (num_bufs desc_table avail used : ℕ) : Type 0 where
  pub some_bufs : 0 < num_bufs
  pub desc_table_inside : Inside m desc_table (desc_table_sz num_bufs)
  pub avail_inside : Inside m avail (avail_sz num_bufs)
  pub used_inside : Inside m used (used_sz num_bufs)

abbrev pub AreasInside : MemoryManager → VirtQueue → Type 0
AreasInside m q = AreAreas m q.num_bufs q.desc_table_gaddr q.avail_gaddr q.used_gaddr

pub record IsQueue (m : MemoryManager) (q : VirtQueue) : Type 0 where
  pub num : q.num_bufs < max_vq_size
  pub tail : q.avail_tail_idx < 2 ^ 16
  pub desc_low : q.queue_desc_low < 2 ^ 32
  pub desc_high : q.queue_desc_high < 2 ^ 32
  pub driver_low : q.queue_driver_low < 2 ^ 32
  pub driver_high : q.queue_driver_high < 2 ^ 32
  pub device_low : q.queue_device_low < 2 ^ 32
  pub device_high : q.queue_device_high < 2 ^ 32
  pub areas : q.ready ≡ true → AreasInside m q

pub record IsValid {S : Type 0} (d : VirtioDev S) : Type 0 where
  pub memory : IsMemory d.mem
  pub sel : d.queue_sel < d.num_queues
  pub size : d.config_space_size ≤ config_space_max
  pub queues : (i : ℕ) → IsQueue d.mem (d.vqs i)

-- A queue with the given parts.
pub parts-IsQueue :
    (m : MemoryManager) (q : VirtQueue)
    → q.num_bufs < max_vq_size
    → q.avail_tail_idx < 2 ^ 16
    → q.queue_desc_low < 2 ^ 32
    → q.queue_desc_high < 2 ^ 32
    → q.queue_driver_low < 2 ^ 32
    → q.queue_driver_high < 2 ^ 32
    → q.queue_device_low < 2 ^ 32
    → q.queue_device_high < 2 ^ 32
    → (q.ready ≡ true → AreasInside m q)
    → IsQueue m q
parts-IsQueue m q n t a b c d e f areas = record {
  num = n;
  tail = t;
  desc_low = a;
  desc_high = b;
  driver_low = c;
  driver_high = d;
  device_low = e;
  device_high = f;
  areas = areas;
}

-- What lies inside an area that lies inside the memory is let through.
pub not-oob :
    (m : MemoryManager) (area size at n : ℕ)
    → IsMemory m
    → Inside m area size
    → area ≤ at
    → at + n ≤ area + size
    → 0 < n
    → oob m at n ≡ false
not-oob m area size at n v i low high some_bytes =
    (oob_lem m at n v.order v.half (omega (arith, v.half, i.to)) (omega (arith, v.half, i.to))).1
      (omega (arith, i.from), omega (arith, i.to), omega (arith, i.to))

pub oob-Inside :
    (m : MemoryManager) (at n : ℕ)
    → IsMemory m
    → at < 2 ^ 64
    → n < 2 ^ 64
    → oob m at n ≡ false
    → Inside m at n
oob-Inside m at n v ha hn h =
    let bounds = (oob_lem m at n v.order v.half ha hn).0 h in
    record { from = bounds.0; to = bounds.2 }

pub read-some :
    (m : MemoryManager) (at n : ℕ)
    → oob m at n ≡ false
    → read m at n ≡ some (bytes_at m.memory (host_addr m at) n)
unfolding read
read-some m at n h = rw h refl

-- A 16-bit number that lies inside can be read.
pub read_u16-some :
    (m : MemoryManager) (area size at : ℕ)
    → IsMemory m
    → Inside m area size
    → area ≤ at
    → at + 2 ≤ area + size
    → (v : ℕ) × (read_u16 m at ≡ some v) × (v < 2 ^ 16)
unfolding read_u16
read_u16-some m area size at v i low high =
    let free : oob m at 2 ≡ false = not-oob m area size at 2 v i low high (omega arith) in
    (
      number (bytes_at m.memory (host_addr m at) 2),
      rw (read-some m at 2 free) refl,
      number-lt 2 (bytes_at m.memory (host_addr m at) 2)
          (bytes_at-AreBytes m.memory (host_addr m at) 2 v.bytes) (omega arith),
    )

-- Nothing, or a memory in the same place.
abbrev pub Written : MemoryManager → Option MemoryManager → Type 0
Written m none = Unit
Written m (some m') = IsMemory m' × SamePlace m m'

pub with_bytes-IsMemory :
    (m : MemoryManager) (at : ℕ) (bs : List ℕ)
    → IsMemory m
    → AreBytes bs
    → IsMemory (record m { memory = with_bytes m.memory at bs })
with_bytes-IsMemory m at bs v all = record {
  order = v.order;
  half = v.half;
  bytes = λ i. with_bytes-lt m.memory at bs i (v.bytes i) all;
}

pub write-Written :
    (m : MemoryManager) (at : ℕ) (bs : List ℕ)
    → IsMemory m
    → AreBytes bs
    → Written m (write m at bs)
unfolding write
write-Written m at bs v all =
    both_ways (Written m) (oob m at (length bs)) none
      (some (record m { memory = with_bytes m.memory (host_addr m at) bs })) (λ bad. tt)
      λ free. (with_bytes-IsMemory m (host_addr m at) bs v all, record { start = refl; end = refl })

pub same_place : (m : MemoryManager) → SamePlace m m
same_place m = record { start = refl; end = refl }

-- What was inside stays inside when the memory's contents change.
pub moved-Inside :
    {m m' : MemoryManager} (at n : ℕ) → SamePlace m m' → Inside m at n → Inside m' at n
moved-Inside at n s i = record {
  from = omega (arith, s.start, i.from);
  to = omega (arith, s.end, i.to);
}

pub moved-IsQueue :
    {m m' : MemoryManager} (q : VirtQueue) → SamePlace m m' → IsQueue m q → IsQueue m' q
moved-IsQueue q s v = record {
  num = v.num;
  tail = v.tail;
  desc_low = v.desc_low;
  desc_high = v.desc_high;
  driver_low = v.driver_low;
  driver_high = v.driver_high;
  device_low = v.device_low;
  device_high = v.device_high;
  areas = λ is.
      let a = v.areas is in
      record {
        some_bufs = a.some_bufs;
        desc_table_inside =
            moved-Inside q.desc_table_gaddr (desc_table_sz q.num_bufs) s a.desc_table_inside;
        avail_inside = moved-Inside q.avail_gaddr (avail_sz q.num_bufs) s a.avail_inside;
        used_inside = moved-Inside q.used_gaddr (used_sz q.num_bufs) s a.used_inside;
      };
}

-- Nothing, or a queue that is as it must be.
abbrev pub QueueKept : MemoryManager → Option VirtQueue → Type 0
QueueKept m none = Unit
QueueKept m (some q) = IsQueue m q × (q.ready ≡ true)

-- A queue becomes ready only with areas that lie inside the guest's memory.
pub ready_queue-Kept :
    (m : MemoryManager) (q : VirtQueue) → IsMemory m → IsQueue m q → QueueKept m (ready_queue m q)
unfolding ready_queue
ready_queue-Kept m q v w =
    both_ways (QueueKept m) (q.num_bufs == 0) _ _ (λ h. tt)
      λ num.
        both_ways (QueueKept m) (oob m (desc_table_addr q) (desc_table_sz q.num_bufs)) _ _ (λ h. tt)
          λ desc.
            both_ways (QueueKept m) (oob m (avail_addr q) (avail_sz q.num_bufs)) _ _ (λ h. tt)
              λ avail.
                both_ways (QueueKept m) (oob m (used_addr q) (used_sz q.num_bufs)) _ _ (λ h. tt)
                  λ used. (
                    record {
                      num = w.num;
                      tail = w.tail;
                      desc_low = w.desc_low;
                      desc_high = w.desc_high;
                      driver_low = w.driver_low;
                      driver_high = w.driver_high;
                      device_low = w.device_low;
                      device_high = w.device_high;
                      areas = λ is. record {
                        some_bufs = ground (arith, num);
                        desc_table_inside =
                            oob-Inside m (desc_table_addr q) (desc_table_sz q.num_bufs) v
                              (omega (arith, w.desc_low, w.desc_high)) (omega (arith, w.num)) desc;
                        avail_inside =
                            oob-Inside m (avail_addr q) (avail_sz q.num_bufs) v
                              (omega (arith, w.driver_low, w.driver_high)) (omega (arith, w.num))
                              avail;
                        used_inside =
                            oob-Inside m (used_addr q) (used_sz q.num_bufs) v
                              (omega (arith, w.device_low, w.device_high)) (omega (arith, w.num))
                              used;
                      };
                    },
                    refl,
                  )

-- A queue of the device is replaced by one that is as it must be.
pub with_vq-IsValid :
    {S : Type 0} (d : VirtioDev S) (i : ℕ) (q : VirtQueue)
    → IsValid d
    → IsQueue d.mem q
    → IsValid (with_vq d i q)
with_vq-IsValid d i q v w = record {
  memory = v.memory;
  sel = v.sel;
  size = v.size;
  queues = λ j. both_ways (IsQueue d.mem) (j == i) q (d.vqs j) (λ h. w) λ h. v.queues j;
}

pub with_mem-IsValid :
    {S : Type 0} (d : VirtioDev S) (m : MemoryManager)
    → IsValid d
    → IsMemory m
    → SamePlace d.mem m
    → IsValid (record d { mem = m })
with_mem-IsValid d m v w s = record {
  memory = w;
  sel = v.sel;
  size = v.size;
  queues = λ j. moved-IsQueue (d.vqs j) s (v.queues j);
}
