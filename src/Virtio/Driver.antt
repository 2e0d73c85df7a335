-- ===== src/Virtio/Driver.antt =====
-- The guest kernel's side of a virtqueue, boot/kernel/virtio_drv.c. Its pointers are guest physical
-- addresses, and its writes to the device's registers are the accesses that reach the device.
use dc2021f_ooows_public.Base.{
  ℕ, ◌+◌, ◌*◌, ◌%◌, ◌^◌, true, Option, none, some, List, [], ◌∷◌, ◌==◌, if◌then◌else◌,
}
use dc2021f_ooows_public.Dispatch.{IoRequest, mmio}
use dc2021f_ooows_public.Net.Guest.{MemoryManager, host_addr, bytes_at, with_bytes}
use dc2021f_ooows_public.Virtio.Registers.{number, bytes_of}

-- `struct virtq`
pub record Virtq : Type 0 where
  pub num : ℕ
  pub desc : ℕ
  pub avail : ℕ
  pub used : ℕ

-- The kernel's loads and stores.
abbrev pub store : MemoryManager → (at : ℕ) → List ℕ → MemoryManager
store m at bytes = record m { memory = with_bytes m.memory (host_addr m at) bytes }

abbrev pub load_u16 : MemoryManager → (at : ℕ) → ℕ
load_u16 m at = number (bytes_at m.memory (host_addr m at) 2)

-- `device[reg / 4] = value`
abbrev pub write_reg : (device reg value : ℕ) → IoRequest
write_reg device reg value = mmio (device + reg) value 4 true

-- `vq->avail->idx++`
abbrev pub idx_incremented : MemoryManager → (avail : ℕ) → MemoryManager
idx_incremented m avail = store m (avail + 2) (bytes_of 2 ((load_u16 m (avail + 2) + 1) % 2 ^ 16))

-- A descriptor and its place in the available ring.
abbrev pub entry_stored : MemoryManager → Virtq → (desc_idx buf len : ℕ) → MemoryManager
entry_stored m vq desc_idx buf len =
    let m1 = store m (vq.desc + 16 * desc_idx) (bytes_of 8 buf) in
    let m2 = store m1 (vq.desc + 16 * desc_idx + 8) (bytes_of 4 len) in
    store m2 (vq.avail + 4 + 2 * desc_idx) (bytes_of 2 desc_idx)

abbrev pub next_desc : MemoryManager → Virtq → ℕ
next_desc m vq = load_u16 m (vq.avail + 2) % vq.num

unfoldable pub add_buf :
    (device vq_idx : ℕ) → Virtq → (buf len : ℕ) → MemoryManager → MemoryManager × List IoRequest
add_buf device vq_idx vq buf len m = (
  idx_incremented (entry_stored m vq (next_desc m vq) buf len) vq.avail,
  write_reg device 0x50 vq_idx ∷ [],
)

-- `setup_virtq` from the addresses that `malloc` returned: the queue's areas and a buffer for each
-- descriptor; an address of 0 for a buffer ends it with `NULL`.
abbrev pub filled : MemoryManager → Virtq → (buf_sz i : ℕ) → List ℕ → Option MemoryManager
filled m vq buf_sz i [] = some m
filled m vq buf_sz i (buf ∷ bufs) =
    let rest =
      filled (idx_incremented (entry_stored m vq i buf buf_sz) vq.avail) vq buf_sz (i + 1) bufs in
    if buf == 0 then none else rest

abbrev pub queue_writes : (device qnum : ℕ) → Virtq → List IoRequest
queue_writes device qnum vq = write_reg device 0x30 qnum ∷ (write_reg device 0x38 vq.num ∷ [])

abbrev pub set_up :
    (device qnum : ℕ) → Virtq → Option MemoryManager → Option (MemoryManager × List IoRequest)
set_up device qnum vq none = none
set_up device qnum vq (some m) = some (m, queue_writes device qnum vq)

unfoldable pub setup_virtq :
    (device qnum buf_sz : ℕ)
    → Virtq
    → (bufs : List ℕ) → MemoryManager
    → Option (MemoryManager × List IoRequest)
setup_virtq device qnum buf_sz vq bufs m = set_up device qnum vq (filled m vq buf_sz 0 bufs)

unfoldable pub commit_and_ready_vq : (device vq_idx : ℕ) → Virtq → List IoRequest
commit_and_ready_vq device vq_idx vq =
    write_reg device 0x30 vq_idx
    ∷ (write_reg device 0x80 vq.desc
        ∷ (write_reg device 0x90 vq.avail
            ∷ (write_reg device 0xa0 vq.used ∷ (write_reg device 0x44 1 ∷ []))))
