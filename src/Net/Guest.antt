-- ===== src/Net/Guest.antt =====
-- The guest's memory as a device sees it: `MemoryManager` of devices/utils/mem-manager.cpp, and the
-- head of a `VirtBuf` of devices/utils/virtio.cpp.
use dc2021f_ooows_public.Base.{
  ℕ, zero, suc, ◌+◌, ◌-◌, ◌%◌, ◌^◌, Bool, ◌&&◌, ◌||◌, Option, none, some, List, [], ◌∷◌, ltb, leb,
  if◌then◌else◌, get_or, length,
}

-- The members of `MemoryManager`; `m_memory` is the function `memory` from an offset to a byte.
pub record MemoryManager : Type 0 where
  pub guest_start_paddr : ℕ
  pub guest_end_paddr : ℕ
  pub memory : ℕ → ℕ

abbrev pub mem_size : MemoryManager → ℕ
mem_size m = (m.guest_end_paddr + 2 ^ 64 - m.guest_start_paddr) % 2 ^ 64

-- `oob`, on 64 bits.
unfoldable pub oob : MemoryManager → (guest_addr size : ℕ) → Bool
oob m guest_addr size =
    ltb guest_addr m.guest_start_paddr
    || (ltb ((guest_addr + size) % 2 ^ 64) m.guest_start_paddr
        || (leb m.guest_end_paddr guest_addr
            || (ltb m.guest_end_paddr ((guest_addr + size) % 2 ^ 64) || ltb (mem_size m) size)))

-- `host_addr`, an offset into `m_memory`.
abbrev pub host_addr : MemoryManager → ℕ → ℕ
host_addr m guest_addr = guest_addr - m.guest_start_paddr

-- `memcpy` out of the memory and into it.
abbrev pub bytes_at : (ℕ → ℕ) → (at size : ℕ) → List ℕ
bytes_at memory at zero = []
bytes_at memory at (suc size) = memory at ∷ bytes_at memory (at + 1) size

abbrev pub with_bytes : (ℕ → ℕ) → ℕ → List ℕ → ℕ → ℕ
with_bytes memory at bytes i =
    if leb at i && ltb i (at + length bytes) then get_or bytes (i - at) 0 else memory i

-- `MemoryManager::read` and `MemoryManager::write`
unfoldable pub read : MemoryManager → (guest_addr size : ℕ) → Option (List ℕ)
read m guest_addr size =
    if oob m guest_addr size then none else some (bytes_at m.memory (host_addr m guest_addr) size)

unfoldable pub write : MemoryManager → ℕ → List ℕ → Option MemoryManager
write m guest_addr bytes =
    if oob m guest_addr (length bytes)
    then none
    else some (record m { memory = with_bytes m.memory (host_addr m guest_addr) bytes })

-- What the device uses of a `VirtBuf`.
pub record VirtBuf : Type 0 where
  pub head : ℕ
  pub len : ℕ

-- `readU` and `writeU` move the head.
abbrev pub moved : VirtBuf → ℕ → VirtBuf
moved v size = record v { head = (v.head + size) % 2 ^ 64 }
