-- ===== src/Net/Access.antt =====
-- Which accesses to the guest's memory are let through, and that a read finds what a write left.
use dc2021f_ooows_public.Base.{
  ℕ, suc, ◌+◌, ◌-◌, ◌^◌, ◌≤◌, ◌<◌, ◌≡◌, ◌↔◌, ◌⊎◌, refl, ap, ◌∙◌, inl, inr, Bool-cases, false, some,
  List, [], ◌∷◌, get_or, length, arith,
}
use dc2021f_ooows_public.Net.Guest.{
  MemoryManager, mem_size, oob, host_addr, bytes_at, with_bytes, read, write,
}

inside :
    (m : MemoryManager) (guest_addr size : ℕ)
    → m.guest_start_paddr ≤ m.guest_end_paddr
    → m.guest_end_paddr ≤ 2 ^ 63
    → guest_addr < 2 ^ 64
    → size < 2 ^ 64
    → mem_size m ≡ m.guest_end_paddr - m.guest_start_paddr
    → oob m guest_addr size ≡ false
    → (m.guest_start_paddr ≤ guest_addr)
      × (guest_addr < m.guest_end_paddr)
      × (guest_addr + size ≤ m.guest_end_paddr)
unfolding oob
inside m guest_addr size order small ha hs sz h = ground arith

outside :
    (m : MemoryManager) (guest_addr size : ℕ)
    → m.guest_start_paddr ≤ m.guest_end_paddr
    → m.guest_end_paddr ≤ 2 ^ 63
    → guest_addr < 2 ^ 64
    → size < 2 ^ 64
    → mem_size m ≡ m.guest_end_paddr - m.guest_start_paddr
    → (m.guest_start_paddr ≤ guest_addr)
      × (guest_addr < m.guest_end_paddr)
      × (guest_addr + size ≤ m.guest_end_paddr)
    → oob m guest_addr size ≡ false
unfolding oob
outside m guest_addr size order small ha hs sz h = ground arith

-- On a memory in the lower half of the 64-bit addresses, `oob` lets an access of 64-bit operands through
-- exactly if it begins inside the memory and ends there, with no regard to 64 bits: no sum that
-- wraps round gets past it.
pub oob_lem :
    (m : MemoryManager) (guest_addr size : ℕ)
    → m.guest_start_paddr ≤ m.guest_end_paddr
    → m.guest_end_paddr ≤ 2 ^ 63
    → guest_addr < 2 ^ 64
    → size < 2 ^ 64
    → (oob m guest_addr size ≡ false) ↔ (
        (m.guest_start_paddr ≤ guest_addr)
        × (guest_addr < m.guest_end_paddr)
        × (guest_addr + size ≤ m.guest_end_paddr))
unfolding oob
oob_lem m guest_addr size order small ha hs =
    let sz : mem_size m ≡ m.guest_end_paddr - m.guest_start_paddr = omega arith in
    (inside m guest_addr size order small ha hs sz, outside m guest_addr size order small ha hs sz)

pub bytes_at_ext :
    (f : ℕ → ℕ) (at : ℕ) (bytes : List ℕ)
    → ((i : ℕ) → i < length bytes → f (at + i) ≡ get_or bytes i 0)
    → bytes_at f at (length bytes) ≡ bytes
bytes_at_ext f at [] same = refl
bytes_at_ext f at (b ∷ bytes) same =
    let here : f at ≡ b = ap f (omega arith) ∙ same 0 (omega arith) in
    let rest : bytes_at f (at + 1) (length bytes) ≡ bytes =
      bytes_at_ext f (at + 1) bytes (λ i small. ap f (omega arith) ∙ same (suc i) (omega arith)) in
    rw (here, rest) refl

pub with_bytes_at :
    (memory : ℕ → ℕ) (at : ℕ) (bytes : List ℕ) (i : ℕ)
    → i < length bytes
    → with_bytes memory at bytes (at + i) ≡ get_or bytes i 0
with_bytes_at memory at bytes i small =
    let same : get_or bytes (at + i - at) 0 ≡ get_or bytes i 0 =
      ap (λ (k : ℕ). get_or bytes k 0) (omega arith) in
    ground arith

-- A write to the guest's memory that is let through can be read back, byte for byte, by a read of as
-- many bytes from the same address, and changes no byte outside.
pub write-read :
    (m : MemoryManager) (guest_addr : ℕ) (bytes : List ℕ) (other : ℕ)
    → oob m guest_addr (length bytes) ≡ false
    → (other < host_addr m guest_addr) ⊎ (host_addr m guest_addr + length bytes ≤ other)
    → (m' : MemoryManager) × (write m guest_addr bytes ≡ some m')
      × (read m' guest_addr (length bytes) ≡ some bytes)
      × (m'.memory other ≡ m.memory other)
unfolding read write oob
write-read m guest_addr bytes other h apart = (
  record m { memory = with_bytes m.memory (host_addr m guest_addr) bytes },
  rw h refl,
  rw h (
      ap some (
        bytes_at_ext (with_bytes m.memory (host_addr m guest_addr) bytes) (host_addr m guest_addr)
          bytes (with_bytes_at m.memory (host_addr m guest_addr) bytes))),
  ground arith,
)

-- What is read are the bytes at the address.
pub read-bytes :
    (m : MemoryManager) (guest_addr size : ℕ) {bytes : List ℕ}
    → read m guest_addr size ≡ some bytes
    → bytes ≡ bytes_at m.memory (host_addr m guest_addr) size
unfolding read
read-bytes m guest_addr size e = elim (Bool-cases (oob m guest_addr size)) [
  | inl out ↦ absurd (ground arith)
  | inr within ↦ ground arith
]
