-- ===== src/Net/Range.antt =====
-- What a request to send can change.
use dc2021f_ooows_public.Base.{
  ℕ, ◌+◌, ◌*◌, ◌≤◌, ◌<◌, ◌≡◌, refl, ◌⊎◌, true, false, ◌&&◌, Option, none, some, List, ltb, leb,
  ◌==◌, ◌/◌, if◌then◌else◌, get_or, arith, length, both_ways,
}
use dc2021f_ooows_public.Base.Bits.{test_bit}
use dc2021f_ooows_public.Broadcooom.Engine.{write_word}
use dc2021f_ooows_public.Net.Guest.{MemoryManager, VirtBuf, bytes_at, host_addr, oob, read, moved}
use dc2021f_ooows_public.Virtio.Numbers.{length-bytes_at}
use dc2021f_ooows_public.Net.Device.{
  NetDev, Outcome, refused, served, max_mtu, ring_slot, ring_entry, pkt_slot, pkt_words, with_pkt,
  new_pkt, with_entry, add_to_tx_ring_buf, packet_read, size_read, handle_tx,
}

abbrev pub device_of : Outcome → NetDev
device_of (refused d) = d
device_of (served d) = d

-- Both indices are below the lengths of their rings.
pub record IsInRange (d : NetDev) : Type 0 where
  pub ring : d.tx_ring_buf_idx < 16
  pub pool : d.ram_pool_idx < 256

abbrev HasLength : ℕ → Option (List ℕ) → Type 0
HasLength size none = Unit
HasLength size (some bytes) = length bytes ≡ size

read-HasLength : (m : MemoryManager) (at size : ℕ) → HasLength size (read m at size)
unfolding read
read-HasLength m at size =
    both_ways (HasLength size) (oob m at size) none (some (bytes_at m.memory (host_addr m at) size))
      (λ h. tt) λ h. length-bytes_at m.memory (host_addr m at) size

-- The indices stay in range, and two given words are as they were.
abbrev pub Kept : NetDev → (i j : ℕ) → NetDev → Type 0
Kept d i j d' =
    IsInRange d' × (d'.engine.object i ≡ d.engine.object i) × (d'.engine.ram j ≡ d.engine.ram j)

module _ (d : NetDev) (i j : ℕ) (range : IsInRange d) (out_ring : (i < 2) ⊎ (34 ≤ i))
    (out_pool : (j < 0x24000) ⊎ (0x3bc00 ≤ j)) where
  new_pkt-Kept : Kept d i j (new_pkt d)
  new_pkt-Kept = (record { ring = range.ring; pool = omega arith }, refl, refl)

  pool_same :
      (bytes : List ℕ)
      → length bytes ≤ max_mtu
      → with_pkt d.engine.ram (pkt_slot d) bytes j ≡ d.engine.ram j
  pool_same bytes short =
      let outside : (leb (pkt_slot d) j && ltb j (pkt_slot d + (length bytes + 3) / 4)) ≡ false =
        outside_slot (d.ram_pool_idx) ((length bytes + 3) / 4) range.pool (omega arith) in
      rw outside refl
    where
      outside_slot :
          (idx words : ℕ)
          → idx < 256
          → words ≤ pkt_words
          → (leb (0x24000 + idx * pkt_words) j && ltb j (0x24000 + idx * pkt_words + words)) ≡ false
      outside_slot idx words small few = ground arith

  ring_same :
      (a b : ℕ)
      → write_word (write_word d.engine.object (ring_slot d + 1) a) (ring_slot d) b i
        ≡ d.engine.object i
  ring_same a b =
      let other : (i == ring_slot d) ≡ false = outside_ring d.tx_ring_buf_idx range.ring in
      let other' : (i == ring_slot d + 1) ≡ false = outside_ring' d.tx_ring_buf_idx range.ring in
      rw (other, other') refl
    where
      outside_ring : (idx : ℕ) → idx < 16 → (i == 2 + idx * 2) ≡ false
      outside_ring idx small = ground arith

      outside_ring' : (idx : ℕ) → idx < 16 → (i == 2 + idx * 2 + 1) ≡ false
      outside_ring' idx small = ground arith

  packet_read-Kept :
      (size : ℕ) (o : Option (List ℕ))
      → HasLength size o
      → size ≤ max_mtu
      → Kept d i j (device_of (packet_read d size o))
  unfolding add_to_tx_ring_buf
  packet_read-Kept size none same short = new_pkt-Kept
  packet_read-Kept size (some bytes) same short =
      elim (test_bit (d.engine.object (ring_slot d)) 31)
        as (λ t. Kept d i j (
          device_of (
            if t
            then refused (record (new_pkt d) {
              engine = record d.engine { ram = with_pkt d.engine.ram (pkt_slot d) bytes };
            })
            else served (
                with_entry
                  (record (new_pkt d) {
                    engine = record d.engine { ram = with_pkt d.engine.ram (pkt_slot d) bytes };
                  })
                  size (pkt_slot d))))) [
                    | true ↦ (
                      record { ring = range.ring; pool = omega arith },
                      refl,
                      pool_same bytes (omega arith),
                    )
                    | false ↦ (
                      record { ring = omega arith; pool = omega arith },
                      ring_same (pkt_slot d) (ring_entry size),
                      pool_same bytes (omega arith),
                    )
                  ]

  size_read-Kept : (v : VirtBuf) (o : Option (List ℕ)) → Kept d i j (device_of (size_read d v o))
  size_read-Kept v none = (range, refl, refl)
  size_read-Kept v (some header) =
      let size = get_or header 0 0 + 256 * get_or header 1 0 in
      both_ways (λ o. Kept d i j (device_of o)) (ltb max_mtu size) (refused d)
        (packet_read d size (read d.mem (moved v 2).head size)) (λ h. (range, refl, refl))
        λ h.
          packet_read-Kept size (read d.mem (moved v 2).head size)
            (read-HasLength d.mem (moved v 2).head size) (ground arith)

-- Whatever the guest puts into a request to send, the two indices stay below the lengths of their
-- rings, of the scratch memory and the packet processor's other words only the ring's words 2 to 33
-- change, and of the RAM only the pool's words.
pub handle_tx-Kept :
    (d : NetDev) (v : VirtBuf) (i j : ℕ)
    → IsInRange d
    → (i < 2) ⊎ (34 ≤ i)
    → (j < 0x24000) ⊎ (0x3bc00 ≤ j)
    → Kept d i j (device_of (handle_tx d v))
unfolding handle_tx
handle_tx-Kept d v i j range out_ring out_pool =
    size_read-Kept d i j range out_ring out_pool v (read d.mem v.head 2)
