-- ===== src/Net/Send.antt =====
-- What becomes of a packet that the guest sends.
use Prim.Native.Nat.{bit_and}
use mathlib.Core.Path.{subst}
use dc2021f_ooows_public.Base.{
  ℕ, zero, suc, ◌+◌, ◌-◌, ◌*◌, ◌/◌, ◌%◌, ◌^◌, ◌&&◌, ◌≤◌, ◌<◌, ◌≡◌, ◌≢◌, ◌⊎◌, inl, inr, refl, sym,
  ap, ◌∙◌, true, false, some, List, [], ◌∷◌, ltb, leb, get_or, arith, length, drop,
}
use dc2021f_ooows_public.Base.Bits.{test_bit, and-mask, set_bit-add}
use dc2021f_ooows_public.Broadcooom.Engine.{write_word}
use dc2021f_ooows_public.Net.Guest.{VirtBuf, bytes_at, host_addr, read, moved}
use dc2021f_ooows_public.Net.Access.{read-bytes}
use dc2021f_ooows_public.Virtio.Numbers.{AreBytes, bytes_at-AreBytes, length-bytes_at}
use dc2021f_ooows_public.Net.Device.{
  NetDev, refused, served, max_mtu, ring_slot, ring_entry, pkt_slot, byte, pkt_byte, with_pkt,
  new_pkt, with_entry, add_to_tx_ring_buf, packet_bytes, handle_tx,
}

write_word_self : (words : ℕ → ℕ) (at v : ℕ) → write_word words at v at ≡ v
write_word_self words at v = ground arith

write_word_ne : (words : ℕ → ℕ) (at v i : ℕ) → i ≢ at → write_word words at v i ≡ words i
write_word_ne words at v i h = ground arith

-- The ring's entry is the size with the bit 31.
ring_entry-add : (size : ℕ) → size ≤ max_mtu → ring_entry size ≡ size + 2 ^ 31
ring_entry-add size fits =
    let low : bit_and size 0xFFFFFF ≡ size = and-mask 24 size (omega arith) in
    rw low (set_bit-add 31 size (omega arith))

-- The byte `k` of four.
byte-at :
    (f : ℕ → ℕ) (k : ℕ)
    → ((k : ℕ) → f k < 256)
    → k < 4
    → byte (f 0 + 256 * f 1 + 256 ^ 2 * f 2 + 256 ^ 3 * f 3) k ≡ f k
byte-at f zero small low = omega (arith, small 0, small 1, small 2, small 3)
byte-at f (suc zero) small low = omega (arith, small 0, small 1, small 2, small 3)
byte-at f (suc (suc zero)) small low = omega (arith, small 0, small 1, small 2, small 3)
byte-at f (suc (suc (suc zero))) small low = omega (arith, small 0, small 1, small 2, small 3)
byte-at f (suc (suc (suc (suc k)))) small low = absurd (omega arith)

get_or-bounded : (bs : List ℕ) (k d : ℕ) → AreBytes bs → d < 256 → get_or bs k d < 256
get_or-bounded [] k d all low = low
get_or-bounded (b ∷ bs) zero d (small, all) low = small
get_or-bounded (b ∷ bs) (suc k) d (small, all) low = get_or-bounded bs k d all low

get_or-inside : (bs : List ℕ) (k d : ℕ) → k < length bs → get_or bs k d ≡ get_or bs k 0
get_or-inside [] k d h = absurd (omega arith)
get_or-inside (b ∷ bs) zero d h = refl
get_or-inside (b ∷ bs) (suc k) d h = get_or-inside bs k d (omega arith)

drop_all : (bs : List ℕ) (k : ℕ) → length bs ≤ k → drop k bs ≡ []
drop_all [] zero h = refl
drop_all [] (suc k) h = refl
drop_all (b ∷ bs) zero h = absurd (omega arith)
drop_all (b ∷ bs) (suc k) h = drop_all bs k (omega arith)

drop_head : (bs : List ℕ) (k : ℕ) → k < length bs → drop k bs ≡ get_or bs k 0 ∷ drop (suc k) bs
drop_head [] k h = absurd (omega arith)
drop_head (b ∷ bs) zero h = refl
drop_head (b ∷ bs) (suc k) h = drop_head bs k (omega arith)

module _ (ram : ℕ → ℕ) (at : ℕ) (bytes : List ℕ) where
  -- The words beside a packet stay.
  with_pkt_outside :
      (j : ℕ) → (j < at) ⊎ (at + (length bytes + 3) / 4 ≤ j) → with_pkt ram at bytes j ≡ ram j
  with_pkt_outside j side =
      let no : (leb at j && ltb j (at + (length bytes + 3) / 4)) ≡ false =
        by_words ((length bytes + 3) / 4) side in
      rw no refl
    where
      by_words :
          (words : ℕ) → (j < at) ⊎ (at + words ≤ j) → (leb at j && ltb j (at + words)) ≡ false
      by_words words (inl h) = ground arith
      by_words words (inr h) = ground arith

  module _ (all : AreBytes bytes) where
    -- Every byte of a packet is found where it was put.
    with_pkt-at :
        (k : ℕ)
        → k < length bytes
        → byte (with_pkt ram at bytes (at + k / 4)) (k % 4) ≡ get_or bytes k 0
    with_pkt-at k h =
        let i = at + k / 4 in
        let yes : (leb at i && ltb i (at + (length bytes + 3) / 4)) ≡ true =
          by_words (k / 4) ((length bytes + 3) / 4) (omega arith) in
        let index : 4 * (at + k / 4 - at) + k % 4 ≡ k = omega arith in
        rw yes (
          byte-at (pkt_byte ram at bytes i) (k % 4)
            (λ j. get_or-bounded bytes (4 * (i - at) + j) (byte (ram i) j) all (omega arith))
            (omega arith)
          ∙ ap (λ t. get_or bytes t (byte (ram i) (k % 4))) index
          ∙ get_or-inside bytes k (byte (ram i) (k % 4)) h)
      where
        by_words : (w words : ℕ) → w < words → (leb at (at + w) && ltb (at + w) (at + words)) ≡ true
        by_words w words h = ground arith

    packet_bytes-drop :
        (k n : ℕ)
        → k + n ≡ length bytes
        → packet_bytes (with_pkt ram at bytes) at k n ≡ drop k bytes
    packet_bytes-drop k zero h = sym (drop_all bytes k (omega arith))
    packet_bytes-drop k (suc n) h =
        let next : suc k ≡ k + 1 = omega arith in
        (λ i. with_pkt-at k (omega arith) i ∷ packet_bytes-drop (k + 1) n (omega arith) i)
        ∙ sym (drop_head bytes k (omega arith) ∙ ap (λ t. get_or bytes k 0 ∷ drop t bytes) next)

-- A message whose size word and bytes can be read.
module _ (d : NetDev) (v : VirtBuf) (size : ℕ) (header bytes : List ℕ)
    (header_read : read d.mem v.head 2 ≡ some header)
    (header_size : get_or header 0 0 + 256 * get_or header 1 0 ≡ size) (fits : size ≤ max_mtu)
    (bytes_read : read d.mem (moved v 2).head size ≡ some bytes) where
  -- The device when the packet has been copied to its slot.
  abbrev pub copied : NetDev
  copied = record (new_pkt d) {
    engine = record d.engine { ram = with_pkt d.engine.ram (pkt_slot d) bytes };
  }

  handle_tx_step : handle_tx d v ≡ add_to_tx_ring_buf copied size (pkt_slot d)
  unfolding handle_tx
  handle_tx_step =
      let small : ltb max_mtu size ≡ false = ground arith in
      rw (header_read, header_size, bytes_read, small) refl

  -- A packet of at most 1518 bytes that the guest's memory holds is sent when the next entry of the
  -- ring is free. The entry's two words are then the packet's size with the bit 31 for "in use" and
  -- the number of the packet's slot, the RAM holds the packet from the slot on, byte for byte, no
  -- other word of the object has changed and no word of the RAM outside the slot, and the ring and
  -- the pool have moved on by one, round their ends.
  pub handle_tx-served :
      (i j : ℕ)
      → ((k : ℕ) → d.mem.memory k < 256)
      → test_bit (d.engine.object (ring_slot d)) 31 ≡ false
      → i ≢ ring_slot d
      → i ≢ ring_slot d + 1
      → (j < pkt_slot d) ⊎ (pkt_slot d + 380 ≤ j)
      → (d' : NetDev) × (handle_tx d v ≡ served d')
        × (d'.engine.object (ring_slot d) ≡ size + 2 ^ 31)
        × (d'.engine.object (ring_slot d + 1) ≡ pkt_slot d)
        × (packet_bytes d'.engine.ram (pkt_slot d) 0 size ≡ bytes)
        × (d'.engine.object i ≡ d.engine.object i)
        × (d'.engine.ram j ≡ d.engine.ram j)
        × (d'.tx_ring_buf_idx ≡ (d.tx_ring_buf_idx + 1) % 16)
        × (d'.ram_pool_idx ≡ (d.ram_pool_idx + 1) % 256)
  unfolding add_to_tx_ring_buf
  handle_tx-served i j small free other other' outside = (
    with_entry copied size (pkt_slot d),
    handle_tx_step ∙ rw free refl,
    write_word_self (write_word d.engine.object (ring_slot d + 1) (pkt_slot d)) (ring_slot d)
          (ring_entry size)
        ∙ ring_entry-add size fits,
    write_word_ne (write_word d.engine.object (ring_slot d + 1) (pkt_slot d)) (ring_slot d)
          (ring_entry size) (ring_slot d + 1) (λ h. absurd (omega arith))
        ∙ write_word_self d.engine.object (ring_slot d + 1) (pkt_slot d),
    packet_bytes-drop d.engine.ram (pkt_slot d) bytes all 0 size (omega (arith, long)),
    write_word_ne (write_word d.engine.object (ring_slot d + 1) (pkt_slot d)) (ring_slot d)
          (ring_entry size) i other
        ∙ write_word_ne d.engine.object (ring_slot d + 1) (pkt_slot d) i other',
    with_pkt_outside d.engine.ram (pkt_slot d) bytes j (by_side outside),
    refl,
    refl,
  )
    where
      at : bytes ≡ bytes_at d.mem.memory (host_addr d.mem (moved v 2).head) size
      at = read-bytes d.mem (moved v 2).head size bytes_read

      long : length bytes ≡ size
      long = ap length at ∙ length-bytes_at d.mem.memory (host_addr d.mem (moved v 2).head) size

      all : AreBytes bytes
      all =
          subst AreBytes (sym at)
            (bytes_at-AreBytes d.mem.memory (host_addr d.mem (moved v 2).head) size small)

      by_side :
          (j < pkt_slot d) ⊎ (pkt_slot d + 380 ≤ j)
          → (j < pkt_slot d) ⊎ (pkt_slot d + (length bytes + 3) / 4 ≤ j)
      by_side (inl before) = inl before
      by_side (inr behind) = inr (omega (arith, long, fits, behind))

  -- When the next entry of the ring is in use the packet is refused, but it has been copied over the
  -- next slot of the pool before, and the pool has moved on: as the pool has 256 slots, refused
  -- packets come round to the slots of packets that wait in the ring.
  pub handle_tx-refused :
      test_bit (d.engine.object (ring_slot d)) 31 ≡ true
      → (d' : NetDev) × (handle_tx d v ≡ refused d')
        × (d'.engine.ram ≡ with_pkt d.engine.ram (pkt_slot d) bytes)
        × (d'.engine.object ≡ d.engine.object)
        × (d'.ram_pool_idx ≡ (d.ram_pool_idx + 1) % 256)
  unfolding add_to_tx_ring_buf
  handle_tx-refused full = (copied, handle_tx_step ∙ rw full refl, refl, refl, refl)
