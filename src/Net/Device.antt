-- ===== src/Net/Device.antt =====
-- Requests to the network device: `handleTx`, `handleRx` and `handleControl` of
-- devices/ooows-net.cpp. They share the words of the packet processor's scratch memory and RAM.
use Prim.Native.Nat.{bit_and}
use dc2021f_ooows_public.Base.{
  ℕ, zero, suc, ◌+◌, ◌-◌, ◌*◌, ◌/◌, ◌%◌, ◌^◌, Bool, not, ◌&&◌, Option, none, some, List, [], ◌∷◌,
  ltb, leb, ◌==◌, if◌then◌else◌, get_or, length, take, drop,
}
use dc2021f_ooows_public.Base.Bits.{test_bit, set_bit}
use dc2021f_ooows_public.Broadcooom.Types.{FifoJob}
use dc2021f_ooows_public.Broadcooom.Engine.{Engine, registers_word, ram_words, write_word}
use dc2021f_ooows_public.Broadcooom.Fields.{change_csr, set_mac_address}
use dc2021f_ooows_public.Broadcooom.Jobs.{call}
use dc2021f_ooows_public.Net.Guest.{MemoryManager, VirtBuf, read, write, moved}

-- The members of `NetDev`. The `m_microengine`'s words are `m_scratch` (its words from 0) and
-- `m_ram`, and its queue `m_pkt_in_queue` is the device's.
pub record NetDev : Type 0 where
  pub mem : MemoryManager
  pub engine : Engine
  pub tx_ring_buf_idx : ℕ
  pub ram_pool_idx : ℕ
  pub driver_features : ℕ
  pub config_space : List ℕ

abbrev pub scratch_tx_ring_buf : ℕ
scratch_tx_ring_buf = 2

abbrev pub scratch_tx_ring_buf_size : ℕ
scratch_tx_ring_buf_size = 16

abbrev pub max_mtu : ℕ
max_mtu = 1518

abbrev pub ram_buf_pool : ℕ
ram_buf_pool = 0x24000

abbrev pub ram_buf_pool_size : ℕ
ram_buf_pool_size = 256

-- The words of a `ram_buf_pool` and of a `packet_ring_buf`.
abbrev pub pkt_words : ℕ
pkt_words = 380

abbrev pub ring_words : ℕ
ring_words = 2

-- What a request comes to: `refused` is a negative result. `ret`, which is returned otherwise, is
-- never set, and `got_data` looks at neither.
pub data Outcome : Type 0 where
  refused : NetDev → Outcome
  served : NetDev → Outcome

-- `new_pkt`: the slot of the pool that is next, and the pool's index moves on.
abbrev pub pkt_slot : NetDev → ℕ
pkt_slot d = ram_buf_pool + d.ram_pool_idx * pkt_words

abbrev pub new_pkt : NetDev → NetDev
new_pkt d = record d { ram_pool_idx = (d.ram_pool_idx + 1) % ram_buf_pool_size }

-- The word of the ring's next entry.
abbrev pub ring_slot : NetDev → ℕ
ring_slot d = scratch_tx_ring_buf + d.tx_ring_buf_idx * ring_words

-- All bytes are copied to the words of the RAM from `at` on, however many they are: those of a last
-- word that they do not fill stay.
abbrev pub byte : ℕ → ℕ → ℕ
byte word j = word / 256 ^ j % 256

abbrev pub pkt_byte : (ram : ℕ → ℕ) → (at : ℕ) → List ℕ → (i j : ℕ) → ℕ
pkt_byte ram at bytes i j = get_or bytes (4 * (i - at) + j) (byte (ram i) j)

abbrev pub with_pkt : (ram : ℕ → ℕ) → (at : ℕ) → List ℕ → ℕ → ℕ
with_pkt ram at bytes i =
    if leb at i && ltb i (at + (length bytes + 3) / 4)
    then pkt_byte ram at bytes i 0
      + 256 * pkt_byte ram at bytes i 1
      + 256 ^ 2 * pkt_byte ram at bytes i 2
      + 256 ^ 3 * pkt_byte ram at bytes i 3
    else ram i

-- `add_to_tx_ring_buf`; `IN_USE_MASK` is the bit 31.
abbrev pub ring_entry : ℕ → ℕ
ring_entry size = set_bit (bit_and size 0xFFFFFF) 31

abbrev pub with_entry : NetDev → (size pkt_idx : ℕ) → NetDev
with_entry d size pkt_idx =
    let idx = ring_slot d in
    record d {
      engine = record d.engine {
        object = write_word (write_word d.engine.object (idx + 1) pkt_idx) idx (ring_entry size);
      };
      tx_ring_buf_idx = (d.tx_ring_buf_idx + 1) % scratch_tx_ring_buf_size;
    }

unfoldable pub add_to_tx_ring_buf : NetDev → (size pkt_idx : ℕ) → Outcome
add_to_tx_ring_buf d size pkt_idx =
    if test_bit (d.engine.object (ring_slot d)) 31
    then refused d
    else served (with_entry d size pkt_idx)

-- `handleTx`, in the order of its reads: the message's size, a slot for the packet, the packet.
abbrev pub packet_read : NetDev → (size : ℕ) → Option (List ℕ) → Outcome
packet_read d size none = refused (new_pkt d)
packet_read d size (some bytes) =
    add_to_tx_ring_buf
      (record (new_pkt d) {
        engine = record d.engine { ram = with_pkt d.engine.ram (pkt_slot d) bytes };
      })
      size (pkt_slot d)

abbrev pub size_read : NetDev → VirtBuf → Option (List ℕ) → Outcome
size_read d v none = refused d
size_read d v (some bytes) =
    let size = get_or bytes 0 0 + 256 * get_or bytes 1 0 in
    if ltb max_mtu size then refused d else packet_read d size (read d.mem (moved v 2).head size)

unfoldable pub handle_tx : NetDev → VirtBuf → Outcome
unfolding add_to_tx_ring_buf
handle_tx d v = size_read d v (read d.mem v.head 2)

-- What a request to receive comes to: without a job in the queue it waits, and `overrun` is a copy of
-- words that lie behind the RAM, which is undefined.
pub data RxResult : Type 0 where
  waits : RxResult
  overrun : RxResult
  done : Outcome → RxResult

-- `handleRx`. The job gives a register, whose low 16 bits are the size, and the words where the packet
-- begins.
abbrev pub packet_size : Engine → FifoJob → ℕ
packet_size e job = e.object (registers_word + job.size) % 2 ^ 16

abbrev pub packet_bytes : (ℕ → ℕ) → (start k size : ℕ) → List ℕ
packet_bytes ram start k zero = []
packet_bytes ram start k (suc size) =
    byte (ram (start + k / 4)) (k % 4) ∷ packet_bytes ram start (k + 1) size

abbrev pub data_written : NetDev → FifoJob → Option MemoryManager → RxResult
data_written d job none = done (refused d)
data_written d job (some mem) =
    if ltb (4 * ram_words) (4 * job.start + packet_size d.engine job)
    then overrun
    else done (served (record d { mem = mem; engine = call job.callback d.engine }))

abbrev pub size_written : NetDev → VirtBuf → FifoJob → Option MemoryManager → RxResult
size_written d v job none = done (refused d)
size_written d v job (some mem) =
    let size = packet_size d.engine job in
    let bytes = packet_bytes d.engine.ram job.start 0 size in
    data_written (record d { mem = mem }) job (write mem (moved v 2).head bytes)

abbrev pub took : NetDev → List FifoJob → NetDev
took d rest = record d { engine = record d.engine { pkt_in_queue = rest } }

abbrev pub rx_job : NetDev → VirtBuf → List FifoJob → RxResult
rx_job d v [] = waits
rx_job d v (job ∷ rest) =
    let size = packet_size d.engine job in
    size_written (took d rest) v job (write d.mem v.head (size % 256 ∷ (size / 256 ∷ [])))

unfoldable pub handle_rx : NetDev → VirtBuf → RxResult
handle_rx d v =
    if ltb v.len (max_mtu + 2) then done (refused d) else rx_job d v d.engine.pkt_in_queue

-- `handleControl`: a switch is set if the driver has negotiated its feature, the bit `feature`.
abbrev pub switched : NetDev → (feature mask : ℕ) → Bool → NetDev
switched d feature mask on =
    if test_bit d.driver_features feature
    then record d { engine = change_csr d.engine on mask }
    else d

abbrev pub mac_changed : NetDev → List ℕ → NetDev
mac_changed d mac =
    if test_bit d.driver_features 3
    then record d { config_space = mac; engine = set_mac_address d.engine mac }
    else d

abbrev pub control : NetDev → (kind : ℕ) → List ℕ → NetDev
control d kind bytes =
    let on = not (get_or bytes 0 0 == 0) in
    if kind == 0
    then mac_changed d (take 6 bytes)
    else if kind == 1
    then switched d 0 4 on
    else if kind == 2
    then switched d 1 2 on
    else if kind == 3
    then switched d 2 1 on
    else if kind == 4
    then switched d 4 8 on
    else if kind == 5
    then switched d 5 16 on
    else d

abbrev pub control_read : NetDev → Option (List ℕ) → Outcome
control_read d none = refused d
control_read d (some bytes) = served (control d (get_or bytes 0 0) (drop 1 bytes))

unfoldable pub handle_control : NetDev → VirtBuf → Outcome
unfolding change_csr
handle_control d v = control_read d (read d.mem v.head 129)
