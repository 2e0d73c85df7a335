-- ===== src/Net/Tests.antt =====
-- The theorems on the network device at a concrete one.
use dc2021f_ooows_public.Base.{
  ℕ, ◌+◌, ◌%◌, ◌^◌, ◌≤◌, ◌<◌, ◌≡◌, ◌↔◌, inl, inr, refl, false, some, List, [], ◌∷◌, ◌==◌,
  if◌then◌else◌, arith,
}
use dc2021f_ooows_public.Base.Bits.{test_bit}
use dc2021f_ooows_public.Broadcooom.Types.{FifoJob}
use dc2021f_ooows_public.Broadcooom.Engine.{Engine, constructed}
use dc2021f_ooows_public.Broadcooom.Threads.{Reach}
use dc2021f_ooows_public.Net.Guest.{MemoryManager, VirtBuf, oob, read}
use dc2021f_ooows_public.Net.Access.{oob_lem}
use dc2021f_ooows_public.Net.Device.{NetDev, served, ring_slot, pkt_slot, packet_bytes, handle_tx}
use dc2021f_ooows_public.Net.Send.{handle_tx-served}
use dc2021f_ooows_public.Net.Range.{Kept, device_of, handle_tx-Kept}
use dc2021f_ooows_public.Net.Phy.{incoming_packet, phy_handle_tx}
use dc2021f_ooows_public.Net.Steps.{phy-Reach}

-- A page of the guest that begins with a packet of 3 bytes behind its size.
abbrev page : MemoryManager
page = record {
  guest_start_paddr = 0x1000;
  guest_end_paddr = 0x2000;
  memory = λ i. if i == 0 then 3 else if i == 1 then 0 else i % 256;
}

oob_lem_example :
    (oob page 0x1ff0 16 ≡ false) ↔ ((0x1000 ≤ 0x1ff0) × (0x1ff0 < 0x2000) × (0x1ff0 + 16 ≤ 0x2000))
oob_lem_example = oob_lem page 0x1ff0 16 (omega arith) (omega arith) (omega arith) (omega arith)

abbrev engine : Engine
engine = constructed (λ i. 0) 5 0 (λ i. 0)

abbrev device : NetDev
device = record {
  mem = page;
  engine = engine;
  tx_ring_buf_idx = 15;
  ram_pool_idx = 255;
  driver_features = 0;
  config_space = [];
}

abbrev request : VirtBuf
request = record { head = 0x1000; len = 0x800 }

abbrev header : List ℕ
header = 3 ∷ (0 ∷ [])

abbrev packet : List ℕ
packet = 2 ∷ (3 ∷ (4 ∷ []))

header_there : read page 0x1000 2 ≡ some header
unfolding read oob
header_there = refl

packet_there : read page 0x1002 3 ≡ some packet
unfolding read oob
packet_there = refl

entry_free : test_bit (engine.object (ring_slot device)) 31 ≡ false
unfolding test_bit
entry_free = refl

page_bytes : (k : ℕ) → page.memory k < 256
page_bytes k = ground arith

handle_tx-served_example :
    (d' : NetDev) × (handle_tx device request ≡ served d')
    × (d'.engine.object (ring_slot device) ≡ 3 + 2 ^ 31)
    × (d'.engine.object (ring_slot device + 1) ≡ pkt_slot device)
    × (packet_bytes d'.engine.ram (pkt_slot device) 0 3 ≡ packet)
    × (d'.engine.object 2 ≡ engine.object 2)
    × (d'.engine.ram 0 ≡ engine.ram 0)
    × (d'.tx_ring_buf_idx ≡ (15 + 1) % 16)
    × (d'.ram_pool_idx ≡ (255 + 1) % 256)
handle_tx-served_example =
    handle_tx-served device request 3 header packet header_there refl (omega arith) packet_there 2 0
      page_bytes entry_free (λ h. absurd (omega arith)) (λ h. absurd (omega arith))
      (inl (omega arith))

handle_tx-Kept_example : Kept device 34 0 (device_of (handle_tx device request))
handle_tx-Kept_example =
    handle_tx-Kept device request 34 0 (record { ring = omega arith; pool = omega arith })
      (inr (omega arith)) (inl (omega arith))

-- A thread that waits for its packet to be passed to the guest.
abbrev job : FifoJob
job = record { size = 0; start = 0; callback = some 1 }

abbrev listening : Engine
listening = record engine { rx_queue = job ∷ [] }

phy-Reach_example :
    Reach listening (incoming_packet 7 listening (9 ∷ (0 ∷ (0 ∷ (0 ∷ (1 ∷ []))))))
    × Reach listening (phy_handle_tx 7 listening).0
phy-Reach_example = phy-Reach 7 listening listening (9 ∷ (0 ∷ (0 ∷ (0 ∷ (1 ∷ []))))) Reach.here
