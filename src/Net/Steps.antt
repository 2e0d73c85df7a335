-- ===== src/Net/Steps.antt =====
-- The network device and its physical side do to the packet processor only what the steps of its
-- environment allow.
use mathlib.Core.Path.{fun_ext}
use dc2021f_ooows_public.Base.{
  ℕ, ◌+◌, ◌≡◌, refl, sym, ap, ◌⊎◌, Bool, true, false, List, [], ◌∷◌, ltb, leb, ◌==◌, ==_iff,
  if◌then◌else◌, length, take, drop, ◌*◌, Option, none, some, get_or, both_ways, not, inl, inr,
  Bool-cases,
}
use dc2021f_ooows_public.Broadcooom.Types.{FifoJob}
use dc2021f_ooows_public.Broadcooom.Engine.{Engine, registers_word, write_word}
use dc2021f_ooows_public.Broadcooom.Fields.{from_bytes, change_csr}
use dc2021f_ooows_public.Broadcooom.Jobs.{call}
use dc2021f_ooows_public.Broadcooom.Threads.{Step, Reach}
use dc2021f_ooows_public.Base.Bits.{test_bit}
use dc2021f_ooows_public.Net.Guest.{VirtBuf, read, moved}
use dc2021f_ooows_public.Net.Device.{
  NetDev, refused, max_mtu, ring_slot, pkt_slot, with_pkt, add_to_tx_ring_buf, switched, control,
  control_read, handle_control, packet_read, size_read, handle_tx,
}
use dc2021f_ooows_public.Net.Range.{device_of}
use dc2021f_ooows_public.Net.Phy.{incoming_packet, rx_get, max_ethernet_size, phy_handle_tx, tx_get}

write_word_back : (words : ℕ → ℕ) (at : ℕ) → write_word words at (words at) ≡ words
write_word_back words at = fun_ext (λ i. word i)
  where
    word : (i : ℕ) → write_word words at (words at) i ≡ words i
    word i = by_place (Bool-cases (i == at))
      where
        by_place :
            ((i == at) ≡ true) ⊎ ((i == at) ≡ false) → write_word words at (words at) i ≡ words i
        by_place (inl same) = rw same (ap words (sym ((==_iff i at).0 same)))
        by_place (inr other) = rw other refl

reach_rx :
    (start e : Engine) (queue : List FifoJob) (payload : List ℕ)
    → e.rx_queue ≡ queue
    → Reach start e
    → Reach start (rx_get e queue payload)
reach_rx start e [] payload h r = r
reach_rx start e (job ∷ rest) payload h r = Reach.next (Reach.next r (Step.take_rx job h)) (
    Step.finish job [] e.taken (length (drop 4 payload)) (with_pkt e.ram job.start (drop 4 payload))
      refl)

by_test :
    (start : Engine) (t : Bool) (x y : Engine)
    → Reach start x
    → Reach start y
    → Reach start (if t then x else y)
by_test start true x y p q = p
by_test start false x y p q = q

reach_tx :
    (nic : ℕ) (start e : Engine) (queue : List FifoJob)
    → e.tx_queue ≡ queue
    → Reach start e
    → Reach start (tx_get nic e queue).0
reach_tx nic start e [] h r = r
reach_tx nic start e (job ∷ rest) h r =
    coe 0 1
      (i. Reach start (
        call job.callback (record e {
          tx_queue = rest;
          object = write_word_back e.object (registers_word + job.size) i;
        })))
      (Reach.next (Reach.next r (Step.take_tx job h))
        (Step.finish job [] e.taken (e.object (registers_word + job.size)) e.ram refl))

-- From a state that the packet processor reaches, a packet that comes in and a round of the thread
-- that sends lead to states that it reaches by its own steps and those of its environment: what
-- holds of all reached states holds with the real threads at its sides.
pub phy-Reach :
    (nic : ℕ) (start e : Engine) (payload : List ℕ)
    → Reach start e
    → Reach start (incoming_packet nic e payload) × Reach start (phy_handle_tx nic e).0
unfolding incoming_packet phy_handle_tx
phy-Reach nic start e payload r = (
  by_test start (leb (length payload) 4) _ _ r (
      by_test start (ltb max_ethernet_size (length payload)) _ _ r (
        by_test start (from_bytes (take 4 payload) == nic) _ _ r
          (reach_rx start e e.rx_queue payload refl r))),
  reach_tx nic start e e.tx_queue refl r,
)

module _ (start : Engine) (d : NetDev) (r : Reach start d.engine) where
  words :
      (object ram : ℕ → ℕ) (mac : List ℕ)
      → Reach start (record d.engine { object = object; ram = ram; mac = mac })
  words object ram mac = Reach.next r (Step.write_words object ram mac)

  reach_packet :
      (size : ℕ) (o : Option (List ℕ)) → Reach start (device_of (packet_read d size o)).engine
  unfolding add_to_tx_ring_buf
  reach_packet size none = r
  reach_packet size (some bytes) =
      both_ways (λ o. Reach start (device_of o).engine)
        (test_bit (d.engine.object (ring_slot d)) 31) _ _
        (λ h. words d.engine.object (with_pkt d.engine.ram (pkt_slot d) bytes) d.engine.mac)
        λ h. words _ (with_pkt d.engine.ram (pkt_slot d) bytes) d.engine.mac

  reach_size :
      (v : VirtBuf) (o : Option (List ℕ)) → Reach start (device_of (size_read d v o)).engine
  reach_size v none = r
  reach_size v (some bytes) =
      let size = get_or bytes 0 0 + 256 * get_or bytes 1 0 in
      both_ways (λ o. Reach start (device_of o).engine) (ltb max_mtu size) (refused d)
        (packet_read d size (read d.mem (moved v 2).head size)) (λ h. r)
        λ h. reach_packet size (read d.mem (moved v 2).head size)

  -- A request to send is a step of the packet processor's environment, or none.
  pub handle_tx-Reach : (v : VirtBuf) → Reach start (device_of (handle_tx d v)).engine
  unfolding handle_tx
  handle_tx-Reach v = reach_size v (read d.mem v.head 2)

  switched-Reach : (feature mask : ℕ) (on : Bool) → Reach start (switched d feature mask on).engine
  unfolding change_csr
  switched-Reach feature mask on =
      both_ways (λ n. Reach start n.engine) (test_bit d.driver_features feature) _ d
        (λ h. words (change_csr d.engine on mask).object d.engine.ram d.engine.mac) λ h. r

  control-Reach : (kind : ℕ) (bytes : List ℕ) → Reach start (control d kind bytes).engine
  control-Reach kind bytes =
      let on = not (get_or bytes 0 0 == 0) in
      let P : NetDev → Type 0 = λ n. Reach start n.engine in
      both_ways P (kind == 0) _ _
        (λ h.
          both_ways P (test_bit d.driver_features 3) _ d
            (λ h. words d.engine.object d.engine.ram (take 6 bytes)) λ h. r)
        λ h.
          both_ways P (kind == 1) _ _ (λ h. switched-Reach 0 4 on)
            λ h.
              both_ways P (kind == 2) _ _ (λ h. switched-Reach 1 2 on)
                λ h.
                  both_ways P (kind == 3) _ _ (λ h. switched-Reach 2 1 on)
                    λ h.
                      both_ways P (kind == 4) _ _ (λ h. switched-Reach 4 8 on)
                        λ h. both_ways P (kind == 5) _ _ (λ h. switched-Reach 5 16 on) λ h. r

  read-Reach : (o : Option (List ℕ)) → Reach start (device_of (control_read d o)).engine
  read-Reach none = r
  read-Reach (some bytes) = control-Reach (get_or bytes 0 0) (drop 1 bytes)

  -- So is a control message.
  pub handle_control-Reach : (v : VirtBuf) → Reach start (device_of (handle_control d v)).engine
  unfolding handle_control
  handle_control-Reach v = read-Reach (read d.mem v.head 129)
