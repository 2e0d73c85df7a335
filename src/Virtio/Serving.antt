-- ===== src/Virtio/Serving.antt =====
-- A device under any sequence of its driver's accesses.
use dc2021f_ooows_public.Base.{
  ℕ, ◌+◌, ◌-◌, ◌%◌, ◌^◌, ◌≤◌, ◌<◌, ◌≡◌, ◌≢◌, inl, inr, refl, true, false, Bool, none, some, Option,
  List, [], ◌∷◌, ◌==◌, ltb, if◌then◌else◌, arith, both_ways,
}
use dc2021f_ooows_public.Dispatch.{IoRequest, pio, mmio}
use dc2021f_ooows_public.Virtio.{VirtQueue, VirtioDev, with_vq, config_space_max, max_vq_size}
use dc2021f_ooows_public.Virtio.Registers.{
  in_config_space, leaves_config, config_space_write, mmio_read,
}
use dc2021f_ooows_public.Virtio.Queue.{ready_queue}
use dc2021f_ooows_public.Virtio.Mmio.{
  Overrides, num_set, readied, write_register, mmio_write, wrote, has_read, handle_mmio, answered,
  proceed, io_loop,
}
use dc2021f_ooows_public.Virtio.Valid.{
  IsMemory, IsQueue, IsValid, parts-IsQueue, QueueKept, ready_queue-Kept, with_vq-IsValid,
}
use dc2021f_ooows_public.Virtio.Reading.{
  IsRouted, AreRouted, DeviceKept, AnswerKept, LoopKept, IsSome, KeepsValid, stays, selected-some,
  at_selected-Kept, mmio_read-IsSome,
}

module _ {S : Type 0} (d : VirtioDev S) (v : IsValid d) where
  remade :
      (d' : VirtioDev S)
      → IsMemory d'.mem
      → d'.queue_sel < d'.num_queues
      → d'.config_space_size ≤ config_space_max
      → ((i : ℕ) → IsQueue d'.mem (d'.vqs i))
      → DeviceKept d'.mmio_start (some d')
  remade d' memory sel size queues =
      (record { memory = memory; sel = sel; size = size; queues = queues }, refl)

  selected-Kept :
      (value : ℕ)
      → DeviceKept d.mmio_start
          (some (if ltb value d.num_queues then record d { queue_sel = value } else d))
  selected-Kept value =
      both_ways (λ d'. DeviceKept d.mmio_start (some d')) (ltb value d.num_queues)
        (record d { queue_sel = value }) d (λ h. remade _ v.memory (ground arith) v.size v.queues)
        λ h. (v, refl)

  module _ (dev : Overrides S) (keeps : KeepsValid dev) where
    readied-Kept :
        (o : Option VirtQueue) → QueueKept d.mem o → DeviceKept d.mmio_start (readied dev d o)
    readied-Kept none w = (v, refl)
    readied-Kept (some q) (w, is) =
        keeps.keeps_data (with_vq d d.queue_sel q) (d.queue_sel % 2 ^ 16)
          (with_vq-IsValid d d.queue_sel q v w)

    num_set-IsQueue :
        (value : ℕ) (q : VirtQueue)
        → IsQueue d.mem q
        → ltb value max_vq_size ≡ true
        → IsQueue d.mem (num_set value q)
    num_set-IsQueue value q w small =
        both_ways (IsQueue d.mem) q.ready q (record q { num_bufs = value }) (λ h. w)
          λ h. record {
            num = ground arith;
            tail = w.tail;
            desc_low = w.desc_low;
            desc_high = w.desc_high;
            driver_low = w.driver_low;
            driver_high = w.driver_high;
            device_low = w.device_low;
            device_high = w.device_high;
            areas = λ is. absurd (ground arith);
          }

    write_register-Kept :
        (offset value : ℕ) → DeviceKept d.mmio_start (write_register dev d offset value)
    unfolding write_register
    write_register-Kept offset value =
        let P : Option (VirtioDev S) → Type 0 = DeviceKept d.mmio_start in
        let q = d.vqs d.queue_sel in
        let w = v.queues d.queue_sel in
        both_ways P (offset == 0x14) _ _ (λ h. remade _ v.memory v.sel v.size v.queues)
          λ h.
            both_ways P (offset == 0x20) _ _ (λ h. remade _ v.memory v.sel v.size v.queues)
              λ h.
                both_ways P (offset == 0x24) _ _ (λ h. remade _ v.memory v.sel v.size v.queues)
                  λ h.
                    both_ways P (offset == 0x30) _ _ (λ h. selected-Kept value)
                      λ h.
                        both_ways P (offset == 0x38) _ _
                          (λ h.
                            both_ways P (ltb value max_vq_size) _ _
                              (λ small.
                                at_selected-Kept d v (num_set value)
                                  (num_set-IsQueue value q w small))
                              λ big. (v, refl))
                          λ h.
                            both_ways P (offset == 0x44) _ _
                              (λ h.
                                both_ways P (value == 0) _ _ (λ no. (v, refl))
                                  λ yes. rw (selected-some d v) (
                                    readied-Kept (ready_queue d.mem q)
                                      (ready_queue-Kept d.mem q v.memory w)))
                              λ h.
                                both_ways P (offset == 0x50) _ _
                                  (λ h. keeps.keeps_data d (value % 2 ^ 16) v)
                                  λ h.
                                    both_ways P (offset == 0x64) _ _
                                      (λ h. remade _ v.memory v.sel v.size v.queues)
                                      λ h.
                                        both_ways P (offset == 0x80) _ _
                                          (λ h. at_selected-Kept d v _ (
                                            parts-IsQueue d.mem _ w.num w.tail (omega arith)
                                              w.desc_high w.driver_low w.driver_high w.device_low
                                              w.device_high w.areas))
                                          λ h.
                                            both_ways P (offset == 0x84) _ _
                                              (λ h. at_selected-Kept d v _ (
                                                parts-IsQueue d.mem _ w.num w.tail w.desc_low
                                                  (omega arith) w.driver_low w.driver_high
                                                  w.device_low w.device_high w.areas))
                                              λ h.
                                                both_ways P (offset == 0x90) _ _
                                                  (λ h. at_selected-Kept d v _ (
                                                    parts-IsQueue d.mem _ w.num w.tail w.desc_low
                                                      w.desc_high (omega arith) w.driver_high
                                                      w.device_low w.device_high w.areas))
                                                  λ h.
                                                    both_ways P (offset == 0x94) _ _
                                                      (λ h. at_selected-Kept d v _ (
                                                        parts-IsQueue d.mem _ w.num w.tail
                                                          w.desc_low w.desc_high w.driver_low
                                                          (omega arith) w.device_low w.device_high
                                                          w.areas))
                                                      λ h.
                                                        both_ways P (offset == 0xa0) _ _
                                                          (λ h. at_selected-Kept d v _ (
                                                            parts-IsQueue d.mem _ w.num w.tail
                                                            w.desc_low w.desc_high w.driver_low
                                                            w.driver_high (omega arith)
                                                            w.device_high w.areas))
                                                          λ h.
                                                            both_ways P (offset == 0xa4) _ _
                                                            (λ h. at_selected-Kept d v _ (
                                                            parts-IsQueue d.mem _ w.num w.tail
                                                            w.desc_low w.desc_high w.driver_low
                                                            w.driver_high w.device_low (omega arith)
                                                            w.areas))
                                                            λ h. (v, refl)

    mmio_write-Kept :
        (offset size value : ℕ)
        → offset + 8 < 2 ^ 64
        → size ≤ 8
        → DeviceKept d.mmio_start (mmio_write dev d offset size value)
    unfolding mmio_write
    mmio_write-Kept offset size value low small =
        both_ways (DeviceKept d.mmio_start) (in_config_space d offset size) _ _
          (λ h. keeps.keeps_config d offset size value v (stays d v offset size low small h))
          λ h. write_register-Kept offset value

    wrote-Kept :
        (o : Option (VirtioDev S))
        → DeviceKept d.mmio_start o
        → AnswerKept d.mmio_start true (wrote dev o)
    wrote-Kept none w = w
    wrote-Kept (some d') (v', same) = (v', same, λ w. refl)

    has_read-Kept : (o : Option ℕ) → IsSome o → AnswerKept d.mmio_start false (has_read dev d o)
    has_read-Kept none w = w
    has_read-Kept (some value) w = (v, refl, λ w. cc)

    handle_mmio-Kept :
        (phys_addr dat len : ℕ) (is_write : Bool)
        → IsRouted d.mmio_start (mmio phys_addr dat len is_write)
        → AnswerKept d.mmio_start is_write (handle_mmio dev d phys_addr dat len is_write)
    unfolding handle_mmio
    handle_mmio-Kept phys_addr dat len true (above, below, small) =
        let offset = (phys_addr + 2 ^ 64 - d.mmio_start) % 2 ^ 64 in
        wrote-Kept (mmio_write dev d offset len dat)
          (mmio_write-Kept offset len dat (omega arith) small)
    handle_mmio-Kept phys_addr dat len false (above, below, small) =
        let offset = (phys_addr + 2 ^ 64 - d.mmio_start) % 2 ^ 64 in
        has_read-Kept (mmio_read d offset len) (mmio_read-IsSome d v offset len (omega arith) small)

module _ {S : Type 0} (dev : Overrides S) (keeps : KeepsValid dev) (start : ℕ) where
  answered-Kept :
      (phys_addr dat len : ℕ) (is_write : Bool) (rest : List IoRequest) (answer : ℕ)
      (o : Option (VirtioDev S × List ℕ × Bool))
      → answer ≡ 0
      → LoopKept start rest o
      → LoopKept start (mmio phys_addr dat len is_write ∷ rest) (answered dev answer o)
  answered-Kept phys_addr dat len is_write rest answer none zero_ w = w
  answered-Kept phys_addr dat len is_write rest answer (some (d', answers, reads_on)) zero_
        (v, same, w) =
      (v, same, inl (zero_, w))

  proceed-Kept :
      (phys_addr dat len : ℕ) (is_write : Bool) (rest : List IoRequest)
      (more : VirtioDev S → Option (VirtioDev S × List ℕ × Bool)) (o : Option (VirtioDev S × ℕ))
      → ((d : VirtioDev S) → IsValid d → d.mmio_start ≡ start → LoopKept start rest (more d))
      → AnswerKept start is_write o
      → LoopKept start (mmio phys_addr dat len is_write ∷ rest) (proceed dev more o)
  proceed-Kept phys_addr dat len is_write rest more none next w = w
  proceed-Kept phys_addr dat len is_write rest more (some (d, answer)) next (v, same, wrote_zero) =
      both_ways (LoopKept start (mmio phys_addr dat len is_write ∷ rest)) (answer == 0)
        (answered dev answer (more d)) (some (d, answer ∷ [], false))
        (λ h.
          answered-Kept phys_addr dat len is_write rest answer (more d) (ground arith)
            (next d v same))
        λ h.
          let other : answer ≢ 0 = λ e. ground arith in
          (v, same, inr (other, a_read is_write other wrote_zero, refl, refl))
    where
      a_read : (is_write : Bool) → answer ≢ 0 → (is_write ≡ true → answer ≡ 0) → is_write ≡ false
      a_read true other zero_ = absurd (other (zero_ refl))
      a_read false other zero_ = refl

  loop-Kept :
      (requests : List IoRequest) (d : VirtioDev S)
      → AreRouted start requests
      → IsValid d
      → d.mmio_start ≡ start
      → LoopKept start requests (io_loop dev d requests)
  unfolding io_loop
  loop-Kept [] d routed v same = (v, same, refl)
  loop-Kept (pio port direction size dat count ∷ rest) d routed v same = (v, same, refl)
  loop-Kept (mmio phys_addr dat len is_write ∷ rest) d (here, routed) v same =
      proceed-Kept phys_addr dat len is_write rest (λ d'. io_loop dev d' rest)
        (handle_mmio dev d phys_addr dat len is_write)
        (λ d' v' same'. loop-Kept rest d' routed v' same')
        (coe 0 1 (i. AnswerKept (same i) is_write (handle_mmio dev d phys_addr dat len is_write))
          (handle_mmio-Kept d v dev keeps phys_addr dat len is_write (rw same here)))

-- Under any sequence of accesses of at most 8 bytes that are addressed to the device, whatever they
-- ask for and whatever the guest has in its memory, the device runs into no fault and no exception,
-- if the functions that it overrides do not. Every access is answered, a write with 0, up to the
-- end of the sequence, or up to the first of these: a port access, which is not answered, or a read
-- that is answered with something other than 0; there, and only there, the loop ends before. The
-- device is valid then, which means that every ready queue has its three areas inside the guest's
-- memory, that its selected queue exists and that its configuration space does not outgrow its array.
pub io_loop-Kept :
    {S : Type 0} (dev : Overrides S) (d : VirtioDev S) (requests : List IoRequest)
    → KeepsValid dev
    → IsValid d
    → AreRouted d.mmio_start requests
    → LoopKept d.mmio_start requests (io_loop dev d requests)
unfolding io_loop
io_loop-Kept dev d requests keeps v routed =
    loop-Kept dev keeps d.mmio_start requests d routed v refl

-- The transport's own `config_space_write` does so.
pub config_space_write-Kept :
    {S : Type 0} (d : VirtioDev S) (offset size value : ℕ)
    → IsValid d
    → leaves_config offset size ≡ false
    → DeviceKept d.mmio_start (config_space_write d offset size value)
unfolding config_space_write
config_space_write-Kept d offset size value v inside =
    rw inside (remade d v _ v.memory v.sel v.size v.queues)
