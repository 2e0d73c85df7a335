-- ===== src/Virtio/Mmio.antt =====
-- The driver's accesses: `mmio_write`, `handle_MMIO` and `IO_loop` of devices/utils/virtio.cpp.
-- What a device overrides is a parameter; `none` is a run that is undefined or ends in an exception.
-- What the functions return to the driver's write is not looked at.
use dc2021f_ooows_public.Base.{
  ℕ, ◌+◌, ◌-◌, ◌*◌, ◌/◌, ◌%◌, ◌^◌, Bool, true, false, Option, none, some, List, [], ◌∷◌, ltb, ◌==◌,
  if◌then◌else◌,
}
use dc2021f_ooows_public.Dispatch.{IoRequest, pio, mmio}
use dc2021f_ooows_public.Virtio.{max_vq_size, VirtQueue, VirtioDev, with_vq}
use dc2021f_ooows_public.Virtio.Registers.{in_config_space, selected, mmio_read}
use dc2021f_ooows_public.Virtio.Queue.{ready_queue}

-- The functions that a device overrides.
pub record Overrides (S : Type 0) : Type 0 where
  pub got_data : VirtioDev S → (vq_idx : ℕ) → Option (VirtioDev S)
  pub config_write : VirtioDev S → (offset size value : ℕ) → Option (VirtioDev S)

-- An assignment to the fields of the selected queue.
abbrev pub at_selected :
    {S : Type 0} → VirtioDev S → (VirtQueue → VirtQueue) → Option VirtQueue → Option (VirtioDev S)
at_selected d f none = none
at_selected d f (some q) = some (with_vq d d.queue_sel (f q))

-- The upper or the lower half of the features that the driver accepts.
abbrev pub accepted : {S : Type 0} → VirtioDev S → ℕ → ℕ
accepted d value =
    if d.driver_features_sel == 0
    then d.driver_features / 2 ^ 32 * 2 ^ 32 + value % 2 ^ 32
    else value % 2 ^ 32 * 2 ^ 32 + d.driver_features % 2 ^ 32

-- The number of buffers of a queue that is not ready yet.
abbrev pub num_set : ℕ → VirtQueue → VirtQueue
num_set value q = if q.ready then q else record q { num_bufs = value }

module _ {S : Type 0} (dev : Overrides S) where
  -- `REG_QUEUE_READY`: the queue is made ready, and the device looks for data.
  abbrev pub readied : VirtioDev S → Option VirtQueue → Option (VirtioDev S)
  readied d none = some d
  readied d (some q) = dev.got_data (with_vq d d.queue_sel q) (d.queue_sel % 2 ^ 16)

  abbrev pub make_ready : VirtioDev S → Option VirtQueue → Option (VirtioDev S)
  make_ready d none = none
  make_ready d (some q) = readied d (ready_queue d.mem q)

  unfoldable pub write_register : VirtioDev S → (offset value : ℕ) → Option (VirtioDev S)
  write_register d offset value =
      let low = value % 2 ^ 32 in
      if offset == 0x14
      then some (record d { device_features_sel = if value == 0 then 0 else 1 })
      else if offset == 0x20
      then some (record d { driver_features = accepted d value })
      else if offset == 0x24
      then some (record d { driver_features_sel = if value == 0 then 0 else 1 })
      else if offset == 0x30
      then some (if ltb value d.num_queues then record d { queue_sel = value } else d)
      else if offset == 0x38
      then if ltb value max_vq_size then at_selected d (num_set value) (selected d) else some d
      else if offset == 0x44
      then if value == 0 then some d else make_ready d (selected d)
      else if offset == 0x50
      then dev.got_data d (value % 2 ^ 16)
      else if offset == 0x64
      then some (record d { isr_ack = low })
      else if offset == 0x80
      then at_selected d (λ q. record q { queue_desc_low = low }) (selected d)
      else if offset == 0x84
      then at_selected d (λ q. record q { queue_desc_high = low }) (selected d)
      else if offset == 0x90
      then at_selected d (λ q. record q { queue_driver_low = low }) (selected d)
      else if offset == 0x94
      then at_selected d (λ q. record q { queue_driver_high = low }) (selected d)
      else if offset == 0xa0
      then at_selected d (λ q. record q { queue_device_low = low }) (selected d)
      else if offset == 0xa4
      then at_selected d (λ q. record q { queue_device_high = low }) (selected d)
      else some d

  unfoldable pub mmio_write : VirtioDev S → (offset size value : ℕ) → Option (VirtioDev S)
  mmio_write d offset size value =
      if in_config_space d offset size
      then dev.config_write d offset size value
      else write_register d offset value

  -- `handle_MMIO`: the device afterwards and the `int` that it returns.
  abbrev pub wrote : Option (VirtioDev S) → Option (VirtioDev S × ℕ)
  wrote none = none
  wrote (some d) = some (d, 0)

  abbrev pub has_read : VirtioDev S → Option ℕ → Option (VirtioDev S × ℕ)
  has_read d none = none
  has_read d (some value) = some (d, value)

  unfoldable pub handle_mmio :
      VirtioDev S → (phys_addr value len : ℕ) (is_write : Bool) → Option (VirtioDev S × ℕ)
  handle_mmio d phys_addr value len is_write =
      let offset = (phys_addr + 2 ^ 64 - d.mmio_start) % 2 ^ 64 in
      if is_write
      then wrote (mmio_write d offset len value)
      else has_read d (mmio_read d offset len)

  -- `IO_loop` on the requests that come: the device afterwards, the answers that were sent, and
  -- whether the loop still reads. It ends on a request of another kind, and when what `handle_MMIO`
  -- returned is not 0.
  abbrev pub answered :
      ℕ → Option (VirtioDev S × List ℕ × Bool) → Option (VirtioDev S × List ℕ × Bool)
  answered answer none = none
  answered answer (some (d, answers, reads)) = some (d, answer ∷ answers, reads)

  abbrev pub proceed :
      (VirtioDev S → Option (VirtioDev S × List ℕ × Bool))
      → Option (VirtioDev S × ℕ)
      → Option (VirtioDev S × List ℕ × Bool)
  proceed more none = none
  proceed more (some (d, answer)) =
      if answer == 0 then answered answer (more d) else some (d, answer ∷ [], false)

  unfoldable pub io_loop : VirtioDev S → List IoRequest → Option (VirtioDev S × List ℕ × Bool)
  io_loop d [] = some (d, [], true)
  io_loop d (pio port direction size dat count ∷ rest) = some (d, [], false)
  io_loop d (mmio phys_addr dat len is_write ∷ rest) =
      proceed (λ d'. io_loop d' rest) (handle_mmio d phys_addr dat len is_write)
