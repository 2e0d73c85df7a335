-- ===== src/Virtio/Registers.antt =====
-- The configuration space, the features and the registers that a driver reads: `set_config_space`,
-- `config_space_read`, `config_space_write`, `set_device_features`, `get_device_feature_bits` and
-- `mmio_read` of devices/utils/virtio.cpp.
use dc2021f_ooows_public.Base.{
  ℕ, zero, suc, ◌+◌, ◌-◌, ◌*◌, ◌/◌, ◌%◌, ◌^◌, Bool, ◌&&◌, ◌||◌, Option, none, some, List, [], ◌∷◌,
  ltb, leb, ◌==◌, if◌then◌else◌, length,
}
use dc2021f_ooows_public.Net.Guest.{bytes_at, with_bytes}
use dc2021f_ooows_public.Virtio.{
  magic, virtio_device_vers, config_space_max, config_space_start, max_vq_size, VirtQueue,
  VirtioDev,
}

-- The number that bytes stand for, the lowest first, and the bytes of a number.
abbrev pub number : List ℕ → ℕ
number [] = 0
number (b ∷ bs) = b + 256 * number bs

abbrev pub bytes_of : (size value : ℕ) → List ℕ
bytes_of zero value = []
bytes_of (suc size) value = value % 256 ∷ bytes_of size (value / 256)

-- Both copy between the array and a variable of 8 bytes; `none` when `memcpy` leaves one of them,
-- which is undefined.
abbrev pub config_offset : ℕ → ℕ
config_offset offset = (offset + 2 ^ 64 - config_space_start) % 2 ^ 64

abbrev pub leaves_config : (offset size : ℕ) → Bool
leaves_config offset size = ltb 8 size || ltb (4 * config_space_max) (config_offset offset + size)

abbrev pub of_selected : (VirtQueue → ℕ) → Option VirtQueue → Option ℕ
of_selected f none = none
of_selected f (some q) = some (f q)

abbrev pub to_int : Option ℕ → Option ℕ
to_int none = none
to_int (some value) = some (value % 2 ^ 32)

module _ {S : Type 0} where
  -- The array in the device is as long in words as the space is in bytes.
  abbrev pub set_config_space : VirtioDev S → List ℕ → Option (VirtioDev S)
  set_config_space d bytes =
      if ltb config_space_max (length bytes)
      then none
      else some (record d {
        config_space = with_bytes d.config_space 0 bytes;
        config_space_size = length bytes;
      })

  -- The test by which both directions choose the configuration space, on 64 bits.
  unfoldable pub in_config_space : VirtioDev S → (offset size : ℕ) → Bool
  in_config_space d offset size =
      leb config_space_start offset
      && leb ((offset + size) % 2 ^ 64) (config_space_start + d.config_space_size)

  unfoldable pub config_space_read : VirtioDev S → (offset size : ℕ) → Option ℕ
  config_space_read d offset size =
      if leaves_config offset size
      then none
      else some (number (bytes_at d.config_space (config_offset offset) size))

  unfoldable pub config_space_write : VirtioDev S → (offset size value : ℕ) → Option (VirtioDev S)
  config_space_write d offset size value =
      if leaves_config offset size
      then none
      else some (record d {
        config_space = with_bytes d.config_space (config_offset offset) (bytes_of size value);
      })

  abbrev pub set_device_features : VirtioDev S → ℕ → VirtioDev S
  set_device_features d features = record d { device_features = features }

  unfoldable pub get_device_feature_bits : VirtioDev S → ℕ
  get_device_feature_bits d =
      if d.device_features_sel == 0
      then d.device_features / 2 ^ 32 % 2 ^ 32
      else d.device_features % 2 ^ 32

  -- `m_vqs[m_queue_sel]`, which is undefined outside the array
  abbrev pub selected : VirtioDev S → Option VirtQueue
  selected d = if ltb d.queue_sel d.num_queues then some (d.vqs d.queue_sel) else none

  unfoldable pub read_register : VirtioDev S → (offset : ℕ) → Option ℕ
  read_register d offset =
      if offset == 0x0
      then some magic
      else if offset == 0x4
      then some virtio_device_vers
      else if offset == 0x8
      then some d.device_id
      else if offset == 0xc
      then some d.vendor_id
      else if offset == 0x10
      then some (get_device_feature_bits d)
      else if offset == 0x34
      then of_selected (λ q. if q.ready then max_vq_size else 0) (selected d)
      else if offset == 0x44
      then of_selected (λ q. if q.ready then 1 else 0) (selected d)
      else if offset == 0x60
      then some d.isr
      else if offset == 0x70
      then some d.status
      else some 0

  -- The result is an `int`, of which 32 bits are sent to the VMM.
  unfoldable pub mmio_read : VirtioDev S → (offset size : ℕ) → Option ℕ
  mmio_read d offset size =
      if in_config_space d offset size
      then to_int (config_space_read d offset size)
      else read_register d offset
