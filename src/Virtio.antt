-- ===== src/Virtio.antt =====
-- The transport of the virtio devices, devices/utils/virtio.cpp: the members of `MMIOVirtioDev` and
-- its virtqueues.
pub mod Registers
pub mod Queue
pub mod Mmio
pub mod Numbers
pub mod Copied
pub mod Valid
pub mod Buffers
pub mod Returned
pub mod Reading
pub mod Serving
pub mod Taking
pub mod Driver
pub mod Published
pub mod Handshake
pub mod Features
mod Tests
use dc2021f_ooows_public.Base.{ℕ, ◌+◌, ◌*◌, ◌^◌, ◌≤◌, ◌<◌, ◌≡◌, ◌==◌, Bool, true, if◌then◌else◌}
use dc2021f_ooows_public.Net.Guest.{MemoryManager}

abbrev pub magic : ℕ
magic = 0x74726976

abbrev pub virtio_device_vers : ℕ
virtio_device_vers = 2

-- In bytes. The array `m_config_space` has as many words, four times the bytes.
abbrev pub config_space_max : ℕ
config_space_max = 0x400

abbrev pub config_space_start : ℕ
config_space_start = 0x100

abbrev pub max_vq_size : ℕ
max_vq_size = 32768

-- `enabled`, `used_tail_idx` and the lock are never used.
pub record VirtQueue : Type 0 where
  pub num_bufs : ℕ
  pub ready : Bool
  pub avail_tail_idx : ℕ
  pub queue_desc_low : ℕ
  pub queue_desc_high : ℕ
  pub queue_driver_low : ℕ
  pub queue_driver_high : ℕ
  pub queue_device_low : ℕ
  pub queue_device_high : ℕ
  pub desc_table_gaddr : ℕ
  pub avail_gaddr : ℕ
  pub used_gaddr : ℕ

-- The members of the class, and as `own` those that a device adds. `config_space` is the array by
-- its bytes, `vqs` the queues by their index.
pub record VirtioDev (S : Type 0) : Type 0 where
  pub mmio_start : ℕ
  pub device_id : ℕ
  pub vendor_id : ℕ
  pub device_features : ℕ
  pub device_features_sel : ℕ
  pub driver_features : ℕ
  pub driver_features_sel : ℕ
  pub queue_sel : ℕ
  pub isr : ℕ
  pub isr_ack : ℕ
  pub status : ℕ
  pub config_space : ℕ → ℕ
  pub config_space_size : ℕ
  pub num_queues : ℕ
  pub vqs : ℕ → VirtQueue
  pub mem : MemoryManager
  pub own : S

-- `m_vqs[i]`, assigned to
abbrev pub with_vq : {S : Type 0} → VirtioDev S → ℕ → VirtQueue → VirtioDev S
with_vq d i q = record d { vqs = λ j. if j == i then q else d.vqs j }
