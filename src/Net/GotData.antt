-- ===== src/Net/GotData.antt =====
-- The network device on its transport: `NetDev::got_data` of devices/ooows-net.cpp, with the buffers
-- of the virtqueues, and that it meets what the transport asks of it.
use dc2021f_ooows_public.Base.{ℕ, none, some, Option, ◌==◌, if◌then◌else◌, length}
use dc2021f_ooows_public.Broadcooom.Engine.{Engine}
use dc2021f_ooows_public.Net.Guest.{VirtBuf, bytes_at, with_bytes}
use dc2021f_ooows_public.Net.Device.{
  NetDev, Outcome, served, RxResult, waits, overrun, done, handle_tx, handle_rx, handle_control,
}
use dc2021f_ooows_public.Net.Range.{device_of}
use dc2021f_ooows_public.Virtio.{VirtioDev}
use dc2021f_ooows_public.Virtio.Mmio.{Overrides}
use dc2021f_ooows_public.Virtio.Queue.{Buf, device_get_buf, device_put_buf}

abbrev vq_control : ℕ
vq_control = 0

abbrev vq_data_tx : ℕ
vq_data_tx = 1

abbrev vq_data_rx : ℕ
vq_data_rx = 2

-- The same device as the handlers see it, and what they leave put back: the members that
-- `NetDev` inherits are those of the transport.
abbrev pub inherited : VirtioDev NetDev → NetDev
inherited d = record d.own {
  mem = d.mem;
  driver_features = d.driver_features;
  config_space = bytes_at d.config_space 0 d.config_space_size;
}

abbrev pub put_back : VirtioDev NetDev → NetDev → VirtioDev NetDev
put_back d n = record d {
  mem = n.mem;
  config_space = with_bytes d.config_space 0 n.config_space;
  config_space_size = length n.config_space;
  own = n;
}

abbrev pub opened : Buf → VirtBuf
opened b = record { head = b.guest_addr; len = b.len }

-- The end of a request, unless it has none.
abbrev pub returned : RxResult → Option Outcome
returned (done o) = some o
returned _ = none

-- `arrives` is what the packet processor has become when there is a job to take, for a request that
-- found none and waits.
module _ (arrives : Engine → Engine) where
  abbrev pub waited : NetDev → VirtBuf → RxResult → Option Outcome
  waited n v waits = returned (handle_rx (record n { engine = arrives n.engine }) v)
  waited n v overrun = none
  waited n v (done o) = some o

  unfoldable pub dispatch : NetDev → (vq_idx : ℕ) → VirtBuf → Option Outcome
  dispatch n vq_idx v =
      if vq_idx == vq_control
      then some (handle_control n v)
      else if vq_idx == vq_data_tx
      then some (handle_tx n v)
      else if vq_idx == vq_data_rx
      then waited n v (handle_rx n v)
      else some (served n)

  abbrev pub handled :
      VirtioDev NetDev → (vq_idx : ℕ) → Buf → Option Outcome → Option (VirtioDev NetDev)
  handled d vq_idx b none = none
  handled d vq_idx b (some o) = device_put_buf (put_back d (device_of o)) vq_idx b

  abbrev pub with_buf :
      (vq_idx : ℕ) → Option (VirtioDev NetDev × Option Buf) → Option (VirtioDev NetDev)
  with_buf vq_idx none = none
  with_buf vq_idx (some (d, none)) = some d
  with_buf vq_idx (some (d, some b)) = handled d vq_idx b (dispatch (inherited d) vq_idx (opened b))

  unfoldable pub got_data :
      (stale : ℕ) → VirtioDev NetDev → (vq_idx : ℕ) → Option (VirtioDev NetDev)
  got_data stale d vq_idx = with_buf vq_idx (device_get_buf d vq_idx stale)

-- `NetDev::config_space_write`: nothing is written.
abbrev pub net_config_write : VirtioDev NetDev → (offset size value : ℕ) → Option (VirtioDev NetDev)
net_config_write d offset size value = some d

-- The functions that the network device overrides.
abbrev pub net_dev : (Engine → Engine) → (stale : ℕ) → Overrides NetDev
net_dev arrives stale = record {
  got_data = got_data arrives stale;
  config_write = net_config_write;
}
