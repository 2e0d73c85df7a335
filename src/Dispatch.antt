-- ===== src/Dispatch.antt =====
-- The second half of devicebus.c: the process of a device, made when it is first used, and the
-- service of a guest's access to a port or to an address.
pub mod Laws
mod Tests
use dc2021f_ooows_public.Base.{
  ℕ, ◌+◌, ◌-◌, ◌%◌, ◌^◌, Bool, true, false, not, ◌&&◌, Option, none, some, List, [], ◌∷◌, ◌++◌, ltb,
  leb, ◌==◌, if◌then◌else◌, get_elem?, get_or, take, drop,
}
use dc2021f_ooows_public.Machine.{Ret, ok, failed, Vcpu, Hv}
use dc2021f_ooows_public.Apic.{apic_access, apic_mmio, store_low32}
use dc2021f_ooows_public.DeviceBus.{DeviceNode, update_node, device_for_port, device_for_addr}

-- The outcomes of `send` and of a `recv` of 4 bytes: all, fewer, or -1.
pub data Sent : Type 0 where
  whole part refused : Sent

pub data Received : Type 0 where
  got : (value : ℕ) → Received
  short broken : Received

-- The result is compared with `sizeof`, an unsigned number, so that -1 passes for enough.
unfoldable pub sent_enough : Sent → Bool
sent_enough whole = true
sent_enough part = false
sent_enough refused = true

-- In the same way a `recv` that fails passes, with the variable's first value, 0.
unfoldable pub recv_value : Received → Option ℕ
recv_value (got value) = some value
recv_value short = none
recv_value broken = some 0

-- What the host answers while a device is started: the VMM's ends of the sockets, one for each
-- CPU, if all could be made; the child's process; the 4 bytes that it sends; and how the reply to
-- it goes.
pub record Spawn : Type 0 where
  pub sockets : Option (List ℕ)
  pub child : ℕ
  pub hello : Received
  pub reply : Sent

-- "INIT" as a little-endian number
abbrev pub init_magic : ℕ
init_magic = 0x54494e49

-- The channels of the CPUs that there are; the others keep theirs.
abbrev pub connect : ℕ → List ℕ → DeviceNode → DeviceNode
connect nvcpus fds d = record d { channel_fd = take nvcpus fds ++ drop nvcpus d.channel_fd }

unfoldable pub shake_hands : ℕ → List ℕ → Spawn → DeviceNode → DeviceNode × Ret
unfolding recv_value sent_enough
shake_hands nvcpus fds s d = elim (recv_value s.hello) [
  | none ↦ (d, failed)
  | some hello ↦
      if not (hello == init_magic)
      then (d, failed)
      else if not (sent_enough s.reply)
      then (d, failed)
      else (connect nvcpus fds d, ok)
]

-- `instantiateDevice`
unfoldable pub instantiate : ℕ → Spawn → DeviceNode → DeviceNode × Ret
instantiate nvcpus s d = elim s.sockets [
  | none ↦ (d, failed)
  | some fds ↦ shake_hands nvcpus fds s (record d { instance_pid = s.child })
]

-- `channelForDevice` for the CPU `cpu`: the node as it leaves it, and the channel; `none` is -1.
unfoldable pub channel_for : ℕ → Spawn → ℕ → DeviceNode → DeviceNode × Option ℕ
channel_for nvcpus s cpu d =
    let channel_fd = get_or d.channel_fd cpu 0 in
    if not (channel_fd == 0)
    then (d, some channel_fd)
    else (let (d', r) = instantiate nvcpus s d in
        (d', elim r [ ok ↦ some (get_or d'.channel_fd cpu 0) | failed ↦ none ]))

-- `struct io_request` with its two kinds
pub data IoRequest : Type 0 where
  pio : (port direction size dat count : ℕ) → IoRequest
  mmio : (phys_addr dat len : ℕ) (is_write : Bool) → IoRequest

-- The machine and `g_devicelist`.
pub record Bus : Type 0 where
  pub hv : Hv
  pub devices : List DeviceNode

-- `IO_DIRECTION_IN`
abbrev pub direction_in : ℕ
direction_in = 0

-- The guest's buffer after the device has answered `value` to a port access: a read replaces
-- as many low bytes as it has.
unfoldable pub pio_answer : (direction size dat value : ℕ) → ℕ × Ret
pio_answer direction size dat value =
    if not (direction == direction_in)
    then (dat, ok)
    else if size == 1
    then (dat - dat % 2 ^ 8 + value % 2 ^ 8, ok)
    else if size == 2
    then (dat - dat % 2 ^ 16 + value % 2 ^ 16, ok)
    else if size == 4
    then (store_low32 dat (value % 2 ^ 32), ok)
    else (dat, failed)

-- The same for memory, where a read of one byte replaces the whole of the 64-bit buffer.
unfoldable pub mmio_answer : Bool → (len dat value : ℕ) → ℕ × Ret
mmio_answer is_write len dat value =
    if is_write
    then (dat, ok)
    else if len == 1
    then (value % 2 ^ 8, ok)
    else if len == 2
    then (dat - dat % 2 ^ 16 + value % 2 ^ 16, ok)
    else if len == 4
    then (store_low32 dat (value % 2 ^ 32), ok)
    else (dat, failed)

-- How sending a request goes, and then receiving its answer.
pub record Answer : Type 0 where
  pub sent : Sent
  pub received : Received

-- Whether the request counts as sent: for a port the result of `send` is only tested for -1, for
-- memory it must be the whole length.
unfoldable pub request_sent : IoRequest → Sent → Bool
request_sent io whole = true
request_sent (pio port direction size dat count) part = true
request_sent (mmio phys_addr dat len is_write) part = false
request_sent io refused = false

-- `device fd request` is what the host and the device's process do with a request on a channel.
-- A channel of -1 cannot be sent to.
module _ (device : ℕ → IoRequest → Answer) where
  -- Request and acknowledgement over a channel, and what the answer makes of the buffer.
  unfoldable pub exchange : Option ℕ → IoRequest → (ℕ → ℕ × Ret) → ℕ → ℕ × Ret
  unfolding request_sent recv_value
  exchange none io answer dat = (dat, failed)
  exchange (some fd) io answer dat =
      let a = device fd io in
      if request_sent io a.sent
      then elim (recv_value a.received) [ none ↦ (dat, failed) | some value ↦ answer value ]
      else (dat, failed)

  -- The part that the two kinds of access share, for the device at place `i` of the list.
  unfoldable pub serve : Bus → ℕ → Spawn → ℕ → IoRequest → (ℕ → ℕ × Ret) → ℕ → Bus × ℕ × Ret
  unfolding exchange
  serve bus cpu s i io answer dat = elim (get_elem? bus.devices i) [
    | none ↦ (bus, dat, failed)
    | some d ↦
        let (d', channel_fd) = channel_for bus.hv.nvcpus s cpu d in
        let (dat', r) = exchange channel_fd io answer dat in
        (record bus { devices = update_node bus.devices i (λ _. d') }, dat', r)
  ]

  -- `dbusHandlePioAccess`; the request carries the low 32 bits of the buffer.
  unfoldable pub handle_pio : Bus → ℕ → Spawn → (port dat direction size count : ℕ) → Bus × ℕ × Ret
  unfolding serve
  handle_pio bus cpu s port dat direction size count = elim (device_for_port port bus.devices) [
    | none ↦ (bus, dat, failed)
    | some i ↦
        serve bus cpu s i (pio port direction size (dat % 2 ^ 32) count)
          (pio_answer direction size dat) dat
  ]

  -- An address of an APIC is served in the process; its result is always 0.
  abbrev pub apic_served : Bus → Option (Hv × ℕ) → Option (Bus × ℕ × Ret)
  apic_served bus none = none
  apic_served bus (some (hv, dat)) = some (record bus { hv = hv }, dat, ok)

  -- `dbusHandleMmioAccess` by the CPU `cpu`, which is `v`; `none` is an abort.
  unfoldable pub handle_mmio :
      Bus → ℕ → Vcpu → Spawn → (phys_addr dat len : ℕ) → Bool → Option (Bus × ℕ × Ret)
  unfolding serve
  handle_mmio bus cpu v s phys_addr dat len is_write =
      if apic_access v phys_addr
      then apic_served bus (apic_mmio bus.hv cpu v phys_addr dat len is_write)
      else elim (device_for_addr phys_addr bus.devices) [
        | none ↦ some (bus, dat, failed)
        | some i ↦ some (
            serve bus cpu s i (mmio phys_addr (dat % 2 ^ 32) len is_write)
              (mmio_answer is_write len dat) dat)
      ]
