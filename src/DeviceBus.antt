-- ===== src/DeviceBus.antt =====
-- devicebus.c: the devices of the configuration with the ports and addresses that they claim, the
-- process that stands behind each once it is used, and the dispatch of a guest's accesses.
pub mod Claims
mod Tests
use dc2021f_ooows_public.Base.{
  ℕ, zero, suc, ◌+◌, ◌-◌, ◌%◌, ◌^◌, Bool, true, false, not, ◌&&◌, ◌||◌, Option, none, some, List,
  [], ◌∷◌, ◌++◌, ltb, leb, ◌==◌, if◌then◌else◌, get_elem?, get_or, set, take, drop, length,
  replicate,
}
use dc2021f_ooows_public.Machine.{Ret, ok, failed, Vcpu, Hv, nr_max_vcpus}
use dc2021f_ooows_public.Apic.{apic_access, apic_mmio}

-- `ioport_range_t` and `mmio_range_t`
pub record IoportRange : Type 0 where
  pub start_port : ℕ
  pub nports : ℕ

pub record MmioRange : Type 0 where
  pub mmio_start : ℕ
  pub mmio_len : ℕ

-- `device_node_t`; a path is its bytes, the linked lists are lists, and a process of 0 or a
-- channel of 0 is none.
pub record DeviceNode : Type 0 where
  pub path : List ℕ
  pub channel_fd : List ℕ
  pub instance_pid : ℕ
  pub ioports : List IoportRange
  pub mmios : List MmioRange

-- `!strncmp(cur->path, path, strlen(cur->path))`: the first text begins the second.
unfoldable pub begins : List ℕ → List ℕ → Bool
begins [] path = true
begins (c ∷ cs) [] = false
begins (c ∷ cs) (d ∷ path) = (c == d) && begins cs path

abbrev pub one_more : Option ℕ → Option ℕ
one_more none = none
one_more (some i) = some (suc i)

-- `deviceNodeForName`; a `device_node_t *` is the node's place in `g_devicelist`.
unfoldable pub node_for_name : List ℕ → List DeviceNode → Option ℕ
node_for_name path [] = none
node_for_name path (cur ∷ next) =
    if begins cur.path path then some 0 else one_more (node_for_name path next)

-- What `fscanf` has read of a line, in a call that returned more than 0, with whether the
-- allocations of the two ranges succeed.
pub record Line : Type 0 where
  pub device : List ℕ
  pub port_start : ℕ
  pub port_len : ℕ
  pub mmio_start : ℕ
  pub mmio_len : ℕ
  pub ioport_alloc : Bool
  pub mmio_alloc : Bool

abbrev pub new_node : List ℕ → DeviceNode
new_node path = record {
  path = path;
  channel_fd = replicate nr_max_vcpus 0;
  instance_pid = 0;
  ioports = [];
  mmios = [];
}

-- The list with the line's node in it, and where that is; a new one is linked in front.
unfoldable pub node_for : List ℕ → List DeviceNode → List DeviceNode × ℕ
node_for path devices = elim (node_for_name path devices) [
  | none ↦ (new_node path ∷ devices, 0)
  | some i ↦ (devices, i)
]

-- An assignment through a `device_node_t *`.
unfoldable pub update_node : List DeviceNode → ℕ → (DeviceNode → DeviceNode) → List DeviceNode
update_node [] i f = []
update_node (d ∷ ds) zero f = f d ∷ ds
update_node (d ∷ ds) (suc i) f = d ∷ update_node ds i f

-- `start_port` and `nports` have 16 bits.
abbrev pub link_ioport : Line → DeviceNode → DeviceNode
link_ioport l d = record d {
  ioports = record { start_port = l.port_start % 2 ^ 16; nports = l.port_len % 2 ^ 16 } ∷ d.ioports;
}

abbrev pub link_mmio : Line → DeviceNode → DeviceNode
link_mmio l d = record d {
  mmios = record { mmio_start = l.mmio_start; mmio_len = l.mmio_len } ∷ d.mmios;
}

unfoldable pub add_ioport : Line → ℕ → List DeviceNode → Option (List DeviceNode)
add_ioport l i devices =
    if l.port_start == 0
    then some devices
    else if l.ioport_alloc
    then some (update_node devices i (link_ioport l))
    else none

unfoldable pub add_mmio : Line → ℕ → List DeviceNode → Option (List DeviceNode)
add_mmio l i devices =
    if l.mmio_start == 0
    then some devices
    else if l.mmio_alloc
    then some (update_node devices i (link_mmio l))
    else none

infixl 5 ◌>>=◌
abbrev pub ◌>>=◌ {ℓ κ} : {A : Type ℓ} {B : Type κ} → Option A → (A → Option B) → Option B
none >>= f = none
some a >>= f = f a

-- One round of the loop of `dbusConfigFromFile`; `none` is the path to `err`, which gives up all.
unfoldable pub config_line : Line → List DeviceNode → Option (List DeviceNode)
config_line l devices = do
  let found = node_for l.device devices
  devices' ← add_ioport l found.1 found.0
  add_mmio l found.1 devices'

-- The last round, at the end of the file: the name is still that of the line before, or what the
-- buffer held at first, and the numbers are 0.
abbrev pub end_line : List ℕ → Line
end_line device = record {
  device = device;
  port_start = 0;
  port_len = 0;
  mmio_start = 0;
  mmio_len = 0;
  ioport_alloc = true;
  mmio_alloc = true;
}

unfoldable pub config_from : List ℕ → List Line → List DeviceNode → Option (List DeviceNode)
config_from device [] devices = config_line (end_line device) devices
config_from device (l ∷ ls) devices = do
  devices' ← config_line l devices
  config_from l.device ls devices'

unfoldable pub covers_port : ℕ → List IoportRange → Bool
covers_port port [] = false
covers_port port (io ∷ next) =
    (leb io.start_port port && ltb port (io.start_port + io.nports)) || covers_port port next

unfoldable pub covers_addr : ℕ → List MmioRange → Bool
covers_addr addr [] = false
covers_addr addr (mmio ∷ next) =
    (leb mmio.mmio_start addr && ltb addr ((mmio.mmio_start + mmio.mmio_len) % 2 ^ 64))
    || covers_addr addr next

-- `deviceForPort` and `deviceForAddr`: the first node with a range that holds the address.
unfoldable pub device_for_port : ℕ → List DeviceNode → Option ℕ
device_for_port port [] = none
device_for_port port (cur ∷ next) =
    if covers_port port cur.ioports then some 0 else one_more (device_for_port port next)

unfoldable pub device_for_addr : ℕ → List DeviceNode → Option ℕ
device_for_addr addr [] = none
device_for_addr addr (cur ∷ next) =
    if covers_addr addr cur.mmios then some 0 else one_more (device_for_addr addr next)
