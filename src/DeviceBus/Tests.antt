-- ===== src/DeviceBus/Tests.antt =====
-- The theorems on the device bus at two small devices.
use dc2021f_ooows_public.Base.{ℕ, ◌≡◌, refl, true, some, List, [], ◌∷◌, arith, get_elem?}
use dc2021f_ooows_public.DeviceBus.{
  DeviceNode, begins, node_for_name, Line, new_node, node_for, update_node, link_ioport, add_ioport,
  add_mmio, config_line, config_from, covers_port, device_for_port,
}
use dc2021f_ooows_public.DeviceBus.Claims.{Answers, port_lem, Holds, config_claims}

-- Names of one and of two letters.
abbrev vga : List ℕ
vga = 118 ∷ []

abbrev vga_two : List ℕ
vga_two = 118 ∷ 50 ∷ []

abbrev net : List ℕ
net = 110 ∷ []

abbrev node : List ℕ → ℕ → ℕ → DeviceNode
node path start n = record (new_node path) {
  ioports = record { start_port = start; nports = n } ∷ [];
}

abbrev line : List ℕ → ℕ → ℕ → Line
line device start n = record {
  device = device;
  port_start = start;
  port_len = n;
  mmio_start = 0;
  mmio_len = 0;
  ioport_alloc = true;
  mmio_alloc = true;
}

abbrev devices : List DeviceNode
devices = node vga 0x3c0 16 ∷ node net 0x300 8 ∷ []

abbrev grown : List DeviceNode
grown = link_ioport (line vga_two 0x500 4) (node vga 0x3c0 16) ∷ node net 0x300 8 ∷ []

second_answers : device_for_port 0x302 devices ≡ some 1
unfolding device_for_port covers_port
second_answers = refl

config_run : config_from net (line net 0x300 8 ∷ line vga 0x3c0 16 ∷ []) [] ≡ some devices
unfolding config_from config_line node_for node_for_name begins add_ioport add_mmio update_node
config_run = refl

grown_run : config_line (line vga_two 0x500 4) devices ≡ some grown
unfolding config_line node_for node_for_name begins add_ioport add_mmio update_node
grown_run = refl

config_claims_example :
    ((i : ℕ) × (d : DeviceNode) × (get_elem? grown i ≡ some d)
      × (begins d.path vga_two ≡ true)
      × Holds 0x503 d.ioports)
    × ((j : ℕ) × (device_for_port 0x503 grown ≡ some j))
config_claims_example =
    config_claims (line vga_two 0x500 4) devices 0x503 grown_run (omega arith) (omega arith)
      (omega arith)

vga_prefix : begins vga vga_two ≡ true
unfolding begins
vga_prefix = refl

port_lem_example : Answers 0x302 devices (device_for_port 0x302 devices)
port_lem_example = port_lem 0x302 devices
