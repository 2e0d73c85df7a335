-- ===== src/DeviceBus/Claims.antt =====
-- Which device answers a port or an address, and how the configuration assigns them.
use mathlib.Core.Option
use dc2021f_ooows_public.Base.{
  ℕ, zero, suc, ◌+◌, ◌%◌, ◌^◌, ◌≤◌, ◌<◌, ◌≡◌, ◌≢◌, refl, ap, sym, ◌∙◌, true, ◌&&◌, ◌⊎◌, Option,
  none, some, List, [], ◌∷◌, arith, ltb, leb, ◌==◌, get_elem?, inl, inr, Bool-cases,
}
use dc2021f_ooows_public.DeviceBus.{
  IoportRange, DeviceNode, begins, one_more, node_for_name, Line, new_node, node_for, update_node,
  link_ioport, link_mmio, add_ioport, add_mmio, config_line, covers_port, device_for_port,
}

-- Some range holds the port.
abbrev pub Holds : ℕ → List IoportRange → Type 0
Holds port [] = ⊥
Holds port (io ∷ next) =
    ((io.start_port ≤ port) × (port < io.start_port + io.nports)) ⊎ Holds port next

Holds-of-covers :
    (port : ℕ) (ranges : List IoportRange) → covers_port port ranges ≡ true → Holds port ranges
unfolding covers_port
Holds-of-covers port [] h = cc
Holds-of-covers port (io ∷ next) h =
    elim (Bool-cases (leb io.start_port port && ltb port (io.start_port + io.nports))) [
      | inl here ↦ inl (ground arith)
      | inr later ↦ inr (Holds-of-covers port next (ground arith))
    ]

covers-of-Holds :
    (port : ℕ) (ranges : List IoportRange) → Holds port ranges → covers_port port ranges ≡ true
unfolding covers_port
covers-of-Holds port [] h = absurd h
covers-of-Holds port (io ∷ next) (inl here) = ground arith
covers-of-Holds port (io ∷ next) (inr later) = rw (covers-of-Holds port next later) (ground arith)

-- The node at place `i` is the first one of the list that claims the port.
abbrev pub FirstClaim : ℕ → List DeviceNode → ℕ → Type 0
FirstClaim port [] i = ⊥
FirstClaim port (d ∷ ds) zero = Holds port d.ioports
FirstClaim port (d ∷ ds) (suc i) = (¬ (Holds port d.ioports)) × FirstClaim port ds i

abbrev pub NoClaim : ℕ → List DeviceNode → Type 0
NoClaim port [] = Unit {0}
NoClaim port (d ∷ ds) = (¬ (Holds port d.ioports)) × NoClaim port ds

abbrev pub Answers : ℕ → List DeviceNode → Option ℕ → Type 0
Answers port devices none = NoClaim port devices
Answers port devices (some i) = FirstClaim port devices i

-- `deviceForPort` finds the first device of the list with a range that holds the port, and
-- finds none only if there is none.
pub port_lem :
    (port : ℕ) (devices : List DeviceNode) → Answers port devices (device_for_port port devices)
unfolding device_for_port
port_lem port [] = tt
port_lem port (d ∷ ds) = elim (Bool-cases (covers_port port d.ioports)) [
  | inl here ↦ rw here (Holds-of-covers port d.ioports here)
  | inr not_here ↦ rw not_here (
      later (λ h. cc (covers-of-Holds port d.ioports h, not_here)) (device_for_port port ds)
        (port_lem port ds))
]
  where
    later :
        ¬ (Holds port d.ioports)
        → (o : Option ℕ) → Answers port ds o
        → Answers port (d ∷ ds) (one_more o)
    later n none a = (n, a)
    later n (some i) a = (n, a)

-- A device of the list that covers the port, or an earlier one, is found.
found :
    (port : ℕ) (devices : List DeviceNode) (i : ℕ) {d : DeviceNode}
    → get_elem? devices i ≡ some d
    → covers_port port d.ioports ≡ true
    → (j : ℕ) × (device_for_port port devices ≡ some j)
unfolding device_for_port
found port [] i e h = cc
found port (c ∷ ds) zero e h = (0, ground arith)
found port (c ∷ ds) (suc i) e h = elim (Bool-cases (covers_port port c.ioports)) [
  | inl here ↦ (0, rw here)
  | inr later ↦ let (j, f) = found port ds i e h in (suc j, rw (later, f))
]

update-here :
    (devices : List DeviceNode) (i : ℕ) (f : DeviceNode → DeviceNode) {d : DeviceNode}
    → get_elem? devices i ≡ some d
    → get_elem? (update_node devices i f) i ≡ some (f d)
unfolding update_node
update-here [] i f e = cc
update-here (c ∷ ds) zero f e = ap (λ o. Option.map f o) e
update-here (c ∷ ds) (suc i) f e = update-here ds i f e

-- What `node_for_name` points at has a path that begins the name.
abbrev Named : List ℕ → List DeviceNode → Option ℕ → Type 0
Named path devices none = Unit {0}
Named path devices (some i) =
    (d : DeviceNode) × (get_elem? devices i ≡ some d) × (begins d.path path ≡ true)

node_for_name-Named :
    (path : List ℕ) (devices : List DeviceNode) → Named path devices (node_for_name path devices)
unfolding node_for_name
node_for_name-Named path [] = tt
node_for_name-Named path (c ∷ ds) = elim (Bool-cases (begins c.path path)) [
  | inl here ↦ rw here (c, refl, here)
  | inr later ↦ rw later (behind (node_for_name path ds) (node_for_name-Named path ds))
]
  where
    behind : (o : Option ℕ) → Named path ds o → Named path (c ∷ ds) (one_more o)
    behind none n = tt
    behind (some i) n = n

begins_self : (path : List ℕ) → begins path path ≡ true
unfolding begins
begins_self [] = refl
begins_self (c ∷ cs) = ground (arith, begins_self cs)

-- The node for a name is in the list, and its path begins the name.
node_for-Named :
    (path : List ℕ) (devices : List DeviceNode)
    → Named path (node_for path devices).0 (some (node_for path devices).1)
unfolding node_for
node_for-Named path devices =
    by_name (node_for_name path devices) refl (node_for_name-Named path devices)
  where
    by_name :
        (o : Option ℕ)
        → node_for_name path devices ≡ o
        → Named path devices o
        → Named path (node_for path devices).0 (some (node_for path devices).1)
    by_name none e n = rw (e, node_for) (new_node path, refl, begins_self path)
    by_name (some i) e n = rw (e, node_for) n

covers-first :
    (l : Line) (port : ℕ) (d : DeviceNode)
    → l.port_start % 2 ^ 16 ≤ port
    → port < l.port_start % 2 ^ 16 + l.port_len % 2 ^ 16
    → covers_port port (link_ioport l d).ioports ≡ true
unfolding covers_port
covers-first l port d lo hi = ground arith

updated :
    (l : Line) (ds : List DeviceNode) (j i : ℕ) {d : DeviceNode}
    → get_elem? ds i ≡ some d
    → (d' : DeviceNode) × (get_elem? (update_node ds j (link_mmio l)) i ≡ some d')
      × (d'.path ≡ d.path)
      × (d'.ioports ≡ d.ioports)
unfolding update_node
updated l [] j i h = cc
updated l (c ∷ ds) zero zero {d} h =
    let e : c ≡ d = cc in
    (link_mmio l c, refl, ap (λ (x : DeviceNode). x.path) e, ap (λ (x : DeviceNode). x.ioports) e)
updated l (c ∷ ds) zero (suc i) {d} h = (d, h, refl, refl)
updated l (c ∷ ds) (suc j) zero {d} h = (d, h, refl, refl)
updated l (c ∷ ds) (suc j) (suc i) h = updated l ds j i h

-- Linking a memory range changes no node's path and no node's ports.
mmio-keeps :
    (l : Line) (i j : ℕ) (devices : List DeviceNode) {devices' : List DeviceNode} {d : DeviceNode}
    → add_mmio l j devices ≡ some devices'
    → get_elem? devices i ≡ some d
    → (d' : DeviceNode) × (get_elem? devices' i ≡ some d')
      × (d'.path ≡ d.path)
      × (d'.ioports ≡ d.ioports)
unfolding add_mmio
mmio-keeps l i j devices {devices'} {d} e h = elim (Bool-cases (l.mmio_start == 0)) [
  | inl nothing ↦
      let same : devices ≡ devices' = ground arith in
      (d, ap (λ ds. get_elem? ds i) (sym same) ∙ h, refl, refl)
  | inr some_range ↦
      let same : update_node devices j (link_mmio l) ≡ devices' = ground arith in
      let (d', at, p, q) = updated l devices j i h in
      (d', ap (λ ds. get_elem? ds i) (sym same) ∙ at, p, q)
]

-- A line that names ports makes a device of that name, or of a name that begins it, claim them:
-- after the line every one of its ports is answered by some device.
pub config_claims :
    (l : Line) (devices : List DeviceNode) (port : ℕ) {devices' : List DeviceNode}
    → config_line l devices ≡ some devices'
    → l.port_start ≢ 0
    → l.port_start % 2 ^ 16 ≤ port
    → port < l.port_start % 2 ^ 16 + l.port_len % 2 ^ 16
    → ((i : ℕ) × (d : DeviceNode) × (get_elem? devices' i ≡ some d)
        × (begins d.path l.device ≡ true)
        × Holds port d.ioports)
      × ((j : ℕ) × (device_for_port port devices' ≡ some j))
unfolding config_line add_ioport
config_claims l devices port {devices'} e start lo hi =
    let (list, i) = node_for l.device devices in
    let (d, at, begins_name) = node_for-Named l.device devices in
    let linked : List DeviceNode = update_node list i (link_ioport l) in
    let after : add_mmio l i linked ≡ some devices' = ground arith in
    let (d', at', path, ports) =
      mmio-keeps l i i linked after (update-here list i (link_ioport l) at) in
    let covers : covers_port port d'.ioports ≡ true =
      ap (covers_port port) ports ∙ covers-first l port d lo hi in
    (
      (
        i,
        d',
        at',
        ap (λ p. begins p l.device) path ∙ begins_name,
        Holds-of-covers port d'.ioports covers,
      ),
      found port devices' i at' covers,
    )

found_first :
    (port : ℕ) (devices : List DeviceNode) {d : DeviceNode}
    → get_elem? devices 0 ≡ some d
    → covers_port port d.ioports ≡ true
    → device_for_port port devices ≡ some 0
unfolding device_for_port
found_first port [] e h = cc
found_first port (c ∷ ds) e h = ground arith

shared_node :
    (l : Line) (d : DeviceNode) (ds : List DeviceNode)
    → begins d.path l.device ≡ true
    → node_for l.device (d ∷ ds) ≡ (d ∷ ds, 0)
unfolding node_for node_for_name
shared_node l d ds h = rw (h, node_for)

-- A line whose device name merely begins with the path of the first device in the list gets no
-- device of its own: its ports are answered by that other device.
pub prefix_shares :
    (l : Line) (d : DeviceNode) (ds : List DeviceNode) (port : ℕ) {devices' : List DeviceNode}
    → begins d.path l.device ≡ true
    → config_line l (d ∷ ds) ≡ some devices'
    → l.port_start ≢ 0
    → l.port_start % 2 ^ 16 ≤ port
    → port < l.port_start % 2 ^ 16 + l.port_len % 2 ^ 16
    → (device_for_port port devices' ≡ some 0)
      × ((d' : DeviceNode) × (get_elem? devices' 0 ≡ some d') × (d'.path ≡ d.path))
unfolding config_line add_ioport
prefix_shares l d ds port {devices'} prefix e start lo hi =
    let node = shared_node l d ds prefix in
    let linked : List DeviceNode = update_node (d ∷ ds) 0 (link_ioport l) in
    let same : add_mmio l (node_for l.device (d ∷ ds)).1 (
          update_node (node_for l.device (d ∷ ds)).0 (node_for l.device (d ∷ ds)).1 (link_ioport l))
        ≡ some devices' =
      ground arith in
    let after : add_mmio l 0 linked ≡ some devices' =
      ap (λ (n : List DeviceNode × ℕ). add_mmio l n.1 (update_node n.0 n.1 (link_ioport l)))
        (sym node)
      ∙ same in
    let (d', at', path, ports) =
      mmio-keeps l 0 0 linked after (update-here (d ∷ ds) 0 (link_ioport l) refl) in
    (
      found_first port devices' at' (ap (covers_port port) ports ∙ covers-first l port d lo hi),
      (d', at', path),
    )
