-- ===== src/Lib.antt =====
-- The virtual machine monitor of the DEF CON 2021 finals (vmm.c, apic.c, devicebus.c, kvm/,
-- devices/) as a model and its correctness.
--
-- The program: a VMM process runs one thread for each virtual CPU. A CPU's loop injects waiting
-- interrupts, enters the guest through the host's KVM or the `hyper-o` module, and serves the exit:
-- an access to a port or to memory-mapped registers goes to the APICs in the process (apic.c) or
-- over a socket to the device that has claimed the address (devicebus.c). Devices are processes of
-- their own (devices/), which send interrupts back through the I/O APIC's socket. The guest kernel
-- (boot/kernel/) brings its own allocator.
--
-- The model:
-- - Base: the library's names passed on, lists with native indices, Boolean tests. Base.Bits has
--   the laws of single bits of a word.
-- - Machine: the structures of inc/vmm.h. One machine is one value of `Hv`, a `vcpu_t *` is an
--   index, and what the code asks of the host is recorded as events. A C integer is a native number
--   below its modulus, with the wrap written out where an operation can leave the range. A function
--   that holds a mutex while it works is one step.
-- - Apic: apic.c from `apicAccess` to `ioApicMmio`, the registers that a guest reads and writes.
--   Apic.Registers and Apic.Local prove.
-- - Irq: apic.c from `ioApicSendInterrupt` on, the queue of device interrupts and their delivery.
--   Irq.Queue, Irq.Send, Irq.Service and Irq.Poll prove.
-- - Malloc: boot/kernel/malloc.c, the guest kernel's heap. Malloc.Tiling, Malloc.Placing and
--   Malloc.Faults prove.
-- - Strings: the string and memory functions of boot/kernel/malloc.c. Strings.Laws proves.
-- - DeviceBus: devicebus.c, the configuration and which device claims a port or an address.
--   DeviceBus.Claims proves.
-- - Dispatch: devicebus.c, the start of a device's process and the service of an access. What the
--   sockets and the process do is a parameter. Dispatch.Laws proves.
-- - Vga: devices/ooows-vga.c, a device's side of a request: the mirrored memory, the planes and the
--   modes. Vga.Memory, Vga.Access and Vga.Modes prove.
-- - Run: the loop of a virtual CPU, kvm/kvmstubs.c (hvRunVcpu), with its reset and its halts in
--   vmm.c. One round is one value; what the guest does in it is a parameter. Run.Exit, Run.Halt and
--   Run.Reset prove.
-- - Kvm: kvm/kvmstubs.c, the registers that a CPU and the host exchange.
-- - Broadcooom: devices/broadcooom/, the packet processor of the network device: its instructions
--   (types.hpp), its interpreter and the two threads that serve its memory (microengine.cpp). What
--   C++ leaves undefined is the result `none`; `m_scratch` to `m_code` are one array of words, as they
--   lie in the object. A round of the interpreter and a word that a memory thread copies are one step
--   each. Broadcooom.Threads has the steps of all threads and Broadcooom.Copies whole jobs; they,
--   Broadcooom.Bounds, Wide, Table, Constants, Merge and Program prove.
-- - Net: devices/ooows-net.cpp, the requests that the guest sends the network device
--   (Net.Device), on the guest's memory of devices/utils/mem-manager.cpp (Net.Guest), and the threads
--   of devices/broadcooom/phy.cpp (Net.Phy). They share the packet processor's words and queues.
--   Net.Access, Net.Send, Net.Range and Net.Steps prove.
--   Net.GotData puts the device on its transport.
-- - Virtio: devices/utils/virtio.cpp, the transport of the devices in C++: the registers and features
--   (Virtio.Registers), the virtqueues in the guest's memory (Virtio.Queue), and the accesses with the
--   loop that serves a CPU (Virtio.Mmio). What a device overrides is a parameter. Virtio.Driver is the
--   guest kernel's side, boot/kernel/virtio_drv.c. Virtio.Valid and Virtio.Serving keep the invariant,
--   Virtio.Buffers, Returned and Taking are on the buffers, Virtio.Published and Handshake on the
--   driver and the device together, Virtio.Features on the registers.
-- - P9: the 9P file share. P9.Kernel has the guest kernel's messages (boot/kernel/p9.c), P9.Parser
--   the requests that the device makes of them (devices/ooows-p9fs.cpp and the constructors of
--   devices/p9fs/trequests.cpp), P9.Core the map of fids and the objects with their reference counts
--   (p9core.cpp, qidobject.cpp), P9.Execute what the requests do (trequests.cpp). What stands behind
--   an array that READSTR takes for a string, and what the host's system calls answer, are parameters;
--   an object that is read after it was deleted is the result `none`. The response of a walk is the
--   addresses that it is given. P9.Layout, Reading, Sent and
--   RoundTrip are on the way of a message, P9.Bounds on what a constructor reads, P9.Counted, Walks,
--   Share and Requests on the share under requests.
-- - Samples: a machine at which the theorems are tried, in the Tests modules.
--
-- Not modelled: the set-up of memory and of the threads (vmm.c), the `hyper-o` kernel module
-- (hyper-o/), of the guest kernel the shell, the interrupts and the network loop (kernel.c), of the
-- devices in C++ the responses of the file share, the graphics device and the constructors, and of
-- devices/utils the helpers in C. In the file share the branch of P9PATCH1 is left out, which the build
-- does not choose. The only fuel is that of `scratch_rounds` and `ram_rounds`, the number of a thread's
-- steps, and of `first_ready`, one pass over the four threads: what is stated of them says how many are
-- enough. Every other loop is a recursion on the list or the number that it counts.
pub mod Apic
pub mod Base
pub mod Broadcooom
pub mod DeviceBus
pub mod Dispatch
pub mod Irq
pub mod Kvm
pub mod Machine
pub mod Malloc
pub mod Net
pub mod P9
pub mod Run
pub mod Samples
pub mod Strings
pub mod Vga
pub mod Virtio
