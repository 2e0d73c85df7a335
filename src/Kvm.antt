-- ===== src/Kvm.antt =====
-- The exchange of a CPU's registers with KVM, kvm/kvmstubs.c: `hvSetVcpuRegisters` and
-- `hvGetVcpuRegisters`, with the conversion of segments.
mod Tests
use dc2021f_ooows_public.Base.{
  ℕ, zero, suc, ◌+◌, ◌*◌, ◌/◌, ◌%◌, ◌^◌, Bool, true, false, not, ◌&&◌, List, [], ◌∷◌, ◌==◌,
  if◌then◌else◌, get_or, set,
}
use dc2021f_ooows_public.Machine.{Ret, ok, failed, Segment, Regs}

-- `struct kvm_segment` without `padding`; the flags are numbers of 8 bits.
pub record KvmSegment : Type 0 where
  pub selector : ℕ
  pub base : ℕ
  pub limit : ℕ
  pub kind : ℕ
  pub present : ℕ
  pub dpl : ℕ
  pub db : ℕ
  pub s : ℕ
  pub l : ℕ
  pub g : ℕ
  pub avl : ℕ
  pub unusable : ℕ

-- `n` bits of a number, from the bit `k` on
abbrev pub bits : ℕ → ℕ → ℕ → ℕ
bits k n flags = (flags / 2 ^ k) % 2 ^ n

abbrev pub truth : Bool → ℕ
truth b = if b then 1 else 0

-- `set_kvm_seg`; the selector has 16 bits there.
unfoldable pub set_kvm_seg : Segment → KvmSegment
set_kvm_seg rhs = record {
  selector = rhs.selector % 2 ^ 16;
  base = rhs.base;
  limit = rhs.limit;
  kind = bits 8 4 rhs.flags;
  present = bits 15 1 rhs.flags;
  dpl = bits 13 2 rhs.flags;
  db = bits 22 1 rhs.flags;
  s = bits 12 1 rhs.flags;
  l = bits 21 1 rhs.flags;
  g = bits 23 1 rhs.flags;
  avl = bits 20 1 rhs.flags;
  unusable = truth (bits 15 1 rhs.flags == 0);
}

-- The bitwise or of two numbers of `n` bits.
unfoldable pub bit_or : ℕ → ℕ → ℕ → ℕ
bit_or zero a b = 0
bit_or (suc n) a b = truth (not ((a % 2 == 0) && (b % 2 == 0))) + 2 * bit_or n (a / 2) (b / 2)

unfoldable pub or_all : List ℕ → ℕ
or_all [] = 0
or_all (a ∷ more) = bit_or 32 a (or_all more)

-- `get_kvm_seg`
unfoldable pub get_kvm_seg : KvmSegment → Segment
get_kvm_seg rhs = record {
  selector = rhs.selector;
  base = rhs.base;
  limit = rhs.limit;
  flags = or_all (
      rhs.kind * 2 ^ 8
      ∷ truth (not (rhs.present == 0) && (rhs.unusable == 0)) * 2 ^ 15
      ∷ rhs.dpl * 2 ^ 13
      ∷ rhs.db * 2 ^ 22
      ∷ rhs.s * 2 ^ 12
      ∷ rhs.l * 2 ^ 21
      ∷ rhs.g * 2 ^ 23
      ∷ rhs.avl * 2 ^ 20
      ∷ []);
}

-- `struct kvm_regs`, `struct kvm_dtable` and `struct kvm_sregs`, as far as they are used
pub record KvmRegs : Type 0 where
  pub rax : ℕ
  pub rbx : ℕ
  pub rcx : ℕ
  pub rdx : ℕ
  pub rsi : ℕ
  pub rdi : ℕ
  pub rsp : ℕ
  pub rbp : ℕ
  pub rip : ℕ
  pub rflags : ℕ

pub record KvmDtable : Type 0 where
  pub base : ℕ
  pub limit : ℕ

pub record KvmSregs : Type 0 where
  pub cs : KvmSegment
  pub ds : KvmSegment
  pub es : KvmSegment
  pub fs : KvmSegment
  pub gs : KvmSegment
  pub ss : KvmSegment
  pub tr : KvmSegment
  pub ldt : KvmSegment
  pub gdt : KvmDtable
  pub idt : KvmDtable
  pub cr0 : ℕ
  pub cr2 : ℕ
  pub cr3 : ℕ
  pub cr4 : ℕ
  pub cr8 : ℕ
  pub efer : ℕ
  pub apic_base : ℕ

abbrev pub null_segment : Segment
null_segment = record { selector = 0; base = 0; limit = 0; flags = 0 }

-- What `hvSetVcpuRegisters` hands over. The registers are numbered EAX, ECX, EDX, EBX, ESP, EBP,
-- ESI, EDI, and the segments ES, CS, SS, DS, FS, GS.
unfoldable pub set_regs : Regs → KvmRegs
set_regs r = record {
  rax = get_or r.gpr 0 0;
  rbx = get_or r.gpr 3 0;
  rcx = get_or r.gpr 1 0;
  rdx = get_or r.gpr 2 0;
  rsi = get_or r.gpr 6 0;
  rdi = get_or r.gpr 7 0;
  rsp = get_or r.gpr 4 0;
  rbp = get_or r.gpr 5 0;
  rip = r.eip;
  rflags = r.eflags;
}

unfoldable pub set_sregs : Regs → KvmSregs
unfolding set_kvm_seg
set_sregs r = record {
  cs = set_kvm_seg (get_or r.segment 1 null_segment);
  ds = set_kvm_seg (get_or r.segment 3 null_segment);
  es = set_kvm_seg (get_or r.segment 0 null_segment);
  fs = set_kvm_seg (get_or r.segment 4 null_segment);
  gs = set_kvm_seg (get_or r.segment 5 null_segment);
  ss = set_kvm_seg (get_or r.segment 2 null_segment);
  tr = set_kvm_seg r.tr;
  ldt = set_kvm_seg r.ldt;
  gdt = record { base = r.gdt.base; limit = r.gdt.limit % 2 ^ 16 };
  idt = record { base = r.idt.base; limit = r.idt.limit % 2 ^ 16 };
  cr0 = get_or r.control 0 0;
  cr2 = get_or r.control 2 0;
  cr3 = get_or r.control 3 0;
  cr4 = get_or r.control 4 0;
  cr8 = r.tpr / 2 ^ 4;
  efer = r.efer;
  apic_base = r.apicbase;
}

-- The first half of `hvGetVcpuRegisters`.
unfoldable pub get_regs : KvmRegs → Regs → Regs
get_regs k r = record r {
  gpr = k.rax ∷ k.rcx ∷ k.rdx ∷ k.rbx ∷ k.rsp ∷ k.rbp ∷ k.rsi ∷ k.rdi ∷ [];
  eip = k.rip;
  eflags = k.rflags;
}

-- The second half; the control register 1 is not touched, and `tpr` has 8 bits.
unfoldable pub get_sregs : KvmSregs → Regs → Regs
unfolding get_kvm_seg
get_sregs k r = record r {
  segment =
      get_kvm_seg k.es
      ∷ get_kvm_seg k.cs
      ∷ get_kvm_seg k.ss
      ∷ get_kvm_seg k.ds
      ∷ get_kvm_seg k.fs
      ∷ get_kvm_seg k.gs
      ∷ [];
  tr = get_kvm_seg k.tr;
  ldt = get_kvm_seg k.ldt;
  idt = record r.idt { base = k.idt.base; limit = k.idt.limit };
  gdt = record r.gdt { base = k.gdt.base; limit = k.gdt.limit };
  control = set (set (set (set r.control 0 k.cr0) 2 k.cr2) 3 k.cr3) 4 k.cr4;
  tpr = (k.cr8 * 2 ^ 4) % 2 ^ 8;
  apicbase = k.apic_base % 2 ^ 32;
  efer = k.efer;
}

-- `hvGetVcpuRegisters`, given what the host answers to `KVM_GET_REGS` and whether the two calls
-- succeed. The second call gets the structure `sr` and not its address, which is undefined: `sr` is
-- what the variable holds after it, whatever that is.
unfoldable pub get_vcpu_registers :
    KvmRegs → (sr : KvmSregs) → (regs_ok sregs_ok : Bool) → Regs → Regs × Ret
unfolding get_regs get_sregs
get_vcpu_registers k sr false sregs_ok r = (r, failed)
get_vcpu_registers k sr true false r = (get_regs k r, failed)
get_vcpu_registers k sr true true r = (get_sregs sr (get_regs k r), ok)
