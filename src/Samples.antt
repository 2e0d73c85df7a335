-- ===== src/Samples.antt =====
-- A machine at which the theorems are tried: CPU 0 runs, CPU 1 is halted, CPU 2 was never started,
-- and there is no CPU 3. The interrupt 4 goes to CPU 1 with vector 0x24.
use dc2021f_ooows_public.Base.{ℕ, Bool, true, false, none, some, List, [], ◌∷◌, replicate, set}
use dc2021f_ooows_public.Machine.{
  CpuState, running, not_started, halted, Segment, Regs, Vcpu, IoApic, Hv,
}

abbrev pub no_segment : Segment
no_segment = record { selector = 0; base = 0; limit = 0; flags = 0 }

abbrev pub some_regs : Regs
some_regs = record {
  gpr = replicate 8 0;
  eip = 0xfff0;
  eflags = 2;
  control = replicate 5 0;
  a20_mask = 0xffff_ffff;
  segment = replicate 6 no_segment;
  ldt = no_segment;
  tr = no_segment;
  gdt = no_segment;
  idt = no_segment;
  tpr = 0;
  apicbase = 0xfee00800;
  efer = 0;
}

abbrev pub cpu : ℕ → CpuState → Bool → Vcpu
cpu i s ready = record {
  id = i;
  driver_fd = 10;
  dirty = false;
  state = s;
  comm = record { ready_for_interrupt_injection = ready; request_interrupt_window = false };
  regs = some_regs;
  isr = 0;
}

abbrev pub ioapic_with : ℕ → List ℕ → IoApic
ioapic_with n queue = record {
  max_irqs = 32;
  irq_redir_table = set (replicate 32 0) 4 0x10024;
  nr_pending = n;
  interrupt_queue = queue;
}

abbrev pub machine : Hv
machine = record {
  vcpus =
      some (cpu 0 running true)
      ∷ some (cpu 1 halted true)
      ∷ some (cpu 2 not_started false)
      ∷ none
      ∷ [];
  nvcpus = 3;
  ioapic = ioapic_with 2 (4 ∷ 9 ∷ []);
  events = [];
}
