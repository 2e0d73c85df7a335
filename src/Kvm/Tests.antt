-- ===== src/Kvm/Tests.antt =====
-- The exchange of registers at the reset state.
use dc2021f_ooows_public.Base.{◌≡◌, refl, true}
use dc2021f_ooows_public.Machine.{ok}
use dc2021f_ooows_public.Samples.{some_regs}
use dc2021f_ooows_public.Run.{code_segment}
use dc2021f_ooows_public.Kvm.{
  set_kvm_seg, get_kvm_seg, bit_or, or_all, set_regs, set_sregs, get_regs, get_sregs,
  get_vcpu_registers,
}

segment_run : get_kvm_seg (set_kvm_seg code_segment) ≡ code_segment
unfolding get_kvm_seg set_kvm_seg or_all bit_or
segment_run = refl

-- What is handed over comes back, if the host gives it back in both calls.
exchange_run :
    get_vcpu_registers (set_regs some_regs) (set_sregs some_regs) true true some_regs
    ≡ (some_regs, ok)
unfolding get_vcpu_registers set_regs set_sregs get_regs get_sregs get_kvm_seg set_kvm_seg or_all
    bit_or
exchange_run = refl
