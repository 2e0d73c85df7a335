-- ===== src/Irq/Tests.antt =====
-- The theorems on interrupts at concrete machines, and runs of the code there.
use dc2021f_ooows_public.Base.{
  ℕ, ◌-◌, ◌<◌, ◌≡◌, refl, Bool, true, false, some, List, [], ◌∷◌, ◌++◌, arith, replicate, take,
}
use dc2021f_ooows_public.Base.Bits.{test_bit, set_bit}
use dc2021f_ooows_public.Machine.{ok, failed, Vcpu, IoApic, Hv, vcpu_at}
use dc2021f_ooows_public.Samples.{ioapic_with, machine}
use dc2021f_ooows_public.Apic.{lapic_mmio_write}
use dc2021f_ooows_public.Irq.{ioapic_thread, send_interrupt, send_to, deliver, wake}
use dc2021f_ooows_public.Irq.Queue.{
  IsCounted, Call, arrive, fetch, fifo_run, run, run_refines, allocated, thread_lem,
}
use dc2021f_ooows_public.Irq.Send.{Delivered, send-Delivered}
use dc2021f_ooows_public.Irq.Service.{sends, send_again, send_after_eoi}

abbrev accept_all : ℕ → ℕ → Bool
accept_all fd vector = true

abbrev queue : IoApic
queue = ioapic_with 2 (4 ∷ 9 ∷ [])

queue-IsCounted_here : IsCounted queue
queue-IsCounted_here = omega arith

abbrev script : List Call
script = arrive true 7 ∷ fetch ∷ arrive false 8 ∷ fetch ∷ fetch ∷ fetch ∷ []

run_refines_example : run queue script ≡ fifo_run (4 ∷ 9 ∷ []) script
run_refines_example = run_refines script queue-IsCounted_here

thread_lem_example :
    let a' = ioapic_thread queue ((true, 1) ∷ (false, 2) ∷ (true, 3) ∷ []) in
    IsCounted a'
    × (a'.interrupt_queue
        ≡ (4 ∷ 9 ∷ []) ++ take (256 - 2) (allocated ((true, 1) ∷ (false, 2) ∷ (true, 3) ∷ [])))
thread_lem_example = thread_lem ((true, 1) ∷ (false, 2) ∷ (true, 3) ∷ []) queue-IsCounted_here

abbrev fresh : IoApic
fresh = record {
  max_irqs = 32;
  irq_redir_table = replicate 32 0;
  nr_pending = 0;
  interrupt_queue = [];
}

-- The machine after interrupt 4 has been sent: CPU 1 has woken and has it in service.
abbrev sent : Hv
unfolding send_interrupt send_to deliver wake test_bit set_bit
sent = (send_interrupt accept_all machine 4).0

sent_ok : send_interrupt accept_all machine 4 ≡ (sent, ok)
unfolding sent
sent_ok = refl

send-Delivered_example :
    (1 < 3)
    × ((v : Vcpu) × (vcpu_at machine 1 ≡ some v) × Delivered accept_all machine 4 0x24 1 v sent)
send-Delivered_example = send-Delivered accept_all machine 4 sent_ok

-- Another interrupt comes in between, and the host has no room for the next.
abbrev between : List ((ℕ → ℕ → Bool) × ℕ)
between = (accept_all, 9) ∷ (λ fd vector. false, 5) ∷ []

send_again_example : (send_interrupt accept_all (sends sent between) 4).1 ≡ failed
send_again_example = send_again accept_all machine 4 between accept_all sent_ok

send_after_eoi_example :
    (send_interrupt accept_all (lapic_mmio_write (sends sent between) 1 0xfee00008 36) 4).1 ≡ ok
send_after_eoi_example =
    send_after_eoi accept_all machine 4 between accept_all 0xfee00008 36 refl refl (λ fd. refl)
      sent_ok
