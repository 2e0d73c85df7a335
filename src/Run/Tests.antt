-- ===== src/Run/Tests.antt =====
-- The theorems on the life of a CPU at the test machine.
use dc2021f_ooows_public.Base.{ℕ, ◌≡◌, refl, Bool, true, none, some, [], ◌∷◌}
use dc2021f_ooows_public.Machine.{running, Vcpu}
use dc2021f_ooows_public.Samples.{cpu, machine}
use dc2021f_ooows_public.Dispatch.{whole, part, got, short, IoRequest, Answer, Spawn, Bus}
use dc2021f_ooows_public.Run.{x86_cpu_reset, any_running, waits, wait_for_sipi}

abbrev host : ℕ → ℕ → Bool
host fd vector = true

abbrev echo : ℕ → IoRequest → Answer
echo fd io = record { sent = whole; received = got 0 }

abbrev no_process : Spawn
no_process = record { sockets = none; child = 0; hello = short; reply = part }

abbrev bus : Bus
bus = record { hv = machine; devices = [] }

-- A machine with one CPU, for which two interrupts wait.
abbrev single : Bus
single = record {
  hv = record machine { vcpus = some (cpu 0 running true) ∷ []; nvcpus = 1 };
  devices = [];
}

abbrev reset_cpu : Vcpu
reset_cpu = record (cpu 0 running true) { regs = x86_cpu_reset true }

wait_run : wait_for_sipi machine ≡ some waits
unfolding wait_for_sipi any_running
wait_run = refl
