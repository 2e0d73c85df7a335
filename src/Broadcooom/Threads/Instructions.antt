-- ===== src/Broadcooom/Threads/Instructions.antt =====
-- The instructions keep the balance.
use dc2021f_ooows_public.Base.{
  ℕ, ◌≡◌, refl, Bool, true, false, ◌&&◌, ◌||◌, Option, none, some, [], ◌∷◌, ◌==◌, leb,
  if◌then◌else◌, get_or, arith,
}
use dc2021f_ooows_public.Broadcooom.Opcode
use dc2021f_ooows_public.Broadcooom.Types.{
  opcode, alu_inst, immediate_inst, memory_inst, branch_inst, load_inst, fifo_inst, csr_inst,
  MemoryJob, FifoJob, Memory, Fifo, Alu, Branch, Load, Immediate, Csr,
}
use dc2021f_ooows_public.Broadcooom.Engine.{Engine, register, reg_value, set_reg}
use dc2021f_ooows_public.Broadcooom.Alu.{interpret_alu, alu_result, with_result}
use dc2021f_ooows_public.Broadcooom.Fields.{
  interpret_immediate, interpret_load, loaded, cleared, interpret_csr,
}
use dc2021f_ooows_public.Broadcooom.Jobs.{
  interpret_memory, interpret_fifo, put, disabled, swapped, queued, fifo_queued, memory_job,
  fifo_job, bad_register,
}
use dc2021f_ooows_public.Broadcooom.Interp.{
  interpret_branch, goes_to_target, set_pc, interpret_instruction,
}
use dc2021f_ooows_public.Broadcooom.Threads.{IsBalanced}
use dc2021f_ooows_public.Broadcooom.Threads.Balance.{
  memory_jobs-put, fifo_jobs-append, IsWaiting, disabled-IsWaiting, next_context-IsBalanced,
  swapped-IsBalanced,
}

-- Whatever a step returns is balanced.
abbrev pub AllBalanced : Option Engine → Type 0
AllBalanced none = Unit {0}
AllBalanced (some e) = IsBalanced e

-- A change of the memory, the flags and the counters alone.
alu-AllBalanced : (e : Engine) (a : Alu) → IsBalanced e → AllBalanced (interpret_alu e a)
unfolding interpret_alu
alu-AllBalanced e a b = by_kind ((a.opcode == Opcode.alu) || (a.opcode == Opcode.alu_shf)) (
    alu_result e.carry e.sign a.kind (reg_value e (register e a.src_1))
      (reg_value e (register e a.src_2)))
  where
    by_kind :
        (known : Bool) (result : Option ℕ)
        → AllBalanced (
            if known
            then elim result [ none ↦ none | some r ↦ some (with_result e a r) ]
            else some e)
    by_kind false result = b
    by_kind true none = tt
    by_kind true (some r) = record { current = b.current; threads = b.threads; balance = b.balance }

immediate-IsBalanced :
    (e : Engine) (i : Immediate) → IsBalanced e → IsBalanced (interpret_immediate e i)
unfolding interpret_immediate
immediate-IsBalanced e i b = record {
  current = b.current;
  threads = b.threads;
  balance = b.balance;
}

csr-IsBalanced : (e : Engine) (c : Csr) → IsBalanced e → IsBalanced (interpret_csr e c)
unfolding interpret_csr
csr-IsBalanced e c b = record { current = b.current; threads = b.threads; balance = b.balance }

cleared-IsBalanced : (e : Engine) (l : Load) → IsBalanced e → IsBalanced (cleared e l)
cleared-IsBalanced e l b =
    elim (l.opcode == Opcode.ld_field_w_clr)
      as (λ t. IsBalanced (if t then set_reg e (register e l.dst) 0 else e)) [
        | true ↦ record { current = b.current; threads = b.threads; balance = b.balance }
        | false ↦ b
      ]

load-IsBalanced : (e : Engine) (l : Load) → IsBalanced e → IsBalanced (interpret_load e l)
unfolding interpret_load
load-IsBalanced e l b =
    let c = cleared-IsBalanced e l b in
    elim ((l.opcode == Opcode.ld_field) || (l.opcode == Opcode.ld_field_w_clr))
      as (λ t. IsBalanced (if t then loaded e l else e)) [
        | true ↦ record { current = c.current; threads = c.threads; balance = c.balance }
        | false ↦ b
      ]

branch-IsBalanced : (e : Engine) (i : Branch) → IsBalanced e → IsBalanced (interpret_branch e i)
unfolding interpret_branch
branch-IsBalanced e i b =
    elim (goes_to_target i.opcode e.current_ctx (reg_value e (register e i.src_1))
        (reg_value e (register e i.src_2)))
      as (λ t. IsBalanced (if t then set_pc e i.target else e)) [
        | true ↦ record { current = b.current; threads = b.threads; balance = b.balance }
        | false ↦ b
      ]

queued-IsBalanced :
    (e : Engine) (m : Memory) (job : MemoryJob)
    → IsWaiting job.callback e
    → ((m.opcode == Opcode.scratch) || (m.opcode == Opcode.ram)) ≡ true
    → IsBalanced (queued e m job)
queued-IsBalanced e m job w known =
    by_opcode (m.opcode == Opcode.scratch) (m.opcode == Opcode.ram) known
  where
    by_opcode :
        (scratch ram : Bool)
        → (scratch || ram) ≡ true
        → IsBalanced (
            if scratch
            then record e { scratch_queue = put e.scratch_queue job }
            else if ram
            then record e { ram_queue = put e.ram_queue job }
            else e)
    by_opcode true ram h = record {
      current = w.current;
      threads = w.threads;
      balance = λ c small. omega (arith, w.balance c small, memory_jobs-put c e.scratch_queue job);
    }
    by_opcode false true h = record {
      current = w.current;
      threads = w.threads;
      balance = λ c small. omega (arith, w.balance c small, memory_jobs-put c e.ram_queue job);
    }
    by_opcode false false h = absurd (ground arith)

memory-IsBalanced :
    (e : Engine) (m : Memory)
    → IsBalanced e
    → get_or e.ctx_ready e.current_ctx false ≡ true
    → ((m.opcode == Opcode.scratch) || (m.opcode == Opcode.ram)) ≡ true
    → IsBalanced (interpret_memory e m)
unfolding interpret_memory
memory-IsBalanced e m b flag known =
    elim (bad_register e m)
      as (λ t.
        IsBalanced
          (if t then e else swapped m.token (queued (disabled e m.token) m (memory_job e m)))) [
            | true ↦ b
            | false ↦
                swapped-IsBalanced m.token _ (
                  queued-IsBalanced _ m (memory_job e m) (disabled-IsWaiting e m.token b flag)
                    known)
          ]

append-IsBalanced :
    (e : Engine) (f : Fifo) (job : FifoJob)
    → IsWaiting job.callback e
    → ((f.opcode == Opcode.t_fifo_wr)
        || ((f.opcode == Opcode.r_fifo_rd) || (f.opcode == Opcode.rx_pkt)))
      ≡ true
    → IsBalanced (fifo_queued e f job)
append-IsBalanced e f job w known =
    by_opcode (f.opcode == Opcode.t_fifo_wr) (f.opcode == Opcode.r_fifo_rd)
      (f.opcode == Opcode.rx_pkt) known
  where
    by_opcode :
        (tx rx pkt : Bool)
        → (tx || (rx || pkt)) ≡ true
        → IsBalanced (
            if tx
            then record e { tx_queue = put e.tx_queue job }
            else if rx
            then record e { rx_queue = put e.rx_queue job }
            else if pkt
            then record e { pkt_in_queue = put e.pkt_in_queue job }
            else e)
    by_opcode true rx pkt h = record {
      current = w.current;
      threads = w.threads;
      balance =
          λ c small. omega (arith, w.balance c small, fifo_jobs-append c e.tx_queue (job ∷ []));
    }
    by_opcode false true pkt h = record {
      current = w.current;
      threads = w.threads;
      balance =
          λ c small. omega (arith, w.balance c small, fifo_jobs-append c e.rx_queue (job ∷ []));
    }
    by_opcode false false true h = record {
      current = w.current;
      threads = w.threads;
      balance =
          λ c small. omega (arith, w.balance c small, fifo_jobs-append c e.pkt_in_queue (job ∷ []));
    }
    by_opcode false false false h = absurd (ground arith)

fifo-IsBalanced :
    (e : Engine) (f : Fifo)
    → IsBalanced e
    → get_or e.ctx_ready e.current_ctx false ≡ true
    → ((f.opcode == Opcode.t_fifo_wr)
        || ((f.opcode == Opcode.r_fifo_rd) || (f.opcode == Opcode.rx_pkt)))
      ≡ true
    → IsBalanced (interpret_fifo e f)
unfolding interpret_fifo
fifo-IsBalanced e f b flag known =
    swapped-IsBalanced f.token _
      (append-IsBalanced _ f (fifo_job e f) (disabled-IsWaiting e f.token b flag) known)

pub by_test :
    (t : Bool) (x y : Option Engine)
    → (t ≡ true → AllBalanced x)
    → AllBalanced y
    → AllBalanced (if t then x else y)
by_test true x y p q = p refl
by_test false x y p q = q

-- An instruction of a thread that was ready.
pub instruction-AllBalanced :
    (e : Engine) (inst : ℕ)
    → IsBalanced e
    → get_or e.ctx_ready e.current_ctx false ≡ true
    → AllBalanced (interpret_instruction e inst)
unfolding interpret_instruction
instruction-AllBalanced e inst b flag =
    by_test (leb (opcode inst) Opcode.dbl_shf) _ _ (λ h. alu-AllBalanced e (alu_inst inst) b)
      (by_test (leb Opcode.immed (opcode inst) && leb (opcode inst) Opcode.immed_w1) _ _
        (λ h. immediate-IsBalanced e (immediate_inst inst) b)
        (by_test ((opcode inst == Opcode.scratch) || (opcode inst == Opcode.ram)) _ _
          (λ h. memory-IsBalanced e (memory_inst inst) b flag h)
          (by_test (leb Opcode.br (opcode inst) && leb (opcode inst) Opcode.br_not_signal) _ _
            (λ h. branch-IsBalanced e (branch_inst inst) b)
            (by_test ((opcode inst == Opcode.ld_field) || (opcode inst == Opcode.ld_field_w_clr)) _
              _ (λ h. load-IsBalanced e (load_inst inst) b)
              (by_test
                ((opcode inst == Opcode.t_fifo_wr)
                  || ((opcode inst == Opcode.r_fifo_rd) || (opcode inst == Opcode.rx_pkt)))
                _ _ (λ h. fifo-IsBalanced e (fifo_inst inst) b flag h)
                (by_test (opcode inst == Opcode.ctx_arb) _ _ (λ h. next_context-IsBalanced e b)
                  (by_test (opcode inst == Opcode.csr) _ _ (λ h. csr-IsBalanced e (csr_inst inst) b)
                    b)))))))
