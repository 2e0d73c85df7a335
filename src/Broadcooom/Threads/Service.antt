-- ===== src/Broadcooom/Threads/Service.antt =====
-- The threads that serve the queues keep the balance, so it holds in every state that is reached.
use dc2021f_ooows_public.Base.{
  ℕ, zero, suc, ◌<◌, ◌≡◌, refl, ap, true, false, not, ◌&&◌, Option, none, some, List, [], ◌∷◌, ◌==◌,
  ltb, if◌then◌else◌, get_or, replicate, arith,
}
use dc2021f_ooows_public.Broadcooom.Types.{num_threads, MemoryJob, write}
use dc2021f_ooows_public.Broadcooom.Engine.{Engine, Held, microengine, object_words, ram_words}
use dc2021f_ooows_public.Broadcooom.Jobs.{
  handle_scratch, scratch_step, scratch_word, scratch_copied, scratch_get, handle_ram, ram_step,
  ram_get, mem_side, reg_side, next_round,
}
use dc2021f_ooows_public.Broadcooom.Threads.{
  Step, Reach, memory_jobs, fifo_jobs, held_jobs, IsBalanced,
}
use dc2021f_ooows_public.Broadcooom.Threads.Balance.{fifo_jobs-append, call-IsBalanced}
use dc2021f_ooows_public.Broadcooom.Threads.Instructions.{AllBalanced, by_test}
use dc2021f_ooows_public.Broadcooom.Threads.Rounds.{interpreter_round-AllBalanced}

scratch_step-AllBalanced :
    (e : Engine) (held : Option Held)
    → e.scratch_held ≡ held
    → IsBalanced e
    → AllBalanced (scratch_step e held)
scratch_step-AllBalanced e none h b = by_queue e.scratch_queue refl
  where
    by_queue :
        (queue : List MemoryJob)
        → e.scratch_queue ≡ queue
        → AllBalanced (some (scratch_get e queue))
    by_queue [] q = b
    by_queue (job ∷ rest) q = record {
      current = b.current;
      threads = b.threads;
      balance =
          λ c small. omega (arith, b.balance c small, ap (memory_jobs c) q, ap (held_jobs c) h);
    }
scratch_step-AllBalanced e (some held) h b =
    by_test (ltb held.i held.job.count) _ _ (λ more. by_words (scratch_word held e.object))
      (call-IsBalanced held.job.callback _ (record {
        current = b.current;
        threads = b.threads;
        balance = λ c small. omega (arith, b.balance c small, ap (held_jobs c) h);
      }))
  where
    by_words : (words : Option (ℕ → ℕ)) → AllBalanced (scratch_copied e held words)
    by_words none = tt
    by_words (some words) = record {
      current = b.current;
      threads = b.threads;
      balance = λ c small. omega (arith, b.balance c small, ap (held_jobs c) h);
    }

ram_step-AllBalanced :
    (e : Engine) (held : Option Held)
    → e.ram_held ≡ held
    → IsBalanced e
    → AllBalanced (ram_step e held)
ram_step-AllBalanced e none h b = by_queue e.ram_queue refl
  where
    by_queue : (queue : List MemoryJob) → e.ram_queue ≡ queue → AllBalanced (some (ram_get e queue))
    by_queue [] q = b
    by_queue (job ∷ rest) q = record {
      current = b.current;
      threads = b.threads;
      balance =
          λ c small. omega (arith, b.balance c small, ap (memory_jobs c) q, ap (held_jobs c) h);
    }
ram_step-AllBalanced e (some held) h b =
    by_test (ltb held.i held.job.count) _ _
      (λ more.
        by_test (not (ltb (mem_side held) ram_words && ltb (reg_side held) object_words)) _ _
          (λ out. tt) (by_test (held.job.direction == write) _ _ (λ w. copied _ _) (copied _ _)))
      (call-IsBalanced held.job.callback _ (record {
        current = b.current;
        threads = b.threads;
        balance = λ c small. omega (arith, b.balance c small, ap (held_jobs c) h);
      }))
  where
    copied :
        (object ram : ℕ → ℕ)
        → IsBalanced (record e { object = object; ram = ram; ram_held = some (next_round held) })
    copied object ram = record {
      current = b.current;
      threads = b.threads;
      balance = λ c small. omega (arith, b.balance c small, ap (held_jobs c) h);
    }

of_some : {o : Option Engine} (e : Engine) → AllBalanced o → o ≡ some e → IsBalanced e
of_some e all is = coe 0 1 (i. AllBalanced (is i)) all

step-IsBalanced : {e e' : Engine} → Step e e' → IsBalanced e → IsBalanced e'
unfolding handle_scratch handle_ram
step-IsBalanced (Step.interpret h) b = of_some _ (interpreter_round-AllBalanced _ b) h
step-IsBalanced {e = e} (Step.scratch h) b =
    of_some _ (scratch_step-AllBalanced e e.scratch_held refl b) h
step-IsBalanced {e = e} (Step.ram h) b = of_some _ (ram_step-AllBalanced e e.ram_held refl b) h
step-IsBalanced (Step.take_tx job h) b = record {
  current = b.current;
  threads = b.threads;
  balance = λ c small. omega (arith, b.balance c small, ap (fifo_jobs c) h);
}
step-IsBalanced (Step.take_rx job h) b = record {
  current = b.current;
  threads = b.threads;
  balance = λ c small. omega (arith, b.balance c small, ap (fifo_jobs c) h);
}
step-IsBalanced (Step.take_pkt_in job h) b = record {
  current = b.current;
  threads = b.threads;
  balance = λ c small. omega (arith, b.balance c small, ap (fifo_jobs c) h);
}
step-IsBalanced (Step.write_words object ram mac) b = record {
  current = b.current;
  threads = b.threads;
  balance = b.balance;
}
step-IsBalanced (Step.finish job front back size memory h) b =
    call-IsBalanced job.callback _ (record {
      current = b.current;
      threads = b.threads;
      balance = λ c small. omega (
        arith,
        b.balance c small,
        ap (fifo_jobs c) h,
        fifo_jobs-append c front (job ∷ back),
        fifo_jobs-append c front back,
      );
    })

all_ready :
    (c : ℕ)
    → c < num_threads
    → if◌then◌else◌ {A = ℕ} (get_or (replicate num_threads true) c false) 1 0 ≡ 1
all_ready zero small = refl
all_ready (suc zero) small = refl
all_ready (suc (suc zero)) small = refl
all_ready (suc (suc (suc zero))) small = refl
all_ready (suc (suc (suc (suc c)))) small = absurd (omega arith)

microengine-AllBalanced :
    (code : ℕ → ℕ) (code_len last_alu : ℕ) (ram : ℕ → ℕ)
    → AllBalanced (microengine code code_len last_alu ram)
unfolding microengine
microengine-AllBalanced code code_len last_alu ram =
    by_test (ltb 5120 code_len) _ _ (λ long. tt)
      (record {
        current = omega arith;
        threads = refl;
        balance = λ c small. omega (arith, all_ready c small);
      })

-- In every state that the engine and the threads around it reach from the constructor's, where each
-- job that is taken stays with its taker until it is called back, and where requests to send and
-- control messages write what they like to the words, the RAM and the address in between, each of the four threads is either
-- ready, with no job that would make it so, or not ready and named by the callback of exactly one
-- job that is queued, held or taken: none is woken twice, none is lost.
pub Reach-IsBalanced :
    (code : ℕ → ℕ) (code_len last_alu : ℕ) (ram : ℕ → ℕ) (start e : Engine)
    → microengine code code_len last_alu ram ≡ some start
    → Reach start e
    → IsBalanced e
unfolding microengine
Reach-IsBalanced code code_len last_alu ram start e made (Reach.next r s) =
    step-IsBalanced s (Reach-IsBalanced code code_len last_alu ram start _ made r)
Reach-IsBalanced code code_len last_alu ram start e made Reach.here =
    of_some _ (microengine-AllBalanced code code_len last_alu ram) made
