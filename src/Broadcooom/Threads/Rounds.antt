-- ===== src/Broadcooom/Threads/Rounds.antt =====
-- The search for a thread and the rounds of the interpreter keep the balance.
use dc2021f_ooows_public.Base.{
  ℕ, zero, suc, ◌+◌, ◌%◌, ◌^◌, ◌<◌, ◌≡◌, refl, Bool, true, false, Option, none, some, List, leb,
  if◌then◌else◌, get_or, arith,
}
use dc2021f_ooows_public.Broadcooom.Types.{num_threads}
use dc2021f_ooows_public.Broadcooom.Engine.{Engine, first_ready, thread_ready_to_run}
use dc2021f_ooows_public.Broadcooom.Interp.{
  set_pc, interpreter_round, run_thread, fetch, interpret_fetched,
}
use dc2021f_ooows_public.Broadcooom.Threads.{IsBalanced}
use dc2021f_ooows_public.Broadcooom.Threads.Instructions.{
  AllBalanced, by_test, instruction-AllBalanced,
}

-- A thread that is found is one of the four and is ready.
abbrev pub FoundReady : List Bool → Option ℕ → Type 0
FoundReady flags none = Unit {0}
FoundReady flags (some found) = (found < num_threads) × (get_or flags found false ≡ true)

pub first_ready-FoundReady :
    (rounds : ℕ) (flags : List Bool) (ctx : ℕ)
    → ctx < num_threads
    → FoundReady flags (first_ready rounds flags ctx)
unfolding first_ready
first_ready-FoundReady zero flags ctx small = tt
first_ready-FoundReady (suc rounds) flags ctx small =
    by_flag _ (get_or flags ctx false) refl
      (first_ready-FoundReady rounds flags ((ctx + 1) % num_threads) (omega arith))
  where
    by_flag :
        (rest : Option ℕ) (b : Bool)
        → get_or flags ctx false ≡ b
        → FoundReady flags rest
        → FoundReady flags (if b then some ctx else rest)
    by_flag rest true h r = (small, h)
    by_flag rest false h r = r

run_thread-AllBalanced :
    (e : Engine) (found : Option ℕ)
    → IsBalanced e
    → FoundReady e.ctx_ready found
    → AllBalanced (run_thread e found)
unfolding run_thread
run_thread-AllBalanced e none b h = b
run_thread-AllBalanced e (some ctx) b (small, flag) =
    let pc = get_or e.pc_ctx ctx 0 in
    let e' = set_pc (record e { current_ctx = ctx }) ((pc + 1) % 2 ^ 32) in
    let b' : IsBalanced e' = record { current = small; threads = b.threads; balance = b.balance } in
    by_test (leb e.code_len pc) _ _
      (λ late. record { current = small; threads = b.threads; balance = b.balance })
      (by_word (fetch e' pc) b' flag)
  where
    by_word :
        {e'' : Engine} (word : Option ℕ)
        → IsBalanced e''
        → get_or e''.ctx_ready e''.current_ctx false ≡ true
        → AllBalanced (interpret_fetched e'' word)
    by_word none b'' h = tt
    by_word (some inst) b'' h = instruction-AllBalanced _ inst b'' h

pub interpreter_round-AllBalanced : (e : Engine) → IsBalanced e → AllBalanced (interpreter_round e)
unfolding interpreter_round
interpreter_round-AllBalanced e b =
    by_test e.done _ _ (λ stopped. b)
      (run_thread-AllBalanced e (thread_ready_to_run e) b
        (first_ready-FoundReady num_threads e.ctx_ready e.current_ctx b.current))
