-- ===== src/Broadcooom/Threads/Waits.antt =====
-- When the interpreter finds no thread to run, and what its search finds otherwise.
use dc2021f_ooows_public.Base.{
  ℕ, zero, suc, ◌+◌, ◌%◌, ◌<◌, ◌≡◌, ◌≢◌, refl, sym, ap, ◌∙◌, ◌-◌, Bool, true, false, Option, none,
  some, List, if◌then◌else◌, get_or, arith,
}
use dc2021f_ooows_public.Broadcooom.Types.{num_threads}
use dc2021f_ooows_public.Broadcooom.Engine.{Engine, microengine, first_ready, thread_ready_to_run}
use dc2021f_ooows_public.Broadcooom.Threads.{Reach, pending, ready, IsBalanced}
use dc2021f_ooows_public.Broadcooom.Threads.Rounds.{FoundReady, first_ready-FoundReady}
use dc2021f_ooows_public.Broadcooom.Threads.Service.{Reach-IsBalanced}

none_some : (c : ℕ) → ◌≢◌ {A = Option ℕ} none (some c)
none_some c h = ground arith

-- The thread that the search looks at in round `i`.
abbrev seen : ℕ → ℕ → ℕ
seen ctx i = (ctx + i) % num_threads

first_ready-some :
    (rounds : ℕ) (flags : List Bool) (ctx i : ℕ)
    → ctx < num_threads
    → i < rounds
    → get_or flags (seen ctx i) false ≡ true
    → (found : ℕ) × (first_ready rounds flags ctx ≡ some found)
unfolding first_ready
first_ready-some zero flags ctx i small below h = absurd (omega arith)
first_ready-some (suc rounds) flags ctx i small below h =
    by_flag (first_ready-some rounds flags ((ctx + 1) % num_threads)) (get_or flags ctx false) refl
      i below h
  where
    by_flag :
        ((i : ℕ)
          → (ctx + 1) % num_threads < num_threads
          → i < rounds
          → get_or flags (seen ((ctx + 1) % num_threads) i) false ≡ true
          → (found : ℕ) × (first_ready rounds flags ((ctx + 1) % num_threads) ≡ some found))
        → (b : Bool) → get_or flags ctx false ≡ b
        → (i : ℕ) → i < suc rounds
        → get_or flags (seen ctx i) false ≡ true
        → (found : ℕ) × ((if b
              then some ctx
              else first_ready rounds flags ((ctx + 1) % num_threads))
            ≡ some found)
    by_flag ih true f i below h = (ctx, refl)
    by_flag ih false f zero below h =
        let at : ctx ≡ seen ctx 0 = omega arith in
        let same : get_or flags ctx false ≡ get_or flags (seen ctx 0) false =
          ap (λ (c : ℕ). get_or flags c false) at in
        absurd (ground arith)
    by_flag ih false f (suc i) below h =
        let at : seen ((ctx + 1) % num_threads) i ≡ seen ctx (suc i) = omega arith in
        ih i (omega arith) (omega arith) (ap (λ (c : ℕ). get_or flags c false) at ∙ h)

-- As long as one of the four threads is ready, one pass over them ends with a thread that is ready;
-- the loop does not sleep.
pub thread_ready_to_run-finds :
    (e : Engine) (c : ℕ)
    → e.current_ctx < num_threads
    → c < num_threads
    → get_or e.ctx_ready c false ≡ true
    → (found : ℕ) × (thread_ready_to_run e ≡ some found)
      × (found < num_threads)
      × (get_or e.ctx_ready found false ≡ true)
thread_ready_to_run-finds e c current small flag = (found.0, found.1, is_ready.0, is_ready.1)
  where
    at : c ≡ seen e.current_ctx ((c + num_threads - e.current_ctx) % num_threads)
    at = omega arith

    found : (found : ℕ) × (thread_ready_to_run e ≡ some found)
    found =
        first_ready-some num_threads e.ctx_ready e.current_ctx
          ((c + num_threads - e.current_ctx) % num_threads) current (omega arith)
          (ap (λ (c : ℕ). get_or e.ctx_ready c false) (sym at) ∙ flag)

    is_ready : FoundReady e.ctx_ready (some found.0)
    is_ready =
        coe 0 1 (i. FoundReady e.ctx_ready (found.1 i))
          (first_ready-FoundReady num_threads e.ctx_ready e.current_ctx current)

-- In a state that is reached from the constructor's and in which the interpreter finds no thread to
-- run, every one of the four threads is named by the callback of exactly one job.
pub thread_ready_to_run-waits :
    (code : ℕ → ℕ) (code_len last_alu : ℕ) (ram : ℕ → ℕ) (start e : Engine)
    → microengine code code_len last_alu ram ≡ some start
    → Reach start e
    → thread_ready_to_run e ≡ none
    → (c : ℕ) → c < num_threads
    → pending c e ≡ 1
thread_ready_to_run-waits code code_len last_alu ram start e made reached idle c small =
    let b : IsBalanced e = Reach-IsBalanced code code_len last_alu ram start e made reached in
    by_flag b (get_or e.ctx_ready c false) refl
  where
    by_flag : IsBalanced e → (flag : Bool) → get_or e.ctx_ready c false ≡ flag → pending c e ≡ 1
    by_flag b true h =
        let found = thread_ready_to_run-finds e c b.current small h in
        absurd (none_some found.0 (sym idle ∙ found.1))
    by_flag b false h = let unready : ready c e ≡ 0 = rw h refl in omega (arith, b.balance c small)
