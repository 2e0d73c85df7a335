-- ===== src/Broadcooom/Threads/Balance.antt =====
-- Every step keeps the balance of ready threads and jobs.
use dc2021f_ooows_public.Base.{
  ℕ, ◌+◌, ◌≤◌, ◌<◌, ◌≡◌, ap, ◌∙◌, Bool, true, false, ◌⊎◌, inl, inr, Bool-cases, Option, none, some,
  List, [], ◌∷◌, ◌++◌, ◌==◌, if◌then◌else◌, length, get_or, set, length-set, arith, ==_iff,
}
use dc2021f_ooows_public.Machine.Laws.{get_or-set_self, get_or-set_ne}
use dc2021f_ooows_public.Broadcooom.Types.{num_threads, ctx_swap, MemoryJob, FifoJob}
use dc2021f_ooows_public.Broadcooom.Engine.{Engine, next_context}
use dc2021f_ooows_public.Broadcooom.Jobs.{call, put, disabled, swapped, callback_of}
use dc2021f_ooows_public.Broadcooom.Threads.{
  for_thread, memory_jobs, fifo_jobs, pending, ready, IsBalanced,
}

pub memory_jobs-put :
    (c : ℕ) (jobs : List MemoryJob) (job : MemoryJob)
    → memory_jobs c (put jobs job) ≡ memory_jobs c jobs + for_thread c job.callback
memory_jobs-put c [] job = omega arith
memory_jobs-put c (j ∷ jobs) job = omega (arith, memory_jobs-put c jobs job)

pub fifo_jobs-append :
    (c : ℕ) (front back : List FifoJob)
    → fifo_jobs c (front ++ back) ≡ fifo_jobs c front + fifo_jobs c back
fifo_jobs-append c [] back = omega arith
fifo_jobs-append c (j ∷ front) back = omega (arith, fifo_jobs-append c front back)

-- Reading a thread's flag after one has been set.
pub ready-set :
    (flags : List Bool) (ctx c : ℕ) (b : Bool)
    → ctx < length flags
    → get_or (set flags ctx b) c false ≡ (if c == ctx then b else get_or flags c false)
ready-set flags ctx c b h = elim (Bool-cases (c == ctx)) [
  | inl same ↦ rw same (
      ap (λ i. get_or (set flags ctx b) i false) ((==_iff c ctx).0 same)
      ∙ get_or-set_self flags ctx b false h)
  | inr other ↦ rw other (get_or-set_ne flags ctx c b false (λ e. ground arith))
]

-- The balance of a state in which a job with this callback is counted besides.
pub record IsWaiting (callback : Option ℕ) (e : Engine) : Type 0 where
  pub current : e.current_ctx < num_threads
  pub threads : length e.ctx_ready ≡ num_threads
  pub balance : (c : ℕ) → c < num_threads → ready c e + pending c e + for_thread c callback ≡ 1

-- A finished job makes its thread ready.
ready-call :
    (c ctx : ℕ) (e : Engine)
    → length e.ctx_ready ≡ num_threads
    → c < num_threads
    → ready c e + for_thread c (some ctx) ≤ 1
    → ready c (call (some ctx) e) ≡ ready c e + for_thread c (some ctx)
ready-call c ctx e threads small once = elim (Bool-cases (c == ctx)) [
  | inl same ↦
      let at : c ≡ ctx = (==_iff c ctx).0 same in
      ground (arith, ready-set e.ctx_ready ctx c true (omega arith))
  | inr other ↦ ground (arith, get_or-set_ne e.ctx_ready ctx c true false (λ e. ground arith))
]

pub call-IsBalanced :
    (callback : Option ℕ) (e : Engine) → IsWaiting callback e → IsBalanced (call callback e)
call-IsBalanced none e w = record {
  current = w.current;
  threads = w.threads;
  balance = λ c small. omega (arith, w.balance c small);
}
call-IsBalanced (some ctx) e w = record {
  current = w.current;
  threads = length-set e.ctx_ready ctx true ∙ w.threads;
  balance = λ c small.
      let before : ready c e + pending c e + for_thread c (some ctx) ≡ 1 = w.balance c small in
      omega (arith, ready-call c ctx e w.threads small (omega arith));
}

ready-disabled :
    (c : ℕ) (e : Engine)
    → length e.ctx_ready ≡ num_threads
    → e.current_ctx < num_threads
    → get_or e.ctx_ready e.current_ctx false ≡ true
    → ready c (disabled e ctx_swap) + for_thread c (some e.current_ctx) ≡ ready c e
ready-disabled c e threads current flag = elim (Bool-cases (c == e.current_ctx)) [
  | inl same ↦
      let at : c ≡ e.current_ctx = (==_iff c e.current_ctx).0 same in
      let flag_c : get_or e.ctx_ready c false ≡ true =
        ap (λ (i : ℕ). get_or e.ctx_ready i false) at ∙ flag in
      ground (arith, ready-set e.ctx_ready e.current_ctx c false (omega arith))
  | inr other ↦
      ground (arith, get_or-set_ne e.ctx_ready e.current_ctx c false false (λ e. ground arith))
]

-- A running thread that gives up the processor is counted with its job.
pub disabled-IsWaiting :
    (e : Engine) (token : ℕ)
    → IsBalanced e
    → get_or e.ctx_ready e.current_ctx false ≡ true
    → IsWaiting (callback_of e token) (disabled e token)
disabled-IsWaiting e token b flag = by_token (Bool-cases (token == ctx_swap))
  where
    by_token :
        ((token == ctx_swap) ≡ true) ⊎ ((token == ctx_swap) ≡ false)
        → IsWaiting (callback_of e token) (disabled e token)
    by_token (inl swap) = rw swap (record {
      current = b.current;
      threads = length-set e.ctx_ready e.current_ctx false ∙ b.threads;
      balance =
          λ c small. omega (arith, b.balance c small, ready-disabled c e b.threads b.current flag);
    })
    by_token (inr stay) = rw stay (record {
      current = b.current;
      threads = b.threads;
      balance = λ c small. omega (arith, b.balance c small);
    })

pub next_context-IsBalanced : (e : Engine) → IsBalanced e → IsBalanced (next_context e)
next_context-IsBalanced e b = record {
  current = omega arith;
  threads = b.threads;
  balance = b.balance;
}

pub swapped-IsBalanced : (token : ℕ) (e : Engine) → IsBalanced e → IsBalanced (swapped token e)
swapped-IsBalanced token e b =
    elim (token == ctx_swap) as (λ t. IsBalanced (if t then next_context e else e)) [
      | true ↦ next_context-IsBalanced e b
      | false ↦ b
    ]
