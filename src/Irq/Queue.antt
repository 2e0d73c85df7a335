-- ===== src/Irq/Queue.antt =====
-- `queueInterrupt`, `dequeueInterrupt` and the I/O APIC thread against a bounded queue.
use dc2021f_ooows_public.Base.{
  ℕ, suc, ◌+◌, ◌-◌, ◌≤◌, ◌<◌, ◌≡◌, refl, ap, sym, ◌∙◌, Bool, true, false, ◌&&◌, Option, none, some,
  List, [], ◌∷◌, ◌++◌, arith, length, length-append, take, take-nil, replicate, inl, inr,
  Bool-cases, ltb, ltb→lt, if◌then◌else◌,
}
use mathlib.Core.Path.{subst}
use mathlib.Core.List.{append-nil, append_assoc}
use dc2021f_ooows_public.Machine.{Ret, ok, failed, IoApic}
use dc2021f_ooows_public.Irq.{
  queue_max_interrupts, init_ioapic, link_last, enqueue, queue_interrupt, dequeue_interrupt,
  ioapic_thread,
}

-- The count is the length of the linked list, which has at most 256 nodes.
pub record IsCounted (a : IoApic) : Type 0 where
  pub counted : a.nr_pending ≡ length a.interrupt_queue
  pub bounded : length a.interrupt_queue ≤ queue_max_interrupts

link_last-append :
    (cur : ℕ) (rest : List ℕ) (entry : ℕ) → link_last cur rest entry ≡ cur ∷ rest ++ (entry ∷ [])
unfolding link_last
link_last-append cur [] entry = refl
link_last-append cur (next ∷ rest) entry = ap (λ t. cur ∷ t) (link_last-append next rest entry)

pub enqueue-append : (queue : List ℕ) (entry : ℕ) → enqueue queue entry ≡ queue ++ (entry ∷ [])
enqueue-append [] entry = refl
enqueue-append (cur ∷ rest) entry = link_last-append cur rest entry

length-enqueue : (queue : List ℕ) (entry : ℕ) → length (enqueue queue entry) ≡ length queue + 1
length-enqueue queue entry =
    ap length (enqueue-append queue entry) ∙ length-append queue (entry ∷ [])

pub queue-IsCounted :
    {a : IoApic} (calloc_ok : Bool) (irq : ℕ)
    → IsCounted a
    → IsCounted (queue_interrupt a calloc_ok irq).0
unfolding queue_interrupt
queue-IsCounted {a} calloc_ok irq v = ground (arith, length-enqueue a.interrupt_queue irq)

pub dequeue-IsCounted : {a : IoApic} → IsCounted a → IsCounted (dequeue_interrupt a).0
unfolding dequeue_interrupt
dequeue-IsCounted v = ground arith

-- The abstract queue: what arrives is appended while fewer than 256 wait, what is fetched is the
-- oldest.
pub data Call : Type 0 where
  arrive : Bool → ℕ → Call
  fetch : Call

pub data Reply : Type 0 where
  queued : Ret → Reply
  fetched : Option ℕ → Reply

pub fifo_step : List ℕ → Call → List ℕ × Reply
fifo_step queue (arrive calloc_ok irq) =
    if calloc_ok && ltb (length queue) 256
    then (queue ++ (irq ∷ []), queued ok)
    else (queue, queued failed)
fifo_step [] fetch = ([], fetched none)
fifo_step (irq ∷ rest) fetch = (rest, fetched (some irq))

pub fifo_run : List ℕ → List Call → List Reply
fifo_run queue [] = []
fifo_run queue (c ∷ cs) = let (queue', r) = fifo_step queue c in r ∷ fifo_run queue' cs

abbrev pub step : IoApic → Call → IoApic × Reply
step a (arrive calloc_ok irq) = let (a', r) = queue_interrupt a calloc_ok irq in (a', queued r)
step a fetch = let (a', r) = dequeue_interrupt a in (a', fetched r)

-- A client's calls in order, with what each returns.
pub run : IoApic → List Call → List Reply
run a [] = []
run a (c ∷ cs) = let (a', r) = step a c in r ∷ run a' cs

step-IsCounted : {a : IoApic} (c : Call) → IsCounted a → IsCounted (step a c).0
step-IsCounted (arrive calloc_ok irq) v = queue-IsCounted calloc_ok irq v
step-IsCounted fetch v = dequeue-IsCounted v

step_refines :
    {a : IoApic} (c : Call)
    → IsCounted a
    → let (a', r) = step a c in (a'.interrupt_queue, r) ≡ fifo_step a.interrupt_queue c
unfolding queue_interrupt dequeue_interrupt fifo_step
step_refines {a} (arrive calloc_ok irq) v = ground (arith, enqueue-append a.interrupt_queue irq)
step_refines {a} fetch v = ground arith

-- From a queue whose count is its length, every sequence of arrivals and fetches returns what the
-- bounded queue of 256 interrupts returns: in order of arrival, none lost, none twice.
pub run_refines :
    (cs : List Call) {a : IoApic} → IsCounted a → run a cs ≡ fifo_run a.interrupt_queue cs
unfolding run fifo_run
run_refines [] v = refl
run_refines (c ∷ cs) v = rw (run_refines cs (step-IsCounted c v), ← step_refines c v)

-- The interrupts for which the thread could allocate an entry.
pub allocated : List (Bool × ℕ) → List ℕ
allocated [] = []
allocated ((true, irq) ∷ more) = irq ∷ allocated more
allocated ((false, irq) ∷ more) = allocated more

take_room :
    (n : ℕ) (irq : ℕ) (rest : List ℕ)
    → n < 256
    → take (256 - n) (irq ∷ rest) ≡ irq ∷ take (256 - (n + 1)) rest
take_room n irq rest h = let e : 256 - n ≡ suc (256 - (n + 1)) = omega arith in rw e

-- One more interrupt, with room for it, and then what fits behind it.
append_room :
    (q : List ℕ) (irq : ℕ) (rest : List ℕ)
    → length q < 256
    → (q ++ (irq ∷ [])) ++ take (256 - length (q ++ (irq ∷ []))) rest
      ≡ q ++ take (256 - length q) (irq ∷ rest)
append_room q irq rest h =
    rw (length-append q (irq ∷ []), take_room (length q) irq rest h, append_assoc)

append_full :
    (q : List ℕ) (xs ys : List ℕ)
    → 256 ≤ length q
    → q ++ take (256 - length q) xs ≡ q ++ take (256 - length q) ys
append_full q xs ys h = let e : 256 - length q ≡ 0 = omega arith in rw e

queue-interrupt_queue :
    {a : IoApic} (irq : ℕ)
    → IsCounted a
    → (queue_interrupt a true irq).0.interrupt_queue ≡ (
        if ltb (length a.interrupt_queue) 256
        then a.interrupt_queue ++ (irq ∷ [])
        else a.interrupt_queue)
unfolding queue_interrupt
queue-interrupt_queue {a} irq v = ground (arith, enqueue-append a.interrupt_queue irq)

queue-no_memory : (a : IoApic) (irq : ℕ) → (queue_interrupt a false irq).0 ≡ a
unfolding queue_interrupt
queue-no_memory a irq = ground arith

-- Whatever the devices send, the thread leaves in the queue what waited before, then the
-- interrupts it could allocate, in order of arrival, as many as make 256; the count stays the
-- length.
pub thread_lem :
    (arrivals : List (Bool × ℕ)) {a : IoApic}
    → IsCounted a
    → let a' = ioapic_thread a arrivals in
      IsCounted a'
      × (a'.interrupt_queue
          ≡ a.interrupt_queue ++ take (256 - length a.interrupt_queue) (allocated arrivals))
unfolding ioapic_thread allocated
thread_lem [] {a} v =
    (v, rw (take-nil ℕ (256 - length a.interrupt_queue), append-nil a.interrupt_queue))
thread_lem ((false, irq) ∷ more) {a} v =
    subst
      (λ b.
        IsCounted (ioapic_thread b more)
        × ((ioapic_thread b more).interrupt_queue
            ≡ a.interrupt_queue ++ take (256 - length a.interrupt_queue) (allocated more)))
      (sym (queue-no_memory a irq)) (thread_lem more v)
thread_lem ((true, irq) ∷ more) {a} v =
    let (v', e) = thread_lem more (queue-IsCounted true irq v) in
    (
      v',
      e ∙ elim (Bool-cases (ltb (length a.interrupt_queue) 256)) [
        | inl room ↦
            rw (q room) (append_room a.interrupt_queue irq (allocated more) (ltb→lt _ _ room))
        | inr full ↦
            rw (q' full)
              (append_full a.interrupt_queue (allocated more) (irq ∷ allocated more) (ground arith))
      ],
    )
  where
    q :
        ltb (length a.interrupt_queue) 256 ≡ true
        → (queue_interrupt a true irq).0.interrupt_queue ≡ a.interrupt_queue ++ (irq ∷ [])
    q room = queue-interrupt_queue irq v ∙ ground arith

    q' :
        ltb (length a.interrupt_queue) 256 ≡ false
        → (queue_interrupt a true irq).0.interrupt_queue ≡ a.interrupt_queue
    q' full = queue-interrupt_queue irq v ∙ ground arith

-- `initIoApic` succeeds exactly when both host calls do, and then the queue is valid and empty,
-- and the 32 redirection entries are 0.
pub init_lem :
    (calloc_ok socketpair_ok : Bool) {a : IoApic}
    → init_ioapic calloc_ok socketpair_ok ≡ some a
    → IsCounted a × (a.interrupt_queue ≡ []) × (a.irq_redir_table ≡ replicate 32 0)
unfolding init_ioapic
init_lem false s e = cc
init_lem true false e = cc
init_lem true true e = ground arith
