-- ===== src/Thread/Turns.antt =====
-- `thread_block`, `thread_yield`, and how the ready queue turns.
use os_zhenxiang.Prelude.{
  ℕ, zero, suc, ◌+◌, ◌≡◌, ◌≢◌, refl, ◌∙◌, sym, ap, true, false, List, [], ◌∷◌, ◌++◌, Outcome, ok,
  ◌>>=◌, ◌>>◌, assert, not, arith, if◌then◌else◌, has, has-append, Distinct-snoc, length,
}
use mathlib.Core.List.{append_assoc}
use os_zhenxiang.Interrupt.{IntrStatus, intr_off, intr_on, intr_disable}
use os_zhenxiang.Thread.{
  TaskStatus, task_running, task_ready, task_blocked, Kernel, is_blocking, is_empty, set_status,
  disable, schedule, thread_block, thread_yield,
}
use os_zhenxiang.Thread.Valid.{IsValid, status}
use os_zhenxiang.Thread.Schedule.{next_queue, is_empty_snoc, Switched, schedule_lem}

disable-off : (k : Kernel) → (disable k).intr ≡ intr_off
disable-off k = off k.intr
  where
    off : (f : IntrStatus) → (intr_disable f).0 ≡ intr_off
    off intr_on = refl
    off intr_off = refl

-- The running task may come to wait, except the idle task for anything but work.
blocking-IsValid :
    (stat : TaskStatus) (k : Kernel)
    → IsValid k
    → status k k.cur ≡ task_running
    → is_blocking stat ≡ true
    → (k.cur ≡ k.idle_thread → stat ≡ task_blocked)
    → IsValid (set_status k.cur stat (disable k))
blocking-IsValid stat k v run waits idle = record {
  distinct = v.distinct;
  queued = λ t h. ground (arith, v.queued t);
  listed = λ t h e. ground (arith, v.listed t h);
  only = λ t h e. ground (arith, v.only t h);
  known = v.known;
  idle_known = v.idle_known;
  idle_waits = ground (arith, v.idle_waits, idle);
}

-- `thread_block` by the running task returns: the task waits with the status given, and the head
-- of the ready queue runs, or the idle task if the queue is empty. Every other waiting task goes
-- on waiting.
pub thread_block_lem :
    (stat : TaskStatus) (k : Kernel)
    → IsValid k
    → status k k.cur ≡ task_running
    → is_blocking stat ≡ true
    → (k.cur ≡ k.idle_thread → stat ≡ task_blocked)
    → (k' : Kernel) × (thread_block stat k ≡ ok k')
      × Switched k k' (if is_empty k.ready then k.idle_thread ∷ [] else k.ready)
      × (k'.cur ≢ k.cur → status k' k.cur ≡ stat)
unfolding thread_block
thread_block_lem stat k v run waits idle =
    let (k', e, s) =
      schedule_lem (set_status k.cur stat (disable k)) (blocking-IsValid stat k v run waits idle)
        (disable-off k) in
    (
      k',
      rw waits e,
      record {
        valid = s.valid;
        runs = s.runs;
        took = s.took ∙ ground arith;
        same_all = s.same_all;
        same_idle = s.same_idle;
        kept = λ t h ne. s.kept t (ground arith) ne ∙ ground arith;
      },
      λ ne. s.kept k.cur (ground arith) (λ p. ne (sym p)) ∙ ground arith,
    )

-- what `thread_yield` hands to `schedule`
abbrev yielding : Kernel → Kernel
yielding k = set_status k.cur task_ready (record (disable k) { ready = k.ready ++ k.cur ∷ [] })

module _ (k : Kernel) (v : IsValid k) (run : status k k.cur ≡ task_running) where
  not_queued : has k.cur k.ready ≡ false
  not_queued = ground (arith, v.queued k.cur)

  yielding-IsValid : IsValid (yielding k)
  unfolding has
  yielding-IsValid = record {
    distinct = Distinct-snoc k.cur k.ready v.distinct not_queued;
    queued = λ t h. ground (arith, has-append t k.ready (k.cur ∷ []), v.queued t, v.known);
    listed = λ t h e. ground (arith, has-append t k.ready (k.cur ∷ []), v.listed t h);
    only = λ t h e. ground (arith, v.only t h);
    known = v.known;
    idle_known = v.idle_known;
    idle_waits = ground (arith, v.idle_waits);
  }

  next_queue-yielding : next_queue (yielding k) ≡ k.ready ++ k.cur ∷ []
  next_queue-yielding = ground (arith, is_empty_snoc k.ready k.cur)

  -- `thread_yield` by the running task returns: the task goes to the end of the ready queue, and
  -- the head of that queue runs.
  pub thread_yield_lem :
      (k' : Kernel) × (thread_yield k ≡ ok k') × Switched k k' (k.ready ++ k.cur ∷ [])
  unfolding thread_yield
  thread_yield_lem =
      let (k', e, s) = schedule_lem (yielding k) yielding-IsValid (disable-off k) in
      (
        k',
        ap (λ b. assert (not b) >> schedule (yielding k)) not_queued ∙ e,
        record {
          valid = s.valid;
          runs = s.runs;
          took = s.took ∙ next_queue-yielding;
          same_all = s.same_all;
          same_idle = s.same_idle;
          kept = λ t h ne. s.kept t (ground arith) ne ∙ ground arith;
        },
      )

-- `n` tasks in a row give up the processor.
pub yields : ℕ → Kernel → Outcome Kernel
yields zero k = ok k
yields (suc n) k = thread_yield k >>= yields n

-- The queue is fair: a ready task with `n` tasks before it runs after `n + 1` turns.
pub yields-turn :
    (k : Kernel) (t : ℕ) (xs ys : List ℕ)
    → IsValid k
    → status k k.cur ≡ task_running
    → k.ready ≡ xs ++ t ∷ ys
    → (k' : Kernel) × (yields (length xs + 1) k ≡ ok k') × IsValid k' × (k'.cur ≡ t)
unfolding yields
yields-turn k t [] ys v run e =
    let (k', eq, s) = thread_yield_lem k v run in (k', rw eq, s.valid, ground (arith, s.took))
yields-turn k t (x ∷ xs) ys v run e =
    let (k', eq, s) = thread_yield_lem k v run in
    let q : k'.ready ≡ xs ++ (t ∷ ys ++ k.cur ∷ []) =
      ground (arith, s.took, append_assoc xs (t ∷ ys) (k.cur ∷ [])) in
    let (k'', eq', v'', at) = yields-turn k' t xs (ys ++ k.cur ∷ []) s.valid s.runs q in
    let n : suc (length xs) + 1 ≡ suc (length xs + 1) = omega arith in
    (k'', rw (n, eq) eq', v'', at)
