-- ===== src/Thread/Valid.antt =====
-- The scheduler's invariant, and that `thread_unblock`, `schedule` and what calls it keep it.
use os_zhenxiang.Prelude.{ℕ, ◌≡◌, Bool, true, false, ◌∷◌, ok, panic, ap, arith, has, Distinct}
use os_zhenxiang.Interrupt.{section_restores}
use os_zhenxiang.Thread.{
  TaskStatus, task_running, task_ready, task_blocked, Kernel, status_eq, is_blocking, set_status,
  thread_unblock,
}

abbrev pub status : Kernel → ℕ → TaskStatus
status k t = (k.tasks t).status

-- what the idle task can be: it blocks itself, and waits for nothing else
abbrev pub idle_may : TaskStatus → Bool
idle_may task_running = true
idle_may task_ready = true
idle_may task_blocked = true
idle_may _ = false

-- The tasks in the ready queue are those that are ready, each once; at most the current one runs;
-- and the idle task waits for nothing but `schedule`.
pub record IsValid (k : Kernel) : Type 0 where
  pub distinct : Distinct k.ready
  pub queued : (t : ℕ) → has t k.ready ≡ true → (status k t ≡ task_ready) × (has t k.all ≡ true)
  pub listed : (t : ℕ) → has t k.all ≡ true → status k t ≡ task_ready → has t k.ready ≡ true
  pub only : (t : ℕ) → has t k.all ≡ true → status k t ≡ task_running → t ≡ k.cur
  pub known : has k.cur k.all ≡ true
  pub idle_known : has k.idle_thread k.all ≡ true
  pub idle_waits : idle_may (status k k.idle_thread) ≡ true

-- what `thread_unblock` makes of a waiting task
abbrev pub unblocked : ℕ → Kernel → Kernel
unblocked t k = set_status t task_ready (record k { ready = t ∷ k.ready })

unblocked-IsValid :
    (t : ℕ) (k : Kernel)
    → IsValid k
    → has t k.all ≡ true
    → is_blocking (status k t) ≡ true
    → IsValid (unblocked t k)
unfolding has
unblocked-IsValid t k v known waits = record {
  distinct = (ground (arith, v.queued t), v.distinct);
  queued = λ u h. ground (arith, v.queued u);
  listed = λ u h e. ground (arith, v.listed u h);
  only = λ u h e. ground (arith, v.only u h);
  known = v.known;
  idle_known = v.idle_known;
  idle_waits = ground (arith, v.idle_waits);
}

-- `thread_unblock` of a known waiting task puts it at the front of the ready queue, keeps the
-- invariant and leaves the interrupt flag as it was.
pub thread_unblock_lem :
    (t : ℕ) (k : Kernel)
    → IsValid k
    → has t k.all ≡ true
    → is_blocking (status k t) ≡ true
    → (thread_unblock t k ≡ ok (unblocked t k)) × IsValid (unblocked t k)
unfolding thread_unblock
thread_unblock_lem t k v known waits =
    let out : has t k.ready ≡ false = ground (arith, v.queued t) in
    let ne : status_eq (status k t) task_ready ≡ false = ground arith in
    (
      rw (waits, ne, out)
          (ap (λ f. ok (record (unblocked t k) { intr = f })) (section_restores k.intr).1),
      unblocked-IsValid t k v known waits,
    )

-- A task that is known and neither waiting nor ready wants no waking: `thread_unblock` stops.
pub thread_unblock_panics :
    (t : ℕ) (k : Kernel) → is_blocking (status k t) ≡ false → thread_unblock t k ≡ panic
unfolding thread_unblock
thread_unblock_panics t k e = rw e
