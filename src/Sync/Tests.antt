-- ===== src/Sync/Tests.antt =====
-- Tasks at a lock, run step by step, and the theorems at a reachable state.
use os_zhenxiang.Prelude.{
  ◌>>=◌, ap, Bool, ◌⊎◌, ℕ, ◌≡◌, refl, [], ◌∷◌, ok, some, arith, true, false, has,
}
use os_zhenxiang.Interrupt.{IntrStatus, intr_on}
use os_zhenxiang.Thread.{
  Kernel, is_empty, thread_yield, thread_block, schedule, requeue, wake_idle, dispatch,
}
use os_zhenxiang.Thread.Samples.{busy, busy-IsValid}
use os_zhenxiang.Sync.{
  Semaphore, Lock, lock_init, sema_init, sema_down, sema_up, lock_take, lock_drop, lock_again,
}
use os_zhenxiang.Sync.System.{
  outside, wanting, got, inside, leaving, System, request, down, blocks, take, again, yields, Reach,
  here, next,
}
use os_zhenxiang.Sync.Invariant.{holds, active}
use os_zhenxiang.Sync.Safety.{IsStart, mutual_exclusion, wakeup_kept, operations_return}
use os_zhenxiang.Sync.Nesting.{lock_nests, nested, acquire_times, release_times}

-- Task 10 runs, tasks 20 (idle) and 30 are ready, and no one is at the lock.
abbrev start : System
start = record { kernel = busy 3; lock = lock_init; pc = λ _. outside }

start-IsStart : IsStart start
start-IsStart = record { sched = busy-IsValid 3; runs = refl; fresh = refl; out = λ t. refl }

-- Task 10 takes the lock, and takes it again; after two turns task 30 wants it, and is blocked.
contended :
    (t : System) × Reach start t
    × (t.pc 10 ≡ inside)
    × (t.kernel.cur ≡ 10)
    × (t.lock.semaphore.waiters ≡ 30 ∷ [])
    × (t.lock.holder_repeat_nr ≡ 2)
unfolding sema_down lock_take lock_again lock_init sema_init thread_yield thread_block schedule
    requeue wake_idle dispatch has
contended = (
  _,
  next
      (next
        (next
          (next
            (next
              (next (next (next here (request refl (λ e. ground arith))) (down intr_on refl refl))
                (take refl refl))
              (again refl (omega arith)))
            (yields refl))
          (yields refl))
        (request refl (λ e. ground arith)))
      (blocks intr_on refl refl),
  refl,
  refl,
  refl,
  refl,
)

abbrev first : ℕ
first = 10

-- the state that `contended` reaches
abbrev reached : System
reached = contended.0

mutual_exclusion_example : (first ≡ first) × (reached.lock.holder ≡ some first)
mutual_exclusion_example =
    mutual_exclusion start-IsStart contended.1 first first contended.2 contended.2

some_wait : is_empty reached.lock.semaphore.waiters ≡ false
some_wait = ap is_empty contended.4

wakeup_kept_example :
    ((u : ℕ) × (holds (reached.pc u) ≡ true))
    ⊎ ((u : ℕ) × (reached.pc u ≡ wanting) × (has u (active reached.kernel) ≡ true))
wakeup_kept_example = wakeup_kept start-IsStart contended.1 some_wait

operations_return_example :
    (reached.pc reached.kernel.cur ≡ wanting
      → (old : IntrStatus)
      → (r : Bool × Kernel × Semaphore) × (sema_down old reached.kernel reached.lock.semaphore
          ≡ ok r))
    × (reached.pc reached.kernel.cur ≡ got
        → (l : Lock) × (lock_take reached.kernel.cur reached.lock ≡ ok l))
    × (reached.pc reached.kernel.cur ≡ inside
        → (r : Bool × Lock) × (lock_drop reached.kernel.cur reached.lock ≡ ok r))
    × (reached.pc reached.kernel.cur ≡ leaving
        → (r : Kernel × Semaphore) × (sema_up reached.kernel reached.lock.semaphore ≡ ok r))
    × ((k : Kernel) × (thread_yield reached.kernel ≡ ok k))
operations_return_example = operations_return start-IsStart contended.1

lock_nests_example :
    (acquire_times 3 (busy 3) lock_init >>= λ (k', plock). release_times 2 k' plock)
    ≡ ok (busy 3, nested 10 1)
lock_nests_example = lock_nests 3 2 (busy 3) (omega arith) (omega arith)

-- the lock that task 10 holds and task 40 waits for
abbrev waited_for : Lock
waited_for = record {
  holder = some 10;
  semaphore = record { value = 0; waiters = 40 ∷ [] };
  holder_repeat_nr = 1;
}
