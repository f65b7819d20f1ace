-- ===== src/Sync/Safety.antt =====
-- Every step of the system keeps the invariant, and what follows for the lock of thread/sync.c.
use os_zhenxiang.Prelude.{
  ℕ_discrete, ℕ, ◌+◌, ◌^◌, ◌<◌, ◌≡◌, refl, ◌∙◌, sym, ap, subst, Bool, true, false, some, Outcome,
  ok, panic, arith, has, inl, inr, u32, ◌⊎◌,
}
use os_zhenxiang.Interrupt.{IntrStatus}
use os_zhenxiang.Thread.{task_running, Kernel, is_empty, thread_yield}
use os_zhenxiang.Thread.Valid.{IsValid, status}
use os_zhenxiang.Sync.{
  lock_init, sema_init, Semaphore, Lock, sema_down, sema_up, lock_take, lock_again, lock_drop,
}
use os_zhenxiang.Sync.System.{
  outside, wanting, got, inside, leaving, System, move, Step, request, down, blocks, take, again,
  drop, up, yields, waits, wakes, Reach, here, next,
}
use os_zhenxiang.Sync.Invariant.{holds, active, Inv}
use os_zhenxiang.Sync.Keeps.{request-Inv, count-Inv}
use os_zhenxiang.Sync.Switching.{yields-Inv, waits-Inv, wakes-Inv}
use os_zhenxiang.Sync.Progress.{
  rounded, dropped, upped, down_returns, take_returns, drop_returns, up_returns,
}

-- An operation has one result.
only_result {ℓ ℓ'} :
    {A : Type ℓ} (P : A → Type ℓ') {o : Outcome A} {r : A}
    → (a : A) × (o ≡ ok a) × P a
    → o ≡ ok r
    → P r
only_result {A} P {o} {r} (a, e, p) e' = subst P (ap (value a) (sym e ∙ e')) p
  where
    value : A → Outcome A → A
    value d (ok x) = x
    value d panic = d

again-Inv :
    {s : System}
    → Inv s
    → s.pc s.kernel.cur ≡ inside
    → s.lock.holder_repeat_nr + 1 < 2 ^ 32
    → Inv (move s s.kernel (lock_again s.lock) inside)
unfolding lock_again
again-Inv {s} inv at small = count-Inv inv (u32 (s.lock.holder_repeat_nr + 1)) at (omega arith)

-- The invariant is kept by every step.
pub Step-Inv : {s t : System} → Inv s → Step s t → Inv t
Step-Inv inv (request at ne) = request-Inv inv at ne
Step-Inv {s} inv (down old at e) = only_result (λ r. Inv (rounded s r)) (down_returns inv old at) e
Step-Inv {s} inv (blocks old at e) =
    only_result (λ r. Inv (rounded s r)) (down_returns inv old at) e
Step-Inv {s} inv (take at e) =
    only_result (λ l. Inv (move s s.kernel l inside)) (take_returns inv at) e
Step-Inv inv (again at small) = again-Inv inv at small
Step-Inv {s} inv (drop at e) = only_result (λ r. Inv (dropped s r)) (drop_returns inv at) e
Step-Inv {s} inv (up at e) = only_result (λ r. Inv (upped s r)) (up_returns inv at) e
Step-Inv {s} inv (yields e) = only_result (λ k. Inv (record s { kernel = k })) (yields-Inv inv) e
Step-Inv {s} inv (waits stat at blocking idle e) =
    only_result (λ k. Inv (record s { kernel = k })) (waits-Inv inv stat at blocking idle) e
Step-Inv {s} inv (wakes t at known blocking e) =
    only_result (λ k. Inv (record s { kernel = k })) (wakes-Inv inv t at known blocking) e

pub Reach-Inv : {s t : System} → Inv s → Reach s t → Inv t
Reach-Inv inv here = inv
Reach-Inv inv (next r step) = Step-Inv (Reach-Inv inv r) step

-- A system at its start: the scheduler is in order, the lock is as `lock_init` leaves it, and no
-- task is at it.
pub record IsStart (s : System) : Type 0 where
  pub sched : IsValid s.kernel
  pub runs : status s.kernel s.kernel.cur ≡ task_running
  pub fresh : s.lock ≡ lock_init
  pub out : (t : ℕ) → s.pc t ≡ outside

init-Inv : {s : System} → IsStart s → Inv (record s { lock = lock_init })
unfolding lock_init sema_init has
init-Inv {s} start = record {
  sched = start.sched;
  runs = start.runs;
  binary = omega arith;
  taken = λ e. absurd (omega arith);
  free = λ t h. ground (arith, start.out t);
  unique = λ i j h g. ground (arith, start.out i);
  inside_holds = λ t h. ground (arith, start.out t);
  holder_inside = λ t h. cc;
  counted = λ t h. cc;
  uncounted = λ h. refl;
  distinct = _;
  waiting = λ t h. absurd (ground arith);
  idle_outside = start.out s.kernel.idle_thread;
  pending = λ e h. absurd (ground arith);
}

IsStart-Inv : {s : System} → IsStart s → Inv s
IsStart-Inv {s} start = subst (λ l. Inv (record s { lock = l })) (sym start.fresh) (init-Inv start)

-- At most one task is between `lock_acquire` and `lock_release`: however the tasks run, are
-- switched, wait and are woken after `lock_init`, two tasks that hold the lock are the same task,
-- and it is the one that `holder` names.
pub mutual_exclusion :
    {s t : System}
    → IsStart s
    → Reach s t
    → (i j : ℕ) → t.pc i ≡ inside
    → t.pc j ≡ inside
    → (i ≡ j) × (t.lock.holder ≡ some i)
mutual_exclusion start r i j at at' =
    let inv = Reach-Inv (IsStart-Inv start) r in
    (inv.unique i j (ap holds at) (ap holds at'), inv.inside_holds i at)

-- No wakeup is lost: in every reachable state in which tasks are listed at the semaphore, either it
-- is down for a task that has the lock, is about to take it or is about to give it up, or a task
-- that wants it can be run.
pub wakeup_kept :
    {s t : System}
    → IsStart s
    → Reach s t
    → is_empty t.lock.semaphore.waiters ≡ false
    → ((u : ℕ) × (holds (t.pc u) ≡ true))
      ⊎ ((u : ℕ) × (t.pc u ≡ wanting) × (has u (active t.kernel) ≡ true))
wakeup_kept {s} {t} start r some_wait =
    let inv = Reach-Inv (IsStart-Inv start) r in
    elim (ℕ_discrete t.lock.semaphore.value 0) [
      | yes zero ↦ inl (inv.taken zero)
      | no positive ↦ inr (inv.pending (ground (arith, inv.binary)) some_wait)
    ]

-- No ASSERT of sync.c or of the scheduler fails: in every reachable state each operation that the
-- running task can be at returns, and so does `thread_yield`, with which the timer can come between.
pub operations_return :
    {s t : System}
    → IsStart s
    → Reach s t
    → (t.pc t.kernel.cur ≡ wanting
        → (old : IntrStatus)
        → (r : Bool × Kernel × Semaphore) × (sema_down old t.kernel t.lock.semaphore ≡ ok r))
      × (t.pc t.kernel.cur ≡ got → (l : Lock) × (lock_take t.kernel.cur t.lock ≡ ok l))
      × (t.pc t.kernel.cur ≡ inside → (r : Bool × Lock) × (lock_drop t.kernel.cur t.lock ≡ ok r))
      × (t.pc t.kernel.cur ≡ leaving
          → (r : Kernel × Semaphore) × (sema_up t.kernel t.lock.semaphore ≡ ok r))
      × ((k : Kernel) × (thread_yield t.kernel ≡ ok k))
operations_return start r =
    let inv = Reach-Inv (IsStart-Inv start) r in
    (
      λ at old. let (r, e, _) = down_returns inv old at in (r, e),
      λ at. let (l, e, _) = take_returns inv at in (l, e),
      λ at. let (r, e, _) = drop_returns inv at in (r, e),
      λ at. let (r, e, _) = up_returns inv at in (r, e),
      let (k, e, _) = yields-Inv inv in (k, e),
    )
