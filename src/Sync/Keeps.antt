-- ===== src/Sync/Keeps.antt =====
-- The steps of a task in `lock_acquire` and `lock_release` keep the invariant.
use os_zhenxiang.Prelude.{
  ℕ, ◌<◌, ◌≡◌, ◌≢◌, refl, ◌∙◌, true, false, none, some, List, [], ◌∷◌, ◌++◌, arith, if◌then◌else◌,
  has, has-append, Distinct-snoc, Bool-cases, inl, inr, ◌⊎◌,
}
use os_zhenxiang.Interrupt.{IntrStatus}
use os_zhenxiang.Thread.{task_blocked, Kernel, is_blocking, is_empty}
use os_zhenxiang.Thread.Valid.{status}
use os_zhenxiang.Thread.Schedule.{Switched}
use os_zhenxiang.Sync.System.{outside, wanting, got, inside, leaving, System, move, with_sema}
use os_zhenxiang.Sync.Invariant.{intr-IsValid, Inv}

module _ {s : System} (inv : Inv s) where
  abbrev cur : ℕ
  cur = s.kernel.cur

  -- The running task waits for nothing.
  pub cur-not_waiting : has cur s.lock.semaphore.waiters ≡ false
  cur-not_waiting = ground (arith, inv.waiting cur, inv.runs)

  pub request-Inv :
      s.pc cur ≡ outside → cur ≢ s.kernel.idle_thread → Inv (move s s.kernel s.lock wanting)
  request-Inv at ne = record {
    sched = inv.sched;
    runs = inv.runs;
    binary = inv.binary;
    taken = λ e. let (t, h) = inv.taken e in (t, ground arith);
    free = λ t h. ground (arith, inv.free t);
    unique = λ i j h g. ground (arith, inv.unique i j);
    inside_holds = λ t h. ground (arith, inv.inside_holds t);
    holder_inside = λ t h. ground (arith, inv.holder_inside t);
    counted = inv.counted;
    uncounted = inv.uncounted;
    distinct = inv.distinct;
    waiting = λ t h. ground (arith, inv.waiting t);
    idle_outside = ground (arith, inv.idle_outside);
    pending = λ e h. let (t, w, a) = inv.pending e h in (t, ground arith, a);
  }

  pub down-Inv :
      (f : IntrStatus)
      → s.pc cur ≡ wanting
      → s.lock.semaphore.value ≡ 1
      → Inv (
          move s
            (record s.kernel { intr = f })
            (with_sema s.lock (record s.lock.semaphore { value = 0 }))
            got)
  down-Inv f at one = record {
    sched = intr-IsValid f s.kernel inv.sched;
    runs = inv.runs;
    binary = omega arith;
    taken = λ e. (cur, ground arith);
    free = λ t h. refl;
    unique = λ i j h g. ground (arith, inv.free i, inv.free j);
    inside_holds = λ t h. ground (arith, inv.inside_holds t);
    holder_inside = λ t h. ground (arith, inv.holder_inside t);
    counted = inv.counted;
    uncounted = inv.uncounted;
    distinct = inv.distinct;
    waiting = λ t h. ground (arith, inv.waiting t, cur-not_waiting);
    idle_outside = ground (arith, inv.idle_outside);
    pending = λ e h. absurd (omega arith);
  }

  -- A task at the semaphore that is not taken off the list stays blocked through a switch.
  pub stays :
      (k' : Kernel) (q : List ℕ)
      → Switched s.kernel k' q
      → ((is_blocking (status s.kernel k'.cur) ≡ false) ⊎ (k'.cur ≡ s.kernel.idle_thread))
      → (t : ℕ) → has t s.lock.semaphore.waiters ≡ true
      → (s.pc t ≡ wanting) × (status k' t ≡ task_blocked) × (has t k'.all ≡ true)
  stays k' q sw pick t h =
      let (w, st, known) = inv.waiting t h in
      let ne : t ≢ k'.cur = elim pick [
        | inl e ↦ ground arith
        | inr e ↦ ground (arith, inv.idle_outside)
      ] in
      (w, sw.kept t (ground arith) ne ∙ st, ground (arith, sw.same_all))

  -- The task that follows a blocked one was ready, or is the idle task.
  pub picked :
      (k' : Kernel)
      → k'.cur ∷ k'.ready
        ≡ (if is_empty s.kernel.ready then s.kernel.idle_thread ∷ [] else s.kernel.ready)
      → (is_blocking (status s.kernel k'.cur) ≡ false) ⊎ (k'.cur ≡ s.kernel.idle_thread)
  unfolding has
  picked k' e = elim (Bool-cases (is_empty s.kernel.ready)) [
    | inl none_ready ↦ inr (ground arith)
    | inr some_ready ↦ inl (ground (arith, inv.sched.queued k'.cur))
  ]

  pub blocks-Inv :
      (k' : Kernel)
      → s.pc cur ≡ wanting
      → s.lock.semaphore.value ≡ 0
      → Switched s.kernel k'
          (if is_empty s.kernel.ready then s.kernel.idle_thread ∷ [] else s.kernel.ready)
      → status k' cur ≡ task_blocked
      → Inv (
          move s k'
            (with_sema s.lock
              (record s.lock.semaphore { waiters = s.lock.semaphore.waiters ++ cur ∷ [] }))
            wanting)
  unfolding has
  blocks-Inv k' at zero sw st = record {
    sched = sw.valid;
    runs = sw.runs;
    binary = inv.binary;
    taken = λ e. let (t, h) = inv.taken e in (t, ground arith);
    free = λ t h. ground (arith, inv.free t);
    unique = λ i j h g. ground (arith, inv.unique i j);
    inside_holds = λ t h. ground (arith, inv.inside_holds t);
    holder_inside = λ t h. ground (arith, inv.holder_inside t);
    counted = inv.counted;
    uncounted = inv.uncounted;
    distinct = Distinct-snoc cur waiters inv.distinct cur-not_waiting;
    waiting = λ t h. ground (
      arith,
      has-append t waiters (cur ∷ []),
      stays k' _ sw (picked k' sw.took) t,
      sw.same_all,
      inv.sched.known,
    );
    idle_outside = ground (arith, inv.idle_outside, sw.same_idle);
    pending = λ e h. absurd (omega arith);
  }
    where
      waiters : List ℕ
      waiters = s.lock.semaphore.waiters

  pub take-Inv :
      s.pc cur ≡ got
      → Inv (move s s.kernel (record s.lock { holder = some cur; holder_repeat_nr = 1 }) inside)
  take-Inv at = record {
    sched = inv.sched;
    runs = inv.runs;
    binary = inv.binary;
    taken = λ e. let (t, h) = inv.taken e in (t, ground arith);
    free = λ t h. ground (arith, inv.free t, inv.free cur);
    unique = λ i j h g. ground (arith, inv.unique i j);
    inside_holds = λ t h. ground (arith, inv.unique t cur);
    holder_inside = λ t h. ground arith;
    counted = λ t h. omega arith;
    uncounted = λ h. cc;
    distinct = inv.distinct;
    waiting = λ t h. ground (arith, inv.waiting t);
    idle_outside = ground (arith, inv.idle_outside);
    pending = λ e h. let (t, w, a) = inv.pending e h in (t, ground arith, a);
  }

  -- The holder counts up or down, and stays the holder.
  pub count-Inv :
      (n : ℕ)
      → s.pc cur ≡ inside
      → 0 < n
      → Inv (move s s.kernel (record s.lock { holder_repeat_nr = n }) inside)
  count-Inv n at pos = record {
    sched = inv.sched;
    runs = inv.runs;
    binary = inv.binary;
    taken = λ e. let (t, h) = inv.taken e in (t, ground arith);
    free = λ t h. ground (arith, inv.free t, inv.free cur);
    unique = λ i j h g. ground (arith, inv.unique i j);
    inside_holds = λ t h. ground (arith, inv.inside_holds t);
    holder_inside = λ t h. ground (arith, inv.holder_inside t);
    counted = λ t h. pos;
    uncounted = λ h. cc (inv.inside_holds cur at);
    distinct = inv.distinct;
    waiting = λ t h. ground (arith, inv.waiting t);
    idle_outside = ground (arith, inv.idle_outside);
    pending = λ e h. let (t, w, a) = inv.pending e h in (t, ground arith, a);
  }

  pub drop-Inv :
      s.pc cur ≡ inside
      → Inv (move s s.kernel (record s.lock { holder = none; holder_repeat_nr = 0 }) leaving)
  drop-Inv at = record {
    sched = inv.sched;
    runs = inv.runs;
    binary = inv.binary;
    taken = λ e. let (t, h) = inv.taken e in (t, ground arith);
    free = λ t h. ground (arith, inv.free t, inv.free cur);
    unique = λ i j h g. ground (arith, inv.unique i j);
    inside_holds = λ t h. ground (arith, inv.unique t cur);
    holder_inside = λ t h. cc;
    counted = λ t h. cc;
    uncounted = λ h. refl;
    distinct = inv.distinct;
    waiting = λ t h. ground (arith, inv.waiting t);
    idle_outside = ground (arith, inv.idle_outside);
    pending = λ e h. let (t, w, a) = inv.pending e h in (t, ground arith, a);
  }
