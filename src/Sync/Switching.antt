-- ===== src/Sync/Switching.antt =====
-- What other tasks do, and the scheduler between two steps, keeps the invariant of the lock.
use os_zhenxiang.Prelude.{
  ℕ, ◌≡◌, sym, subst, true, false, List, [], ◌∷◌, ok, arith, has, has-append, inl, ◌⊎◌,
}
use os_zhenxiang.Thread.{
  TaskStatus, task_blocked, Kernel, is_blocking, thread_block, thread_yield, thread_unblock,
}
use os_zhenxiang.Thread.Valid.{status, unblocked, thread_unblock_lem}
use os_zhenxiang.Thread.Schedule.{Switched}
use os_zhenxiang.Thread.Turns.{thread_block_lem, thread_yield_lem}
use os_zhenxiang.Sync.System.{outside, wanting, System}
use os_zhenxiang.Sync.Invariant.{active, Inv}
use os_zhenxiang.Sync.Keeps.{stays, picked}

-- A switch that leaves the lock alone
pub switch-Inv :
    {s : System} (inv : Inv s) (k' : Kernel) (q : List ℕ)
    → Switched s.kernel k' q
    → ((is_blocking (status s.kernel k'.cur) ≡ false) ⊎ (k'.cur ≡ s.kernel.idle_thread))
    → ((t : ℕ) → s.pc t ≡ wanting → has t (active s.kernel) ≡ true → has t q ≡ true)
    → Inv (record s { kernel = k' })
unfolding has
switch-Inv {s} inv k' q sw pick carry = record {
  sched = sw.valid;
  runs = sw.runs;
  binary = inv.binary;
  taken = inv.taken;
  free = inv.free;
  unique = inv.unique;
  inside_holds = inv.inside_holds;
  holder_inside = inv.holder_inside;
  counted = inv.counted;
  uncounted = inv.uncounted;
  distinct = inv.distinct;
  waiting = stays inv k' q sw pick;
  idle_outside = ground (arith, inv.idle_outside, sw.same_idle);
  pending = λ e h.
      let (t, w, a) = inv.pending e h in
      (t, w, subst (λ q. has t q ≡ true) (sym sw.took) (carry t w a));
}

pub yields-Inv :
    {s : System} (inv : Inv s)
    → (k : Kernel) × (thread_yield s.kernel ≡ ok k) × Inv (record s { kernel = k })
unfolding has
yields-Inv {s} inv =
    let (k', eq, sw) = thread_yield_lem s.kernel inv.sched inv.runs in
    (
      k',
      eq,
      switch-Inv inv k' _ sw
          (inl (
            ground (
              arith,
              sw.took,
              has-append k'.cur s.kernel.ready (s.kernel.cur ∷ []),
              inv.sched.queued k'.cur,
              inv.runs,
            )))
          (λ t w a. ground (arith, has-append t s.kernel.ready (s.kernel.cur ∷ []))),
    )

pub waits-Inv :
    {s : System} (inv : Inv s) (stat : TaskStatus)
    → s.pc s.kernel.cur ≡ outside
    → is_blocking stat ≡ true
    → (s.kernel.cur ≡ s.kernel.idle_thread → stat ≡ task_blocked)
    → (k : Kernel) × (thread_block stat s.kernel ≡ ok k) × Inv (record s { kernel = k })
unfolding has
waits-Inv {s} inv stat at blocking idle =
    let (k', eq, sw, _) = thread_block_lem stat s.kernel inv.sched inv.runs blocking idle in
    (k', eq, switch-Inv inv k' _ sw (picked inv k' sw.took) (λ t w a. ground arith))

pub wakes-Inv :
    {s : System} (inv : Inv s) (t : ℕ)
    → s.pc t ≡ outside
    → has t s.kernel.all ≡ true
    → is_blocking (status s.kernel t) ≡ true
    → (k : Kernel) × (thread_unblock t s.kernel ≡ ok k) × Inv (record s { kernel = k })
unfolding has
wakes-Inv {s} inv t at known blocking =
    let (eq, v) = thread_unblock_lem t s.kernel inv.sched known blocking in
    (
      unblocked t s.kernel,
      eq,
      record {
        sched = v;
        runs = ground (arith, inv.runs);
        binary = inv.binary;
        taken = inv.taken;
        free = inv.free;
        unique = inv.unique;
        inside_holds = inv.inside_holds;
        holder_inside = inv.holder_inside;
        counted = inv.counted;
        uncounted = inv.uncounted;
        distinct = inv.distinct;
        waiting = λ u h. ground (arith, inv.waiting u);
        idle_outside = inv.idle_outside;
        pending = λ e h. let (u, w, a) = inv.pending e h in (u, w, ground arith);
      },
    )
