-- ===== src/Sync/KeepsUp.antt =====
-- `sema_up` keeps the invariant of the lock.
use os_zhenxiang.Prelude.{ℕ, ◌≡◌, subst, List, [], ◌∷◌, arith, has, Distinct}
use os_zhenxiang.Thread.Valid.{IsValid, unblocked}
use os_zhenxiang.Sync.System.{outside, leaving, System, move, with_sema}
use os_zhenxiang.Sync.Invariant.{Inv}

module _ {s : System} (inv : Inv s) where
  abbrev cur : ℕ
  cur = s.kernel.cur

  -- `sema_up` with no one waiting
  pub up-Inv :
      s.pc cur ≡ leaving
      → s.lock.semaphore.waiters ≡ []
      → Inv (move s s.kernel (with_sema s.lock (record { value = 1; waiters = [] })) outside)
  unfolding has
  up-Inv at none_waits = record {
    sched = inv.sched;
    runs = inv.runs;
    binary = omega arith;
    taken = λ e. absurd (omega arith);
    free = λ t h. ground (arith, inv.unique t cur);
    unique = λ i j h g. ground (arith, inv.unique i j);
    inside_holds = λ t h. ground (arith, inv.inside_holds t);
    holder_inside = λ t h. ground (arith, inv.holder_inside t);
    counted = inv.counted;
    uncounted = inv.uncounted;
    distinct = _;
    waiting = λ t h. absurd (ground arith);
    idle_outside = ground (arith, inv.idle_outside);
    pending = λ e h. absurd (ground arith);
  }

  -- `sema_up` that wakes `w`
  pub up_wakes-Inv :
      (w : ℕ) (rest : List ℕ)
      → s.pc cur ≡ leaving
      → s.lock.semaphore.waiters ≡ w ∷ rest
      → IsValid (unblocked w s.kernel)
      → Inv (
          move s
            (unblocked w s.kernel)
            (with_sema s.lock (record { value = 1; waiters = rest }))
            outside)
  unfolding has
  up_wakes-Inv w rest at q v =
      let d : Distinct (w ∷ rest) = subst Distinct q inv.distinct in
      let (want, blocked, known) = inv.waiting w (ground arith) in
      record {
        sched = v;
        runs = ground (arith, inv.runs);
        binary = omega arith;
        taken = λ e. absurd (omega arith);
        free = λ t h. ground (arith, inv.unique t cur);
        unique = λ i j h g. ground (arith, inv.unique i j);
        inside_holds = λ t h. ground (arith, inv.inside_holds t);
        holder_inside = λ t h. ground (arith, inv.holder_inside t);
        counted = inv.counted;
        uncounted = inv.uncounted;
        distinct = d.1;
        waiting = λ t h. ground (arith, inv.waiting t, d.0);
        idle_outside = ground (arith, inv.idle_outside);
        pending = λ e h. (w, ground arith, ground arith);
      }
