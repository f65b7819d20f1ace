-- ===== src/Thread/Timer.antt =====
-- The timer interrupt (device/timer.c): time slices.
use os_zhenxiang.Prelude.{
  ℕ, suc, ◌+◌, ◌≡◌, refl, ◌∙◌, sym, subst, true, false, [], ◌∷◌, ◌++◌, ok, arith, ◌==◌, u32, update,
}
use os_zhenxiang.Interrupt.{intr_off}
use os_zhenxiang.Thread.{task_running, Kernel, is_blocking, stack_magic_value, intr_timer_handler}
use os_zhenxiang.Thread.Valid.{IsValid, status}
use os_zhenxiang.Thread.Schedule.{next_queue, Switched, schedule_lem}

-- While the time slice lasts, the timer interrupt counts it down and changes nothing else that
-- the scheduler sees.
pub intr_timer_handler_counts :
    (k : Kernel) (n : ℕ)
    → IsValid k
    → (k.tasks k.cur).stack_magic ≡ stack_magic_value
    → (k.tasks k.cur).ticks ≡ suc n
    → (k' : Kernel) × (intr_timer_handler k ≡ ok k')
      × IsValid k'
      × (k'.cur ≡ k.cur)
      × (k'.ready ≡ k.ready)
      × ((k'.tasks k.cur).ticks ≡ n)
      × (status k' k.cur ≡ status k k.cur)
      × (k'.ticks ≡ u32 (k.ticks + 1))
unfolding intr_timer_handler
intr_timer_handler_counts k n v magic e =
    let m : ((k.tasks k.cur).stack_magic == stack_magic_value) ≡ true = ground arith in
    let z : ((k.tasks k.cur).ticks == 0) ≡ false = ground arith in
    rw (m, z)
      (
        _,
        refl,
        record {
          distinct = v.distinct;
          queued = λ t h. ground (arith, v.queued t);
          listed = λ t h e. ground (arith, v.listed t h);
          only = λ t h e. ground (arith, v.only t h);
          known = v.known;
          idle_known = v.idle_known;
          idle_waits = ground (arith, v.idle_waits);
        },
        refl,
        refl,
        ground arith,
        ground arith,
        refl,
      )

-- The counts that every tick makes.
abbrev timed : Kernel → Kernel
timed k = record k {
  tasks =
      update k.tasks k.cur
        (record (k.tasks k.cur) { elapsed_ticks = u32 ((k.tasks k.cur).elapsed_ticks + 1) });
  ticks = u32 (k.ticks + 1);
}

status-timed : (k : Kernel) (t : ℕ) → status (timed k) t ≡ status k t
status-timed k t = ground arith

timed-IsValid : (k : Kernel) → IsValid k → IsValid (timed k)
timed-IsValid k v = record {
  distinct = v.distinct;
  queued = λ t h. ground (arith, v.queued t);
  listed = λ t h e. ground (arith, v.listed t h);
  only = λ t h e. ground (arith, v.only t h);
  known = v.known;
  idle_known = v.idle_known;
  idle_waits = ground (arith, v.idle_waits);
}

next_queue-timed :
    (k : Kernel) → status k k.cur ≡ task_running → next_queue (timed k) ≡ k.ready ++ k.cur ∷ []
next_queue-timed k run = ground arith

-- When the time slice is used up, the timer interrupt sends the running task to the end of the
-- ready queue and starts the head of that queue.
pub intr_timer_handler_switches :
    (k : Kernel)
    → IsValid k
    → k.intr ≡ intr_off
    → status k k.cur ≡ task_running
    → (k.tasks k.cur).stack_magic ≡ stack_magic_value
    → (k.tasks k.cur).ticks ≡ 0
    → (k' : Kernel) × (intr_timer_handler k ≡ ok k') × Switched k k' (k.ready ++ k.cur ∷ [])
unfolding intr_timer_handler
intr_timer_handler_switches k v off run magic e =
    let m : ((k.tasks k.cur).stack_magic == stack_magic_value) ≡ true = ground arith in
    let z : ((k.tasks k.cur).ticks == 0) ≡ true = ground arith in
    let (k', eq, s) = schedule_lem (timed k) (timed-IsValid k v) off in
    (
      k',
      rw (m, z) eq,
      record {
        valid = s.valid;
        runs = s.runs;
        took = s.took ∙ next_queue-timed k run;
        same_all = s.same_all;
        same_idle = s.same_idle;
        kept = λ t h ne.
            s.kept t (subst (λ st. is_blocking st ≡ true) (sym (status-timed k t)) h) ne
            ∙ status-timed k t;
      },
    )
