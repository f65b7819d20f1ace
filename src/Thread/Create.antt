-- ===== src/Thread/Create.antt =====
-- `thread_start` and `thread_init` (thread/thread.c): new tasks enter the scheduler.
use os_zhenxiang.Prelude.{
  ℕ, ◌%◌, ◌≡◌, ◌≢◌, refl, false, List, [], ◌∷◌, ◌++◌, ok, arith, ◌==◌, has, has-append,
  Distinct-snoc,
}
use os_zhenxiang.Thread.{
  task_running, task_ready, Task, Kernel, take_pid, fresh_fds, init_thread, thread_create,
  thread_start, make_main_thread, thread_init,
}
use os_zhenxiang.Thread.Valid.{IsValid, status}

-- A new task.
pub record IsFresh (t : Task) (prio : ℕ) : Type 0 where
  pub full_slice : (t.priority ≡ prio % 256) × (t.ticks ≡ prio % 256)
  pub unused : t.elapsed_ticks ≡ 0
  pub std_streams : t.fd_table ≡ fresh_fds

-- `thread_start` on a page that is no task's returns: the new task is ready, with a full time slice
-- and the three standard descriptors, at the end of both queues, and every other task is as it was.
pub thread_start_lem :
    (thread entry : ℕ) (name : List ℕ) (prio function func_arg : ℕ) (k : Kernel)
    → IsValid k
    → has thread k.all ≡ false
    → thread ≢ k.main_thread
    → (k' : Kernel) × (thread_start thread entry name prio function func_arg k ≡ ok k')
      × IsValid k'
      × (k'.ready ≡ k.ready ++ thread ∷ [])
      × (k'.all ≡ k.all ++ thread ∷ [])
      × (status k' thread ≡ task_ready)
      × IsFresh (k'.tasks thread) prio
      × ((t : ℕ) → t ≢ thread → k'.tasks t ≡ k.tasks t)
unfolding thread_start thread_create init_thread take_pid has
thread_start_lem thread entry name prio function func_arg k v new ne =
    let out : has thread k.ready ≡ false = ground (arith, v.queued thread) in
    rw (out, new)
      (
        _,
        refl,
        record {
          distinct = Distinct-snoc thread k.ready v.distinct out;
          queued = λ t h. ground (
            arith,
            has-append t k.ready (thread ∷ []),
            has-append t k.all (thread ∷ []),
            v.queued t,
          );
          listed = λ t h e. ground (
            arith,
            has-append t k.ready (thread ∷ []),
            has-append t k.all (thread ∷ []),
            v.listed t,
          );
          only = λ t h e. ground (arith, has-append t k.all (thread ∷ []), v.only t);
          known = ground (arith, has-append k.cur k.all (thread ∷ []), v.known);
          idle_known = ground (arith, has-append k.idle_thread k.all (thread ∷ []), v.idle_known);
          idle_waits = ground (arith, v.idle_waits);
        },
        refl,
        refl,
        ground arith,
        ground arith,
        λ t h. ground arith,
      )

-- `thread_init` makes the first state: the main thread runs, and the idle thread is ready.
pub thread_init_lem :
    (page entry idle : ℕ) (k : Kernel)
    → page ≢ k.cur
    → (k' : Kernel) × (thread_init page entry idle k ≡ ok k')
      × IsValid k'
      × (k'.cur ≡ k.cur)
      × (status k' k'.cur ≡ task_running)
      × (k'.ready ≡ page ∷ [])
unfolding thread_init make_main_thread thread_start thread_create init_thread take_pid has
thread_init_lem page entry idle k ne =
    let e : (k.cur == page) ≡ false = ground arith in
    rw e (
      _,
      refl,
      record {
        distinct = (refl, tt);
        queued = λ t h. ground arith;
        listed = λ t h s. ground arith;
        only = λ t h s. ground arith;
        known = ground arith;
        idle_known = ground arith;
        idle_waits = ground arith;
      },
      refl,
      ground arith,
      refl,
    )
