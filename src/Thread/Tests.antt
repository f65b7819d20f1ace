-- ===== src/Thread/Tests.antt =====
-- Runs of the scheduler, and the theorems at a concrete state.
use os_zhenxiang.Prelude.{◌≡◌, refl, [], ◌∷◌, ok, panic, has}
use os_zhenxiang.Thread.{
  task_running, Kernel, thread_unblock, schedule, thread_yield, intr_timer_handler,
}
use os_zhenxiang.Thread.Valid.{
  IsValid, status, unblocked, thread_unblock_lem, thread_unblock_panics,
}
use os_zhenxiang.Thread.Schedule.{Switched, schedule_lem}
use os_zhenxiang.Thread.Turns.{thread_yield_lem, yields, yields-turn}
use os_zhenxiang.Thread.Timer.{intr_timer_handler_counts}
use os_zhenxiang.Thread.Samples.{busy, busy-IsValid}

thread_unblock_lem_example :
    (thread_unblock 40 (busy 3) ≡ ok (unblocked 40 (busy 3))) × IsValid (unblocked 40 (busy 3))
unfolding has
thread_unblock_lem_example = thread_unblock_lem 40 (busy 3) (busy-IsValid 3) refl refl

thread_unblock_panics_example : thread_unblock 30 (busy 3) ≡ panic
thread_unblock_panics_example = thread_unblock_panics 30 (busy 3) refl

schedule_lem_example :
    (k' : Kernel) × (schedule (busy 3) ≡ ok k') × Switched (busy 3) k' (20 ∷ 30 ∷ 10 ∷ [])
schedule_lem_example = schedule_lem (busy 3) (busy-IsValid 3) refl

thread_yield_lem_example :
    (k' : Kernel) × (thread_yield (busy 3) ≡ ok k') × Switched (busy 3) k' (20 ∷ 30 ∷ 10 ∷ [])
thread_yield_lem_example = thread_yield_lem (busy 3) (busy-IsValid 3) refl

intr_timer_handler_counts_example :
    (k' : Kernel) × (intr_timer_handler (busy 3) ≡ ok k')
    × IsValid k'
    × (k'.cur ≡ 10)
    × (k'.ready ≡ 20 ∷ 30 ∷ [])
    × ((k'.tasks 10).ticks ≡ 2)
    × (status k' 10 ≡ task_running)
    × (k'.ticks ≡ 100)
intr_timer_handler_counts_example = intr_timer_handler_counts (busy 3) 2 (busy-IsValid 3) refl refl

yields-turn_example : (k' : Kernel) × (yields 2 (busy 3) ≡ ok k') × IsValid k' × (k'.cur ≡ 30)
yields-turn_example = yields-turn (busy 3) 30 (20 ∷ []) [] (busy-IsValid 3) refl refl
