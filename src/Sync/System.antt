-- ===== src/Sync/System.antt =====
-- Tasks that use one lock of thread/sync.c, interleaved by the scheduler: where each task is in
-- `lock_acquire` and `lock_release`, and the steps of the running one. A task asks for the lock while
-- it does not hold it, which is the test of `lock_acquire`; Sync/Nesting has the other branch.
use os_zhenxiang.Prelude.{
  ℕ, ◌+◌, ◌<◌, ◌^◌, ◌≡◌, ◌≢◌, Bool, true, false, ok, if◌then◌else◌, has, update,
}
use os_zhenxiang.Interrupt.{IntrStatus}
use os_zhenxiang.Thread.{
  TaskStatus, task_blocked, Kernel, is_blocking, thread_block, thread_yield, thread_unblock,
}
use os_zhenxiang.Thread.Valid.{status}
use os_zhenxiang.Sync.{Semaphore, Lock, sema_down, sema_up, lock_take, lock_again, lock_drop}

-- Where a task is: not at the lock; in the loop of `sema_down`; behind it; with the lock; between
-- `lock_drop` and `sema_up`.
pub data Pc : Type 0 where
  outside wanting got inside leaving : Pc

pub record System : Type 0 where
  pub kernel : Kernel
  pub lock : Lock
  pub pc : ℕ → Pc

abbrev pub move : System → Kernel → Lock → Pc → System
move s k l p = record { kernel = k; lock = l; pc = update s.pc s.kernel.cur p }

abbrev pub with_sema : Lock → Semaphore → Lock
with_sema l sema = record l { semaphore = sema }

-- One atomic step. Between two steps the timer can switch tasks, and a task that is not at the
-- lock can wait for something else and be woken.
pub data Step (s : System) : System → Type 0 where
  request :
      s.pc s.kernel.cur ≡ outside
      → s.kernel.cur ≢ s.kernel.idle_thread
      → Step s (move s s.kernel s.lock wanting)
  down :
      (old : IntrStatus) {k : Kernel} {sema : Semaphore}
      → s.pc s.kernel.cur ≡ wanting
      → sema_down old s.kernel s.lock.semaphore ≡ ok (true, k, sema)
      → Step s (move s k (with_sema s.lock sema) got)
  blocks :
      (old : IntrStatus) {k : Kernel} {sema : Semaphore}
      → s.pc s.kernel.cur ≡ wanting
      → sema_down old s.kernel s.lock.semaphore ≡ ok (false, k, sema)
      → Step s (move s k (with_sema s.lock sema) wanting)
  take :
      {l : Lock}
      → s.pc s.kernel.cur ≡ got
      → lock_take s.kernel.cur s.lock ≡ ok l
      → Step s (move s s.kernel l inside)
  again :
      s.pc s.kernel.cur ≡ inside
      → s.lock.holder_repeat_nr + 1 < 2 ^ 32
      → Step s (move s s.kernel (lock_again s.lock) inside)
  drop :
      {last : Bool} {l : Lock}
      → s.pc s.kernel.cur ≡ inside
      → lock_drop s.kernel.cur s.lock ≡ ok (last, l)
      → Step s (move s s.kernel l (if last then leaving else inside))
  up :
      {k : Kernel} {sema : Semaphore}
      → s.pc s.kernel.cur ≡ leaving
      → sema_up s.kernel s.lock.semaphore ≡ ok (k, sema)
      → Step s (move s k (with_sema s.lock sema) outside)
  yields : {k : Kernel} → thread_yield s.kernel ≡ ok k → Step s (record s { kernel = k })
  waits :
      {k : Kernel} (stat : TaskStatus)
      → s.pc s.kernel.cur ≡ outside
      → is_blocking stat ≡ true
      → (s.kernel.cur ≡ s.kernel.idle_thread → stat ≡ task_blocked)
      → thread_block stat s.kernel ≡ ok k
      → Step s (record s { kernel = k })
  wakes :
      {k : Kernel} (t : ℕ)
      → s.pc t ≡ outside
      → has t s.kernel.all ≡ true
      → is_blocking (status s.kernel t) ≡ true
      → thread_unblock t s.kernel ≡ ok k
      → Step s (record s { kernel = k })

pub data Reach (start : System) : System → Type 0 where
  here : Reach start start
  next : {s t : System} → Reach start s → Step s t → Reach start t
