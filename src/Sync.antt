-- ===== src/Sync.antt =====
-- thread/sync.c and sync.h: binary semaphores and the locks made of them. A task that finds a
-- semaphore taken is blocked inside the loop of `sema_down`; a call here is one round of that loop,
-- which the task makes again when it is scheduled.
pub mod System
pub mod Invariant
pub mod Keeps
pub mod KeepsUp
pub mod Switching
pub mod Progress
pub mod Safety
pub mod Nesting
mod Tests
use os_zhenxiang.Prelude.{
  ℕ, ◌+◌, ◌-◌, ◌%◌, ◌<◌, Bool, true, false, not, Option, none, some, List, [], ◌∷◌, ◌++◌, Outcome,
  ok, panic, ◌>>=◌, ◌>>◌, assert, ltb, ◌==◌, if◌then◌else◌, u32, has,
}
use os_zhenxiang.Interrupt.{IntrStatus, intr_disable}
use os_zhenxiang.Thread.{
  task_blocked, Kernel, disable, restore, is_empty, thread_block, thread_unblock,
}

-- `struct semaphore`; `waiters` is a list of tasks.
pub record Semaphore : Type 0 where
  pub value : ℕ
  pub waiters : List ℕ

-- `struct lock`; a NULL holder is `none`.
pub record Lock : Type 0 where
  pub holder : Option ℕ
  pub semaphore : Semaphore
  pub holder_repeat_nr : ℕ

unfoldable pub sema_init : ℕ → Semaphore
sema_init value = record { value = value % 256; waiters = [] }

unfoldable pub lock_init : Lock
unfolding sema_init
lock_init = record { holder = none; semaphore = sema_init 1; holder_repeat_nr = 0 }

-- One round of `while (psema->value == 0)`: true if the semaphore is taken, false if the task is
-- blocked. `old_status` is the local variable, from the call of `intr_disable` before the loop; in
-- the rounds after the first interrupts are off already.
pub sema_down : IntrStatus → Kernel → Semaphore → Outcome (Bool × Kernel × Semaphore)
sema_down old_status k psema =
    let off = disable k in
    if psema.value == 0
    then (do
      assert (not (has k.cur psema.waiters))
      if has k.cur psema.waiters then panic else (do
        k' ← thread_block task_blocked off
        ok (false, k', record psema { waiters = psema.waiters ++ k.cur ∷ [] })))
    else (do
      assert (psema.value - 1 == 0)
      ok (true, restore old_status off, record psema { value = psema.value - 1 }))

-- `if (!list_empty(&psema->waiters)) thread_unblock(the first)`
pub wake_first : List ℕ → Kernel → Outcome (Kernel × List ℕ)
wake_first [] k = ok (k, [])
wake_first (thread_blocked ∷ rest) k = do k' ← thread_unblock thread_blocked k; ok (k', rest)

pub sema_up : Kernel → Semaphore → Outcome (Kernel × Semaphore)
sema_up k psema =
    let old_status = (intr_disable k.intr).1 in
    do
      assert (psema.value == 0)
      (k', waiters) ← wake_first psema.waiters (disable k)
      let value = (psema.value + 1) % 256
      assert (value == 1)
      ok (restore old_status k', record { value = value; waiters = waiters })

abbrev pub holds_lock : ℕ → Option ℕ → Bool
holds_lock t none = false
holds_lock t (some h) = h == t

-- `lock_acquire` behind `sema_down`
pub lock_take : ℕ → Lock → Outcome Lock
lock_take cur plock = do
  assert (plock.holder_repeat_nr == 0)
  ok (record plock { holder = some cur; holder_repeat_nr = 1 })

pub lock_again : Lock → Lock
lock_again plock = record plock { holder_repeat_nr = u32 (plock.holder_repeat_nr + 1) }

-- True if the caller has the lock, false if it is blocked.
pub lock_acquire : Kernel → Lock → Outcome (Bool × Kernel × Lock)
lock_acquire k plock = if holds_lock k.cur plock.holder then ok (true, k, lock_again plock) else (do
  (taken, k', psema) ← sema_down (intr_disable k.intr).1 k plock.semaphore
  if taken
      then (do plock' ← lock_take k.cur (record plock { semaphore = psema }); ok (true, k', plock'))
      else ok (false, k', record plock { semaphore = psema }))

-- `lock_release` up to `sema_up`: true if that call follows.
pub lock_drop : ℕ → Lock → Outcome (Bool × Lock)
lock_drop cur plock = do
  assert (holds_lock cur plock.holder)
  if ltb 1 plock.holder_repeat_nr
      then ok (false, record plock { holder_repeat_nr = plock.holder_repeat_nr - 1 })
      else (do
        assert (plock.holder_repeat_nr == 1)
        ok (true, record plock { holder = none; holder_repeat_nr = 0 }))

pub lock_release : Kernel → Lock → Outcome (Kernel × Lock)
lock_release k plock = do
  (last, plock') ← lock_drop k.cur plock
  if last
      then (do
        (k', psema) ← sema_up k plock'.semaphore
        ok (k', record plock' { semaphore = psema }))
      else ok (k, plock')
