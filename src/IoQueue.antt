-- ===== src/IoQueue.antt =====
-- device/ioqueue.c and ioqueue.h: the ring of characters between a producer and a consumer. A task
-- that finds the ring full or empty blocks inside the loop; a call here is one round of that loop,
-- and `ioq_woken` is what the round does when the task is scheduled again.
pub mod Window
pub mod Positions
pub mod Contents
pub mod Blocking
pub mod Fifo
mod Tests
use os_zhenxiang.Prelude.{
  ℕ, ◌+◌, ◌%◌, Bool, true, false, Option, none, some, Outcome, ok, panic, ◌>>=◌, ◌>>◌, assert, ◌==◌,
  if◌then◌else◌, update,
}
use os_zhenxiang.Thread.{task_blocked, Kernel, is_off, thread_block, thread_unblock}
use os_zhenxiang.Sync.{Lock, lock_init, lock_acquire, lock_release}

abbrev pub bufsize : ℕ
bufsize = 64

-- `struct ioqueue`; a NULL task is `none`.
pub record Ioqueue : Type 0 where
  pub lock : Lock
  pub producer : Option ℕ
  pub consumer : Option ℕ
  pub buf : ℕ → ℕ
  pub head : ℕ
  pub tail : ℕ

-- How a round ends: with the caller's work done, with the caller asleep on the ring, or with the
-- caller in the queue of the ring's lock.
pub data Round {ℓ} (A : Type ℓ) : Type ℓ where
  done : A → Round A
  asleep : Round A
  at_lock : Round A

-- The memory of `ioq` is zero before, as that of a global variable is.
pub ioqueue_init : Ioqueue → Ioqueue
ioqueue_init ioq = record ioq {
  lock = lock_init;
  producer = none;
  consumer = none;
  head = 0;
  tail = 0;
}

abbrev pub next_pos : ℕ → ℕ
next_pos pos = (pos + 1) % bufsize

unfoldable pub ioq_full : Kernel → Ioqueue → Outcome Bool
ioq_full k ioq = do assert (is_off k.intr); ok (next_pos ioq.head == ioq.tail)

pub ioq_empty : Kernel → Ioqueue → Outcome Bool
ioq_empty k ioq = do assert (is_off k.intr); ok (ioq.head == ioq.tail)

abbrev pub is_null : Option ℕ → Bool
is_null none = true
is_null (some t) = false

-- Up to the switch to another task
pub ioq_wait : Option ℕ → Kernel → Outcome (Kernel × Option ℕ)
ioq_wait waiter k = do
  assert (is_null waiter)
  k' ← thread_block task_blocked k
  ok (k', some k.cur)

pub wakeup : Option ℕ → Kernel → Outcome (Kernel × Option ℕ)
wakeup none k = panic
wakeup (some t) k = do k' ← thread_unblock t k; ok (k', none)

-- `if (waiter != NULL) { wakeup(&waiter); }`
pub wake_waiter : Option ℕ → Kernel → Outcome (Kernel × Option ℕ)
wake_waiter waiter k = if is_null waiter then ok (k, waiter) else wakeup waiter k

-- `ioq_getchar` behind its loop
pub get_now : Kernel → Ioqueue → Outcome (ℕ × Kernel × Ioqueue)
get_now k ioq =
    let byte = ioq.buf ioq.tail in
    let read = record ioq { tail = next_pos ioq.tail } in
    do
      (k', producer) ← wake_waiter read.producer k
      ok (byte, k', record read { producer = producer })

-- `ioq_putchar` behind its loop
pub put_now : ℕ → Kernel → Ioqueue → Outcome (Kernel × Ioqueue)
put_now byte k ioq =
    let written = record ioq { buf = update ioq.buf ioq.head byte; head = next_pos ioq.head } in
    do
      (k', consumer) ← wake_waiter written.consumer k
      ok (k', record written { consumer = consumer })

pub ioq_getchar : Kernel → Ioqueue → Outcome (Round ℕ × Kernel × Ioqueue)
ioq_getchar k ioq = do
  assert (is_off k.intr)
  empty ← ioq_empty k ioq
  if empty
      then (do
        (taken, k', lock) ← lock_acquire k ioq.lock
        if taken
            then (do
              (k'', consumer) ← ioq_wait ioq.consumer k'
              ok (asleep, k'', record ioq { lock = lock; consumer = consumer }))
            else ok (at_lock, k', record ioq { lock = lock }))
      else (do (byte, k', ioq') ← get_now k ioq; ok (done byte, k', ioq'))

pub ioq_putchar : ℕ → Kernel → Ioqueue → Outcome (Round (Unit {0}) × Kernel × Ioqueue)
ioq_putchar byte k ioq = do
  assert (is_off k.intr)
  full ← ioq_full k ioq
  if full
      then (do
        (taken, k', lock) ← lock_acquire k ioq.lock
        if taken
            then (do
              (k'', producer) ← ioq_wait ioq.producer k'
              ok (asleep, k'', record ioq { lock = lock; producer = producer }))
            else ok (at_lock, k', record ioq { lock = lock }))
      else (do (k', ioq') ← put_now byte k ioq; ok (done tt, k', ioq'))

-- What a task that was asleep does first: it gives back the ring's lock.
pub ioq_woken : Kernel → Ioqueue → Outcome (Kernel × Ioqueue)
ioq_woken k ioq = do (k', lock) ← lock_release k ioq.lock; ok (k', record ioq { lock = lock })
