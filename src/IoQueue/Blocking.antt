-- ===== src/IoQueue/Blocking.antt =====
-- How a task sleeps on the ring of device/ioqueue.c, and what it does first when it is woken.
use os_zhenxiang.Prelude.{
  ◌≢◌, ℕ, ◌≡◌, refl, true, [], ◌∷◌, arith, if◌then◌else◌, length, Option, none, some, ok,
}
use os_zhenxiang.Interrupt.{intr_off}
use os_zhenxiang.Thread.{Kernel, is_off}
use os_zhenxiang.Thread.Valid.{IsValid, status}
use os_zhenxiang.IoQueue.{Ioqueue, ioq_getchar, ioq_putchar}
use os_zhenxiang.IoQueue.Window.{contents, InRing}
use os_zhenxiang.IoQueue.{asleep, ioq_wait, ioq_woken}
use os_zhenxiang.IoQueue.Contents.{ioq_full_lem, ioq_empty_lem}
use os_zhenxiang.Thread.{task_running, task_blocked, is_empty}
use os_zhenxiang.Thread.Schedule.{Switched}
use os_zhenxiang.Thread.Turns.{thread_block_lem}
use os_zhenxiang.Sync.{lock_init}
use os_zhenxiang.Sync.Nesting.{held, acquire_one, release_one}

-- A ring that its lock's holder sleeps on, in the role given by the two pointers
abbrev pub slept : ℕ → (producer consumer : Option ℕ) → Ioqueue → Ioqueue
slept t producer consumer ioq = record ioq {
  lock = held t 1;
  producer = producer;
  consumer = consumer;
}

ioq_wait_lem :
    (k : Kernel)
    → IsValid k
    → status k k.cur ≡ task_running
    → (k' : Kernel) × (ioq_wait none k ≡ ok (k', some k.cur))
      × Switched k k' (if is_empty k.ready then k.idle_thread ∷ [] else k.ready)
      × (k'.cur ≢ k.cur → status k' k.cur ≡ task_blocked)
unfolding ioq_wait
ioq_wait_lem k v run =
    let (k', e, sw, st) = thread_block_lem task_blocked k v run refl (λ _. refl) in
    (k', rw e refl, sw, st)

-- In a valid state with interrupts off, `ioq_getchar` on an empty ring with its lock free and no
-- consumer on it takes the lock, makes the caller the consumer, and blocks it: the next ready task
-- runs, or the idle task.
pub ioq_getchar_sleeps :
    (k : Kernel) (ioq : Ioqueue)
    → IsValid k
    → status k k.cur ≡ task_running
    → k.intr ≡ intr_off
    → InRing ioq
    → contents ioq ≡ []
    → ioq.lock ≡ lock_init
    → ioq.consumer ≡ none
    → (k' : Kernel) × (ioq_getchar k ioq
        ≡ ok (asleep, k', slept k.cur ioq.producer (some k.cur) ioq))
      × Switched k k' (if is_empty k.ready then k.idle_thread ∷ [] else k.ready)
      × (k'.cur ≢ k.cur → status k' k.cur ≡ task_blocked)
unfolding ioq_getchar
ioq_getchar_sleeps k ioq v run off r empty free alone =
    let flag : is_off k.intr ≡ true = ground arith in
    let (k', e, sw, st) = ioq_wait_lem k v run in
    let acquired = acquire_one k 0 (omega arith) in
    (k', rw (flag, ioq_empty_lem k ioq r off, empty, free, alone, acquired, e) refl, sw, st)

-- `ioq_putchar` on a full ring with its lock free and no producer on it takes the lock, makes the
-- caller the producer, and blocks it.
pub ioq_putchar_sleeps :
    (byte : ℕ) (k : Kernel) (ioq : Ioqueue)
    → IsValid k
    → status k k.cur ≡ task_running
    → k.intr ≡ intr_off
    → InRing ioq
    → length (contents ioq) ≡ 63
    → ioq.lock ≡ lock_init
    → ioq.producer ≡ none
    → (k' : Kernel) × (ioq_putchar byte k ioq
        ≡ ok (asleep, k', slept k.cur (some k.cur) ioq.consumer ioq))
      × Switched k k' (if is_empty k.ready then k.idle_thread ∷ [] else k.ready)
      × (k'.cur ≢ k.cur → status k' k.cur ≡ task_blocked)
unfolding ioq_putchar
ioq_putchar_sleeps byte k ioq v run off r full free alone =
    let flag : is_off k.intr ≡ true = ground arith in
    let (k', e, sw, st) = ioq_wait_lem k v run in
    let acquired = acquire_one k 0 (omega arith) in
    let (f, _) = ioq_full_lem k ioq r off in
    (k', rw (flag, f, full, free, alone, acquired, e) refl, sw, st)

-- The lock that a sleeper took is free again after what it does first when it is woken.
pub ioq_woken_lem :
    (k : Kernel) (producer consumer : Option ℕ) (ioq : Ioqueue)
    → ioq.lock ≡ lock_init
    → ioq_woken k (slept k.cur producer consumer ioq)
      ≡ ok (k, record ioq { producer = producer; consumer = consumer })
unfolding ioq_woken
ioq_woken_lem k producer consumer ioq free =
    let released = release_one k 0 in rw (released, free) refl
