-- ===== src/IoQueue/Tests.antt =====
-- Runs of the ring, and the theorems at concrete rings.
use os_zhenxiang.Prelude.{
  ℕ, ◌≤◌, ◌≡◌, ◌≢◌, refl, List, [], ◌∷◌, Option, none, some, ok, arith, length, if◌then◌else◌, ◌==◌,
}
use os_zhenxiang.Thread.{Kernel, task_blocked}
use os_zhenxiang.Thread.Valid.{status}
use os_zhenxiang.Thread.Schedule.{Switched}
use os_zhenxiang.Thread.Samples.{busy, busy-IsValid}
use os_zhenxiang.Sync.{lock_init}
use os_zhenxiang.IoQueue.{Ioqueue, asleep, ioq_full, ioq_putchar, ioq_woken}
use os_zhenxiang.IoQueue.Window.{window, contents, InRing}
use os_zhenxiang.IoQueue.Contents.{ioq_full_lem}
use os_zhenxiang.IoQueue.Blocking.{slept, ioq_putchar_sleeps, ioq_woken_lem}
use os_zhenxiang.IoQueue.Fifo.{queue_ops, Op, put, get, run_ops, run_ops-queue_ops}

-- Two characters around the end of the ring; task 40 sleeps on it if it is named.
abbrev ring : (producer consumer : Option ℕ) → Ioqueue
ring producer consumer = record {
  lock = lock_init;
  producer = producer;
  consumer = consumer;
  buf = λ p. if p == 63 then b'a' else if p == 0 then b'b' else 0;
  head = 1;
  tail = 63;
}

ring-InRing : (producer consumer : Option ℕ) → InRing (ring producer consumer)
ring-InRing producer consumer = record { head_in = omega arith; tail_in = omega arith }

ring-contents :
    (producer consumer : Option ℕ) → contents (ring producer consumer) ≡ b'a' ∷ b'b' ∷ []
unfolding window
ring-contents producer consumer = refl

-- The ring with nothing in it, and with its 63 places taken
abbrev empty_ring : Ioqueue
empty_ring = record (ring none none) { head = 63 }

abbrev full_ring : Ioqueue
full_ring = record (ring none none) { head = 62 }

full_ring-InRing : InRing full_ring
full_ring-InRing = record { head_in = omega arith; tail_in = omega arith }

ioq_full_lem_example :
    (ioq_full (busy 3) full_ring ≡ ok (length (contents full_ring) == 63))
    × (length (contents full_ring) ≤ 63)
ioq_full_lem_example = ioq_full_lem (busy 3) full_ring full_ring-InRing refl

ioq_putchar_sleeps_example :
    (k' : Kernel) × (ioq_putchar b'c' (busy 3) full_ring
      ≡ ok (asleep, k', slept 10 (some 10) none full_ring))
    × Switched (busy 3) k' (20 ∷ 30 ∷ [])
    × (k'.cur ≢ 10 → status k' 10 ≡ task_blocked)
unfolding window
ioq_putchar_sleeps_example =
    ioq_putchar_sleeps b'c' (busy 3) full_ring (busy-IsValid 3) refl refl full_ring-InRing refl refl
      refl

ioq_woken_lem_example :
    ioq_woken (busy 3) (slept 10 none none (ring none none)) ≡ ok (busy 3, ring none none)
ioq_woken_lem_example = ioq_woken_lem (busy 3) none none (ring none none) refl

abbrev ops : List Op
ops = get ∷ put b'c' ∷ get ∷ get ∷ put b'd' ∷ []

run_ops-queue_ops_example :
    (ioq' : Ioqueue) × (run_ops ops ([], busy 3, ring none none)
      ≡ ok (b'c' ∷ b'b' ∷ b'a' ∷ [], busy 3, ioq'))
    × (contents ioq' ≡ b'd' ∷ [])
unfolding queue_ops
run_ops-queue_ops_example =
    run_ops-queue_ops ops [] (b'a' ∷ b'b' ∷ []) (b'c' ∷ b'b' ∷ b'a' ∷ []) (b'd' ∷ []) (busy 3)
      (ring none none) (busy-IsValid 3) refl (ring-InRing none none) refl refl
      (ring-contents none none) refl
