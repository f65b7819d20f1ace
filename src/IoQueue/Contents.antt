-- ===== src/IoQueue/Contents.antt =====
-- The ring of device/ioqueue.c holds a queue of at most 63 characters.
use os_zhenxiang.Prelude.{
  Bool-cases, ℕ, ◌+◌, ◌<◌, ◌≤◌, ◌≡◌, inl, inr, refl, sym, ap, ap₂, ◌∙◌, true, false, List, [], ◌∷◌,
  ◌++◌, arith, ◌==◌, update, length, Option, none, some, ok, has,
}
use os_zhenxiang.Interrupt.{intr_off}
use os_zhenxiang.Thread.{Kernel, is_off, is_blocking}
use os_zhenxiang.Thread.Valid.{IsValid, status, unblocked, thread_unblock_lem}
use os_zhenxiang.IoQueue.{
  bufsize, Ioqueue, next_pos, done, ioq_full, ioq_empty, get_now, put_now, wake_waiter, wakeup,
  ioq_getchar, ioq_putchar,
}
use os_zhenxiang.IoQueue.Window.{
  window, length-window, window-snoc, window-update, count, contents, InRing,
}
use os_zhenxiang.IoQueue.Positions.{count_put, count_get, count_full, count_empty, end_of}

-- A task that sleeps on the ring, if there is one, is known and waits.
abbrev pub Sleeps : Kernel → Option ℕ → Type 0
Sleeps k none = Unit
Sleeps k (some t) = (has t k.all ≡ true) × (is_blocking (status k t) ≡ true)

abbrev pub woken : Option ℕ → Kernel → Kernel
woken none k = k
woken (some t) k = unblocked t k

wake_waiter_lem :
    (waiter : Option ℕ) (k : Kernel)
    → IsValid k
    → Sleeps k waiter
    → (wake_waiter waiter k ≡ ok (woken waiter k, none)) × IsValid (woken waiter k)
unfolding wake_waiter wakeup
wake_waiter_lem none k v s = (refl, v)
wake_waiter_lem (some t) k v (known, blocking) =
    let (e, v') = thread_unblock_lem t k v known blocking in (rw e refl, v')

-- what `put_now` makes of the ring
abbrev written : ℕ → Ioqueue → Ioqueue
written byte ioq = record ioq {
  buf = update ioq.buf ioq.head byte;
  head = next_pos ioq.head;
  consumer = none;
}

contents-written :
    (byte : ℕ) (ioq : Ioqueue)
    → InRing ioq
    → (next_pos ioq.head == ioq.tail) ≡ false
    → contents (written byte ioq) ≡ contents ioq ++ byte ∷ []
contents-written byte ioq r room =
    let n = count_put ioq.head ioq.tail r.head_in r.tail_in room in
    let at = end_of ioq.head ioq.tail r.head_in r.tail_in in
    let small : count ioq + 0 < bufsize = omega arith in
    let same : (ioq.head == ioq.head) ≡ true = ground arith in
    ap (window (update ioq.buf ioq.head byte) ioq.tail) n
    ∙ window-snoc (update ioq.buf ioq.head byte) ioq.tail (count ioq) r.tail_in
    ∙ ap₂ (λ cs c. cs ++ c ∷ [])
        (window-update ioq.buf ioq.tail (count ioq) 0 ioq.head byte r.tail_in small (omega arith))
        (rw (at, same) refl)

contents-read :
    (ioq : Ioqueue)
    → InRing ioq
    → (ioq.head == ioq.tail) ≡ false
    → contents ioq
      ≡ ioq.buf ioq.tail ∷ contents (record ioq { tail = next_pos ioq.tail; producer = none })
unfolding window
contents-read ioq r some_in =
    let n = count_get ioq.head ioq.tail r.head_in r.tail_in some_in in
    ap (window ioq.buf ioq.tail) (sym n)

-- The ring never holds more than 63 characters, and `ioq_full`, with interrupts off, tells whether
-- it holds that many.
pub ioq_full_lem :
    (k : Kernel) (ioq : Ioqueue)
    → InRing ioq
    → k.intr ≡ intr_off
    → (ioq_full k ioq ≡ ok (length (contents ioq) == 63)) × (length (contents ioq) ≤ 63)
unfolding ioq_full
ioq_full_lem k ioq r off =
    let flag : is_off k.intr ≡ true = ground arith in
    let len = length-window ioq.buf ioq.tail (count ioq) in
    let fits : length (contents ioq) ≤ 63 = omega arith in
    elim (Bool-cases (next_pos ioq.head == ioq.tail)) [
      | inl full ↦
          let n = count_full ioq.head ioq.tail r.head_in r.tail_in full in
          let e : (length (contents ioq) == 63) ≡ true = ground arith in
          (rw (flag, full, e) refl, fits)
      | inr room ↦
          let n = count_put ioq.head ioq.tail r.head_in r.tail_in room in
          let lt : length (contents ioq) < 63 = omega arith in
          let e : (length (contents ioq) == 63) ≡ false = ground arith in
          (rw (flag, room, e) refl, fits)
    ]

-- In a valid state, where a consumer on the ring is a waiting task, `ioq_putchar`, with interrupts
-- off and fewer than 63 characters in the ring, puts the character
-- behind them, does not block, and wakes the consumer that sleeps on the ring, if there is one.
pub ioq_putchar_lem :
    (byte : ℕ) (k : Kernel) (ioq : Ioqueue)
    → IsValid k
    → k.intr ≡ intr_off
    → InRing ioq
    → Sleeps k ioq.consumer
    → length (contents ioq) < 63
    → (ioq' : Ioqueue) × (ioq_putchar byte k ioq ≡ ok (done tt, woken ioq.consumer k, ioq'))
      × IsValid (woken ioq.consumer k)
      × InRing ioq'
      × (contents ioq' ≡ contents ioq ++ byte ∷ [])
      × (ioq'.producer ≡ ioq.producer)
      × (ioq'.consumer ≡ none)
unfolding ioq_putchar put_now ioq_full
ioq_putchar_lem byte k ioq v off r sleeps room =
    let flag : is_off k.intr ≡ true = ground arith in
    let len = length-window ioq.buf ioq.tail (count ioq) in
    let not_full : (next_pos ioq.head == ioq.tail) ≡ false =
      ground (arith, count_full ioq.head ioq.tail r.head_in r.tail_in) in
    let (e, v') = wake_waiter_lem ioq.consumer k v sleeps in
    (
      written byte ioq,
      rw (flag, not_full, e) refl,
      v',
      record { head_in = omega arith; tail_in = r.tail_in },
      contents-written byte ioq r not_full,
      refl,
      refl,
    )

-- In a valid state, where a producer on the ring is a waiting task, `ioq_getchar`, with interrupts
-- off, takes the oldest character of a ring that has one, does not
-- block, and wakes the producer that sleeps on the ring, if there is one.
pub ioq_getchar_lem :
    (byte : ℕ) (rest : List ℕ) (k : Kernel) (ioq : Ioqueue)
    → IsValid k
    → k.intr ≡ intr_off
    → InRing ioq
    → Sleeps k ioq.producer
    → contents ioq ≡ byte ∷ rest
    → (ioq' : Ioqueue) × (ioq_getchar k ioq ≡ ok (done byte, woken ioq.producer k, ioq'))
      × IsValid (woken ioq.producer k)
      × InRing ioq'
      × (contents ioq' ≡ rest)
      × (ioq'.producer ≡ none)
      × (ioq'.consumer ≡ ioq.consumer)
unfolding ioq_getchar get_now ioq_empty
ioq_getchar_lem byte rest k ioq v off r sleeps holds =
    let flag : is_off k.intr ≡ true = ground arith in
    let len = length-window ioq.buf ioq.tail (count ioq) in
    let some_in : (ioq.head == ioq.tail) ≡ false =
      ground (arith, count_empty ioq.head ioq.tail r.head_in r.tail_in, ap length holds) in
    let (e, v') = wake_waiter_lem ioq.producer k v sleeps in
    let split : byte ∷ rest
        ≡ ioq.buf ioq.tail ∷ contents (record ioq { tail = next_pos ioq.tail; producer = none }) =
      sym holds ∙ contents-read ioq r some_in in
    let first : ioq.buf ioq.tail ≡ byte = ground (arith, split) in
    (
      record ioq { tail = next_pos ioq.tail; producer = none },
      rw (flag, some_in, e, first) refl,
      v',
      record { head_in = r.head_in; tail_in = omega arith },
      ground (arith, split),
      refl,
      refl,
    )

pub ioq_empty_lem :
    (k : Kernel) (ioq : Ioqueue)
    → InRing ioq
    → k.intr ≡ intr_off
    → ioq_empty k ioq ≡ ok (length (contents ioq) == 0)
unfolding ioq_empty
ioq_empty_lem k ioq r off =
    let flag : is_off k.intr ≡ true = ground arith in
    let len = length-window ioq.buf ioq.tail (count ioq) in
    elim (Bool-cases (ioq.head == ioq.tail)) [
      | inl empty ↦
          let n = count_empty ioq.head ioq.tail r.head_in r.tail_in empty in
          let e : (length (contents ioq) == 0) ≡ true = ground arith in rw (flag, empty, e) refl
      | inr some_in ↦
          let n = count_get ioq.head ioq.tail r.head_in r.tail_in some_in in
          let e : (length (contents ioq) == 0) ≡ false = ground arith in rw (flag, some_in, e) refl
    ]
