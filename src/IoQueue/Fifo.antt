-- ===== src/IoQueue/Fifo.antt =====
-- A run of puts and gets on the ring of device/ioqueue.c is a run of a queue of 63 places.
use os_zhenxiang.Prelude.{
  ℕ, ◌<◌, ◌≡◌, ap, sym, ◌∙◌, List, [], ◌∷◌, ◌++◌, arith, ltb, if◌then◌else◌, length, subst, Option,
  none, some, Outcome, ok, panic, ◌>>=◌, Bool-cases, inl, inr,
}
use os_zhenxiang.Interrupt.{intr_off}
use os_zhenxiang.Thread.{Kernel}
use os_zhenxiang.Thread.Valid.{IsValid}
use os_zhenxiang.IoQueue.{Ioqueue, Round, done, asleep, at_lock, ioq_getchar, ioq_putchar}
use os_zhenxiang.IoQueue.Window.{contents, InRing}
use os_zhenxiang.IoQueue.Contents.{ioq_putchar_lem, ioq_getchar_lem, Sleeps, woken}

pub data Op : Type 0 where
  put : ℕ → Op
  get : Op

-- The state of a run: the characters read, the newest first, the kernel and the ring
pub op : Op → List ℕ × Kernel × Ioqueue → Outcome (List ℕ × Kernel × Ioqueue)
op (put byte) (outs, k, ioq) = do
  (round, k', ioq') ← ioq_putchar byte k ioq
  finished round (outs, k', ioq')
  where
    finished : Round (Unit {0}) → List ℕ × Kernel × Ioqueue → Outcome (List ℕ × Kernel × Ioqueue)
    finished (done _) s = ok s
    finished asleep s = panic
    finished at_lock s = panic
op get (outs, k, ioq) = do (round, k', ioq') ← ioq_getchar k ioq; read round (outs, k', ioq')
  where
    read : Round ℕ → List ℕ × Kernel × Ioqueue → Outcome (List ℕ × Kernel × Ioqueue)
    read (done byte) (outs, k, ioq) = ok (byte ∷ outs, k, ioq)
    read asleep s = panic
    read at_lock s = panic

pub run_ops : List Op → List ℕ × Kernel × Ioqueue → Outcome (List ℕ × Kernel × Ioqueue)
run_ops [] s = ok s
run_ops (o ∷ os) s = op o s >>= run_ops os

-- The same on a queue; `none` if an operation would wait
unfoldable pub queue_ops : List Op → (outs queue : List ℕ) → Option (List ℕ × List ℕ)
queue_ops [] outs queue = some (outs, queue)
queue_ops (put byte ∷ os) outs queue =
    let rest = queue_ops os outs (queue ++ byte ∷ []) in
    if ltb (length queue) 63 then rest else none
queue_ops (get ∷ os) outs [] = none
queue_ops (get ∷ os) outs (byte ∷ queue) = queue_ops os (byte ∷ outs) queue

-- On a ring that nobody sleeps on, a put that fits leaves the kernel alone,
put_quiet :
    (byte : ℕ) (k : Kernel) (ioq : Ioqueue)
    → IsValid k
    → k.intr ≡ intr_off
    → InRing ioq
    → ioq.producer ≡ none
    → ioq.consumer ≡ none
    → length (contents ioq) < 63
    → (ioq' : Ioqueue) × (ioq_putchar byte k ioq ≡ ok (done tt, k, ioq'))
      × InRing ioq'
      × (contents ioq' ≡ contents ioq ++ byte ∷ [])
      × (ioq'.producer ≡ none)
      × (ioq'.consumer ≡ none)
put_quiet byte k ioq v off r p c room =
    let (ioq', eq, _, r', holds, p', c') =
      ioq_putchar_lem byte k ioq v off r (subst (Sleeps k) (sym c) tt) room in
    (ioq', eq ∙ ap (λ w. ok (done tt, woken w k, ioq')) c, r', holds, p' ∙ p, c')

-- and so does a get.
get_quiet :
    (byte : ℕ) (rest : List ℕ) (k : Kernel) (ioq : Ioqueue)
    → IsValid k
    → k.intr ≡ intr_off
    → InRing ioq
    → ioq.producer ≡ none
    → ioq.consumer ≡ none
    → contents ioq ≡ byte ∷ rest
    → (ioq' : Ioqueue) × (ioq_getchar k ioq ≡ ok (done byte, k, ioq'))
      × InRing ioq'
      × (contents ioq' ≡ rest)
      × (ioq'.producer ≡ none)
      × (ioq'.consumer ≡ none)
get_quiet byte rest k ioq v off r p c holds =
    let (ioq', eq, _, r', left, p', c') =
      ioq_getchar_lem byte rest k ioq v off r (subst (Sleeps k) (sym p) tt) holds in
    (ioq', eq ∙ ap (λ w. ok (done byte, woken w k, ioq')) p, r', left, p', c' ∙ c)

-- In a valid state with interrupts off, any run of puts and gets that a queue of 63 places can do
-- without waiting is done by a ring that holds the same characters and that nobody sleeps on, with
-- the same characters read and the same ones left, and the kernel as it was.
pub run_ops-queue_ops :
    (os : List Op) (outs queue outs' queue' : List ℕ) (k : Kernel) (ioq : Ioqueue)
    → IsValid k
    → k.intr ≡ intr_off
    → InRing ioq
    → ioq.producer ≡ none
    → ioq.consumer ≡ none
    → contents ioq ≡ queue
    → queue_ops os outs queue ≡ some (outs', queue')
    → (ioq' : Ioqueue) × (run_ops os (outs, k, ioq) ≡ ok (outs', k, ioq'))
      × (contents ioq' ≡ queue')
unfolding run_ops queue_ops op
run_ops-queue_ops [] outs queue outs' queue' k ioq v off r p c holds e =
    (ioq, ground (arith, e), ground (arith, e))
run_ops-queue_ops (put byte ∷ os) outs queue outs' queue' k ioq v off r p c holds e =
    elim (Bool-cases (ltb (length queue) 63)) [
      | inl room ↦
          let (ioq', eq, r', holds', p', c') = put_quiet byte k ioq v off r p c (ground arith) in
          let (end, eqs, left) =
            run_ops-queue_ops os outs (queue ++ byte ∷ []) outs' queue' k ioq' v off r' p' c'
              (holds' ∙ ap (λ q. q ++ byte ∷ []) holds) (ground arith) in
          (end, rw eq eqs, left)
      | inr full ↦ absurd (ground arith)
    ]
run_ops-queue_ops (get ∷ os) outs [] outs' queue' k ioq v off r p c holds e = cc
run_ops-queue_ops (get ∷ os) outs (byte ∷ queue) outs' queue' k ioq v off r p c holds e =
    let (ioq', eq, r', holds', p', c') = get_quiet byte queue k ioq v off r p c holds in
    let (end, eqs, left) =
      run_ops-queue_ops os (byte ∷ outs) queue outs' queue' k ioq' v off r' p' c' holds' e in
    (end, rw eq eqs, left)
