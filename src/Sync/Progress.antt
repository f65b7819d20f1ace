-- ===== src/Sync/Progress.antt =====
-- Where the invariant holds, each operation of the running task returns (no ASSERT in it fails), and
-- keeps the invariant.
use os_zhenxiang.Prelude.{
  ℕ_discrete, ℕ, ◌-◌, ◌≡◌, ◌≢◌, refl, Bool, true, false, Option, none, some, List, [], ◌∷◌, ok,
  arith, ltb, ◌==◌, if◌then◌else◌, has, Bool-cases, inl, inr,
}
use os_zhenxiang.Interrupt.{IntrStatus}
use os_zhenxiang.Thread.{Kernel}
use os_zhenxiang.Sync.{Semaphore, Lock, sema_down, sema_up, lock_take, lock_drop}
use os_zhenxiang.Sync.System.{outside, wanting, got, inside, leaving, System, move, with_sema}
use os_zhenxiang.Sync.Invariant.{Inv, sema_down-true, sema_down-false, sema_up_alone, sema_up_wakes}
use os_zhenxiang.Sync.KeepsUp.{up-Inv, up_wakes-Inv}
use os_zhenxiang.Sync.Keeps.{cur-not_waiting, down-Inv, blocks-Inv, take-Inv, count-Inv, drop-Inv}

-- The state after a round of `sema_down`
abbrev pub rounded : System → Bool × Kernel × Semaphore → System
rounded s (taken, k, sema) = move s k (with_sema s.lock sema) (if taken then got else wanting)

abbrev pub dropped : System → Bool × Lock → System
dropped s (last, l) = move s s.kernel l (if last then leaving else inside)

abbrev pub upped : System → Kernel × Semaphore → System
upped s (k, sema) = move s k (with_sema s.lock sema) outside

is_none : (h : Option ℕ) → ((t : ℕ) → h ≢ some t) → h ≡ none
is_none none out = refl
is_none (some t) out = absurd (out t refl)

module _ {s : System} (inv : Inv s) where
  abbrev cur : ℕ
  cur = s.kernel.cur

  pub down_returns :
      (old : IntrStatus)
      → s.pc cur ≡ wanting
      → (r : Bool × Kernel × Semaphore) × (sema_down old s.kernel s.lock.semaphore ≡ ok r)
        × Inv (rounded s r)
  down_returns old at = elim (ℕ_discrete s.lock.semaphore.value 0) [
    | yes zero ↦
        let ne : cur ≢ s.kernel.idle_thread = ground (arith, inv.idle_outside) in
        let (k', eq, sw, st) =
          sema_down-false old s.kernel s.lock.semaphore inv.sched inv.runs zero
            (cur-not_waiting inv) ne in
        (_, eq, blocks-Inv inv k' at zero sw st)
    | no positive ↦
        let one : s.lock.semaphore.value ≡ 1 = ground (arith, inv.binary) in
        (_, sema_down-true old s.kernel s.lock.semaphore one, down-Inv inv _ at one)
  ]

  pub take_returns :
      s.pc cur ≡ got → (l : Lock) × (lock_take cur s.lock ≡ ok l) × Inv (move s s.kernel l inside)
  unfolding lock_take
  take_returns at =
      let free : s.lock.holder ≡ none =
        is_none s.lock.holder (λ t e. ground (arith, inv.holder_inside t e, inv.unique t cur)) in
      let n : (s.lock.holder_repeat_nr == 0) ≡ true = ground (arith, inv.uncounted) in
      (record s.lock { holder = some cur; holder_repeat_nr = 1 }, rw n refl, take-Inv inv at)

  pub drop_returns :
      s.pc cur ≡ inside → (r : Bool × Lock) × (lock_drop cur s.lock ≡ ok r) × Inv (dropped s r)
  unfolding lock_drop
  drop_returns at =
      let held = inv.inside_holds cur at in
      let same : (cur == cur) ≡ true = ground arith in
      let positive = inv.counted cur held in
      elim (Bool-cases (ltb 1 s.lock.holder_repeat_nr)) [
        | inl more ↦ (
          (false, record s.lock { holder_repeat_nr = s.lock.holder_repeat_nr - 1 }),
          rw (held, same, more) refl,
          count-Inv inv (s.lock.holder_repeat_nr - 1) at (ground arith),
        )
        | inr last ↦
            let one : (s.lock.holder_repeat_nr == 1) ≡ true = ground arith in
            (
              (true, record s.lock { holder = none; holder_repeat_nr = 0 }),
              rw (held, same, last, one) refl,
              drop-Inv inv at,
            )
      ]

  up_with :
      (waiters : List ℕ)
      → s.lock.semaphore.waiters ≡ waiters
      → s.pc cur ≡ leaving
      → (r : Kernel × Semaphore) × (sema_up s.kernel s.lock.semaphore ≡ ok r) × Inv (upped s r)
  unfolding has
  up_with [] q at =
      (_, sema_up_alone s.kernel s.lock.semaphore (inv.free cur (ground arith)) q, up-Inv inv at q)
  up_with (w ∷ rest) q at =
      let (_, blocked, known) = inv.waiting w (ground arith) in
      let (eq, v) =
        sema_up_wakes s.kernel s.lock.semaphore w rest inv.sched (inv.free cur (ground arith)) q
          known (ground arith) in
      (_, eq, up_wakes-Inv inv w rest at q v)

  pub up_returns :
      s.pc cur ≡ leaving
      → (r : Kernel × Semaphore) × (sema_up s.kernel s.lock.semaphore ≡ ok r) × Inv (upped s r)
  up_returns = up_with s.lock.semaphore.waiters refl
