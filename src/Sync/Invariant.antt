-- ===== src/Sync/Invariant.antt =====
-- The invariant of the tasks at one lock, and what the operations do where it holds.
use os_zhenxiang.Prelude.{
  ℕ, ◌+◌, ◌-◌, ◌%◌, ◌<◌, ◌≡◌, ◌≢◌, refl, ap, Bool, true, false, none, some, List, [], ◌∷◌, ◌++◌, ok,
  arith, ◌==◌, if◌then◌else◌, has, Distinct,
}
use os_zhenxiang.Interrupt.{IntrStatus, intr_disable, section_restores}
use os_zhenxiang.Thread.{
  task_running, task_blocked, Kernel, disable, restore, is_blocking, is_empty,
}
use os_zhenxiang.Thread.Valid.{IsValid, status, unblocked, thread_unblock_lem}
use os_zhenxiang.Thread.Schedule.{Switched}
use os_zhenxiang.Thread.Turns.{thread_block_lem}
use os_zhenxiang.Sync.{Semaphore, sema_down, sema_up, wake_first}
use os_zhenxiang.Sync.System.{Pc, outside, wanting, inside, System}

-- The semaphore is down on behalf of a task there.
abbrev pub holds : Pc → Bool
holds outside = false
holds wanting = false
holds _ = true

-- The tasks that the scheduler can run.
abbrev pub active : Kernel → List ℕ
active k = k.cur ∷ k.ready

pub record Inv (s : System) : Type 0 where
  pub sched : IsValid s.kernel
  pub runs : status s.kernel s.kernel.cur ≡ task_running
  pub binary : s.lock.semaphore.value < 2
  pub taken : s.lock.semaphore.value ≡ 0 → (t : ℕ) × (holds (s.pc t) ≡ true)
  pub free : (t : ℕ) → holds (s.pc t) ≡ true → s.lock.semaphore.value ≡ 0
  pub unique : (i j : ℕ) → holds (s.pc i) ≡ true → holds (s.pc j) ≡ true → i ≡ j
  pub inside_holds : (t : ℕ) → s.pc t ≡ inside → s.lock.holder ≡ some t
  pub holder_inside : (t : ℕ) → s.lock.holder ≡ some t → s.pc t ≡ inside
  pub counted : (t : ℕ) → s.lock.holder ≡ some t → 0 < s.lock.holder_repeat_nr
  pub uncounted : s.lock.holder ≡ none → s.lock.holder_repeat_nr ≡ 0
  pub distinct : Distinct s.lock.semaphore.waiters
  pub waiting :
      (t : ℕ)
      → has t s.lock.semaphore.waiters ≡ true
      → (s.pc t ≡ wanting) × (status s.kernel t ≡ task_blocked) × (has t s.kernel.all ≡ true)
  pub idle_outside : s.pc s.kernel.idle_thread ≡ outside
  pub pending :
      s.lock.semaphore.value ≡ 1
      → is_empty s.lock.semaphore.waiters ≡ false
      → (t : ℕ) × (s.pc t ≡ wanting) × (has t (active s.kernel) ≡ true)

pub restored : (k : Kernel) → restore (intr_disable k.intr).1 (disable k) ≡ k
restored k = ap (λ f. record k { intr = f }) (section_restores k.intr).1

pub intr-IsValid : (f : IntrStatus) (k : Kernel) → IsValid k → IsValid (record k { intr = f })
intr-IsValid f k v = record {
  distinct = v.distinct;
  queued = v.queued;
  listed = v.listed;
  only = v.only;
  known = v.known;
  idle_known = v.idle_known;
  idle_waits = v.idle_waits;
}

-- A round of `sema_down` that passes found the semaphore up, and takes it.
pub sema_down-true :
    (old : IntrStatus) (k : Kernel) (psema : Semaphore)
    → psema.value ≡ 1
    → sema_down old k psema ≡ ok (true, restore old (disable k), record psema { value = 0 })
unfolding sema_down
sema_down-true old k psema e =
    let z : (psema.value == 0) ≡ false = ground arith in
    let n : psema.value - 1 ≡ 0 = omega arith in rw (z, n) refl

-- A round on a semaphore that is down blocks the task behind the other waiters.
pub sema_down-false :
    (old : IntrStatus) (k : Kernel) (psema : Semaphore)
    → IsValid k
    → status k k.cur ≡ task_running
    → psema.value ≡ 0
    → has k.cur psema.waiters ≡ false
    → k.cur ≢ k.idle_thread
    → (k' : Kernel) × (sema_down old k psema
        ≡ ok (false, k', record psema { waiters = psema.waiters ++ k.cur ∷ [] }))
      × Switched k k' (if is_empty k.ready then k.idle_thread ∷ [] else k.ready)
      × (status k' k.cur ≡ task_blocked)
unfolding sema_down has
sema_down-false old k psema v run e out ne =
    let z : (psema.value == 0) ≡ true = ground arith in
    let (k', eq, s, st) =
      thread_block_lem task_blocked (disable k) (intr-IsValid _ k v) run refl (λ _. refl) in
    let moved : k'.cur ≢ k.cur = ground (arith, s.took, v.queued k.cur) in
    (
      k',
      rw (z, out, eq),
      record {
        valid = s.valid;
        runs = s.runs;
        took = s.took;
        same_all = s.same_all;
        same_idle = s.same_idle;
        kept = s.kept;
      },
      st moved,
    )

-- `sema_up` on a semaphore that is down and that nobody waits for makes it 1.
pub sema_up_alone :
    (k : Kernel) (psema : Semaphore)
    → psema.value ≡ 0
    → psema.waiters ≡ []
    → sema_up k psema ≡ ok (k, record { value = 1; waiters = [] })
unfolding sema_up wake_first
sema_up_alone k psema e none_waits =
    let z : (psema.value == 0) ≡ true = ground arith in
    let n : (psema.value + 1) % 256 ≡ 1 = omega arith in
    rw (z, none_waits, n) (ap (λ k. ok (k, record { value = 1; waiters = [] })) (restored k))

-- `sema_up` on a semaphore that is down makes it 1 and wakes the task that has waited longest.
pub sema_up_wakes :
    (k : Kernel) (psema : Semaphore) (w : ℕ) (rest : List ℕ)
    → IsValid k
    → psema.value ≡ 0
    → psema.waiters ≡ w ∷ rest
    → has w k.all ≡ true
    → is_blocking (status k w) ≡ true
    → (sema_up k psema ≡ ok (unblocked w k, record { value = 1; waiters = rest }))
      × IsValid (unblocked w k)
unfolding sema_up wake_first
sema_up_wakes k psema w rest v e q known blocks =
    let z : (psema.value == 0) ≡ true = ground arith in
    let n : (psema.value + 1) % 256 ≡ 1 = omega arith in
    let (eq, _) = thread_unblock_lem w (disable k) (intr-IsValid _ k v) known blocks in
    (
      rw (z, q, eq, n)
          (ap (λ f. ok (record (unblocked w k) { intr = f }, record { value = 1; waiters = rest }))
            (section_restores k.intr).1),
      (thread_unblock_lem w k v known blocks).1,
    )
