-- ===== src/Sync/Nesting.antt =====
-- A lock of thread/sync.c that one task takes again while it holds it.
use os_zhenxiang.Prelude.{
  zero, suc, ◌≤◌, ◌∙◌, ap, Outcome, ◌>>=◌, ◌>>◌, assert, ℕ, ◌+◌, ◌-◌, ◌^◌, ◌<◌, ◌≡◌, refl, true,
  none, some, List, [], ◌∷◌, ok, arith, ltb, ◌==◌, has, u32,
}
use os_zhenxiang.Thread.{Kernel, is_blocking}
use os_zhenxiang.Thread.Valid.{IsValid, status, unblocked}
use os_zhenxiang.Sync.{
  lock_acquire, lock_release, lock_init, sema_init, Lock, lock_take, lock_again, lock_drop,
}
use os_zhenxiang.Sync.Invariant.{restored, sema_down-true, sema_up_alone, sema_up_wakes}

-- a lock that nobody waits for, held `n` times over
abbrev pub held : ℕ → ℕ → Lock
held t n = record {
  holder = some t;
  semaphore = record { value = 0; waiters = [] };
  holder_repeat_nr = n;
}

-- The lock with `n` acquisitions still to be released
abbrev pub nested : (t n : ℕ) → Lock
nested t zero = lock_init
nested t (suc n) = held t (suc n)

-- `n` calls of `lock_acquire`, which have to get the lock
pub acquire_times : (n : ℕ) → Kernel → Lock → Outcome (Kernel × Lock)
acquire_times zero k plock = ok (k, plock)
acquire_times (suc n) k plock = do
  (taken, k', plock') ← lock_acquire k plock
  assert taken
  acquire_times n k' plock'

-- `m` calls of `lock_release`
pub release_times : (m : ℕ) → Kernel → Lock → Outcome (Kernel × Lock)
release_times zero k plock = ok (k, plock)
release_times (suc m) k plock = do (k', plock') ← lock_release k plock; release_times m k' plock'

pub acquire_one :
    (k : Kernel) (n : ℕ)
    → suc n < 2 ^ 32
    → lock_acquire k (nested k.cur n) ≡ ok (true, k, nested k.cur (suc n))
unfolding lock_acquire lock_init sema_init lock_take lock_again
acquire_one k zero small =
    rw (sema_down-true _ k (record { value = 1; waiters = [] }) refl, restored k) refl
acquire_one k (suc n) small =
    let same : (k.cur == k.cur) ≡ true = ground arith in
    let fits : u32 (suc n + 1) ≡ suc (suc n) = omega arith in rw (same, fits) refl

pub release_one :
    (k : Kernel) (n : ℕ) → lock_release k (nested k.cur (suc n)) ≡ ok (k, nested k.cur n)
unfolding lock_release lock_init sema_init lock_drop
release_one k zero =
    let same : (k.cur == k.cur) ≡ true = ground arith in
    rw (same, sema_up_alone k (record { value = 0; waiters = [] }) refl refl) refl
release_one k (suc n) =
    let same : (k.cur == k.cur) ≡ true = ground arith in
    let more : ltb 1 (suc (suc n)) ≡ true = ground arith in
    let back : suc (suc n) - 1 ≡ suc n = omega arith in rw (same, more, back) refl

acquire_times_lem :
    (n from : ℕ) (k : Kernel)
    → n + from < 2 ^ 32
    → acquire_times n k (nested k.cur from) ≡ ok (k, nested k.cur (n + from))
unfolding acquire_times
acquire_times_lem zero from k small = ap (λ m. ok (k, nested k.cur m)) (omega arith)
acquire_times_lem (suc n) from k small = rw (acquire_one k from (omega arith)) (
    acquire_times_lem n (suc from) k (omega arith) ∙ ap (λ m. ok (k, nested k.cur m)) (omega arith))

release_times_lem :
    (m left : ℕ) (k : Kernel)
    → release_times m k (nested k.cur (m + left)) ≡ ok (k, nested k.cur left)
unfolding release_times
release_times_lem zero left k = ap (λ m. ok (k, nested k.cur m)) (omega arith)
release_times_lem (suc m) left k =
    let next : suc m + left ≡ suc (m + left) = omega arith in
    ap (λ n. release_times (suc m) k (nested k.cur n)) next
    ∙ rw (release_one k (m + left)) (release_times_lem m left k)

-- A lock made by `lock_init` that the running task acquires n times, fewer than 2 ^ 32, and then
-- releases m times, at most n: every call returns without waiting, the task holds the lock n - m times
-- over, so that the lock is free, as `lock_init` made it, when m is n, and the kernel is as it was.
pub lock_nests :
    (n m : ℕ) (k : Kernel)
    → n < 2 ^ 32
    → m ≤ n
    → (acquire_times n k lock_init >>= λ (k', plock). release_times m k' plock)
      ≡ ok (k, nested k.cur (n - m))
lock_nests n m k small le =
    let taken = acquire_times_lem n 0 k (omega arith) in
    let total : n + 0 ≡ m + (n - m) = omega arith in
    rw taken (ap (λ c. release_times m k (nested k.cur c)) total ∙ release_times_lem m (n - m) k)

-- The last release of a lock that tasks wait for leaves it free with its semaphore up, and puts the
-- task that has waited longest at the front of the ready queue, where the scheduler stays in order.
pub lock_release_wakes :
    (k : Kernel) (plock : Lock) (w : ℕ) (rest : List ℕ)
    → IsValid k
    → plock.holder ≡ some k.cur
    → plock.holder_repeat_nr ≡ 1
    → plock.semaphore.value ≡ 0
    → plock.semaphore.waiters ≡ w ∷ rest
    → has w k.all ≡ true
    → is_blocking (status k w) ≡ true
    → (lock_release k plock
        ≡ ok (
          unblocked w k,
          record {
            holder = none;
            semaphore = record { value = 1; waiters = rest };
            holder_repeat_nr = 0;
          },
        ))
      × IsValid (unblocked w k)
unfolding lock_release lock_drop
lock_release_wakes k plock w rest v holds once down waits known blocking =
    let same : (k.cur == k.cur) ≡ true = ground arith in
    let (e, v') = sema_up_wakes k plock.semaphore w rest v down waits known blocking in
    (rw (holds, same, once, e) refl, v')
