-- ===== src/Thread/Schedule.antt =====
-- `schedule` (thread/thread.c) keeps the scheduler's invariant, stage by stage.
use os_zhenxiang.Prelude.{
  ℕ, ◌≡◌, ◌≢◌, refl, true, false, List, [], ◌∷◌, ◌++◌, ok, subst, sym, ◌∙◌, arith, if◌then◌else◌,
  has, has-append, Distinct, Distinct-snoc, Bool-cases, inl, inr,
}
use os_zhenxiang.Interrupt.{intr_off}
use os_zhenxiang.Thread.{
  task_running, Kernel, status_eq, is_blocking, is_empty, is_off, set_status, requeue, wake_idle,
  dispatch, schedule,
}
use os_zhenxiang.Thread.Valid.{IsValid, status, unblocked, thread_unblock_lem}

-- The queue that `schedule` takes its next task from.
abbrev pub next_queue : Kernel → List ℕ
next_queue k =
    if status_eq (status k k.cur) task_running
    then k.ready ++ k.cur ∷ []
    else if is_empty k.ready
    then k.idle_thread ∷ []
    else k.ready

-- what no part of `schedule` before the switch changes
abbrev SameRest : Kernel → Kernel → Type 0
SameRest k k' =
    (k'.cur ≡ k.cur) × (k'.idle_thread ≡ k.idle_thread) × (k'.all ≡ k.all) × (k'.intr ≡ k.intr)

requeue_lem :
    (k : Kernel)
    → IsValid k
    → (k' : Kernel) × (requeue k ≡ ok k')
      × IsValid k'
      × (status k' k'.cur ≢ task_running)
      × SameRest k k'
      × (k'.ready
          ≡ (if status_eq (status k k.cur) task_running then k.ready ++ k.cur ∷ [] else k.ready))
      × ((t : ℕ) → is_blocking (status k t) ≡ true → status k' t ≡ status k t)
unfolding requeue has
requeue_lem k v = elim (Bool-cases (status_eq (status k k.cur) task_running)) [
  | inl run ↦
      let out : has k.cur k.ready ≡ false = ground (arith, v.queued k.cur) in
      rw (run, out)
        (
          _,
          refl,
          record {
            distinct = Distinct-snoc k.cur k.ready v.distinct out;
            queued = λ t h. ground (arith, has-append t k.ready (k.cur ∷ []), v.queued t, v.known);
            listed = λ t h e. ground (arith, has-append t k.ready (k.cur ∷ []), v.listed t h);
            only = λ t h e. ground (arith, v.only t h);
            known = v.known;
            idle_known = v.idle_known;
            idle_waits = ground (arith, v.idle_waits);
          },
          ground arith,
          (refl, refl, refl, refl),
          refl,
          λ t h. ground arith,
        )
  | inr idle ↦ rw idle (k, refl, v, ground arith, (refl, refl, refl, refl), refl, λ t h. refl)
]

wake_idle_lem :
    (k : Kernel)
    → IsValid k
    → status k k.cur ≢ task_running
    → (k' : Kernel) × (wake_idle k ≡ ok k')
      × IsValid k'
      × (status k' k'.cur ≢ task_running)
      × SameRest k k'
      × (k'.ready ≡ (if is_empty k.ready then k.idle_thread ∷ [] else k.ready))
      × ((t : ℕ) → (is_empty k.ready ≡ true → t ≢ k.idle_thread) → status k' t ≡ status k t)
unfolding wake_idle has
wake_idle_lem k v ne = elim (Bool-cases (is_empty k.ready)) [
  | inl none_ready ↦
      let nil : k.ready ≡ [] = ground arith in
      let waits : is_blocking (status k k.idle_thread) ≡ true =
        ground (arith, v.idle_waits, v.listed k.idle_thread, v.only k.idle_thread, v.idle_known) in
      let (e, v') = thread_unblock_lem k.idle_thread k v v.idle_known waits in
      rw none_ready (
        unblocked k.idle_thread k,
        e,
        v',
        ground arith,
        (refl, refl, refl, refl),
        ground arith,
        λ t h. ground (arith, h refl),
      )
  | inr some_ready ↦ rw some_ready (k, refl, v, ne, (refl, refl, refl, refl), refl, λ t h. refl)
]

-- The state after the switch to the head of the queue.
abbrev dispatched : ℕ → List ℕ → Kernel → Kernel
dispatched next rest k = set_status next task_running (record k { ready = rest; cur = next })

dispatched-IsValid :
    (next : ℕ) (rest : List ℕ) (k : Kernel)
    → IsValid k
    → status k k.cur ≢ task_running
    → k.ready ≡ next ∷ rest
    → IsValid (dispatched next rest k)
unfolding has
dispatched-IsValid next rest k v ne e =
    let d : Distinct (next ∷ rest) = subst Distinct e v.distinct in
    record {
      distinct = d.1;
      queued = λ u h. ground (arith, v.queued u, d.0);
      listed = λ u h r. ground (arith, v.listed u h);
      only = λ u h r. ground (arith, v.only u h);
      known = ground (arith, v.queued next);
      idle_known = v.idle_known;
      idle_waits = ground (arith, v.idle_waits);
    }

-- What a switch does: `queue` is what the next task was taken from, and tasks that wait go on
-- waiting.
pub record Switched (k k' : Kernel) (queue : List ℕ) : Type 0 where
  pub valid : IsValid k'
  pub runs : status k' k'.cur ≡ task_running
  pub took : k'.cur ∷ k'.ready ≡ queue
  pub same_all : k'.all ≡ k.all
  pub same_idle : k'.idle_thread ≡ k.idle_thread
  pub kept : (t : ℕ) → is_blocking (status k t) ≡ true → t ≢ k'.cur → status k' t ≡ status k t

dispatch_lem :
    (k : Kernel) (q : List ℕ)
    → IsValid k
    → status k k.cur ≢ task_running
    → k.ready ≡ q
    → is_empty q ≡ false
    → (k' : Kernel) × (dispatch q k ≡ ok k') × Switched k k' q
unfolding dispatch
dispatch_lem k [] v ne e full = cc
dispatch_lem k (next ∷ rest) v ne e full = (
  dispatched next rest k,
  refl,
  record {
    valid = dispatched-IsValid next rest k v ne e;
    runs = ground arith;
    took = refl;
    same_all = refl;
    same_idle = refl;
    kept = λ t h ne. ground arith;
  },
)

pub is_empty_snoc : (xs : List ℕ) (y : ℕ) → is_empty (xs ++ y ∷ []) ≡ false
is_empty_snoc [] y = refl
is_empty_snoc (x ∷ xs) y = refl

-- With interrupts off and the invariant in force, `schedule` returns: no ASSERT in it fails. It
-- takes the head of the queue (the ready tasks, with the current one behind them if it was only
-- out of time; the idle task if no one is ready), marks it running, keeps the rest in order and
-- the invariant, and leaves every other waiting task as it is.
pub schedule_lem :
    (k : Kernel)
    → IsValid k
    → k.intr ≡ intr_off
    → (k' : Kernel) × (schedule k ≡ ok k') × Switched k k' (next_queue k)
unfolding schedule
schedule_lem k v off =
    let (k₁, e₁, v₁, ne₁, (cur₁, idle₁, all₁, intr₁), q₁, kept₁) = requeue_lem k v in
    let (k₂, e₂, v₂, ne₂, (cur₂, idle₂, all₂, intr₂), q₂, kept₂) = wake_idle_lem k₁ v₁ ne₁ in
    let q : k₂.ready ≡ next_queue k =
      ground (arith, q₁, q₂, cur₁, idle₁, is_empty_snoc k.ready k.cur) in
    let full : is_empty (next_queue k) ≡ false = ground (arith, is_empty_snoc k.ready k.cur) in
    let (k', e, s) = dispatch_lem k₂ (next_queue k) v₂ ne₂ q full in
    let flag : is_off k.intr ≡ true = ground arith in
    (
      k',
      rw (flag, e₁, e₂, q) e,
      record {
        valid = s.valid;
        runs = s.runs;
        took = s.took;
        same_all = s.same_all ∙ all₂ ∙ all₁;
        same_idle = s.same_idle ∙ idle₂ ∙ idle₁;
        kept = λ t h ne.
            let k₁-same = kept₁ t h in
            let k₂-same =
              kept₂ t
                (λ empty. ground (arith, ne, s.took, q₁, idle₁, is_empty_snoc k.ready k.cur)) in
            s.kept t (subst (λ st. is_blocking st ≡ true) (sym (k₂-same ∙ k₁-same)) h) ne
            ∙ k₂-same
            ∙ k₁-same;
      },
    )
