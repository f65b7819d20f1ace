-- ===== src/Thread.antt =====
-- thread/thread.c and thread.h: tasks, the ready queue and the scheduler. A task is named by the
-- address of its PCB. `thread_ready_list` and `thread_all_list` are sequences of tasks here: that
-- lib/kernel/list.c keeps such sequences is proved in LinkedList. A function that calls `schedule`
-- is modelled up to `switch_to`; what follows it runs when the task is scheduled again.
pub mod Valid
pub mod Schedule
pub mod Turns
pub mod Timer
pub mod Create
pub mod Samples
mod Tests
use os_zhenxiang.Prelude.{
  ℕ, zero, suc, ◌+◌, ◌-◌, ◌*◌, ◌%◌, ◌^◌, Bool, true, false, not, ◌&&◌, ◌||◌, Option, none, some,
  List, [], ◌∷◌, ◌++◌, Outcome, ok, panic, ◌>>=◌, ◌>>◌, assert, ltb, ◌==◌, if◌then◌else◌, u32, has,
  update,
}
use os_zhenxiang.Interrupt.{IntrStatus, intr_on, intr_off, intr_disable, intr_set_status}

-- `enum task_status`
pub data TaskStatus : Type 0 where
  task_running task_ready task_blocked task_waiting task_hanging task_died : TaskStatus

-- `struct thread_stack`
pub record ThreadStack : Type 0 where
  pub ebp : ℕ
  pub ebx : ℕ
  pub edi : ℕ
  pub esi : ℕ
  pub eip : ℕ
  pub function : ℕ
  pub func_arg : ℕ

-- `struct task_struct`: `pgdir` is `none` for a kernel thread, a slot of `fd_table` that holds -1
-- is `none`, and the 16-bit numbers are bit patterns. The two list nodes are left out.
pub record Task : Type 0 where
  pub self_kstack : ℕ
  pub pid : ℕ
  pub status : TaskStatus
  pub name : List ℕ
  pub priority : ℕ
  pub ticks : ℕ
  pub elapsed_ticks : ℕ
  pub fd_table : List (Option ℕ)
  pub pgdir : Option ℕ
  pub cwd_inode_nr : ℕ
  pub parent_pid : ℕ
  pub stack_magic : ℕ

-- The variables of thread.c and timer.c, and the processor: `cur` is what `running_thread` returns.
pub record Kernel : Type 0 where
  pub tasks : ℕ → Task
  pub stacks : ℕ → ThreadStack
  pub ready : List ℕ
  pub all : List ℕ
  pub cur : ℕ
  pub main_thread : ℕ
  pub idle_thread : ℕ
  pub next_pid : ℕ
  pub ticks : ℕ
  pub intr : IntrStatus

abbrev pub pg_size : ℕ
pg_size = 4096

abbrev pub stack_magic_value : ℕ
stack_magic_value = 0x19870916

abbrev pub status_eq : TaskStatus → TaskStatus → Bool
status_eq task_running task_running = true
status_eq task_ready task_ready = true
status_eq task_blocked task_blocked = true
status_eq task_waiting task_waiting = true
status_eq task_hanging task_hanging = true
status_eq task_died task_died = true
status_eq _ _ = false

-- `stat == TASK_BLOCKED || stat == TASK_WAITING || stat == TASK_HANGING`
abbrev pub is_blocking : TaskStatus → Bool
is_blocking task_blocked = true
is_blocking task_waiting = true
is_blocking task_hanging = true
is_blocking _ = false

abbrev pub is_off : IntrStatus → Bool
is_off intr_off = true
is_off intr_on = false

abbrev pub is_empty : List ℕ → Bool
is_empty [] = true
is_empty (x ∷ xs) = false

abbrev pub set_status : ℕ → TaskStatus → Kernel → Kernel
set_status t s k = record k { tasks = update k.tasks t (record (k.tasks t) { status = s }) }

abbrev pub disable : Kernel → Kernel
disable k = record k { intr = (intr_disable k.intr).0 }

abbrev pub restore : IntrStatus → Kernel → Kernel
restore old k = record k { intr = (intr_set_status old k.intr).0 }

pub thread_unblock : ℕ → Kernel → Outcome Kernel
thread_unblock pthread k =
    let old_status = (intr_disable k.intr).1 in
    let k = disable k in
    do
      assert (is_blocking (k.tasks pthread).status)
      if status_eq (k.tasks pthread).status task_ready then ok (restore old_status k) else (do
        assert (not (has pthread k.ready))
        if has pthread k.ready
            then panic
            else ok (
                restore old_status
                  (set_status pthread task_ready (record k { ready = pthread ∷ k.ready }))))

-- The first half of `schedule`: a task that has only used up its time goes to the end of the queue.
unfoldable pub requeue : Kernel → Outcome Kernel
requeue k =
    let cur = k.tasks k.cur in
    if status_eq cur.status task_running
    then (do
      assert (not (has k.cur k.ready))
      ok (record k {
        ready = k.ready ++ k.cur ∷ [];
        tasks = update k.tasks k.cur (record cur { ticks = cur.priority; status = task_ready });
      }))
    else ok k

unfoldable pub wake_idle : Kernel → Outcome Kernel
wake_idle k = if is_empty k.ready then thread_unblock k.idle_thread k else ok k

-- The second half: the head of the queue is given the processor.
unfoldable pub dispatch : List ℕ → Kernel → Outcome Kernel
dispatch [] k = panic
dispatch (next ∷ rest) k = ok (set_status next task_running (record k { ready = rest; cur = next }))

unfoldable pub schedule : Kernel → Outcome Kernel
schedule k = do assert (is_off k.intr); k ← requeue k; k ← wake_idle k; dispatch k.ready k

unfoldable pub thread_block : TaskStatus → Kernel → Outcome Kernel
thread_block stat k = do assert (is_blocking stat); schedule (set_status k.cur stat (disable k))

unfoldable pub thread_yield : Kernel → Outcome Kernel
thread_yield k =
    let k = disable k in
    do
      assert (not (has k.cur k.ready))
      schedule (set_status k.cur task_ready (record k { ready = k.ready ++ k.cur ∷ [] }))

-- `intr_timer_handler` of device/timer.c, which runs with interrupts off
pub intr_timer_handler : Kernel → Outcome Kernel
intr_timer_handler k =
    let cur_thread = k.tasks k.cur in
    do
      assert (cur_thread.stack_magic == stack_magic_value)
      let timed = record k {
        tasks =
            update k.tasks k.cur
              (record cur_thread { elapsed_ticks = u32 (cur_thread.elapsed_ticks + 1) });
        ticks = u32 (k.ticks + 1);
      }
      if cur_thread.ticks == 0
          then schedule timed
          else ok (record timed {
            tasks =
                update timed.tasks k.cur
                  (record (timed.tasks k.cur) { ticks = cur_thread.ticks - 1 });
          })

-- `allocate_pid`, up to `lock_release` and from there: the number that it returns is read last.
pub take_pid : Kernel → Kernel
take_pid k = record k { next_pid = (k.next_pid + 1) % 2 ^ 16 }

pub read_pid : Kernel → ℕ
read_pid k = k.next_pid

abbrev pub fresh_fds : List (Option ℕ)
fresh_fds = some 0 ∷ some 1 ∷ some 2 ∷ none ∷ none ∷ none ∷ none ∷ none ∷ []

-- The name is shorter than the 16 bytes that `strcpy` has room for.
pub init_thread : ℕ → List ℕ → ℕ → Kernel → Kernel
init_thread pthread name prio k =
    let k = take_pid k in
    record k {
      tasks = update k.tasks pthread (record {
        self_kstack = u32 (pthread + pg_size);
        pid = read_pid k;
        status = if pthread == k.main_thread then task_running else task_ready;
        name = name;
        priority = prio % 256;
        ticks = prio % 256;
        elapsed_ticks = 0;
        fd_table = fresh_fds;
        pgdir = none;
        cwd_inode_nr = 0;
        parent_pid = 2 ^ 16 - 1;
        stack_magic = stack_magic_value;
      });
    }

-- `self_kstack` is a `uint32_t*`, so that each subtraction is of four times the size.
pub thread_create : (kernel_thread pthread function func_arg : ℕ) → Kernel → Kernel
thread_create kernel_thread pthread function func_arg k =
    let task = k.tasks pthread in
    let top = u32 (task.self_kstack + 2 ^ 32 - 4 * 76 - 4 * 32) in
    record k {
      tasks = update k.tasks pthread (record task { self_kstack = top });
      stacks = update k.stacks top (record {
        ebp = 0;
        ebx = 0;
        edi = 0;
        esi = 0;
        eip = kernel_thread;
        function = function;
        func_arg = func_arg;
      });
    }

-- `thread` is the page that `get_kernel_pages` returns, `entry` the address of `kernel_thread`.
pub thread_start :
    (thread entry : ℕ) → List ℕ → (prio function func_arg : ℕ) → Kernel → Outcome Kernel
thread_start thread entry name prio function func_arg k =
    let k = thread_create entry thread function func_arg (init_thread thread name prio k) in
    do
      assert (not (has thread k.ready))
      let k' = record k { ready = k.ready ++ thread ∷ [] }
      assert (not (has thread k'.all))
      ok (record k' { all = k'.all ++ thread ∷ [] })

-- `make_main_thread`; `esp` is the stack pointer that `running_thread` rounds down.
pub make_main_thread : Kernel → Outcome Kernel
make_main_thread k =
    let k =
      init_thread k.cur (b'm' ∷ b'a' ∷ b'i' ∷ b'n' ∷ []) 31 (record k { main_thread = k.cur }) in
    do assert (not (has k.cur k.all)); ok (record k { all = k.all ++ k.cur ∷ [] })

-- `thread_init`: `page` is the PCB of the idle thread, `idle` the address of its function.
pub thread_init : (page entry idle : ℕ) → Kernel → Outcome Kernel
thread_init page entry idle k = do
  k ← make_main_thread (record k { ready = []; all = [] })
  k ← thread_start page entry (b'i' ∷ b'd' ∷ b'l' ∷ b'e' ∷ []) 10 idle 0 k
  ok (record k { idle_thread = page })
