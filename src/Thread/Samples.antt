-- ===== src/Thread/Samples.antt =====
-- States of the scheduler to run the code on.
use os_zhenxiang.Prelude.{ℕ, refl, [], ◌∷◌, none, arith, ◌==◌, if◌then◌else◌, has}
use os_zhenxiang.Interrupt.{intr_off}
use os_zhenxiang.Thread.{
  TaskStatus, task_running, task_ready, task_blocked, task_died, Task, Kernel, fresh_fds,
  stack_magic_value,
}
use os_zhenxiang.Thread.Valid.{IsValid}

abbrev pub task : TaskStatus → ℕ → Task
task s left = record {
  self_kstack = 0;
  pid = 1;
  status = s;
  name = [];
  priority = 31;
  ticks = left;
  elapsed_ticks = 0;
  fd_table = fresh_fds;
  pgdir = none;
  cwd_inode_nr = 0;
  parent_pid = 65535;
  stack_magic = stack_magic_value;
}

-- 10 runs with `left` ticks to go, 20 (idle) and 30 are ready, 40 waits.
abbrev pub busy : ℕ → Kernel
busy left = record {
  tasks = λ t.
      if t == 10
      then task task_running left
      else if t == 20
      then task task_ready 5
      else if t == 30
      then task task_ready 5
      else if t == 40
      then task task_blocked 5
      else task task_died 0;
  stacks = λ _. record { ebp = 0; ebx = 0; edi = 0; esi = 0; eip = 0; function = 0; func_arg = 0 };
  ready = 20 ∷ 30 ∷ [];
  all = 10 ∷ 20 ∷ 30 ∷ 40 ∷ [];
  cur = 10;
  main_thread = 10;
  idle_thread = 20;
  next_pid = 4;
  ticks = 99;
  intr = intr_off;
}

pub busy-IsValid : (left : ℕ) → IsValid (busy left)
unfolding has
busy-IsValid left = record {
  distinct = (refl, (refl, tt));
  queued = λ t h. ground arith;
  listed = λ t h s. ground arith;
  only = λ t h s. ground arith;
  known = refl;
  idle_known = refl;
  idle_waits = refl;
}
