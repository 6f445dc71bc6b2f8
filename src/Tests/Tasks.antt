-- ===== src/Tests/Tasks.antt =====
-- The scheduler with its manager at 1000: tasks 5000 and 6000 are ready, 7000 is neither ready nor
-- asleep, and 8000 sleeps.
use little_os.Base.{◌≡◌, refl, arith, [], ◌∷◌, if◌then◌else◌, ◌==◌, some, none, update}
use little_os.Cmd.{ok, fault}
use little_os.Klist.{Ptr, Heap}
use little_os.Klist.Chain.{IsList}
use little_os.Klist.Frame.{Untouched}
use little_os.Task.{Task, Kernel, running, ready, sys_sched_yield, task_time_tick}
use little_os.Task.Dispatch.{switched}
use little_os.Task.Yield.{sys_sched_yield-ok}
use little_os.Task.Sleep.{task_time_tick_fault}

abbrev mgr : Ptr
mgr = 1000

abbrev lists_of : Ptr → Heap
lists_of asleep = record {
  prev = λ p.
      if p == 5048
      then 1004
      else if p == 6048
      then 5048
      else if p == 1012
      then 6048
      else if p == 8048
      then 1044
      else if p == 1052
      then asleep
      else 0;
  next = λ p.
      if p == 1004
      then 5048
      else if p == 5048
      then 6048
      else if p == 6048
      then 1012
      else if p == 1044
      then (if asleep == 1044 then 1052 else asleep)
      else if p == 8048
      then 1052
      else 0;
  len = λ p. if p == 1004 then 2 else if p == 1044 then (if asleep == 1044 then 0 else 1) else 0;
}

abbrev some_task : Task
some_task = record {
  state = running;
  sleep_ticks = 0;
  slice_ticks = 10;
  time_ticks = 10;
  tss_sel = 24;
}

abbrev kernel_of : Ptr → Kernel
kernel_of asleep = record {
  heap = lists_of asleep;
  task = λ p.
      if p == 5000
      then some some_task
      else if p == 6000
      then some some_task
      else if p == 7000
      then some some_task
      else none;
  curr_task = 5000;
  eflags = 0x202;
  tr = 24;
}

-- The task at 8000 sleeps, or none does.
abbrev busy : Kernel
busy = kernel_of 8048

abbrev calm : Kernel
calm = kernel_of 1044

ready-IsList : IsList busy.heap 1004 (5048 ∷ 6048 ∷ [])
ready-IsList = record {
  start = refl;
  chain = omega arith;
  stop = refl;
  apart = omega arith;
  real = omega arith;
  count = refl;
  small = omega arith;
}

sleep-IsList : IsList busy.heap 1044 (8048 ∷ [])
sleep-IsList = record {
  start = refl;
  chain = omega arith;
  stop = refl;
  apart = omega arith;
  real = omega arith;
  count = refl;
  small = omega arith;
}

calm-IsList : IsList calm.heap 1044 []
calm-IsList = record {
  start = refl;
  chain = omega arith;
  stop = refl;
  apart = omega arith;
  real = omega arith;
  count = refl;
  small = omega arith;
}

-- With another task current, the first ready one is dispatched.
abbrev other : Kernel
other = record busy { curr_task = 7000 }

sys_sched_yield-ok_example :
    (g : Heap) × (sys_sched_yield mgr busy
      ≡ ok 0 (
          switched 6000 some_task (record busy {
            heap = g;
            task = update busy.task 5000 (some (record some_task { state = ready }));
          })))
    × IsList g 1004 (6048 ∷ 5048 ∷ [])
    × Untouched busy.heap g 1004 (1004 ∷ 5048 ∷ 6048 ∷ 1012 ∷ [])
sys_sched_yield-ok_example =
    sys_sched_yield-ok mgr busy 6000 some_task some_task [] ready-IsList (omega arith) (omega arith)
      refl refl

task_time_tick_fault_example : task_time_tick mgr 1 calm ≡ fault
task_time_tick_fault_example =
    task_time_tick_fault mgr calm 0 some_task calm-IsList (omega arith) refl refl (omega arith)
      (omega arith)
