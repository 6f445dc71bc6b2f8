-- ===== src/Task.antt =====
-- source/kernel/core/task.c and task.h: the scheduler. `task_manager` lies at the address `mgr`:
-- `curr_task`, then the lists of 20 bytes each, then the two tasks of the manager. A `task_t` is
-- known by its address; what lies at an address that is no task's is no `task_t`, and to use it
-- as one is a fault. The list nodes of a task lie in the heap of lists, 48 and 56 bytes into it.
-- `int` fields are bit patterns of 32 bits.
-- `tss_init`, `task_init` and the two initialisers call `gdt_alloc_desc`, which the repository
-- does not define.
pub mod Ready
pub mod Dispatch
pub mod Yield
pub mod Sleep
use little_os.Base.{
  ℕ, zero, suc, ◌+◌, ◌-◌, ◌/◌, ◌^◌, Bool, ◌&&◌, Option, none, some, if◌then◌else◌, ltb, ◌==◌,
  update, not,
}
use little_os.Base.Word.{add32, sub32}
use little_os.Cmd.{Run, ok, fault, out_of_fuel, Cmd, pure, ◌>>=◌, ◌>>◌, within}
use little_os.Klist.{
  Ptr, null, Heap, klist_append, klist_remove, klist_len, klist_count, klist_get_first_node,
  klist_get_next_node,
}
use little_os.Irq.{IrqStatus, irq_enter_protection, irq_leave_protection}

pub data TaskState : Type 0 where
  created running sleep ready waitting : TaskState

-- The fields that the scheduler reads or writes: the name, `all_node` and the saved registers of
-- `tss` are left out, and `run_node` is in the heap of lists.
pub record Task : Type 0 where
  pub state : TaskState
  pub sleep_ticks : ℕ
  pub slice_ticks : ℕ
  pub time_ticks : ℕ
  pub tss_sel : ℕ

-- `tr` is the selector of the task state segment that the processor runs on.
pub record Kernel : Type 0 where
  pub heap : Heap
  pub task : Ptr → Option Task
  pub curr_task : Ptr
  pub eflags : ℕ
  pub tr : ℕ

abbrev pub run_node : Ptr → Ptr
run_node task = task + 48

-- `KLIST_STRUCT_ADDR(node, task_t, run_node)`.
abbrev pub task_of : Ptr → Ptr
task_of node = if node == null then null else sub32 node 48

-- A list operation; the walks get two rounds more than the list's length.
abbrev pub lists : {A : Type 0} → Cmd Heap A → Cmd Kernel A
lists m k = within (λ h. record k { heap = h }) (m k.heap)

abbrev pub remove : Ptr → Ptr → Cmd Kernel Ptr
remove list node k = lists (klist_remove (k.heap.len list + 2) list node) k

unfoldable pub get_task : Ptr → Cmd Kernel Task
get_task p k = elim (k.task p) [ none ↦ fault | some v ↦ ok v k ]

abbrev pub put_task : Ptr → Task → Cmd Kernel (Unit {0})
put_task p v k = ok tt (record k { task = update k.task p (some v) })

abbrev pub enter_protection : Cmd Kernel IrqStatus
enter_protection k =
    let (eflags, status) = irq_enter_protection k.eflags in ok status (record k { eflags = eflags })

abbrev pub leave_protection : IrqStatus → Cmd Kernel (Unit {0})
leave_protection status k = ok tt (record k { eflags = irq_leave_protection k.eflags status })

-- `far_jmp(tss_sel, 0)`, the processor's task switch, up to the point where the task that jumped
-- runs again: the selector that it jumped to is in `tr`.
abbrev pub switch_to_tss : ℕ → Cmd Kernel (Unit {0})
switch_to_tss tss_sel k = ok tt (record k { tr = tss_sel })

unfoldable pub task_current : Cmd Kernel Ptr
task_current k = ok k.curr_task k

unfoldable pub task_switch_from_to : Ptr → Ptr → Cmd Kernel (Unit {0})
unfolding get_task
task_switch_from_to from to = do v ← get_task to; switch_to_tss v.tss_sel

-- Each function of the manager takes the manager's address.
module _ (mgr : Ptr) where
  abbrev pub ready_list : Ptr
  ready_list = mgr + 4

  abbrev pub sleep_list : Ptr
  sleep_list = mgr + 44

  -- Behind the lists and `first_task`, a `task_t` of 172 bytes.
  abbrev pub idle_task : Ptr
  idle_task = mgr + 236

  unfoldable pub task_set_ready : Ptr → Cmd Kernel (Unit {0})
  task_set_ready task = if task == idle_task then pure tt else do
    lists (klist_append ready_list (run_node task))
    v ← get_task task
    put_task task (record v { state = ready })

  unfoldable pub task_set_block : Ptr → Cmd Kernel (Unit {0})
  task_set_block task =
      if task == idle_task then pure tt else do remove ready_list (run_node task); pure tt

  unfoldable pub task_next_run : Cmd Kernel Ptr
  task_next_run = do
    n ← lists (klist_len ready_list)
    if n == 0
        then pure idle_task
        else do task_node ← lists (klist_get_first_node ready_list); pure (task_of task_node)

  unfoldable pub task_dispatch : Cmd Kernel (Unit {0})
  task_dispatch = do
    state ← enter_protection
    to ← task_next_run
    from ← task_current
    (if to == from then pure tt else do
      (λ k. ok tt (record k { curr_task = to }))
      v ← get_task to
      put_task to (record v { state = running })
      task_switch_from_to from to)
    leave_protection state

  -- What a yield and the end of a time slice do with the current task.
  unfoldable pub requeue : Ptr → Cmd Kernel (Unit {0})
  requeue curr_task = do task_set_block curr_task; task_set_ready curr_task; task_dispatch

  -- `klist_count(...) > 1` compares `int`s.
  unfoldable pub sys_sched_yield : Cmd Kernel ℕ
  sys_sched_yield = do
    state ← enter_protection
    n ← lists (klist_count ready_list)
    (if ltb 1 n && ltb n (2 ^ 31)
        then (do curr_task ← task_current; requeue curr_task)
        else pure tt)
    leave_protection state
    pure 0

  unfoldable pub task_set_sleep : Ptr → ℕ → Cmd Kernel (Unit {0})
  task_set_sleep task ticks = if ticks == 0 then pure tt else do
    v ← get_task task
    put_task task (record v { sleep_ticks = ticks; state = sleep })
    lists (klist_append sleep_list (run_node task))

  unfoldable pub task_set_wakeup : Ptr → Cmd Kernel (Unit {0})
  task_set_wakeup task = do remove sleep_list (run_node task); pure tt

  -- The walk of `task_time_tick` over the sleeping tasks; the fuel bounds its rounds.
  unfoldable pub sleep_loop : ℕ → Ptr → Cmd Kernel (Unit {0})
  sleep_loop zero curr = λ _. out_of_fuel
  sleep_loop (suc fuel) curr = if curr == null then pure tt else do
    let task = task_of curr
    next ← lists (klist_get_next_node curr)
    v ← get_task task
    put_task task (record v { sleep_ticks = sub32 v.sleep_ticks 1 })
    (if sub32 v.sleep_ticks 1 == 0 then (do task_set_wakeup task; task_set_ready task) else pure tt)
    sleep_loop fuel next

  unfoldable pub task_time_tick : ℕ → Cmd Kernel (Unit {0})
  task_time_tick fuel = do
    curr_task ← task_current
    v ← get_task curr_task
    put_task curr_task (record v { slice_ticks = sub32 v.slice_ticks 1 })
    (if sub32 v.slice_ticks 1 == 0
        then (do put_task curr_task (record v { slice_ticks = v.time_ticks }); requeue curr_task)
        else pure tt)
    curr ← lists (klist_get_first_node sleep_list)
    sleep_loop fuel curr
    task_dispatch

  -- The calls pass the address of the field `curr_task`, `mgr`, as a task. `os_ticks_ms` is
  -- OS_TICKS_MS, which the repository does not define.
  unfoldable pub sys_sleep : (os_ticks_ms : ℕ) → ℕ → Cmd Kernel (Unit {0})
  sys_sleep os_ticks_ms ms = do
    state ← enter_protection
    task_set_block mgr
    task_set_sleep mgr (add32 ms ((os_ticks_ms - 1) / os_ticks_ms))
    task_dispatch
    leave_protection state
