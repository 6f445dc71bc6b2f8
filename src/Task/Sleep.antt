-- ===== src/Task/Sleep.antt =====
-- `task_set_sleep`, `task_set_wakeup`, `task_time_tick` and `sys_sleep`.
use little_os.Base.{
  ℕ, suc, ◌+◌, ◌-◌, ◌/◌, ◌<◌, ◌^◌, ◌≡◌, ◌≢◌, arith, none, some, List, [], ◌∷◌, ◌++◌, length,
  length-append, update, ==_of_ne, sym,
}
use native.Mathlib.Nat.{div-eq_of_lt}
use little_os.Base.Word.{add32, sub32}
use little_os.Cmd.{ok, fault}
use little_os.Irq.{irq_enter_protection}
use little_os.Klist.{Ptr, null, Heap, tail, klist_get_next_node}
use little_os.Klist.Access.{get_next-ok}
use little_os.Klist.Chain.{Away, ring, IsList}
use little_os.Klist.Find.{klist_ends}
use little_os.Klist.Frame.{Untouched}
use little_os.Klist.Insert.{klist_append-IsList}
use little_os.Klist.Remove.{klist_remove-hit, klist_remove-miss}
use little_os.Task.{
  Task, Kernel, sleep, run_node, get_task, task_current, ready_list, sleep_list, idle_task,
  task_set_block, task_set_sleep, task_set_wakeup, sleep_loop, task_time_tick, sys_sleep,
}
use little_os.Task.Ready.{get_task-ok}

get_task-none : {p : Ptr} (k : Kernel) → k.task p ≡ none → get_task p k ≡ fault
unfolding get_task
get_task-none k e = rw (e, get_task)

module _ (mgr : Ptr) where
  -- task_set_sleep for a number of ticks that is not 0, of a task whose node is not in the
  -- well-formed sleep list, which has room for it, notes them in the task, marks it asleep, and
  -- puts it at the end of the list.
  pub task_set_sleep-ok :
      (k : Kernel) (t ticks : ℕ) (v : Task) (xs : List Ptr)
      → ticks ≢ 0
      → k.task t ≡ some v
      → IsList k.heap (sleep_list mgr) xs
      → Away (run_node t) (ring (sleep_list mgr) xs)
      → length xs + 1 < 2 ^ 31
      → (g : Heap) × (task_set_sleep mgr t ticks k
          ≡ ok tt (record k {
            heap = g;
            task = update k.task t (some (record v { sleep_ticks = ticks; state = sleep }));
          }))
        × IsList g (sleep_list mgr) (xs ++ (run_node t ∷ []))
        × Untouched k.heap g (sleep_list mgr) (run_node t ∷ ring (sleep_list mgr) xs)
  unfolding task_set_sleep
  task_set_sleep-ok k t ticks v xs some_ticks e is out room =
      let (g, run, is', same) = klist_append-IsList is (omega arith) out room in
      (g, rw (==_of_ne ticks 0 some_ticks, get_task-ok k e, run), is', same)

  -- task_set_wakeup takes a task of the well-formed sleep list off it; the others keep their
  -- order, and nothing outside the list changes.
  pub task_set_wakeup-ok :
      (k : Kernel) (t : Ptr) (xs ys : List Ptr)
      → IsList k.heap (sleep_list mgr) (xs ++ (run_node t ∷ ys))
      → (g : Heap) × (task_set_wakeup mgr t k ≡ ok tt (record k { heap = g }))
        × IsList g (sleep_list mgr) (xs ++ ys)
        × Untouched k.heap g (sleep_list mgr) (ring (sleep_list mgr) (xs ++ (run_node t ∷ ys)))
  unfolding task_set_wakeup
  task_set_wakeup-ok k t xs ys is =
      let fuel : length xs < k.heap.len (sleep_list mgr) + 2 =
        omega (arith, is.count, length-append xs (run_node t ∷ ys)) in
      let (g, run, is', same) =
        klist_remove-hit (k.heap.len (sleep_list mgr) + 2) (run_node t) xs ys is fuel in
      (g, rw run, is', same)

  sleep_loop_empty :
      (k : Kernel) (fuel : ℕ)
      → IsList k.heap (sleep_list mgr) []
      → mgr + 52 < 2 ^ 32
      → k.task (ready_list mgr) ≡ none
      → sleep_loop mgr (suc fuel) (tail (sleep_list mgr)) k ≡ fault
  unfolding sleep_loop klist_get_next_node
  sleep_loop_empty k fuel is small no_task =
      let end : Ptr = tail (sleep_list mgr) in
      let real : end ≢ null = omega arith in
      let container : sub32 end 48 ≡ ready_list mgr = omega arith in
      rw (==_of_ne end null real, get_next-ok real, container, get_task-none k no_task)

  -- When no task sleeps and the time slice of the current task does not end, and the manager is
  -- at a 32-bit address, task_time_tick takes the tail of the sleep list for a task's node and
  -- faults, no task being at the manager's ready list.
  pub task_time_tick_fault :
      (k : Kernel) (fuel : ℕ) (v : Task)
      → IsList k.heap (sleep_list mgr) []
      → mgr + 52 < 2 ^ 32
      → k.task (ready_list mgr) ≡ none
      → k.task k.curr_task ≡ some v
      → k.curr_task ≢ ready_list mgr
      → sub32 v.slice_ticks 1 ≢ 0
      → task_time_tick mgr (suc fuel) k ≡ fault
  unfolding task_time_tick task_current
  task_time_tick_fault k fuel v is small no_task e other slice =
      let k₁ : Kernel = record k {
        task = update k.task k.curr_task (some (record v { slice_ticks = sub32 v.slice_ticks 1 }));
      } in
      let still : k₁.task (ready_list mgr) ≡ none =
        rw (==_of_ne (ready_list mgr) k.curr_task (λ p. other (sym p))) no_task in
      rw (
        get_task-ok k e,
        ==_of_ne (sub32 v.slice_ticks 1) 0 slice,
        (klist_ends is).0,
        sleep_loop_empty k₁ fuel is small still,
      )

  -- sys_sleep passes the address of the field curr_task as the task: it faults for any time
  -- below 2^32 ms that is not 0, with OS_TICKS_MS above 0, the ready list well formed, no task
  -- being at the manager's address and no such node in the ready list.
  pub sys_sleep_fault :
      (k : Kernel) (os_ticks_ms ms : ℕ) (xs : List Ptr)
      → IsList k.heap (ready_list mgr) xs
      → Away (run_node mgr) (xs ++ (tail (ready_list mgr) ∷ []))
      → k.task mgr ≡ none
      → 0 < os_ticks_ms
      → 0 < ms
      → ms < 2 ^ 32
      → sys_sleep mgr os_ticks_ms ms k ≡ fault
  unfolding sys_sleep task_set_block task_set_sleep
  sys_sleep_fault k os_ticks_ms ms xs is out no_task ho hm small =
      let inner : Kernel = record k { eflags = (irq_enter_protection k.eflags).0 } in
      let rounds : (os_ticks_ms - 1) / os_ticks_ms ≡ 0 = div-eq_of_lt (omega arith) in
      let ticks : add32 ms 0 ≢ 0 = omega arith in
      let fuel : length xs + 1 < k.heap.len (ready_list mgr) + 2 = omega (arith, is.count) in
      rw (
        ==_of_ne mgr (idle_task mgr) (omega arith),
        klist_remove-miss (k.heap.len (ready_list mgr) + 2) (run_node mgr) xs is out fuel,
        rounds,
        ==_of_ne (add32 ms 0) 0 ticks,
        get_task-none inner no_task,
      )
