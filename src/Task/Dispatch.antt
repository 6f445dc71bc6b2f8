-- ===== src/Task/Dispatch.antt =====
-- `task_dispatch`: who runs next.
use little_os.Base.{ℕ, ◌<◌, ◌^◌, ◌≡◌, ◌≢◌, some, List, [], ◌∷◌, update, ==_of_ne, ==_refl, ap}
use little_os.Cmd.{ok}
use little_os.Irq.{irq_enter_protection, irq_leave_protection}
use little_os.Irq.Protect.{protection}
use little_os.Klist.{Ptr}
use little_os.Klist.Chain.{IsList}
use little_os.Task.{
  Task, Kernel, running, run_node, task_current, task_switch_from_to, ready_list, idle_task,
  task_next_run, task_dispatch,
}
use little_os.Task.Ready.{get_task-ok, task_next_run-cons, task_next_run-nil}

-- `t` runs: it is current and `TASK_RUNNING`, and the processor is on its task state segment.
abbrev pub switched : Ptr → Task → Kernel → Kernel
switched t v k = record k {
  curr_task = t;
  task = update k.task t (some (record v { state = running }));
  tr = v.tss_sel;
}

-- Behind a protected section the flags are those of before.
pub restored :
    (k : Kernel)
    → record k {
      eflags =
          irq_leave_protection (irq_enter_protection k.eflags).0 (irq_enter_protection k.eflags).1;
    }
      ≡ k
restored k = ap (λ f. record k { eflags = f }) (protection k.eflags).2

module _ (mgr : Ptr) where
  dispatch_to :
      (k : Kernel) (t : Ptr) (v : Task)
      → ((f : ℕ) → task_next_run mgr (record k { eflags = f }) ≡ ok t (record k { eflags = f }))
      → t ≢ k.curr_task
      → k.task t ≡ some v
      → task_dispatch mgr k ≡ ok tt (switched t v k)
  unfolding task_dispatch task_current task_switch_from_to
  dispatch_to k t v next ne e =
      let k₁ : Kernel = record k { curr_task = t; eflags = (irq_enter_protection k.eflags).0 } in
      let w : Task = record v { state = running } in
      let k₂ : Kernel = record k₁ { task = update k.task t (some w) } in
      let found : k₂.task t ≡ some w = rw (==_refl t) in
      rw (next, ==_of_ne t k.curr_task ne, get_task-ok {v = v} k₁ e, get_task-ok {v = w} k₂ found)
        (ap (λ f. ok tt (record (switched t v k) { eflags = f })) (protection k.eflags).2)

  dispatch_stay :
      (k : Kernel)
      → ((f : ℕ)
          → task_next_run mgr (record k { eflags = f }) ≡ ok k.curr_task (record k { eflags = f }))
      → task_dispatch mgr k ≡ ok tt k
  unfolding task_dispatch task_current
  dispatch_stay k next = rw (next, ==_refl k.curr_task) (ap (ok tt) (restored k))

  -- When the first task of the well-formed ready list, its node at a 32-bit address, is not the
  -- current one, task_dispatch makes it current and running, puts the processor on its task
  -- state segment, and leaves the flags register as it was.
  pub task_dispatch-cons :
      (k : Kernel) (t : Ptr) (v : Task) (xs : List Ptr)
      → IsList k.heap (ready_list mgr) (run_node t ∷ xs)
      → run_node t < 2 ^ 32
      → t ≢ k.curr_task
      → k.task t ≡ some v
      → task_dispatch mgr k ≡ ok tt (switched t v k)
  task_dispatch-cons k t v xs is small =
      dispatch_to k t v (λ f. task_next_run-cons mgr (record k { eflags = f }) t xs is small)

  -- If the first task of the ready list is the current one, nothing changes.
  pub task_dispatch-same :
      (k : Kernel) (xs : List Ptr)
      → IsList k.heap (ready_list mgr) (run_node k.curr_task ∷ xs)
      → run_node k.curr_task < 2 ^ 32
      → task_dispatch mgr k ≡ ok tt k
  task_dispatch-same k xs is small =
      dispatch_stay k
        (λ f. task_next_run-cons mgr (record k { eflags = f }) k.curr_task xs is small)

  -- With no ready task the idle task runs.
  pub task_dispatch-nil :
      (k : Kernel) (v : Task)
      → IsList k.heap (ready_list mgr) []
      → idle_task mgr ≢ k.curr_task
      → k.task (idle_task mgr) ≡ some v
      → task_dispatch mgr k ≡ ok tt (switched (idle_task mgr) v k)
  task_dispatch-nil k v is =
      dispatch_to k (idle_task mgr) v (λ f. task_next_run-nil mgr (record k { eflags = f }) is)
