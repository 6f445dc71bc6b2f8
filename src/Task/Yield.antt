-- ===== src/Task/Yield.antt =====
-- `sys_sched_yield`.
use little_os.Base.{
  ℕ, ◌≤◌, ◌<◌, ◌^◌, ◌≡◌, ◌≢◌, refl, sym, arith, some, List, [], ◌∷◌, ◌++◌, length, update, ==_of_ne,
  ap, ltb, ◌&&◌, true, false,
}
use little_os.Cmd.{ok}
use little_os.Irq.{irq_enter_protection}
use little_os.Irq.Protect.{protection}
use little_os.Klist.{Ptr, Heap}
use little_os.Klist.Chain.{Away, ring, IsList}
use little_os.Klist.Find.{klist_len-length}
use little_os.Klist.Frame.{Untouched, Untouched-trans}
use little_os.Task.{
  Task, Kernel, ready, run_node, task_current, ready_list, idle_task, requeue, sys_sched_yield,
}
use little_os.Task.Ready.{task_set_ready-ok, task_set_block-ok}
use little_os.Task.Dispatch.{switched, task_dispatch-cons, restored}

module _ (mgr : Ptr) where
  -- In a yield and when a time slice ends, the current task, first of the ready list, moves behind the others, and the one
  -- that is first now runs.
  pub requeue-ok :
      (k : Kernel) (t u : Ptr) (v w : Task) (xs : List Ptr)
      → IsList k.heap (ready_list mgr) (run_node t ∷ run_node u ∷ xs)
      → run_node u < 2 ^ 32
      → t ≢ idle_task mgr
      → k.curr_task ≡ t
      → k.task t ≡ some v
      → k.task u ≡ some w
      → (g : Heap) × (requeue mgr t k
          ≡ ok tt (
              switched u w (record k {
                heap = g;
                task = update k.task t (some (record v { state = ready }));
              })))
        × IsList g (ready_list mgr) (run_node u ∷ (xs ++ (run_node t ∷ [])))
        × Untouched k.heap g (ready_list mgr) (ring (ready_list mgr) (run_node t ∷ run_node u ∷ xs))
  unfolding requeue
  requeue-ok k t u v w xs is small ne cur ev ew =
      let (g₁, run₁, is₁, same₁) = task_set_block-ok mgr k t [] (run_node u ∷ xs) ne is in
      let k₁ : Kernel = record k { heap = g₁ } in
      let away : Away (run_node t) (ring (ready_list mgr) (run_node u ∷ xs)) =
        ((λ e. is.apart.0.0 (sym e)), is.apart.1.0) in
      let (g₂, run₂, is₂, same₂) =
        task_set_ready-ok mgr k₁ t v (run_node u ∷ xs) ne ev is₁ away (omega (arith, is.small)) in
      let k₂ : Kernel = record k₁ {
        heap = g₂;
        task = update k.task t (some (record v { state = ready }));
      } in
      let apart : u ≢ t = λ e. is.apart.1.0.0 (ap run_node (sym e)) in
      let found : k₂.task u ≡ some w = rw (==_of_ne u t apart) ew in
      (
        g₂,
        rw (run₁, run₂)
            (task_dispatch-cons mgr k₂ u w (xs ++ (run_node t ∷ [])) is₂ small (rw cur apart)
              found),
        is₂,
        Untouched-trans same₁ same₂ (λ p w. (w.1.0, (w.0, w.1.1))),
      )

  -- With the current task, not the idle one, first of at least two ready tasks in a well-formed
  -- list, and the second one's node at a 32-bit address, sys_sched_yield moves it behind the
  -- others as ready, switches to the next one, returns 0, keeps the interrupt flag, and touches
  -- no other list, task or node.
  pub sys_sched_yield-ok :
      (k : Kernel) (u : Ptr) (v w : Task) (xs : List Ptr)
      → IsList k.heap (ready_list mgr) (run_node k.curr_task ∷ run_node u ∷ xs)
      → run_node u < 2 ^ 32
      → k.curr_task ≢ idle_task mgr
      → k.task k.curr_task ≡ some v
      → k.task u ≡ some w
      → (g : Heap) × (sys_sched_yield mgr k
          ≡ ok 0 (
              switched u w (record k {
                heap = g;
                task = update k.task k.curr_task (some (record v { state = ready }));
              })))
        × IsList g (ready_list mgr) (run_node u ∷ (xs ++ (run_node k.curr_task ∷ [])))
        × Untouched k.heap g
            (ready_list mgr)
            (ring (ready_list mgr) (run_node k.curr_task ∷ run_node u ∷ xs))
  unfolding sys_sched_yield task_current
  sys_sched_yield-ok k u v w xs is small ne ev ew =
      let inner : Kernel = record k { eflags = (irq_enter_protection k.eflags).0 } in
      let (g, run, is', same) = requeue-ok inner k.curr_task u v w xs is small ne refl ev ew in
      let n : ℕ = length (run_node k.curr_task ∷ run_node u ∷ xs) in
      let several : (ltb 1 n && ltb n (2 ^ 31)) ≡ true = ground (arith, is.small) in
      (
        g,
        rw ((klist_len-length is).1, several, run)
            (ap
              (λ f.
                ok 0
                  (record (switched u w (record k {
                    heap = g;
                    task = update k.task k.curr_task (some (record v { state = ready }));
                  })) { eflags = f }))
              (protection k.eflags).2),
        is',
        same,
      )

  -- With one ready task or none there is nothing to yield to: nothing changes.
  pub sys_sched_yield_alone :
      (k : Kernel) (xs : List Ptr)
      → IsList k.heap (ready_list mgr) xs
      → length xs ≤ 1
      → sys_sched_yield mgr k ≡ ok 0 k
  unfolding sys_sched_yield
  sys_sched_yield_alone k xs is few =
      let alone : (ltb 1 (length xs) && ltb (length xs) (2 ^ 31)) ≡ false = ground arith in
      rw ((klist_len-length is).1, alone) (ap (ok 0) (restored k))
