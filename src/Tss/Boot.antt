-- ===== src/Tss/Boot.antt =====
-- `tss_task_init`: the first task.
use little_os.Base.{◌<◌, ◌≡◌, ◌≢◌, inl, inr, refl, arith, some, [], ◌∷◌, update, ==_of_ne}
use little_os.Base.Word.{u16, add32}
use little_os.Cmd.{ok}
use little_os.Klist.{Ptr, null, Heap, tail}
use little_os.Klist.Chain.{IsList}
use little_os.Irq.{irq_enter_protection}
use little_os.Irq.Protect.{protection}
use little_os.Memory.Pages.{IsManager}
use little_os.Memory.Single.{Grown, Grown-trans, TakenPage, kalloc_page}
use little_os.Gdt.{gdt_segment_set}
use little_os.Thread.{ready, running}
use little_os.Tss.{
  TssTask, System, state_node, general_list, ready_list, tss_task_init, task_ticks_default,
  kernel_proc, tss_size, tss_addr, seg_tss,
}
use little_os.Tss.Init.{selector}
use little_os.Tss.Lists.{task_set_ready-fresh, general-new, general-kept, state_node-Away}
use little_os.Tss.Places.{InPage, InPage-Grown, TakenPage-InPage, nodes}
use little_os.Tss.Robin.{IsRobin}
use little_os.Tss.Child.{new_page, paid, new_turn}
use little_os.Tss.Store.{change_task-again, get_task-again}
use little_os.Tss.Waiting.{update_self}
use little_os.Tss.Kernel.{
  HasKernelMeans, OwnKernelMeans, HasKernelMeans-OwnKernelMeans, second_stack, kernel_tss,
  init_tss-kernel, empty_lists,
}

module _ (mgr kernel_table : Ptr) (raw : TssTask) (k : System) where
  -- The first task.
  abbrev pub first_task : TssTask
  first_task = record raw {
    status = running;
    tss = kernel_tss kernel_table (paid k) (new_page k) 0;
    tss_sel = selector kernel_table (paid k) (new_page k) 0;
    ifkernel = kernel_proc;
    parent = null;
    pid = add32 k.global_pid 1;
    ticks = task_ticks_default;
    default_ticks = task_ticks_default;
  }

  abbrev pub started : Heap → System
  started g = record k {
    heap = g;
    task = update k.task (new_page k) (some first_task);
    cur_task = new_page k;
    manager = (second_stack kernel_table (paid k) (new_page k) 0).0;
    gdt =
        gdt_segment_set k.gdt (u16 (selector kernel_table (paid k) (new_page k) 0)) tss_size
          (tss_addr (new_page k)) seg_tss;
    global_pid = add32 k.global_pid 1;
    tr = selector kernel_table (paid k) (new_page k) 0;
  }

  module _ (is : IsManager k.manager) (below : tail (ready_list mgr) < k.manager.kernelstart)
      (granted : new_page k ≢ null) where
    page_taken : TakenPage k.manager (paid k).manager (new_page k)
    page_taken = elim (kalloc_page is).1 [ inl z ↦ absurd (granted z) | inr r ↦ r.1 ]

    rest-Grown : (g : Heap) → Grown (paid k).manager (started g).manager
    rest-Grown g =
        let one = (kalloc_page page_taken.grown.manager).0 in
        Grown-trans one (kalloc_page one.manager).0

    first-InPage : (g : Heap) → InPage (started g).manager (new_page k)
    first-InPage g = InPage-Grown (new_page k) (rest-Grown g) (TakenPage-InPage page_taken)

    started-IsRobin :
        (g : Heap)
        → IsList g (general_list mgr) (nodes 128 (new_page k ∷ []))
        → IsList g (ready_list mgr) (state_node (new_page k) ∷ [])
        → IsRobin mgr (started g) (new_page k ∷ []) (new_turn (new_page k) ∷ [])
    started-IsRobin g general queue = record {
      manager = (rest-Grown g).manager;
      below = omega (arith, below, (rest-Grown g).start, page_taken.grown.start);
      general = general;
      queue = queue;
      all = (first-InPage g, tt);
      now = refl;
      value = first_task;
      current = record {
        stored = update_self k.task (new_page k) (some first_task);
        page = first-InPage g;
        ticks = refl;
        default_ticks = refl;
        some_left = omega arith;
        some_slice = omega arith;
        small_left = omega arith;
        small_slice = omega arith;
      };
      waiting = tt;
    }

    -- The same without the means that init_tss asserts.
    pub tss_task_init-any :
        (g : Heap) × (tss_task_init mgr kernel_table raw k ≡ ok tt (started g))
        × IsRobin mgr (started g) (new_page k ∷ []) (new_turn (new_page k) ∷ [])
    unfolding tss_task_init
    tss_task_init-any =
        let a = new_page k in
        let (h₁, h₂, h₃, init₁, init₂, init₃, ready₀, general₀) = empty_lists mgr k.heap in
        let k₁ : System = record k {
          heap = h₃;
          manager = (paid k).manager;
          eflags = (irq_enter_protection k.eflags).0;
        } in
        let v₁ : TssTask = record raw {
          ticks = task_ticks_default;
          default_ticks = task_ticks_default;
        } in
        let k₂ : System = record k₁ { global_pid = add32 k.global_pid 1 } in
        let v₂ : TssTask = record v₁ { pid = add32 k.global_pid 1 } in
        let k₃ : System = record k₂ { cur_task = a } in
        let v₃ : TssTask = record v₂ { ifkernel = kernel_proc; parent = null } in
        let (g₁, run₁, all₁, queue₁) =
          general-new 128 120 (omega arith) (omega arith) (omega arith) mgr k.manager
            (paid k).manager a page_taken below [] [] tt tt h₃ general₀ ready₀ (omega arith) in
        let (g₂, run₂, queue₂, same₂) =
          task_set_ready-fresh mgr (record k₃ { heap = g₁ }) a v₃ [] queue₁ (omega arith)
            (state_node-Away 128 120 (omega arith) (omega arith) (omega arith) mgr k.manager
              (paid k).manager a page_taken below [] [] tt tt)
            (omega arith) in
        let k₄ : System = record k₃ { heap = g₂ } in
        let v₄ : TssTask = record v₃ { status = ready } in
        let v₅ : TssTask = record v₃ { status = running } in
        let k₅ : System = record (started g₂) { task = k.task; eflags = k₁.eflags; tr = k.tr } in
        (
          g₂,
          rw (
            init₁,
            init₂,
            init₃,
            ==_of_ne a null granted,
            change_task-again
                (λ v. record v { ticks = task_ticks_default; default_ticks = task_ticks_default })
                k₁ a raw,
            change_task-again (λ v. record v { pid = add32 k.global_pid 1 }) k₂ a v₁,
            change_task-again (λ v. record v { ifkernel = kernel_proc; parent = null }) k₃ a v₂,
            run₁,
            run₂,
            change_task-again (λ v. record v { status = running }) k₄ a v₄,
            get_task-again k₄ a v₅,
            init_tss-kernel kernel_table k₄ a 0 v₅,
            get_task-again k₅ a first_task,
            (protection k.eflags).2,
          ),
          started-IsRobin g₂
              (general-kept 128 120 (omega arith) (omega arith) (omega arith) mgr k.manager
                (paid k).manager a page_taken below [] [] tt tt g₁ g₂ all₁ same₂)
              queue₂,
        )

    -- When the manager is well formed and has a page and two stacks for the task, a
    -- descriptor is free, and the lists lie below the manager's pages, tss_task_init makes a
    -- kernel task in that page the current one: it has number global_pid + 1, a state segment
    -- that starts at 0 with the kernel's segments, interrupts on, kernel_table, and as its
    -- stacks two pages that were free, the selector of a descriptor that was free is in the
    -- task register, and it stands alone in a well-formed ready queue with a slice of five
    -- ticks.
    pub tss_task_init-ok :
        HasKernelMeans kernel_table (paid k) (new_page k) 0
        → (g : Heap) × (tss_task_init mgr kernel_table raw k ≡ ok tt (started g))
          × OwnKernelMeans kernel_table (paid k) (new_page k) 0
          × IsRobin mgr (started g) (new_page k ∷ []) (new_turn (new_page k) ∷ [])
    tss_task_init-ok means =
        let (g, run, is') = tss_task_init-any in
        (
          g,
          run,
          HasKernelMeans-OwnKernelMeans kernel_table (paid k) (new_page k) 0
              (kalloc_page is).0.manager means,
          is',
        )
