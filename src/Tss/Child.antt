-- ===== src/Tss/Child.antt =====
-- A new task: its fields, its turn, and the state that `init_task` leaves.
use little_os.Base.{
  ℕ, ◌+◌, ◌<◌, ◌^◌, ◌≡◌, ◌≢◌, inl, inr, refl, arith, some, List, [], ◌∷◌, ◌++◌, length, update,
  ==_of_ne,
}
use little_os.Base.Word.{u16, add32}
use little_os.Cmd.{ok}
use little_os.Klist.{Ptr, null, Heap, tail}
use little_os.Klist.Chain.{Away, Away-left, ring, IsList}
use little_os.Irq.{irq_enter_protection}
use little_os.Irq.Protect.{protection}
use little_os.Memory.{AddrAlloc, kalloc_pages}
use little_os.Memory.Single.{Grown, Grown-trans, TakenPage, kalloc_page, ualloc_page-Grown}
use little_os.Gdt.{gdt_segment_set}
use little_os.PageTable.{create_page_table}
use little_os.Thread.{ready}
use little_os.Tss.{
  TssTask, System, state_node, general_list, ready_list, init_task, task_ticks_default, user_proc,
  tss_size, tss_addr, seg_tss,
}
use little_os.Tss.Init.{selector, tables, user_tss, init_tss-fresh}
use little_os.Tss.Lists.{task_set_ready-fresh, general-new, general-kept, with_new, state_node-Away}
use little_os.Tss.Places.{
  All, All-map, InPage, InPage-Grown, TakenPage-InPage, nodes, nodes-append, length-nodes,
}
use little_os.Tss.Robin.{Turn, tasks, Holds, IsSystem}
use little_os.Tss.Store.{change_task-again, get_task-again}
use little_os.Tss.Waiting.{
  All-pages, AllWait-append, AllWait-kept, Holds-kept, tasks-append, update_other, update_self,
}

-- The page that `init_task` gets.
abbrev pub new_page : System → Ptr
new_page k = (kalloc_pages k.manager 1).1

-- The state behind that request.
abbrev pub paid : System → System
paid k = record k { manager = (kalloc_pages k.manager 1).0 }

-- The turn of a new task.
abbrev pub new_turn : Ptr → Turn
new_turn a = record { task = a; left = task_ticks_default; slice = task_ticks_default }

module _ (mgr kernel_table : Ptr) (raw : TssTask) (k : System) (entry : ℕ) where
  -- The new task.
  abbrev pub child : TssTask
  child = record raw {
    status = ready;
    tss = user_tss kernel_table (paid k) (new_page k) entry;
    tss_sel = selector kernel_table (paid k) (new_page k) entry;
    ifkernel = user_proc;
    parent = null;
    pid = add32 k.global_pid 1;
    ticks = task_ticks_default;
    default_ticks = task_ticks_default;
  }

  -- The state with the new task, and the lists of `g`.
  abbrev pub spawned : Heap → System
  spawned g = record k {
    heap = g;
    task = update k.task (new_page k) (some child);
    mem = (tables kernel_table (paid k) (new_page k) entry).0.mem;
    manager = (tables kernel_table (paid k) (new_page k) entry).0.manager;
    gdt =
        gdt_segment_set k.gdt (u16 (selector kernel_table (paid k) (new_page k) entry)) tss_size
          (tss_addr (new_page k)) seg_tss;
    global_pid = add32 k.global_pid 1;
  }

  module _ (gs : List Ptr) (e : Turn) (es : List Turn) (is : IsSystem mgr k gs e es)
      (granted : new_page k ≢ null) (room_all : length gs + 1 < 2 ^ 31)
      (room : length (tasks es) + 2 < 2 ^ 31) where
    page_taken : TakenPage k.manager (paid k).manager (new_page k)
    page_taken = elim (kalloc_page is.manager).1 [ inl z ↦ absurd (granted z) | inr r ↦ r.1 ]

    rest-Grown : (g : Heap) → Grown (paid k).manager (spawned g).manager
    unfolding create_page_table
    rest-Grown g =
        let kernel = (kalloc_page page_taken.grown.manager).0 in
        let user = ualloc_page-Grown kernel.manager in
        Grown-trans kernel (Grown-trans user (ualloc_page-Grown user.manager))

    spawned-Grown : (g : Heap) → Grown k.manager (spawned g).manager
    spawned-Grown g = Grown-trans page_taken.grown (rest-Grown g)

    queue_pages : All (InPage k.manager) (k.cur_task ∷ tasks es)
    queue_pages = (is.current.page, All-pages k.manager k.task es is.waiting)

    pub apart :
        Away (state_node (new_page k)) (ring (ready_list mgr) (nodes 120 (k.cur_task ∷ tasks es)))
    apart =
        state_node-Away 128 120 (omega arith) (omega arith) (omega arith) mgr k.manager
          (paid k).manager (new_page k) page_taken is.below gs (k.cur_task ∷ tasks es) is.all
          queue_pages

    real : state_node (new_page k) ≢ null
    real = omega arith

    child-Holds :
        (g : Heap) → Holds (spawned g).manager (spawned g).task (new_turn (new_page k)) child
    child-Holds g = record {
      stored = update_self k.task (new_page k) (some child);
      page = InPage-Grown (new_page k) (rest-Grown g) (TakenPage-InPage page_taken);
      ticks = refl;
      default_ticks = refl;
      some_left = omega arith;
      some_slice = omega arith;
      small_left = omega arith;
      small_slice = omega arith;
    }

    spawned-IsSystem :
        (g : Heap)
        → IsList g (general_list mgr) (nodes 128 (gs ++ (new_page k ∷ [])))
        → IsList g
            (ready_list mgr)
            (nodes 120 (k.cur_task ∷ tasks es) ++ (state_node (new_page k) ∷ []))
        → IsSystem mgr (spawned g) (gs ++ (new_page k ∷ [])) e (es ++ (new_turn (new_page k) ∷ []))
    spawned-IsSystem g general queue =
        let grown = spawned-Grown g in
        let m : AddrAlloc = (paid k).manager in
        let last : List Turn = new_turn (new_page k) ∷ [] in
        let others = update_other k.task (new_page k) (some child) in
        record {
          manager = grown.manager;
          below = omega (arith, is.below, grown.start);
          general = general;
          queue = rw (tasks-append es last, nodes-append 120 (tasks es) (tasks last)) queue;
          all =
              All-map (InPage m) (InPage (spawned g).manager) (gs ++ (new_page k ∷ []))
                (λ t p. InPage-Grown t (rest-Grown g) p)
                (with_new 128 120 (omega arith) (omega arith) (omega arith) mgr k.manager m
                  (new_page k) page_taken is.below gs (k.cur_task ∷ tasks es) is.all queue_pages);
          now = is.now;
          value = is.value;
          current =
              Holds-kept k.manager (spawned g).manager k.task (spawned g).task
                (record e { task = k.cur_task }) is.value grown
                (others k.cur_task (omega (arith, apart.1.0))) is.current;
          waiting =
              AllWait-append (spawned g).manager (spawned g).task es last
                (AllWait-kept k.manager (spawned g).manager k.task (spawned g).task (new_page k) 120
                  es grown others
                  (Away-left (state_node (new_page k)) (nodes 120 (tasks es))
                    (tail (ready_list mgr) ∷ []) apart.1.1)
                  is.waiting)
                ((child, child-Holds g, refl), tt);
        }

    pub init_task-run :
        (g : Heap) × (init_task mgr kernel_table raw entry k ≡ ok (new_page k) (spawned g))
        × IsSystem mgr (spawned g) (gs ++ (new_page k ∷ [])) e (es ++ (new_turn (new_page k) ∷ []))
    unfolding init_task
    init_task-run =
        let a = new_page k in
        let ts = k.cur_task ∷ tasks es in
        let k₁ : System = record k {
          manager = (paid k).manager;
          eflags = (irq_enter_protection k.eflags).0;
        } in
        let v₁ : TssTask = record raw {
          ticks = task_ticks_default;
          default_ticks = task_ticks_default;
        } in
        let k₂ : System = record k₁ { global_pid = add32 k.global_pid 1 } in
        let v₂ : TssTask = record v₁ {
          pid = add32 k.global_pid 1;
          ifkernel = user_proc;
          parent = null;
        } in
        let (g₁, run₁, all₁, queue₁) =
          general-new 128 120 (omega arith) (omega arith) (omega arith) mgr k.manager
            (paid k).manager a page_taken is.below gs ts is.all queue_pages k.heap is.general
            is.queue room_all in
        let (g₂, run₂, queue₂, same₂) =
          task_set_ready-fresh mgr (record k₂ { heap = g₁ }) a v₂ (nodes 120 ts) queue₁ real apart
            (omega (arith, length-nodes 120 (tasks es))) in
        let k₃ : System = record k₂ { heap = g₂ } in
        let v₃ : TssTask = record v₂ { status = ready } in
        (
          g₂,
          rw (
            ==_of_ne a null granted,
            change_task-again
                (λ v. record v { ticks = task_ticks_default; default_ticks = task_ticks_default })
                k₁ a raw,
            change_task-again
                (λ v. record v { pid = add32 k.global_pid 1; ifkernel = user_proc; parent = null })
                k₂ a v₁,
            run₁,
            run₂,
            get_task-again k₃ a v₃,
            init_tss-fresh kernel_table k₃ a entry v₃,
            (protection k.eflags).2,
          ),
          spawned-IsSystem g₂
              (general-kept 128 120 (omega arith) (omega arith) (omega arith) mgr k.manager
                (paid k).manager a page_taken is.below gs ts is.all queue_pages g₁ g₂ all₁ same₂)
              queue₂,
        )
