-- ===== src/Tss/Ticks.antt =====
-- `task_time_ticks` runs the round robin.
use little_os.Base.{
  Option, ◌^◌, ◌≡◌, ◌≢◌, arith, some, List, [], ◌∷◌, ◌++◌, update, ==_of_ne, ◌==◌, leb, true, false,
}
use little_os.Base.Word.{sub32}
use little_os.Cmd.{ok, and_then}
use little_os.Klist.{Ptr, Heap}
use little_os.Klist.Chain.{IsList}
use little_os.Klist.Frame.{IsList-Untouched}
use little_os.Irq.{irq_enter_protection}
use little_os.Irq.Protect.{protection}
use little_os.Thread.{ready}
use little_os.Tss.{
  TssTask, System, state_node, general_list, ready_list, task_time_ticks, task_dispatch, cur_task,
  leave_protection,
}
use little_os.Tss.Store.{get_task-ok, change_task-ok}
use little_os.Tss.Places.{nodes, rings_apart}
use little_os.Tss.Ready.{task_set_ready-first}
use little_os.Tss.Robin.{Turn, tasks, IsSystem}
use little_os.Tss.Waiting.{All-pages, update_self}

module _ (mgr : Ptr) (k : System) (gs : List Ptr) (e : Turn) (es : List Turn)
    (is : IsSystem mgr k gs e es) where
  abbrev pub inside : System
  inside = record k { eflags = (irq_enter_protection k.eflags).0 }

  abbrev pub counted : TssTask
  counted = record is.value { ticks = sub32 is.value.ticks 1 }

  abbrev pub counting : Ptr → Option TssTask
  counting = update k.task k.cur_task (some counted)

  -- A tick before the slice ends.
  pub tick_within : e.left ≢ 1 → task_time_ticks mgr k ≡ ok tt (record k { task = counting })
  unfolding task_time_ticks cur_task
  tick_within h =
      let zero_test : (sub32 is.value.ticks 1 == 0) ≡ false =
        ==_of_ne (sub32 is.value.ticks 1) 0
          (omega (arith, is.current.ticks, is.current.some_left, is.current.small_left)) in
      let sign_test : leb (2 ^ 31) (sub32 is.value.ticks 1) ≡ false =
        ground (arith, is.current.ticks, is.current.some_left, is.current.small_left) in
      rw (
        change_task-ok {v = is.value} (λ v. record v { ticks = sub32 v.ticks 1 }) inside
            is.current.stored,
        get_task-ok {v = counted} (record inside { task = counting })
            (update_self k.task k.cur_task (some counted)),
        zero_test,
        sign_test,
        (protection k.eflags).2,
      )

  abbrev pub back : Ptr → Option TssTask
  back = update counting k.cur_task (some (record counted { status = ready }))

  abbrev pub rested : TssTask
  rested = record counted { status = ready; ticks = is.value.default_ticks }

  abbrev pub renewed : Ptr → Option TssTask
  renewed = update back k.cur_task (some rested)

  -- The tick that ends the slice, up to the dispatch.
  pub tick_end :
      e.left ≡ 1
      → (g : Heap) × (task_time_ticks mgr k
          ≡ and_then
              (task_dispatch mgr (record inside { heap = g; task = renewed }))
              (λ _. leave_protection (irq_enter_protection k.eflags).1))
        × IsList g (ready_list mgr) (nodes 120 (tasks es) ++ (state_node k.cur_task ∷ []))
        × IsList g (general_list mgr) (nodes 128 gs)
  unfolding task_time_ticks cur_task
  tick_end h =
      let zero_test : (sub32 is.value.ticks 1 == 0) ≡ true = ground (arith, is.current.ticks) in
      let stored : counting k.cur_task ≡ some counted =
        update_self k.task k.cur_task (some counted) in
      let (g, run, queue, same) =
        task_set_ready-first mgr (record inside { task = counting }) k.cur_task counted
          (nodes 120 (tasks es)) stored is.queue in
      (
        g,
        rw (
          change_task-ok {v = is.value} (λ v. record v { ticks = sub32 v.ticks 1 }) inside
              is.current.stored,
          get_task-ok {v = counted} (record inside { task = counting }) stored,
          zero_test,
          run,
          change_task-ok {v = record counted { status = ready }}
              (λ v. record v { ticks = v.default_ticks }) (record inside { heap = g; task = back })
              (update_self counting k.cur_task _),
        ),
        queue,
        IsList-Untouched same (general_list mgr) (nodes 128 gs) (omega arith)
            (rings_apart k.manager 128 120 (omega arith) (omega arith) (omega arith)
              (general_list mgr) (ready_list mgr) is.below (k.cur_task ∷ tasks es)
              (is.current.page, All-pages k.manager k.task es is.waiting) gs is.all
              (omega (arith, is.below)) (omega arith))
            is.general,
      )
