-- ===== src/Tss/Ready.antt =====
-- `task_set_ready` and `task_dispatch` on a well-formed ready queue.
use little_os.Base.{
  ◌+◌, ◌<◌, ◌^◌, ◌≡◌, ◌≢◌, refl, sym, arith, some, List, [], ◌∷◌, ◌++◌, length, update, ==_of_ne,
  ==_refl,
}
use little_os.Cmd.{ok}
use little_os.Klist.{Ptr, null, Heap, klist_len, get_len}
use little_os.Klist.Chain.{Away, ring, IsList}
use little_os.Klist.Frame.{Untouched, Untouched-trans}
use little_os.Klist.Insert.{klist_append-IsList}
use little_os.Klist.Find.{klist_ends}
use little_os.Klist.Remove.{klist_remove-hit, klist_remove-miss}
use little_os.Thread.{running, ready}
use little_os.Tss.{
  TssTask, System, state_node, ready_list, task_set_ready, task_dispatch, task_schedule, task_fifo,
  cur_task, task_switch_from_to,
}
use little_os.Tss.Store.{get_task-ok, change_task-ok, task_of-state_node}

module _ (mgr : Ptr) where
  -- A task that is not in the queue goes to its end.
  pub task_set_ready-new :
      (k : System) (t : Ptr) (v : TssTask) (xs : List Ptr)
      → k.task t ≡ some v
      → IsList k.heap (ready_list mgr) xs
      → state_node t ≢ null
      → Away (state_node t) (ring (ready_list mgr) xs)
      → length xs + 1 < 2 ^ 31
      → (g : Heap) × (task_set_ready mgr t k
          ≡ ok tt
              (record k { heap = g; task = update k.task t (some (record v { status = ready })) }))
        × IsList g (ready_list mgr) (xs ++ (state_node t ∷ []))
        × Untouched k.heap g (ready_list mgr) (state_node t ∷ ring (ready_list mgr) xs)
  unfolding task_set_ready
  task_set_ready-new k t v xs e is real out room =
      let miss =
        klist_remove-miss (k.heap.len (ready_list mgr) + 2) (state_node t) xs is out.1
          (omega (arith, is.count)) in
      let (g, run, is', same) = klist_append-IsList is real out room in
      (g, rw (miss, change_task-ok {v = v} (λ v. record v { status = ready }) k e, run), is', same)

  -- The first of the queue goes to its end.
  pub task_set_ready-first :
      (k : System) (t : Ptr) (v : TssTask) (xs : List Ptr)
      → k.task t ≡ some v
      → IsList k.heap (ready_list mgr) (state_node t ∷ xs)
      → (g : Heap) × (task_set_ready mgr t k
          ≡ ok tt
              (record k { heap = g; task = update k.task t (some (record v { status = ready })) }))
        × IsList g (ready_list mgr) (xs ++ (state_node t ∷ []))
        × Untouched k.heap g (ready_list mgr) (ring (ready_list mgr) (state_node t ∷ xs))
  unfolding task_set_ready
  task_set_ready-first k t v xs e is =
      let l : Ptr = ready_list mgr in
      let n : Ptr = state_node t in
      let (g₁, run₁, is₁, same₁) =
        klist_remove-hit (k.heap.len l + 2) n [] xs is (omega (arith, is.count)) in
      let out : Away n (ring l xs) = ((λ z. is.apart.0.0 (sym z)), is.apart.1.0) in
      let (g₂, run₂, is₂, same₂) =
        klist_append-IsList is₁ (λ z. is.real.1.0 (sym z)) out (omega (arith, is.small)) in
      (
        g₂,
        rw (
          run₁,
          change_task-ok {v = v} (λ v. record v { status = ready }) (record k { heap = g₁ }) e,
          run₂,
        ),
        is₂,
        Untouched-trans same₁ same₂ (λ p w. (w.1.0, (w.0, w.1.1))),
      )

  -- While the current task is the first of the queue, dispatching changes nothing.
  pub task_dispatch_self :
      (k : System) (xs : List Ptr)
      → IsList k.heap (ready_list mgr) (state_node k.cur_task ∷ xs)
      → state_node k.cur_task < 2 ^ 32
      → task_dispatch mgr k ≡ ok tt k
  unfolding task_dispatch task_schedule task_fifo cur_task klist_len get_len
  task_dispatch_self k xs is small = rw (
    (klist_ends is).0,
    task_of-state_node k.cur_task small,
    ==_refl k.cur_task,
    ==_of_ne (ready_list mgr) null (λ z. is.real.0 (sym z)),
  )

  -- Another task at the front of the queue, which is ready, takes the processor.
  pub task_dispatch-next :
      (k : System) (u : Ptr) (w : TssTask) (xs : List Ptr)
      → IsList k.heap (ready_list mgr) (state_node u ∷ xs)
      → state_node u < 2 ^ 32
      → u ≢ k.cur_task
      → k.task u ≡ some w
      → w.status ≡ ready
      → task_dispatch mgr k
        ≡ ok tt (record k {
          cur_task = u;
          task = update k.task u (some (record w { status = running }));
          tr = w.tss_sel;
        })
  unfolding task_dispatch task_schedule task_fifo cur_task task_switch_from_to
  task_dispatch-next k u w xs is small ne ew st =
      let k₁ : System = record k {
        cur_task = u;
        task = update k.task u (some (record w { status = running }));
      } in
      let found : k₁.task u ≡ some (record w { status = running }) = rw (==_refl u) refl in
      rw (
        (klist_ends is).0,
        task_of-state_node u small,
        ==_of_ne u k.cur_task ne,
        get_task-ok {v = w} k ew,
        st,
        change_task-ok {v = w} (λ v. record v { status = running }) (record k { cur_task = u }) ew,
        get_task-ok {v = record w { status = running }} k₁ found,
      )
