-- ===== src/Tss/Lists.antt =====
-- A new task in both lists: its nodes lie `x` and `y` bytes into its page.
use little_os.Base.{
  ℕ, ◌+◌, ◌<◌, ◌^◌, ◌≡◌, ◌≢◌, ◌∙◌, ap, arith, some, List, [], ◌∷◌, ◌++◌, length, update, ==_refl,
}
use little_os.Cmd.{ok}
use little_os.Klist.{Ptr, null, Heap, tail, klist_append}
use little_os.Klist.Chain.{Away, ring, IsList}
use little_os.Klist.Frame.{Untouched, AllAway-sym, AllAway-cons, IsList-Untouched}
use little_os.Klist.Insert.{klist_append-IsList}
use little_os.Memory.{AddrAlloc, mem_page_size}
use little_os.Memory.Single.{TakenPage}
use little_os.Thread.{ready}
use little_os.Tss.{TssTask, System, state_node, general_list, ready_list, task_set_ready}
use little_os.Tss.Places.{
  All, All-append, All-map, InPage, InPage-Grown, TakenPage-InPage, nodes, nodes-append,
  length-nodes, node_apart, fresh_nodes, Away-ring, rings_apart,
}
use little_os.Tss.Ready.{task_set_ready-new}
use little_os.Tss.Store.{update_again}

-- task_set_ready of a task that was written before.
pub task_set_ready-fresh :
    (mgr : Ptr) (k : System) (t : Ptr) (v : TssTask) (xs : List Ptr)
    → IsList k.heap (ready_list mgr) xs
    → state_node t ≢ null
    → Away (state_node t) (ring (ready_list mgr) xs)
    → length xs + 1 < 2 ^ 31
    → (g : Heap) × (task_set_ready mgr t (record k { task = update k.task t (some v) })
        ≡ ok tt
            (record k { heap = g; task = update k.task t (some (record v { status = ready })) }))
      × IsList g (ready_list mgr) (xs ++ (state_node t ∷ []))
      × Untouched k.heap g (ready_list mgr) (state_node t ∷ ring (ready_list mgr) xs)
task_set_ready-fresh mgr k t v xs is real out room =
    let (g, run, is', same) =
      task_set_ready-new mgr (record k { task = update k.task t (some v) }) t v xs (rw (==_refl t))
        is real out room in
    (
      g,
      run
          ∙ ap (λ T. ok tt (record k { heap = g; task = T }))
              (update_again k.task t (some v) (some (record v { status = ready }))),
      is',
      same,
    )

module _ (x y : ℕ) (hx : x < mem_page_size) (hy : y < mem_page_size) (ne : x ≢ y) (mgr : Ptr)
    (m w : AddrAlloc) (a : Ptr) (tp : TakenPage m w a)
    (below : tail (ready_list mgr) < m.kernelstart) (gs ts : List Ptr) (hg : All (InPage m) gs)
    (ht : All (InPage m) ts) where
  -- Pages stay pages.
  pub grown_pages : (us : List Ptr) → All (InPage m) us → All (InPage w) us
  grown_pages us h = All-map (InPage m) (InPage w) us (λ t p. InPage-Grown t tp.grown p) h

  pub with_new : All (InPage w) (gs ++ (a ∷ []))
  with_new = All-append (InPage w) gs (a ∷ []) (grown_pages gs hg) (TakenPage-InPage tp, tt)

  high : tail (ready_list mgr) < a
  high = omega (arith, tp.address, below)

  -- The new task is appended to the list of all tasks, and the ready queue is as it was.
  pub general-new :
      (h : Heap)
      → IsList h (general_list mgr) (nodes x gs)
      → IsList h (ready_list mgr) (nodes y ts)
      → length gs + 1 < 2 ^ 31
      → (g : Heap) × (klist_append (general_list mgr) (a + x) h ≡ ok tt g)
        × IsList g (general_list mgr) (nodes x (gs ++ (a ∷ [])))
        × IsList g (ready_list mgr) (nodes y ts)
  general-new h is rs room =
      let out : Away (a + x) (ring (general_list mgr) (nodes x gs)) =
        Away-ring (a + x) (general_list mgr) x gs (omega (arith, high)) (omega (arith, high))
          (fresh_nodes x x gs tp hg (omega arith) (omega arith)) in
      let (g, run, is', same) =
        klist_append-IsList is (omega (arith, high)) out (omega (arith, length-nodes x gs)) in
      (
        g,
        run,
        rw (nodes-append x gs (a ∷ [])) is',
        IsList-Untouched same (ready_list mgr) (nodes y ts) (omega arith)
            (AllAway-cons (a + x) (ring (ready_list mgr) (nodes y ts))
              (ring (general_list mgr) (nodes x gs))
              (Away-ring (a + x) (ready_list mgr) y ts (omega (arith, high)) (omega (arith, high))
                (fresh_nodes x y ts tp ht (omega arith) (omega arith)))
              (AllAway-sym (ring (general_list mgr) (nodes x gs))
                (ring (ready_list mgr) (nodes y ts))
                (rings_apart m x y (omega arith) (omega arith) (omega arith) (general_list mgr)
                  (ready_list mgr) below ts ht gs hg (omega arith) (omega arith))))
            rs,
      )

  -- Its other node is in neither list.
  pub state_node-Away : Away (a + y) (ring (ready_list mgr) (nodes y ts))
  state_node-Away =
      Away-ring (a + y) (ready_list mgr) y ts (omega (arith, high)) (omega (arith, high))
        (fresh_nodes y y ts tp ht (omega arith) (omega arith))

  -- A change to the ready queue and that node leaves the list of all tasks as it is.
  pub general-kept :
      (h g : Heap)
      → IsList h (general_list mgr) (nodes x (gs ++ (a ∷ [])))
      → Untouched h g (ready_list mgr) ((a + y) ∷ ring (ready_list mgr) (nodes y ts))
      → IsList g (general_list mgr) (nodes x (gs ++ (a ∷ [])))
  general-kept h g is same =
      let out : Away (a + y) (ring (general_list mgr) (nodes x (gs ++ (a ∷ [])))) =
        Away-ring (a + y) (general_list mgr) x (gs ++ (a ∷ [])) (omega (arith, high))
          (omega (arith, high))
          (node_apart a y x (gs ++ (a ∷ [])) (TakenPage-InPage tp) with_new (omega arith)
            (omega arith) (omega arith)) in
      let low : tail (ready_list mgr) < w.kernelstart = omega (arith, below, tp.grown.start) in
      IsList-Untouched same (general_list mgr) (nodes x (gs ++ (a ∷ []))) (omega arith)
        (AllAway-cons (a + y) (ring (general_list mgr) (nodes x (gs ++ (a ∷ []))))
          (ring (ready_list mgr) (nodes y ts)) out
          (rings_apart w x y (omega arith) (omega arith) (omega arith) (general_list mgr)
            (ready_list mgr) low ts (grown_pages ts ht) (gs ++ (a ∷ [])) with_new (omega arith)
            (omega arith)))
        is
