-- ===== src/Task/Ready.antt =====
-- `task_set_ready`, `task_set_block` and `task_next_run` on the ready list.
use little_os.Base.{
  ◌+◌, ◌<◌, ◌^◌, ◌≡◌, ◌≢◌, refl, arith, some, List, [], ◌∷◌, ◌++◌, length, update, ==_of_ne,
  ==_refl, length-append,
}
use little_os.Cmd.{ok}
use little_os.Klist.{Ptr, null, Heap}
use little_os.Klist.Chain.{Away, ring, IsList}
use little_os.Klist.Frame.{Untouched}
use little_os.Klist.Insert.{klist_append-IsList}
use little_os.Klist.Remove.{klist_remove-hit}
use little_os.Klist.Find.{klist_len-length, klist_ends}
use little_os.Task.{
  Task, Kernel, ready, run_node, task_of, get_task, ready_list, idle_task, task_set_ready,
  task_set_block, task_next_run,
}

-- The nodes by which tasks stand in the ready list and in the sleep list.
abbrev pub run_nodes : List Ptr → List Ptr
run_nodes [] = []
run_nodes (t ∷ ts) = run_node t ∷ run_nodes ts

pub run_nodes-append : (xs ys : List Ptr) → run_nodes (xs ++ ys) ≡ run_nodes xs ++ run_nodes ys
run_nodes-append [] ys = refl
run_nodes-append (x ∷ xs) ys = rw (run_nodes-append xs ys)

pub length-run_nodes : (xs : List Ptr) → length (run_nodes xs) ≡ length xs
length-run_nodes [] = refl
length-run_nodes (x ∷ xs) = omega (arith, length-run_nodes xs)

-- The container of a node is the task.
pub task_of-run_node : (t : Ptr) → run_node t < 2 ^ 32 → task_of (run_node t) ≡ t
task_of-run_node t h = rw (==_of_ne (run_node t) null (omega arith)) (omega arith)

pub get_task-ok : {p : Ptr} {v : Task} (k : Kernel) → k.task p ≡ some v → get_task p k ≡ ok v k
unfolding get_task
get_task-ok k e = rw (e, get_task)

module _ (mgr : Ptr) where
  -- task_set_ready of a task other than the idle one, whose node is not in the well-formed
  -- ready list, which has room for it, puts it at the end of the ready list in state TASK_READY
  -- and leaves the other tasks and lists alone.
  pub task_set_ready-ok :
      (k : Kernel) (t : Ptr) (v : Task) (xs : List Ptr)
      → t ≢ idle_task mgr
      → k.task t ≡ some v
      → IsList k.heap (ready_list mgr) xs
      → Away (run_node t) (ring (ready_list mgr) xs)
      → length xs + 1 < 2 ^ 31
      → (g : Heap) × (task_set_ready mgr t k
          ≡ ok tt
              (record k { heap = g; task = update k.task t (some (record v { state = ready })) }))
        × IsList g (ready_list mgr) (xs ++ (run_node t ∷ []))
        × Untouched k.heap g (ready_list mgr) (run_node t ∷ ring (ready_list mgr) xs)
  unfolding task_set_ready
  task_set_ready-ok k t v xs ne e is out room =
      let (g, run, is', same) = klist_append-IsList is (omega arith) out room in
      (g, rw (==_of_ne t (idle_task mgr) ne, run, get_task-ok (record k { heap = g }) e), is', same)

  -- The idle task is never in the ready list.
  pub task_set_ready_idle : (k : Kernel) → task_set_ready mgr (idle_task mgr) k ≡ ok tt k
  unfolding task_set_ready
  task_set_ready_idle k = rw (==_refl (idle_task mgr))

  -- task_set_block of a task of the well-formed ready list, other than the idle one, takes it
  -- off the list; the others keep their order, and nothing outside the list changes.
  pub task_set_block-ok :
      (k : Kernel) (t : Ptr) (xs ys : List Ptr)
      → t ≢ idle_task mgr
      → IsList k.heap (ready_list mgr) (xs ++ (run_node t ∷ ys))
      → (g : Heap) × (task_set_block mgr t k ≡ ok tt (record k { heap = g }))
        × IsList g (ready_list mgr) (xs ++ ys)
        × Untouched k.heap g (ready_list mgr) (ring (ready_list mgr) (xs ++ (run_node t ∷ ys)))
  unfolding task_set_block
  task_set_block-ok k t xs ys ne is =
      let fuel : length xs < k.heap.len (ready_list mgr) + 2 =
        omega (arith, is.count, length-append xs (run_node t ∷ ys)) in
      let (g, run, is', same) =
        klist_remove-hit (k.heap.len (ready_list mgr) + 2) (run_node t) xs ys is fuel in
      (g, rw (==_of_ne t (idle_task mgr) ne, run), is', same)

  -- The next task is the first of the ready list, and the idle task if there is none.
  pub task_next_run-cons :
      (k : Kernel) (t : Ptr) (xs : List Ptr)
      → IsList k.heap (ready_list mgr) (run_node t ∷ xs)
      → run_node t < 2 ^ 32
      → task_next_run mgr k ≡ ok t k
  unfolding task_next_run
  task_next_run-cons k t xs is small = rw (
    (klist_len-length is).0,
    ==_of_ne (length (run_node t ∷ xs)) 0 (omega arith),
    (klist_ends is).0,
    task_of-run_node t small,
  )

  pub task_next_run-nil :
      (k : Kernel) → IsList k.heap (ready_list mgr) [] → task_next_run mgr k ≡ ok (idle_task mgr) k
  unfolding task_next_run
  task_next_run-nil k is = rw ((klist_len-length is).0)
