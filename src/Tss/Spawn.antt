-- ===== src/Tss/Spawn.antt =====
-- `init_task`: a new task at the end of the ready queue.
use little_os.Base.{ℕ, ◌+◌, ◌<◌, ◌^◌, ◌≡◌, ◌≢◌, arith, List, [], ◌∷◌, ◌++◌, length}
use little_os.Cmd.{ok, fault}
use little_os.Klist.{Ptr, null, Heap}
use little_os.Tss.{TssTask, System, init_task}
use little_os.Tss.Robin.{Turn, IsRobin}
use little_os.Tss.Waiting.{length-tasks}
use little_os.Memory.Single.{kalloc_page}
use little_os.Tss.Init.{HasMeans, OwnMeans, HasMeans-OwnMeans}
use little_os.Tss.Child.{paid, new_page, new_turn, spawned, apart, init_task-run}

module _ (mgr kernel_table : Ptr) (raw : TssTask) (k : System) (entry : ℕ) where
  -- The same without the means that init_tss asserts.
  pub init_task-any :
      (gs : List Ptr) (q : List Turn)
      → IsRobin mgr k gs q
      → new_page k ≢ null
      → length gs + 1 < 2 ^ 31
      → length q + 1 < 2 ^ 31
      → (g : Heap) × (init_task mgr kernel_table raw entry k
          ≡ ok (new_page k) (spawned mgr kernel_table raw k entry g))
        × IsRobin mgr
            (spawned mgr kernel_table raw k entry g)
            (gs ++ (new_page k ∷ []))
            (q ++ (new_turn (new_page k) ∷ []))
  init_task-any gs [] is granted room_all room = absurd is
  init_task-any gs (e ∷ es) is granted room_all room =
      init_task-run mgr kernel_table raw k entry gs e es is granted room_all
        (omega (arith, length-tasks es, room))

  -- Without a page for the task, init_task writes the ticks through NULL.
  pub init_task-null : new_page k ≡ null → init_task mgr kernel_table raw entry k ≡ fault
  unfolding init_task
  init_task-null z = rw z

  -- The new task is none of the queue.
  pub new_page-ne-cur :
      (gs : List Ptr) (q : List Turn)
      → IsRobin mgr k gs q
      → new_page k ≢ null
      → length gs + 1 < 2 ^ 31
      → length q + 1 < 2 ^ 31
      → k.cur_task ≢ new_page k
  new_page-ne-cur gs [] is granted room_all room = absurd is
  new_page-ne-cur gs (e ∷ es) is granted room_all room =
      let out =
        apart mgr kernel_table raw k entry gs e es is granted room_all
          (omega (arith, length-tasks es, room)) in
      omega (arith, out.1.0)

  -- When the ready queue is well formed, the manager has a page for the task and grants its two
  -- stacks and its directory, a descriptor is free, and both lists have room, init_task returns
  -- the task in that page: it has number global_pid + 1, no parent, a state segment that starts
  -- at entry with the segments of user programs, interrupts on, zeros in the other registers,
  -- and as its two stacks and its directory three pages that were free, the selector of a
  -- descriptor that was free, and stands last in the ready queue, as ready, with a slice of
  -- five ticks. The other tasks, the current one and the flags stay, and the queue stays well
  -- formed.
  pub init_task-ok :
      (gs : List Ptr) (q : List Turn)
      → IsRobin mgr k gs q
      → new_page k ≢ null
      → HasMeans kernel_table (paid k) (new_page k) entry
      → length gs + 1 < 2 ^ 31
      → length q + 1 < 2 ^ 31
      → (g : Heap) × (init_task mgr kernel_table raw entry k
          ≡ ok (new_page k) (spawned mgr kernel_table raw k entry g))
        × OwnMeans kernel_table (paid k) (new_page k) entry
        × IsRobin mgr
            (spawned mgr kernel_table raw k entry g)
            (gs ++ (new_page k ∷ []))
            (q ++ (new_turn (new_page k) ∷ []))
  init_task-ok gs [] is granted means room_all room = absurd is
  init_task-ok gs (e ∷ es) is granted means room_all room =
      let (g, run, is') = init_task-any gs (e ∷ es) is granted room_all room in
      (
        g,
        run,
        HasMeans-OwnMeans kernel_table (paid k) (new_page k) entry
            (kalloc_page is.manager).0.manager means,
        is',
      )
