-- ===== src/Thread/Sync.antt =====
-- source/kernel/sync/sync.c and sync.h: semaphores of threads. A `semaphore_t` is known by its
-- address: its value, a `uint8_t`, is kept under that, and its list lies 4 bytes into it. `ASSERT`
-- is empty, as in a build without KERNEL_DEBUG; with it, `ASSERT(wait_node != NULL)` stops every
-- thread that is not in the list already, which is every one that comes to wait.
pub mod Post
pub mod Block
use little_os.Base.{
  ℕ, zero, suc, ◌+◌, ◌-◌, ◌<◌, ◌^◌, ◌≡◌, ◌≢◌, ◌⊎◌, refl, sym, ◌∙◌, arith, Bool, true, false, Option,
  some, none, List, [], ◌∷◌, ◌++◌, length, if◌then◌else◌, ◌==◌, update, not, ==_of_ne,
}
use little_os.Base.Word.{u8, sub32}
use little_os.Cmd.{Run, ok, fault, out_of_fuel, Cmd, pure, ◌>>=◌, ◌>>◌, within}
use little_os.Klist.{
  Ptr, null, Heap, tail, klist_init, klist_append, klist_remove, klist_find, klist_empty,
  klist_get_first_node,
}
use little_os.Thread.{
  Threads, ThreadPcb, ready, thread_of, state_node, lists, remove, get_thread, put_thread,
  enter_protection, leave_protection, cur_thread, ready_list, sleep_list, thread_push_ready,
  thread_set_block,
}

abbrev pub wait_list : Ptr → Ptr
wait_list sem = sem + 4

abbrev pub put_value : Ptr → ℕ → Cmd Threads (Unit {0})
put_value sem v k = ok tt (record k { value = update k.value sem v })

-- `shared` is not used.
unfoldable pub sem_init : Ptr → (value : ℕ) → Cmd Threads (Unit {0})
sem_init sem value = do put_value sem value; lists (klist_init (wait_list sem))

module _ (mgr : Ptr) where
  module _ (resume : Cmd Threads (Unit {0})) where
    -- The body of the loop of `thread_sem_wait`.
    unfoldable pub wait_round : Ptr → Ptr → Cmd Threads (Unit {0})
    unfolding thread_set_block
    wait_round sem cur = do
      (λ k. lists (klist_find (k.heap.len (wait_list sem) + 2) (wait_list sem) (state_node cur)) k)
      remove (ready_list mgr) (state_node cur)
      remove (sleep_list mgr) (state_node cur)
      lists (klist_append (wait_list sem) (state_node cur))
      thread_set_block mgr resume cur

    unfoldable pub wait_loop : ℕ → Ptr → Ptr → Cmd Threads (Unit {0})
    unfolding wait_round
    wait_loop zero sem cur = λ _. out_of_fuel
    wait_loop (suc fuel) sem cur = λ k.
        let again = (wait_round sem cur >> wait_loop fuel sem cur) k in
        if k.value sem == 0 then again else ok tt k

    unfoldable pub thread_sem_wait : ℕ → Ptr → Cmd Threads (Unit {0})
    unfolding cur_thread wait_loop
    thread_sem_wait fuel sem = do
      status ← enter_protection
      cur ← cur_thread
      wait_loop fuel sem cur
      (λ k. put_value sem (u8 (k.value sem + 255)) k)
      leave_protection status

  -- The first node of `wait_list` is its `head.next`.
  unfoldable pub thread_sem_post : Ptr → Cmd Threads (Unit {0})
  unfolding thread_push_ready
  thread_sem_post sem = do
    status ← enter_protection
    empty ← lists (klist_empty (wait_list sem))
    (if empty then pure tt else do
      node ← lists (klist_get_first_node (wait_list sem))
      remove (wait_list sem) node
      thread_push_ready mgr (thread_of node))
    (λ k. put_value sem (u8 (k.value sem + 1)) k)
    leave_protection status
