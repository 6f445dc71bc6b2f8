-- ===== src/Thread/Sync/Block.antt =====
-- A wait on a semaphore that is not free: the thread blocks, and the next one runs.
use little_os.Base.{
  ℕ, suc, ◌≤◌, ◌-◌, ◌∙◌, none, ◌+◌, ◌<◌, ◌^◌, ◌≡◌, ◌≢◌, sym, arith, some, List, [], ◌∷◌, ◌++◌,
  length, update, ==_of_ne, ==_refl,
}
use little_os.Cmd.{fault, Cmd}
use little_os.Irq.{irq_enter_protection}
use little_os.Klist.{Ptr, Heap}
use little_os.Klist.Chain.{ring, IsList}
use little_os.Klist.Find.{klist_find-miss}
use little_os.Klist.Frame.{AllAway, AllAway-sym, AllAway-cons, IsList-Untouched}
use little_os.Klist.Insert.{klist_append-IsList}
use little_os.Klist.Remove.{klist_remove-hit, klist_remove-miss}
use little_os.Thread.{
  Threads, ThreadPcb, ready, blocked, state_node, ready_list, sleep_list, cur_thread,
  thread_dispatch, thread_set_block,
}
use little_os.Thread.Ready.{get_thread-ok}
use little_os.Thread.Dispatch.{switched, thread_dispatch-cons, thread_dispatch_fault}
use little_os.Thread.Sync.{wait_list, wait_round, wait_loop, thread_sem_wait}

module _ (mgr : Ptr) (resume : Cmd Threads (Unit {0})) where
  -- The current thread leaves the ready queue, and stands at the end of the list of those that
  -- wait; then another one is looked for.
  parked :
      (k : Threads) (sem : Ptr) (v : ThreadPcb) (rs ss ws : List Ptr)
      → IsList k.heap (ready_list mgr) (state_node k.cur_thread ∷ rs)
      → IsList k.heap (sleep_list mgr) ss
      → IsList k.heap (wait_list sem) ws
      → AllAway (ring (sleep_list mgr) ss) (ring (ready_list mgr) (state_node k.cur_thread ∷ rs))
      → AllAway (ring (wait_list sem) ws) (ring (ready_list mgr) (state_node k.cur_thread ∷ rs))
      → length ws + 1 < 2 ^ 31
      → k.thread k.cur_thread ≡ some v
      → (g : Heap) × (wait_round mgr resume sem k.cur_thread k
          ≡ thread_dispatch mgr resume (record k {
            heap = g;
            thread = update k.thread k.cur_thread (some (record v { status = blocked }));
          }))
        × IsList g (ready_list mgr) rs
        × IsList g (wait_list sem) (ws ++ (state_node k.cur_thread ∷ []))
  unfolding wait_round thread_set_block
  parked k sem v rs ss ws readies sleeps waits apart_s apart_w room ev =
      let n : Ptr = state_node k.cur_thread in
      let R : List Ptr = ring (ready_list mgr) (n ∷ rs) in
      let from_s = AllAway-sym (ring (sleep_list mgr) ss) R apart_s in
      let from_w = AllAway-sym (ring (wait_list sem) ws) R apart_w in
      let found =
        klist_find-miss (k.heap.len (wait_list sem) + 2) n ws waits from_w.1.0.1
          (omega (arith, waits.count)) in
      let (g₁, run₁, is₁, same₁) =
        klist_remove-hit (k.heap.len (ready_list mgr) + 2) n [] rs readies (omega arith) in
      let sleeps₁ = IsList-Untouched same₁ (sleep_list mgr) ss apart_s.0.0 apart_s sleeps in
      let waits₁ = IsList-Untouched same₁ (wait_list sem) ws apart_w.0.0 apart_w waits in
      let miss =
        klist_remove-miss (g₁.len (sleep_list mgr) + 2) n ss sleeps₁ from_s.1.0.1
          (omega (arith, sleeps₁.count)) in
      let (g₂, run₂, is₂, same₂) = klist_append-IsList waits₁ (omega arith) from_w.1.0 room in
      let beside : AllAway (ring (ready_list mgr) rs) (n ∷ ring (wait_list sem) ws) =
        AllAway-cons n (ring (ready_list mgr) rs) (ring (wait_list sem) ws)
          ((λ z. readies.apart.0.0 (sym z)), readies.apart.1.0) (from_w.0, from_w.1.1) in
      (
        g₂,
        rw (found, run₁, miss, run₂, get_thread-ok {v = v} (record k { heap = g₂ }) ev),
        IsList-Untouched same₂ (ready_list mgr) rs (λ z. apart_w.0.0 (sym z)) beside is₁,
        is₂,
      )

  -- In a build without KERNEL_DEBUG, as ASSERT(wait_node != NULL) fails here: when the current
  -- thread is the first and a ready thread the second of the ready queue, that one's node at a
  -- 32-bit address, and the ready queue, the sleeping threads and those that wait are in
  -- well-formed lists, of which the ready queue shares no node with the others and the last has
  -- room, a round of thread_sem_wait puts the current thread, blocked, at the end of those that
  -- wait, keeps its stack, and switches to the second.
  wait_round-ok :
      (k : Threads) (sem u : Ptr) (v w : ThreadPcb) (xs ss ws : List Ptr)
      → IsList k.heap (ready_list mgr) (state_node k.cur_thread ∷ state_node u ∷ xs)
      → IsList k.heap (sleep_list mgr) ss
      → IsList k.heap (wait_list sem) ws
      → AllAway
          (ring (sleep_list mgr) ss)
          (ring (ready_list mgr) (state_node k.cur_thread ∷ state_node u ∷ xs))
      → AllAway
          (ring (wait_list sem) ws)
          (ring (ready_list mgr) (state_node k.cur_thread ∷ state_node u ∷ xs))
      → length ws + 1 < 2 ^ 31
      → state_node u < 2 ^ 32
      → u ≢ k.cur_thread
      → k.thread k.cur_thread ≡ some v
      → k.thread u ≡ some w
      → w.status ≡ ready
      → (g : Heap) × (wait_round mgr resume sem k.cur_thread k
          ≡ resume (
              switched k.cur_thread u
                (record v { status = blocked })
                w
                (record k {
                  heap = g;
                  thread = update k.thread k.cur_thread (some (record v { status = blocked }));
                })))
        × IsList g (ready_list mgr) (state_node u ∷ xs)
        × IsList g (wait_list sem) (ws ++ (state_node k.cur_thread ∷ []))
  wait_round-ok k sem u v w xs ss ws readies sleeps waits apart_s apart_w room small ne ev ew st =
      let (g, run, is, is') =
        parked k sem v (state_node u ∷ xs) ss ws readies sleeps waits apart_s apart_w room ev in
      let t : Ptr = k.cur_thread in
      let b : ThreadPcb = record v { status = blocked } in
      let k₁ : Threads = record k { heap = g; thread = update k.thread t (some b) } in
      let here : k₁.thread t ≡ some b = rw (==_refl t) in
      let there : k₁.thread u ≡ some w = rw (==_of_ne u t ne) ew in
      (g, run ∙ thread_dispatch-cons mgr resume k₁ u b w xs is small ne here there st, is, is')

  -- When the current thread alone is ready, the sleeping threads and those that wait are in
  -- well-formed lists that share no node with the ready queue, the second has room, the manager
  -- lies at a 32-bit address from 8 on, and what lies 8 bytes below it is no thread,
  -- thread_sem_wait on a semaphore of value 0 ends in reading the status of no thread: with the
  -- ready queue empty its tail is taken for a thread's node.
  pub wait_alone_fault :
      (k : Threads) (sem : Ptr) (v : ThreadPcb) (ss ws : List Ptr)
      → IsList k.heap (ready_list mgr) (state_node k.cur_thread ∷ [])
      → IsList k.heap (sleep_list mgr) ss
      → IsList k.heap (wait_list sem) ws
      → AllAway (ring (sleep_list mgr) ss) (ring (ready_list mgr) (state_node k.cur_thread ∷ []))
      → AllAway (ring (wait_list sem) ws) (ring (ready_list mgr) (state_node k.cur_thread ∷ []))
      → length ws + 1 < 2 ^ 31
      → k.thread k.cur_thread ≡ some v
      → 8 ≤ mgr
      → mgr + 32 < 2 ^ 32
      → k.cur_thread ≢ mgr - 8
      → k.thread (mgr - 8) ≡ none
      → k.value sem ≡ 0
      → (fuel : ℕ) → thread_sem_wait mgr resume (suc fuel) sem k ≡ fault
  unfolding thread_sem_wait wait_loop cur_thread
  wait_alone_fault k sem v ss ws readies sleeps waits apart_s apart_w room ev low high other
        no_thread taken fuel =
      let t : Ptr = k.cur_thread in
      let k₀ : Threads = record k { eflags = (irq_enter_protection k.eflags).0 } in
      let (g, run, is, is') =
        parked k₀ sem v [] ss ws readies sleeps waits apart_s apart_w room ev in
      let k₁ : Threads = record k₀ {
        heap = g;
        thread = update k.thread t (some (record v { status = blocked }));
      } in
      let nobody : k₁.thread (mgr - 8) ≡ none =
        rw (==_of_ne (mgr - 8) t (λ e. other (sym e))) no_thread in
      rw (taken, run, thread_dispatch_fault mgr resume k₁ is low high other nobody)
