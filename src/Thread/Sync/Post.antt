-- ===== src/Thread/Sync/Post.antt =====
-- Posting a semaphore, and waiting on one that is free.
use little_os.Base.{
  ℕ, suc, ◌+◌, ◌-◌, ◌<◌, ◌^◌, ◌≡◌, ◌≢◌, sym, ap, arith, some, List, [], ◌∷◌, length, update,
  ==_of_ne,
}
use little_os.Base.Word.{u8}
use little_os.Cmd.{ok, Cmd}
use little_os.Irq.{irq_enter_protection}
use little_os.Irq.Protect.{protection}
use little_os.Klist.{Ptr, Heap}
use little_os.Klist.Chain.{ring, IsList}
use little_os.Klist.Find.{klist_len-length, klist_ends}
use little_os.Klist.Frame.{AllAway, AllAway-sym, AllAway-cons, IsList-Untouched}
use little_os.Klist.Remove.{klist_remove-hit}
use little_os.Thread.{Threads, ThreadPcb, ready, state_node, ready_list, cur_thread}
use little_os.Thread.Ready.{thread_of-state_node, thread_push_ready-ok}
use little_os.Thread.Sync.{wait_list, wait_loop, thread_sem_wait, thread_sem_post}

-- In the protected section.
abbrev inner : Threads → Threads
inner k = record k { eflags = (irq_enter_protection k.eflags).0 }

module _ (mgr sem t : Ptr) (v : ThreadPcb) (xs ws : List Ptr) where
  -- When the first thread that waits on a semaphore has its node at a 32-bit address, the list
  -- of those that wait and the ready queue are well formed and share no node, and the queue has
  -- room, thread_sem_post moves that thread from the list to the front of the ready queue as
  -- ready, raises the 8-bit value by one, and leaves the interrupt flag and all else of the
  -- threads as it was.
  pub thread_sem_post-ok :
      (k : Threads)
      → IsList k.heap (wait_list sem) (state_node t ∷ ws)
      → IsList k.heap (ready_list mgr) xs
      → AllAway (ring (ready_list mgr) xs) (ring (wait_list sem) (state_node t ∷ ws))
      → state_node t < 2 ^ 32
      → k.thread t ≡ some v
      → length xs + 1 < 2 ^ 31
      → (g : Heap) × (thread_sem_post mgr sem k
          ≡ ok tt (record k {
            heap = g;
            thread = update k.thread t (some (record v { status = ready }));
            value = update k.value sem (u8 (k.value sem + 1));
          }))
        × IsList g (ready_list mgr) (state_node t ∷ xs)
        × IsList g (wait_list sem) ws
  unfolding thread_sem_post
  thread_sem_post-ok k waits readies apart small e room =
      let n : Ptr = state_node t in
      let W : List Ptr = ring (wait_list sem) (n ∷ ws) in
      let R : List Ptr = ring (ready_list mgr) xs in
      let (g₁, run₁, is₁, same₁) =
        klist_remove-hit (k.heap.len (wait_list sem) + 2) n [] ws waits (omega arith) in
      let other : AllAway W R = AllAway-sym R W apart in
      let kept : IsList g₁ (ready_list mgr) xs =
        IsList-Untouched same₁ (ready_list mgr) xs apart.0.0 apart readies in
      let k₁ : Threads = record (inner k) { heap = g₁ } in
      let (g₂, run₂, is₂, same₂) = thread_push_ready-ok mgr k₁ t v xs e kept other.1.0 room in
      let beside : AllAway (ring (wait_list sem) ws) (n ∷ R) =
        AllAway-cons n (ring (wait_list sem) ws) R ((λ z. waits.apart.0.0 (sym z)), waits.apart.1.0)
          (other.0, other.1.1) in
      let still = IsList-Untouched same₂ (wait_list sem) ws (λ z. apart.0.0 (sym z)) beside is₁ in
      let k₂ : Threads = record k {
        heap = g₂;
        thread = update k.thread t (some (record v { status = ready }));
        value = update k.value sem (u8 (k.value sem + 1));
      } in
      (
        g₂,
        rw
            (
              (klist_len-length waits).2,
              ==_of_ne (length (n ∷ ws)) 0 (omega arith),
              (klist_ends waits).0,
              run₁,
              thread_of-state_node t small,
              run₂,
            )
            (ap (λ f. ok tt (record k₂ { eflags = f })) (protection k.eflags).2),
        is₂,
        still,
      )

module _ (mgr : Ptr) (resume : Cmd Threads (Unit {0})) where
  -- Waiting on a semaphore that is free takes one from its value and does nothing else.
  pub thread_sem_wait_free :
      (k : Threads) (fuel : ℕ) (sem : Ptr)
      → k.value sem ≢ 0
      → k.value sem < 2 ^ 8
      → thread_sem_wait mgr resume (suc fuel) sem k
        ≡ ok tt (record k { value = update k.value sem (k.value sem - 1) })
  unfolding thread_sem_wait wait_loop cur_thread
  thread_sem_wait_free k fuel sem free small =
      let less : u8 (k.value sem + 255) ≡ k.value sem - 1 = omega arith in
      let k₁ : Threads = record k { value = update k.value sem (k.value sem - 1) } in
      rw (==_of_ne (k.value sem) 0 free, less)
        (ap (λ f. ok tt (record k₁ { eflags = f })) (protection k.eflags).2)
