-- ===== src/Thread/Dispatch.antt =====
-- `thread_dispatch`, when a thread is ready and when none is.
use little_os.Base.{
  some, List, ◌∷◌, update, ==_refl, ℕ, ◌+◌, ◌-◌, ◌<◌, ◌≤◌, ◌^◌, ◌≡◌, ◌≢◌, sym, arith, none, [],
  ==_of_ne,
}
use little_os.Base.Word.{sub32, add32}
use little_os.Cmd.{fault, Cmd}
use little_os.Klist.{Ptr, null, tail}
use little_os.Klist.Chain.{IsList}
use little_os.Klist.Find.{klist_ends}
use little_os.Thread.Ready.{get_thread-ok, thread_of-state_node}
use little_os.Thread.{
  ThreadPcb, running, ready, state_node, switch_thread_from_to, Threads, get_thread, cur_thread,
  ready_list, thread_fifo, thread_schedule, thread_dispatch,
}

-- The thread `t` has given way to `u`.
abbrev pub switched : Ptr → Ptr → ThreadPcb → ThreadPcb → Threads → Threads
switched t u v w k = record k {
  thread =
      update (update k.thread u (some (record w { status = running }))) t
        (some (record v { kstack = sub32 k.esp 16 }));
  cur_thread = u;
  esp = add32 w.kstack 16;
}

get_thread-none : {p : Ptr} (k : Threads) → k.thread p ≡ none → get_thread p k ≡ fault
unfolding get_thread
get_thread-none k e = rw (e, get_thread)

module _ (mgr : Ptr) (resume : Cmd Threads (Unit {0})) where
  -- When the ready queue is well formed and empty, the manager lies at a 32-bit address from 8
  -- on, and what lies 8 bytes below it is neither the current thread nor any other,
  -- thread_dispatch takes the queue's tail for a thread's node and reads the status of no
  -- thread.
  pub thread_dispatch_fault :
      (k : Threads)
      → IsList k.heap (ready_list mgr) []
      → 8 ≤ mgr
      → mgr + 32 < 2 ^ 32
      → k.cur_thread ≢ mgr - 8
      → k.thread (mgr - 8) ≡ none
      → thread_dispatch mgr resume k ≡ fault
  unfolding thread_dispatch thread_schedule thread_fifo cur_thread
  thread_dispatch_fault k is low high other no_thread =
      let end : ℕ = tail (ready_list mgr) in
      let container : sub32 end 40 ≡ mgr - 8 = omega arith in
      rw (
        (klist_ends is).0,
        ==_of_ne end null (omega arith),
        container,
        ==_of_ne (mgr - 8) k.cur_thread (λ e. other (sym e)),
        get_thread-none k no_thread,
      )

  -- The first of the ready queue runs.
  pub thread_dispatch-cons :
      (k : Threads) (u : Ptr) (v w : ThreadPcb) (xs : List Ptr)
      → IsList k.heap (ready_list mgr) (state_node u ∷ xs)
      → state_node u < 2 ^ 32
      → u ≢ k.cur_thread
      → k.thread k.cur_thread ≡ some v
      → k.thread u ≡ some w
      → w.status ≡ ready
      → thread_dispatch mgr resume k ≡ resume (switched k.cur_thread u v w k)
  unfolding thread_dispatch thread_schedule thread_fifo cur_thread switch_thread_from_to
  thread_dispatch-cons k u v w xs is small ne ev ew st =
      let k₁ : Threads = record k {
        thread = update k.thread u (some (record w { status = running }));
        cur_thread = u;
      } in
      let found : k₁.thread u ≡ some (record w { status = running }) = rw (==_refl u) in
      let kept : k₁.thread k.cur_thread ≡ some v =
        rw (==_of_ne k.cur_thread u (λ e. ne (sym e))) ev in
      rw (
        (klist_ends is).0,
        thread_of-state_node u small,
        ==_of_ne u k.cur_thread ne,
        get_thread-ok {v = w} k ew,
        st,
        get_thread-ok {v = w} (record k { cur_thread = u }) ew,
        get_thread-ok {v = record w { status = running }} k₁ found,
        get_thread-ok {v = v} k₁ kept,
      )
