-- ===== src/Thread/Create/Start.antt =====
-- `thread_start`: a new thread, its stack and its places in the lists.
use little_os.Base.{
  ℕ, ◌+◌, ◌<◌, ◌≤◌, ◌^◌, ◌≡◌, ◌≢◌, ◌⊎◌, inl, inr, arith, some, List, [], ◌∷◌, ◌++◌, length, update,
  ==_of_ne,
}
use little_os.Cmd.{ok}
use little_os.Klib.{kstrcpy}
use little_os.Klib.Copy.{kstrcpy-get}
use little_os.Klib.Swap.{IsString}
use little_os.Klist.{Ptr, null, Heap, tail}
use little_os.Klist.Chain.{IsList}
use little_os.Irq.{irq_enter_protection}
use little_os.Irq.Protect.{protection}
use little_os.Mem.{Memory, read32}
use little_os.Memory.{mem_page_size, kalloc_pages}
use little_os.Memory.Pages.{IsManager}
use little_os.Memory.Single.{TakenPage, kalloc_page}
use little_os.Tss.Lists.{general-new, general-kept, state_node-Away}
use little_os.Tss.Places.{All, InPage, nodes, nodes-append, length-nodes}
use little_os.Thread.{ThreadPcb, Threads, ready, general_list, ready_list, task_ticks_default}
use little_os.Thread.Create.Stack.{
  change_thread-again, kthread_init-run, kthread_create-run, thread_set_ready-new, framed_words,
  framed, stack_at, created_pcb,
}
use little_os.Thread.Create.{name_addr, thread_start}

-- The state with the thread at `a`.
abbrev pub started : (kthread func prio : ℕ) → ThreadPcb → Threads → Memory → Heap → Threads
started kthread func prio raw k m g =
    let a = (kalloc_pages k.manager 1).1 in
    record k {
      heap = g;
      thread =
          update k.thread a
            (some (record (created_pcb raw a prio) { status = ready; ticks = task_ticks_default }));
      mem = framed kthread func (stack_at a) m;
      manager = (kalloc_pages k.manager 1).0;
    }

module _ (mgr fuel kthread : ℕ) (raw : ThreadPcb) (k : Threads) (name prio func args : ℕ)
    (m : Memory) where
  thread_start-run :
      (gs ts : List Ptr)
      → IsManager k.manager
      → tail (ready_list mgr) < k.manager.kernelstart
      → IsList k.heap (general_list mgr) (nodes 48 gs)
      → IsList k.heap (ready_list mgr) (nodes 40 ts)
      → All (InPage k.manager) gs
      → All (InPage k.manager) ts
      → (kalloc_pages k.manager 1).1 ≢ null
      → length gs + 1 < 2 ^ 31
      → length ts + 1 < 2 ^ 31
      → kstrcpy fuel k.mem (name_addr (kalloc_pages k.manager 1).1) name ≡ some m
      → (g : Heap) × (thread_start mgr fuel kthread raw name prio func args k
          ≡ ok (kalloc_pages k.manager 1).1 (started kthread func prio raw k m g))
        × IsList g (general_list mgr) (nodes 48 (gs ++ ((kalloc_pages k.manager 1).1 ∷ [])))
        × IsList g (ready_list mgr) (nodes 40 (ts ++ ((kalloc_pages k.manager 1).1 ∷ [])))
        × ((kalloc_pages k.manager 1).1 + mem_page_size < 2 ^ 32)
  unfolding thread_start
  thread_start-run gs ts is below general queue hg ht granted room_all room copied =
      let a = (kalloc_pages k.manager 1).1 in
      let w = (kalloc_pages k.manager 1).0 in
      let tp : TakenPage k.manager w a = elim (kalloc_page is).1 [
        | inl z ↦ absurd (granted z)
        | inr r ↦ r.1
      ] in
      let (g₁, run₁, all₁, queue₁) =
        general-new 48 40 (omega arith) (omega arith) (omega arith) mgr k.manager w a tp below gs ts
          hg ht k.heap general queue room_all in
      let k₁ : Threads = record k { manager = w; eflags = (irq_enter_protection k.eflags).0 } in
      let k₂ : Threads = record k₁ { mem = m } in
      let k₃ : Threads = record k₂ { mem = framed kthread func (stack_at a) m } in
      let v₃ : ThreadPcb = record (created_pcb raw a prio) { ticks = task_ticks_default } in
      let (g₂, run₂, queue₂, same₂) =
        thread_set_ready-new mgr (record k₃ { heap = g₁ }) a v₃ (nodes 40 ts) queue₁ (omega arith)
          (state_node-Away 48 40 (omega arith) (omega arith) (omega arith) mgr k.manager w a tp
            below gs ts hg ht)
          (omega (arith, length-nodes 40 ts)) in
      (
        g₂,
        rw (
          ==_of_ne a null granted,
          kthread_init-run fuel k₁ a name prio raw m copied,
          kthread_create-run kthread k₂ a func prio raw,
          change_thread-again (λ v. record v { ticks = task_ticks_default }) k₃ a
              (created_pcb raw a prio),
          run₁,
          run₂,
          (protection k.eflags).2,
        ),
        general-kept 48 40 (omega arith) (omega arith) (omega arith) mgr k.manager w a tp below gs
            ts hg ht g₁ g₂ all₁ same₂,
        rw (nodes-append 40 ts (a ∷ [])) queue₂,
        omega (arith, tp.address, tp.inside_page, is.fits),
      )

-- When the manager and both lists of threads are well formed, with their nodes in its pages and
-- their ends below, the name is a string of n characters, less than the fuel, apart from the new
-- page's name field, the manager has a page, and both lists have room, thread_start returns the
-- thread in that page: it stands last in both well-formed lists, as ready, with a slice of five
-- ticks, and its stack, 3680 bytes into the page, starts kthread with func, both 32-bit
-- addresses, and with 0 in place of its arguments args. The other threads and the flags stay.
pub thread_start-ok :
    (mgr fuel kthread : ℕ) (raw : ThreadPcb) (k : Threads) (name prio func args n : ℕ)
    (gs ts : List Ptr)
    → IsManager k.manager
    → tail (ready_list mgr) < k.manager.kernelstart
    → IsList k.heap (general_list mgr) (nodes 48 gs)
    → IsList k.heap (ready_list mgr) (nodes 40 ts)
    → All (InPage k.manager) gs
    → All (InPage k.manager) ts
    → (kalloc_pages k.manager 1).1 ≢ null
    → length gs + 1 < 2 ^ 31
    → length ts + 1 < 2 ^ 31
    → IsString k.mem name n
    → n < fuel
    → (name_addr (kalloc_pages k.manager 1).1 + n ≤ name)
      ⊎ (name + n ≤ name_addr (kalloc_pages k.manager 1).1)
    → kthread < 2 ^ 32
    → func < 2 ^ 32
    → (m : Memory) × (g : Heap) × (thread_start mgr fuel kthread raw name prio func args k
        ≡ ok (kalloc_pages k.manager 1).1 (started kthread func prio raw k m g))
      × IsList g (general_list mgr) (nodes 48 (gs ++ ((kalloc_pages k.manager 1).1 ∷ [])))
      × IsList g (ready_list mgr) (nodes 40 (ts ++ ((kalloc_pages k.manager 1).1 ∷ [])))
      × (stack_at (kalloc_pages k.manager 1).1 ≡ (kalloc_pages k.manager 1).1 + 3680)
      × (read32 (started kthread func prio raw k m g).mem ((kalloc_pages k.manager 1).1 + 3680 + 16)
          ≡ kthread)
      × (read32 (started kthread func prio raw k m g).mem ((kalloc_pages k.manager 1).1 + 3680 + 24)
          ≡ func)
      × (read32 (started kthread func prio raw k m g).mem ((kalloc_pages k.manager 1).1 + 3680 + 28)
          ≡ 0)
thread_start-ok mgr fuel kthread raw k name prio func args n gs ts is below general queue hg ht
      granted room_all room text enough apart hk hf =
    let a = (kalloc_pages k.manager 1).1 in
    let (m, copied, bytes) = kstrcpy-get fuel k.mem (name_addr a) name n text enough apart in
    let (g, run, all, ready_queue, high) =
      thread_start-run mgr fuel kthread raw k name prio func args m gs ts is below general queue hg
        ht granted room_all room copied in
    let words = framed_words kthread func a m hk hf high in
    let o16 : a + 3680 + 16 ≡ a + 3696 = omega arith in
    let o24 : a + 3680 + 24 ≡ a + 3704 = omega arith in
    let o28 : a + 3680 + 28 ≡ a + 3708 = omega arith in
    (
      m,
      g,
      run,
      all,
      ready_queue,
      omega (arith, high),
      rw o16 words.0,
      rw o24 words.1,
      rw o28 words.2,
    )
