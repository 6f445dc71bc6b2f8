-- ===== src/Thread/Create/Stack.antt =====
-- `kthread_init` and `kthread_create`: the fields of a new thread and the words on its stack.
use little_os.Base.{
  ℕ, ◌+◌, ◌*◌, ◌<◌, ◌≤◌, ◌^◌, ◌≡◌, ◌≢◌, ◌∙◌, ap, fun_ext, inl, inr, arith, some, List, [], ◌∷◌,
  ◌++◌, length, update, ==_refl,
}
use little_os.Base.Word.{add32, sub32}
use little_os.Cmd.{ok}
use little_os.Klib.{kstrcpy}
use little_os.Klist.{Ptr, null, Heap}
use little_os.Klist.Chain.{Away, ring, IsList}
use little_os.Klist.Frame.{Untouched}
use little_os.Klist.Insert.{klist_append-IsList}
use little_os.Klist.Remove.{klist_remove-miss}
use little_os.Mem.{Memory, write32, read32}
use little_os.Mem.Cells.{read32-write32, read32-write32_far}
use little_os.Memory.{mem_page_size}
use little_os.Thread.{
  ThreadPcb, Threads, created, ready, state_node, ready_list, get_thread, thread_set_ready,
}
use little_os.Thread.Ready.{get_thread-ok}
use little_os.Thread.Create.{
  task_stack_magic, name_addr, change_thread, copy_name, kthread_init, kthread_create,
}

pub change_thread-again :
    (f : ThreadPcb → ThreadPcb) (k : Threads) (p : Ptr) (v : ThreadPcb)
    → change_thread p f (record k { thread = update k.thread p (some v) })
      ≡ ok tt (record k { thread = update k.thread p (some (f v)) })
unfolding change_thread
change_thread-again f k p v =
    rw (==_refl p, change_thread)
      (ap (λ T. ok tt (record k { thread = T })) (fun_ext (λ q. ground arith)))

pub get_thread-again :
    (k : Threads) (p : Ptr) (v : ThreadPcb)
    → get_thread p (record k { thread = update k.thread p (some v) })
      ≡ ok v (record k { thread = update k.thread p (some v) })
get_thread-again k p v =
    get_thread-ok {v = v} (record k { thread = update k.thread p (some v) }) (rw (==_refl p))

copy_name-ok :
    (fuel : ℕ) (dest src : Ptr) (k : Threads) (m : Memory)
    → kstrcpy fuel k.mem dest src ≡ some m
    → copy_name fuel dest src k ≡ ok tt (record k { mem = m })
unfolding copy_name
copy_name-ok fuel dest src k m e = rw (e, copy_name)

-- The stack of a new thread at `a`, and the memory with what is put on it.
abbrev pub stack_at : Ptr → ℕ
stack_at a = sub32 (sub32 (add32 a mem_page_size) (4 * 72)) (4 * 32)

abbrev pub framed : (kthread func : ℕ) → Ptr → Memory → Memory
framed kthread func s m =
    let m₁ = write32 m (add32 s 16) kthread in
    let m₂ = write32 m₁ (add32 s 24) func in
    let m₃ = write32 m₂ (add32 s 28) null in
    let m₄ = write32 m₃ (add32 s 8) 0 in
    let m₅ = write32 m₄ (add32 s 12) 0 in let m₆ = write32 m₅ (add32 s 4) 0 in write32 m₆ s 0

-- A new thread behind `kthread_init` and `kthread_create`.
abbrev pub created_pcb : ThreadPcb → Ptr → ℕ → ThreadPcb
created_pcb raw a prio = record raw {
  kstack = stack_at a;
  status = created;
  priority = prio;
  stack_magic = task_stack_magic;
}

pub kthread_init-run :
    (fuel : ℕ) (k : Threads) (a name prio : ℕ) (raw : ThreadPcb) (m : Memory)
    → kstrcpy fuel k.mem (name_addr a) name ≡ some m
    → kthread_init fuel a name prio (record k { thread = update k.thread a (some raw) })
      ≡ ok tt (record k {
        mem = m;
        thread =
            update k.thread a
              (some (record (created_pcb raw a prio) { kstack = add32 a mem_page_size }));
      })
unfolding kthread_init
kthread_init-run fuel k a name prio raw m copied =
    let v₁ : ThreadPcb = record raw { kstack = 0 } in
    rw (
      change_thread-again (λ v. record v { kstack = 0 }) k a raw,
      copy_name-ok fuel (name_addr a) name (record k { thread = update k.thread a (some v₁) }) m
          copied,
      change_thread-again
          (λ v. record v {
            status = created;
            priority = prio;
            kstack = add32 a mem_page_size;
            stack_magic = task_stack_magic;
          })
          (record k { mem = m }) a v₁,
    )

pub kthread_create-run :
    (kthread : Ptr) (k : Threads) (a func prio : ℕ) (raw : ThreadPcb)
    → kthread_create kthread a func null (record k {
      thread =
          update k.thread a
            (some (record (created_pcb raw a prio) { kstack = add32 a mem_page_size }));
    })
      ≡ ok tt (record k {
        mem = framed kthread func (stack_at a) k.mem;
        thread = update k.thread a (some (created_pcb raw a prio));
      })
unfolding kthread_create
kthread_create-run kthread k a func prio raw =
    let v : ThreadPcb = record (created_pcb raw a prio) { kstack = add32 a mem_page_size } in
    let v₁ : ThreadPcb = record v { kstack = sub32 (add32 a mem_page_size) (4 * 72) } in
    rw (
      change_thread-again (λ v. record v { kstack = sub32 v.kstack (4 * 72) }) k a v,
      change_thread-again (λ v. record v { kstack = sub32 v.kstack (4 * 32) }) k a v₁,
      get_thread-again k a (created_pcb raw a prio),
    )

-- thread_set_ready of a thread that was written before and is not in the queue.
pub thread_set_ready-new :
    (mgr : Ptr) (k : Threads) (t : Ptr) (v : ThreadPcb) (xs : List Ptr)
    → IsList k.heap (ready_list mgr) xs
    → state_node t ≢ null
    → Away (state_node t) (ring (ready_list mgr) xs)
    → length xs + 1 < 2 ^ 31
    → (g : Heap) × (thread_set_ready mgr t (record k { thread = update k.thread t (some v) })
        ≡ ok tt (record k {
          heap = g;
          thread = update k.thread t (some (record v { status = ready }));
        }))
      × IsList g (ready_list mgr) (xs ++ (state_node t ∷ []))
      × Untouched k.heap g (ready_list mgr) (state_node t ∷ ring (ready_list mgr) xs)
unfolding thread_set_ready
thread_set_ready-new mgr k t v xs is real out room =
    let miss =
      klist_remove-miss (k.heap.len (ready_list mgr) + 2) (state_node t) xs is out.1
        (omega (arith, is.count)) in
    let (g, run, is', same) = klist_append-IsList is real out room in
    (
      g,
      rw (miss, get_thread-again k t v, run)
          (ap (λ T. ok tt (record k { heap = g; thread = T })) (fun_ext (λ q. ground arith))),
      is',
      same,
    )

pub framed_words :
    (kthread func a : ℕ) (m : Memory)
    → kthread < 2 ^ 32
    → func < 2 ^ 32
    → a + mem_page_size < 2 ^ 32
    → (read32 (framed kthread func (stack_at a) m) (a + 3696) ≡ kthread)
      × (read32 (framed kthread func (stack_at a) m) (a + 3704) ≡ func)
      × (read32 (framed kthread func (stack_at a) m) (a + 3708) ≡ 0)
framed_words kthread func a m hk hf high =
    let s : stack_at a ≡ a + 3680 = omega arith in
    let s4 : add32 (a + 3680) 4 ≡ a + 3684 = omega arith in
    let s8 : add32 (a + 3680) 8 ≡ a + 3688 = omega arith in
    let s12 : add32 (a + 3680) 12 ≡ a + 3692 = omega arith in
    let s16 : add32 (a + 3680) 16 ≡ a + 3696 = omega arith in
    let s24 : add32 (a + 3680) 24 ≡ a + 3704 = omega arith in
    let s28 : add32 (a + 3680) 28 ≡ a + 3708 = omega arith in
    let m₁ = write32 m (a + 3696) kthread in
    let m₂ = write32 m₁ (a + 3704) func in
    let m₃ = write32 m₂ (a + 3708) null in
    let m₄ = write32 m₃ (a + 3688) 0 in
    let m₅ = write32 m₄ (a + 3692) 0 in
    let m₆ = write32 m₅ (a + 3684) 0 in
    let low : (p : ℕ) → a + 3696 ≤ p → read32 (write32 m₆ (a + 3680) 0) p ≡ read32 m₃ p = λ p h.
      read32-write32_far m₆ (a + 3680) 0 p (inl (omega arith))
      ∙ read32-write32_far m₅ (a + 3684) 0 p (inl (omega arith))
      ∙ read32-write32_far m₄ (a + 3692) 0 p (inl (omega arith))
      ∙ read32-write32_far m₃ (a + 3688) 0 p (inl (omega arith)) in
    rw (s, s4, s8, s12, s16, s24, s28)
      (
        low (a + 3696) (omega arith)
            ∙ read32-write32_far m₂ (a + 3708) null (a + 3696) (inr (omega arith))
            ∙ read32-write32_far m₁ (a + 3704) func (a + 3696) (inr (omega arith))
            ∙ read32-write32 m (a + 3696) kthread hk,
        low (a + 3704) (omega arith)
            ∙ read32-write32_far m₂ (a + 3708) null (a + 3704) (inr (omega arith))
            ∙ read32-write32 m₁ (a + 3704) func hf,
        low (a + 3708) (omega arith) ∙ read32-write32 m₂ (a + 3708) null (omega arith),
      )
