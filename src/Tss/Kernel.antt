-- ===== src/Tss/Kernel.antt =====
-- `init_tss` of a kernel task, and the three lists before the first task.
use little_os.Base.{ℕ, ◌≡◌, arith, some, [], update, ◌≢◌, inl, inr}
use little_os.Base.Word.{u16}
use little_os.Cmd.{ok}
use little_os.Klist.{null, Ptr, Heap, klist_init}
use little_os.Klist.Chain.{IsList}
use little_os.Klist.Frame.{IsList-Untouched}
use little_os.Klist.Insert.{klist_init-IsList}
use little_os.Memory.{AddrAlloc, kalloc_pages}
use little_os.Gdt.{gdt_alloc_seg, gdt_segment_set, kernel_selector_cs, kernel_selector_ds}
use little_os.Tss.{
  TssRecord, TssTask, System, general_list, ready_list, sleep_list, init_tss, kernel_proc, zero_tss,
  with_selectors, tss_size, tss_addr, seg_tss, eflags_start,
}
use little_os.Memory.Pages.{IsManager}
use little_os.Memory.Single.{TakenPage, kalloc_page}
use little_os.Tss.Init.{selector, IsOwn, gdt_alloc_seg-IsOwn}
use little_os.Tss.Store.{change_task-again}

module _ (kernel_table : Ptr) (k : System) (t entry : ℕ) where
  abbrev pub first_stack : AddrAlloc × ℕ
  first_stack = kalloc_pages k.manager 1

  abbrev pub second_stack : AddrAlloc × ℕ
  second_stack = kalloc_pages first_stack.0 1

  -- Its segments are those of the kernel, index 1 and 2.
  abbrev pub kernel_tss : TssRecord
  kernel_tss = record {
    esp0 = first_stack.1;
    ss0 = 16;
    cr3 = kernel_table;
    eip = entry;
    eflags = 0x202;
    eax = 0;
    ecx = 0;
    edx = 0;
    ebx = 0;
    esp = second_stack.1;
    ebp = 0;
    esi = 0;
    edi = 0;
    es = 16;
    cs = 8;
    ss = 16;
    ds = 16;
    fs = 16;
    gs = 16;
  }

  -- What a kernel task needs beside its page: a free descriptor and two stacks.
  pub record HasKernelMeans : Type 0 where
    pub sel : ℕ
    pub free : gdt_alloc_seg k.gdt ≡ some sel
    pub first : first_stack.1 ≢ null
    pub second : second_stack.1 ≢ null

  -- The descriptor was free, and so was each page.
  pub record OwnKernelMeans : Type 0 where
    pub descriptor : IsOwn k.gdt (selector kernel_table k t entry)
    pub first : TakenPage k.manager first_stack.0 first_stack.1
    pub second : TakenPage first_stack.0 second_stack.0 second_stack.1

  pub HasKernelMeans-OwnKernelMeans : IsManager k.manager → HasKernelMeans → OwnKernelMeans
  HasKernelMeans-OwnKernelMeans is h =
      let one = kalloc_page is in
      record {
        descriptor = rw (selector, h.free) (gdt_alloc_seg-IsOwn k.gdt h.sel h.free);
        first = elim one.1 [ inl z ↦ absurd (h.first z) | inr r ↦ r.1 ];
        second = elim (kalloc_page one.0.manager).1 [ inl z ↦ absurd (h.second z) | inr r ↦ r.1 ];
      }

  abbrev pub with_kernel_tss : TssTask → System
  with_kernel_tss v = record k {
    task =
        update k.task t
          (some (record v { tss = kernel_tss; tss_sel = selector kernel_table k t entry }));
    gdt =
        gdt_segment_set k.gdt (u16 (selector kernel_table k t entry)) tss_size (tss_addr t) seg_tss;
    manager = second_stack.0;
  }

  -- init_tss of a kernel task that was written before.
  pub init_tss-kernel :
      (v : TssTask)
      → init_tss kernel_table t entry kernel_proc (record k { task = update k.task t (some v) })
        ≡ ok 0 (with_kernel_tss v)
  unfolding init_tss
  init_tss-kernel v =
      let sel = selector kernel_table k t entry in
      let k₁ : System = record k {
        gdt = gdt_segment_set k.gdt (u16 sel) tss_size (tss_addr t) seg_tss;
      } in
      let k₂ : System = record k₁ { manager = first_stack.0 } in
      let k₃ : System = record k₁ { manager = second_stack.0 } in
      let s₁ : TssRecord = record zero_tss {
        eip = entry;
        esp0 = first_stack.1;
        ss0 = kernel_selector_ds;
      } in
      let s₂ : TssRecord =
        with_selectors kernel_selector_ds kernel_selector_cs
          (record s₁ { esp = second_stack.1; cr3 = kernel_table }) in
      rw (
        change_task-again (λ v. record v { tss = zero_tss }) k₁ t v,
        change_task-again
            (λ v. record v {
              tss = record v.tss { eip = entry; esp0 = first_stack.1; ss0 = kernel_selector_ds };
            })
            k₂ t (record v { tss = zero_tss }),
        change_task-again
            (λ v. record v {
              tss =
                  with_selectors kernel_selector_ds kernel_selector_cs
                    (record v.tss { esp = second_stack.1; cr3 = kernel_table });
            })
            k₃ t (record v { tss = s₁ }),
        change_task-again (λ v. record v { tss = record v.tss { eflags = eflags_start } }) k₃ t
            (record v { tss = s₂ }),
        change_task-again (λ v. record v { tss_sel = sel }) k₃ t
            (record v { tss = record s₂ { eflags = eflags_start } }),
      )

-- Three empty lists.
pub empty_lists :
    (mgr : Ptr) (h : Heap)
    → (g₁ g₂ g₃ : Heap) × (klist_init (ready_list mgr) h ≡ ok tt g₁)
      × (klist_init (sleep_list mgr) g₁ ≡ ok tt g₂)
      × (klist_init (general_list mgr) g₂ ≡ ok tt g₃)
      × IsList g₃ (ready_list mgr) []
      × IsList g₃ (general_list mgr) []
empty_lists mgr h =
    let (g₁, run₁, is₁, same₁) = klist_init-IsList (ready_list mgr) h (omega arith) in
    let (g₂, run₂, is₂, same₂) = klist_init-IsList (sleep_list mgr) g₁ (omega arith) in
    let (g₃, run₃, is₃, same₃) = klist_init-IsList (general_list mgr) g₂ (omega arith) in
    (
      g₁,
      g₂,
      g₃,
      run₁,
      run₂,
      run₃,
      IsList-Untouched same₃ (ready_list mgr) [] (omega arith) (omega arith)
          (IsList-Untouched same₂ (ready_list mgr) [] (omega arith) (omega arith) is₁),
      is₃,
    )
