-- ===== src/Tss/Init.antt =====
-- `init_tss` of a user task.
use mathlib.Core.Path.{subst}
use little_os.Base.{
  ◌*◌, ◌<◌, arith, ◌≢◌, inl, inr, ℕ, ◌-◌, ◌^◌, ◌≡◌, ◌∙◌, ap, ==_refl, some, none, update,
}
use little_os.Base.Word.{u16}
use little_os.Cmd.{ok}
use little_os.Klist.{Ptr, null}
use little_os.Memory.Pages.{IsManager}
use little_os.Memory.Single.{TakenPage, kalloc_page, ualloc_page}
use little_os.Gdt.Alloc.{FirstFree, gdt_alloc_seg-FirstFree}
use little_os.Memory.{AddrAlloc, kalloc_pages, ualloc_pages}
use little_os.Gdt.{
  GdtTable, gdt_alloc_seg, gdt_segment_set, kernel_selector_ds, user_selector_cs, user_selector_ds,
}
use little_os.PageTable.{Paging, create_page_table}
use little_os.Tss.{
  TssRecord, TssTask, System, init_tss, user_proc, zero_tss, with_selectors, tss_size, tss_addr,
  seg_tss, eflags_start,
}
use little_os.Tss.Store.{update_again, change_task-ok, change_task-again}

-- A selector of a descriptor that is in the table, behind the null descriptor, and is free.
pub record IsOwn (t : GdtTable) (s : ℕ) : Type 0 where
  pub index : ℕ
  pub at : s ≡ index * 8
  pub behind : 0 < index
  pub inside : index < 256
  pub free : (t index).attributes ≡ 0

pub gdt_alloc_seg-IsOwn : (t : GdtTable) (s : ℕ) → gdt_alloc_seg t ≡ some s → IsOwn t s
gdt_alloc_seg-IsOwn t s e =
    let (i, at, lo, hi, free, others) = subst (FirstFree t 1) e (gdt_alloc_seg-FirstFree t) in
    record { index = i; at = at; behind = omega arith; inside = omega arith; free = free }

module _ (kernel_table : Ptr) (k : System) (t entry : ℕ) where
  abbrev pub selector : ℕ
  selector = elim (gdt_alloc_seg k.gdt) [ none ↦ 2 ^ 32 - 1 | some s ↦ s ]

  abbrev pub kernel_stack : AddrAlloc × ℕ
  kernel_stack = kalloc_pages k.manager 1

  abbrev pub user_stack : AddrAlloc × ℕ
  user_stack = ualloc_pages kernel_stack.0 1

  abbrev pub tables : Paging × ℕ
  tables = create_page_table (record { mem = k.mem; manager = user_stack.0 }) kernel_table

  -- Its segments are those of user programs, index 4 and 5 with privilege 3; the stack of the
  -- kernel is in segment 2; and interrupts are on.
  abbrev pub user_tss : TssRecord
  user_tss = record {
    esp0 = kernel_stack.1;
    ss0 = 16;
    cr3 = tables.1;
    eip = entry;
    eflags = 0x202;
    eax = 0;
    ecx = 0;
    edx = 0;
    ebx = 0;
    esp = user_stack.1;
    ebp = 0;
    esi = 0;
    edi = 0;
    es = 0x2B;
    cs = 0x23;
    ss = 0x2B;
    ds = 0x2B;
    fs = 0x2B;
    gs = 0x2B;
  }

  -- What a user task needs beside its page: a free descriptor, two stacks and a directory.
  pub record HasMeans : Type 0 where
    pub sel : ℕ
    pub free : gdt_alloc_seg k.gdt ≡ some sel
    pub kernel : kernel_stack.1 ≢ null
    pub user : user_stack.1 ≢ null
    pub directory : tables.1 ≢ null

  -- The descriptor was free and lies in the table, and each page was free when it was taken,
  -- behind the pages that were taken before it.
  pub record OwnMeans : Type 0 where
    pub descriptor : IsOwn k.gdt selector
    pub kernel : TakenPage k.manager kernel_stack.0 kernel_stack.1
    pub user : TakenPage kernel_stack.0 user_stack.0 user_stack.1
    pub directory : TakenPage user_stack.0 tables.0.manager tables.1

  abbrev pub with_tss : TssTask → System
  with_tss v = record k {
    task = update k.task t (some (record v { tss = user_tss; tss_sel = selector }));
    gdt = gdt_segment_set k.gdt (u16 selector) tss_size (tss_addr t) seg_tss;
    mem = tables.0.mem;
    manager = tables.0.manager;
  }

  pub HasMeans-OwnMeans : IsManager k.manager → HasMeans → OwnMeans
  unfolding create_page_table
  HasMeans-OwnMeans is h =
      let one = kalloc_page is in
      let two = ualloc_page one.0.manager h.user in
      record {
        descriptor = rw (selector, h.free) (gdt_alloc_seg-IsOwn k.gdt h.sel h.free);
        kernel = elim one.1 [ inl z ↦ absurd (h.kernel z) | inr r ↦ r.1 ];
        user = two;
        directory = ualloc_page two.grown.manager h.directory;
      }

  -- init_tss of a user task writes the descriptor of the segment, takes its two stacks and its
  -- directory from the manager, and changes no other task.
  pub init_tss-user :
      (v : TssTask)
      → k.task t ≡ some v
      → init_tss kernel_table t entry user_proc k ≡ ok 0 (with_tss v)
  unfolding init_tss
  init_tss-user v e =
      let k₁ : System = record k {
        gdt = gdt_segment_set k.gdt (u16 selector) tss_size (tss_addr t) seg_tss;
      } in
      let k₂ : System = record k₁ { manager = kernel_stack.0 } in
      let k₃ : System = record k₁ { manager = user_stack.0 } in
      let k₄ : System = record k₁ { manager = tables.0.manager; mem = tables.0.mem } in
      let s₁ : TssRecord = record zero_tss {
        eip = entry;
        esp0 = kernel_stack.1;
        ss0 = kernel_selector_ds;
      } in
      let s₂ : TssRecord =
        with_selectors user_selector_ds user_selector_cs (record s₁ { esp = user_stack.1 }) in
      let s₃ : TssRecord = record s₂ { cr3 = tables.1 } in
      rw (
        change_task-ok {v = v} (λ v. record v { tss = zero_tss }) k₁ e,
        change_task-again
            (λ v. record v {
              tss = record v.tss { eip = entry; esp0 = kernel_stack.1; ss0 = kernel_selector_ds };
            })
            k₂ t (record v { tss = zero_tss }),
        change_task-again
            (λ v. record v {
              tss =
                  with_selectors user_selector_ds user_selector_cs
                    (record v.tss { esp = user_stack.1 });
            })
            k₃ t (record v { tss = s₁ }),
        change_task-again (λ v. record v { tss = record v.tss { cr3 = tables.1 } }) k₄ t
            (record v { tss = s₂ }),
        change_task-again (λ v. record v { tss = record v.tss { eflags = eflags_start } }) k₄ t
            (record v { tss = s₃ }),
        change_task-again (λ v. record v { tss_sel = selector }) k₄ t
            (record v { tss = record s₃ { eflags = eflags_start } }),
      )

module _ (kernel_table : Ptr) (k : System) (t entry : ℕ) where
  pub init_tss-fresh :
      (v : TssTask)
      → init_tss kernel_table t entry user_proc (record k { task = update k.task t (some v) })
        ≡ ok 0 (with_tss kernel_table k t entry v)
  init_tss-fresh v =
      init_tss-user kernel_table (record k { task = update k.task t (some v) }) t entry v
        (rw (==_refl t))
      ∙ ap (λ T. ok 0 (record (with_tss kernel_table k t entry v) { task = T }))
          (update_again k.task t (some v) (
            some (record v {
              tss = user_tss kernel_table k t entry;
              tss_sel = selector kernel_table k t entry;
            })))
