-- ===== src/Syscall/Space.antt =====
-- The address space of a child of `sys_fork`.
use little_os.Base.{
  ℕ, ◌+◌, ◌<◌, ◌^◌, ◌≡◌, ◌≢◌, ◌∙◌, ap, sym, some, none, List, length, ltb, if◌then◌else◌,
}
use little_os.Cmd.{ok, same_run}
use little_os.Klist.{Ptr, null}
use little_os.Memory.Single.{Grown, Grown-trans, kalloc_page, ualloc_page-Grown}
use little_os.PageTable.{Paging}
use little_os.PageTable.Create.{create_page_table-translate}
use little_os.PageTable.Entry.{IsTables, translate}
use little_os.PageTable.Table.{Grown-IsTables}
use little_os.Irq.{IrqStatus}
use little_os.Tss.{TssTask, System}
use little_os.Tss.Init.{user_stack, tables}
use little_os.Tss.Robin.{Turn, IsRobin}
use little_os.Tss.Child.{new_page, paid}
use little_os.Tss.Waiting.{update_self}
use little_os.Syscall.{SyscallFrame, Calls, sys_fork}
use little_os.Syscall.Fork.{fork_child, forked, sys_fork-any}

module _ (kernel_table : Ptr) (k : System) (entry : ℕ) where
  -- The memory from which a new task's directory is made.
  abbrev pub before : Paging
  before = record { mem = k.mem; manager = (user_stack kernel_table (paid k) (new_page k) entry).0 }

  before-Grown :
      IsTables (record { mem = k.mem; manager = k.manager }) kernel_table
      → Grown k.manager before.manager
  before-Grown is =
      let task = (kalloc_page is.manager).0 in
      let kernel = (kalloc_page task.manager).0 in
      Grown-trans task (Grown-trans kernel (ualloc_page-Grown kernel.manager))

  directory-translate :
      (v : ℕ)
      → IsTables (record { mem = k.mem; manager = k.manager }) kernel_table
      → (tables kernel_table (paid k) (new_page k) entry).1 ≢ null
      → v < 2 ^ 32
      → translate
          (tables kernel_table (paid k) (new_page k) entry).0.mem
          (tables kernel_table (paid k) (new_page k) entry).1
          v
        ≡ (if ltb v (2 ^ 22) then translate k.mem kernel_table v else none)
  directory-translate v is real small =
      (create_page_table-translate before kernel_table (Grown-IsTables (before-Grown is) is) real).1
        v small

module _ (mgr kernel_table : Ptr) (raw : TssTask) (k : System) (frame : SyscallFrame)
    (status : IrqStatus) where
  -- When the ready queue and the kernel's tables are well formed and the manager has a page for
  -- the new task, whatever state d sys_fork returns in, with the new task stored as w and a
  -- page for its directory: the processor translates the addresses below 4 MB by that directory
  -- as the kernel's tables do, and no address from 4 MB on, whatever the parent had mapped.
  pub sys_fork-translate :
      (gs : List Ptr) (q : List Turn) (v w : TssTask) (d : Calls) (pid addr : ℕ)
      → IsRobin mgr k gs q
      → IsTables (record { mem = k.mem; manager = k.manager }) kernel_table
      → k.task k.cur_task ≡ some v
      → new_page k ≢ null
      → length gs + 1 < 2 ^ 31
      → length q + 1 < 2 ^ 31
      → sys_fork mgr kernel_table raw frame (record { system = k; irq_state = status }) ≡ ok pid d
      → d.system.task (new_page k) ≡ some w
      → w.tss.cr3 ≢ null
      → addr < 2 ^ 32
      → translate d.system.mem w.tss.cr3 addr
        ≡ (if ltb addr (2 ^ 22) then translate k.mem kernel_table addr else none)
  sys_fork-translate gs q v w d pid addr is paged at granted room_all room run stored real small =
      let (g, run', is') =
        sys_fork-any mgr kernel_table raw k frame status gs q v is at granted room_all room in
      let e : d.system ≡ forked mgr kernel_table raw k frame g v =
        ap (λ (c : Calls). c.system) (same_run run run') in
      let c = fork_child mgr kernel_table raw k frame v in
      let child : some c ≡ some w =
        sym (update_self k.task (new_page k) (some c))
        ∙ ap (λ (s : System). s.task (new_page k)) (sym e)
        ∙ stored in
      let same : w ≡ c = cc child in
      let dir : w.tss.cr3 ≡ (tables kernel_table (paid k) (new_page k) frame.eip).1 =
        ap (λ (x : TssTask). x.tss.cr3) same in
      rw (dir, ap (λ (s : System). s.mem) e)
        (directory-translate kernel_table k frame.eip addr paged (rw dir at real) small)
