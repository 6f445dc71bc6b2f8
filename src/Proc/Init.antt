-- ===== src/Proc/Init.antt =====
-- `proc_init`: a new process in its page, with its name, and last in the ready queue.
use little_os.Base.{ℕ, ◌+◌, ◌-◌, ◌≡◌, ◌&&◌, leb, ltb, if◌then◌else◌, some, update}
use little_os.Base.Word.{add32}
use little_os.Klist.{Ptr, null, Heap}
use little_os.Mem.{Memory}
use little_os.Memory.{AddrAlloc, kalloc_pages, ualloc_pages}
use little_os.Memory.Single.{TakenPage}
use little_os.PageTable.{Paging, create_page_table}
use little_os.Thread.{ready, task_ticks_default}
use little_os.Tss.{user_proc}
use little_os.Proc.{ProcPcb, Procs, unsaved_context, pcb_size}
use little_os.Proc.Start.{user_context, user_pcb, user_page}

-- `m'` is `m` with the `n` bytes from `src` on at `dest`.
abbrev pub Named : (m m' : Memory) (dest src n : ℕ) → Type 0
Named m m' dest src n =
    (p : ℕ) → m' p ≡ (if leb dest p && ltb p (dest + n) then m (src + (p - dest)) else m p)

module _ (mgr : Ptr) (fuel : ℕ) (kernel_table : Ptr) (raw : ProcPcb) (k : Procs) (filename : Ptr)
    (m : Memory) where
  abbrev pub page : AddrAlloc × ℕ
  page = kalloc_pages k.manager 1

  -- The directory of the new process, made after its name was copied, which left `m`.
  abbrev pub tables : Paging × ℕ
  tables = create_page_table (record { mem = m; manager = page.0 }) kernel_table

  -- The process before `proc_start`.
  abbrev pub named : ProcPcb
  named = record raw {
    filename = filename;
    pgdir = tables.1;
    ticks = task_ticks_default;
    pid = add32 k.global_pid 1;
    parent = null;
    ifkernel = user_proc;
    ifsaved_context = unsaved_context;
    status = ready;
  }

  -- The page of its stack.
  abbrev pub stack_page : AddrAlloc × ℕ
  stack_page = ualloc_pages tables.0.manager 1

  abbrev pub made : Heap → Procs
  made g =
      let j : Procs = record k {
        heap = g;
        mem = tables.0.mem;
        manager = tables.0.manager;
        global_pid = add32 k.global_pid 1;
      } in
      record j {
        proc = update k.proc page.1 (some (user_pcb j page.1 named));
        contexts = update k.contexts (add32 page.1 pcb_size) (user_context j page.1 named);
        manager = (user_page j page.1 named).0;
      }

  -- The directory and the stack of the new process are pages that were free.
  pub record OwnPages : Type 0 where
    pub directory : TakenPage page.0 tables.0.manager tables.1
    pub stack : TakenPage tables.0.manager stack_page.0 stack_page.1
