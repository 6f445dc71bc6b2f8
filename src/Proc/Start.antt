-- ===== src/Proc/Start.antt =====
-- `proc_start` and `proc_init`: a new process.
use little_os.Base.{ℕ, ◌-◌, ◌≡◌, some, update}
use little_os.Base.Word.{add32}
use little_os.Cmd.{ok}
use little_os.Klist.{Ptr, null}
use little_os.Memory.{AddrAlloc, mem_page_size, ualloc_pages}
use little_os.Gdt.{user_selector_cs, user_selector_ds}
use little_os.Thread.{ready, task_ticks_default}
use little_os.Tss.{user_proc, eflags_start}
use little_os.Proc.{ProcPcb, Procs, Context, pcb_size, task_default_prio, task_stack_magic}
use little_os.Proc.Switch.{start_context, proc_start}
use little_os.Proc.Store.{
  get_proc-again, change_proc-again, change_context-new, change_context-again,
}

module _ (k : Procs) (a : Ptr) (v : ProcPcb) where
  abbrev pub user_page : AddrAlloc × ℕ
  user_page = ualloc_pages k.manager 1

  abbrev pub user_context : Context
  user_context =
      start_context user_selector_ds user_selector_cs (record (k.contexts (add32 a pcb_size)) {
        eip = v.filename;
        eflags = eflags_start;
        esp = add32 user_page.1 mem_page_size;
        gs = 0;
      })

  abbrev pub user_pcb : ProcPcb
  user_pcb = record v {
    kstack = add32 a (mem_page_size - 1);
    context = add32 a pcb_size;
    priority = task_default_prio;
    stack_magic = task_stack_magic;
    status = ready;
    thread_table = null;
    ticks = task_ticks_default;
  }

  -- proc_start of a user process that was written before.
  pub proc_start-user :
      proc_start a user_proc (record k { proc = update k.proc a (some v) })
      ≡ ok tt (record k {
        proc = update k.proc a (some user_pcb);
        contexts = update k.contexts (add32 a pcb_size) user_context;
        manager = user_page.0;
      })
  unfolding proc_start
  proc_start-user =
      let v₁ : ProcPcb = record v { kstack = add32 a (mem_page_size - 1) } in
      let k₁ : Procs = record k { manager = user_page.0 } in
      let c₁ : Context = record (k.contexts (add32 a pcb_size)) {
        eip = v.filename;
        eflags = eflags_start;
      } in
      rw (
        get_proc-again k a v,
        change_proc-again (λ w. record w { kstack = add32 a (mem_page_size - 1) }) k a v,
        change_proc-again
            (λ w. record w {
              context = add32 a pcb_size;
              priority = task_default_prio;
              stack_magic = task_stack_magic;
              status = ready;
              thread_table = null;
              ticks = task_ticks_default;
            })
            k a v₁,
        change_context-new (λ c. record c { eip = v.filename; eflags = eflags_start }) k a user_pcb,
        change_context-again (λ c. record c { esp = add32 user_page.1 mem_page_size }) k₁ a user_pcb
            c₁,
        change_context-again
            (λ c. start_context user_selector_ds user_selector_cs (record c { gs = 0 })) k₁ a
            user_pcb (record c₁ { esp = add32 user_page.1 mem_page_size }),
      )
