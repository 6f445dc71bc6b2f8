-- ===== src/Proc/Switch.antt =====
-- Processes at work: their start, their queues, the switch from one to another, and the ticks.
use little_os.Base.{ℕ, ◌-◌, ◌%◌, ◌^◌, false, ◌||◌, if◌then◌else◌, leb, ◌==◌}
use little_os.Base.Word.{u16, add32, sub32}
use little_os.Cmd.{ok, Cmd, pure, ◌>>=◌, ◌>>◌}
use little_os.Klist.{Ptr, null, klist_init, klist_append, klist_len, klist_get_first_node}
use little_os.Memory.{mem_page_size}
use little_os.Gdt.{
  gdt_segment_set, kernel_selector_cs, kernel_selector_ds, user_selector_cs, user_selector_ds,
}
use little_os.Thread.{ready, running, is_ready, task_ticks_default}
use little_os.Tss.{
  zero_tss, tss_size, seg_tss, with_selectors, kernel_proc, user_proc, eflags_start,
}
use little_os.Proc.{
  Context, ProcPcb, Procs, kernel_selector_tss, task_default_prio, task_stack_magic,
  kernel_stack_size, pcb_size, name_addr, state_node, general_node, general_list, ready_list,
  sleep_list, proc_of, lists, remove, get_proc, change_proc, change_context, place_proc, kalloc,
  ualloc, new_tables, leave_protection, copy_name, alloc_pid, cur_proc, unsaved_context,
}

unfoldable pub update_tss_esp0 : Ptr → Cmd Procs (Unit {0})
unfolding get_proc
update_tss_esp0 proc = do
  v ← get_proc proc
  (λ k. ok tt (record k { tss = record k.tss { esp0 = v.kstack } }))

abbrev pub switch_pgdir : ℕ → Cmd Procs (Unit {0})
switch_pgdir dir k = ok tt (record k { cr3 = dir })

-- `tss` is a global at `tss_at`. `lgdt` loads the address of the table, which does not change.
unfoldable pub tss_desc_set : (tss_at : Ptr) → ℕ → Cmd Procs (Unit {0})
tss_desc_set tss_at tss_sel k = ok tt (record k {
  gdt = gdt_segment_set k.gdt (u16 tss_sel) tss_size tss_at seg_tss;
  tss = record (with_selectors kernel_selector_ds kernel_selector_cs zero_tss) {
    esp = kernel_stack_size;
    esp0 = kernel_stack_size;
    ss0 = kernel_selector_ds;
    eflags = eflags_start;
  };
  tr = tss_sel;
})

abbrev pub tss_init : (tss_at : Ptr) → Cmd Procs (Unit {0})
tss_init tss_at = tss_desc_set tss_at kernel_selector_tss

-- What is pushed and popped ends in `iret`, with all registers from the context but `esp_dummy`.
-- To the kernel's own privilege `iret` takes only `eip`, `cs` and `eflags`: `ss` stays, and `esp`
-- ends two words below where it was in front of the pushes, which is what `cpu` has there.
unfoldable pub proc_switch : Ptr → Cmd Procs (Unit {0})
unfolding get_proc
proc_switch pcb = do
  v ← get_proc pcb
  (λ k.
      let c = k.contexts v.context in
      let same_privilege = c.cs % 4 == 0 in
      ok tt (record k {
        cpu = record c {
          esp_dummy = k.cpu.esp_dummy;
          esp = if same_privilege then sub32 k.cpu.esp 8 else c.esp;
          ss = if same_privilege then k.cpu.ss else c.ss;
        };
        eflags = c.eflags;
      }))

-- The registers that a new process starts with, but `eip`, `eflags`, `esp` and `gs`.
abbrev pub start_context : (data_sel code_sel : ℕ) → Context → Context
start_context data_sel code_sel c = record c {
  eax = 0;
  ebx = 0;
  edx = 0;
  ecx = 0;
  edi = 0;
  esi = 0;
  ebp = 0;
  esp_dummy = 0;
  fs = data_sel;
  es = data_sel;
  ds = data_sel;
  ss = data_sel;
  cs = code_sel;
}

unfoldable pub proc_start : Ptr → ℕ → Cmd Procs (Unit {0})
unfolding get_proc change_proc
proc_start pcb ifkernel = do
  v ← get_proc pcb
  change_proc pcb (λ w. record w {
    kstack = if ifkernel == kernel_proc then kernel_stack_size else add32 pcb (mem_page_size - 1);
  })
  change_proc pcb (λ w. record w {
    context = add32 pcb pcb_size;
    priority = task_default_prio;
    stack_magic = task_stack_magic;
    status = ready;
    thread_table = null;
    ticks = task_ticks_default;
  })
  change_context pcb (λ c. record c { eip = v.filename; eflags = eflags_start })
  (if ifkernel == kernel_proc
      then (do
        page ← kalloc 1
        change_context pcb (λ c. record c { esp = add32 page mem_page_size })
        change_context pcb (λ c.
            start_context kernel_selector_ds kernel_selector_cs
              (record c { gs = kernel_selector_ds })))
      else (do
        page ← ualloc 1
        change_context pcb (λ c. record c { esp = add32 page mem_page_size })
        change_context pcb
            (λ c. start_context user_selector_ds user_selector_cs (record c { gs = 0 }))))

module _ (mgr : Ptr) where
  unfoldable pub proc_set_general : Ptr → Cmd Procs (Unit {0})
  proc_set_general pcb = lists (klist_append (general_list mgr) (general_node pcb))

  unfoldable pub proc_set_ready : Ptr → Cmd Procs (Unit {0})
  unfolding change_proc
  proc_set_ready pcb = do
    remove (ready_list mgr) (state_node pcb)
    change_proc pcb (λ v. record v { status = ready })
    lists (klist_append (ready_list mgr) (state_node pcb))

  unfoldable pub proc_fifo : Cmd Procs Ptr
  proc_fifo = do next_node ← lists (klist_get_first_node (ready_list mgr)); pure (proc_of next_node)

  -- SCHEDULE_SECTIONS is THREAD_FIFO.
  unfoldable pub proc_schedule : Cmd Procs Ptr
  unfolding proc_fifo
  proc_schedule = proc_fifo

  unfoldable pub proc_dispatch : Cmd Procs (Unit {0})
  unfolding cur_proc proc_schedule get_proc change_proc update_tss_esp0 proc_switch
  proc_dispatch = do
    cur ← cur_proc
    next ← proc_schedule
    go ← (if next == cur then pure false else do v ← get_proc next; pure (is_ready v.status))
    (if go
        then (do
          (λ k. ok tt (record k { cur_proc = next }))
          change_proc next (λ v. record v { status = running })
          change_proc cur (λ v. record v { ifsaved_context = unsaved_context })
          w ← get_proc next
          switch_pgdir w.pgdir
          update_tss_esp0 next
          leave_protection
          proc_switch next)
        else (do
          n ← lists (klist_len (ready_list mgr))
          if n == 1 then leave_protection else pure tt))

  -- `--cur->ticks <= 0` compares an `int`.
  unfoldable pub proc_time_ticks : Cmd Procs (Unit {0})
  unfolding cur_proc get_proc change_proc proc_set_ready proc_dispatch
  proc_time_ticks = do
    cur ← cur_proc
    change_proc cur (λ v. record v { ticks = sub32 v.ticks 1 })
    v ← get_proc cur
    (if v.ticks == 0 || leb (2 ^ 31) v.ticks
        then (do
          proc_set_ready cur
          change_proc cur (λ v. record v { ticks = task_ticks_default })
          proc_dispatch)
        else pure tt)

  module _ (fuel : ℕ) (kernel_table : Ptr) (raw : ProcPcb) where
    unfoldable pub proc_init : (filename proc_name : Ptr) → Cmd Procs Ptr
    unfolding copy_name change_proc proc_set_general proc_set_ready proc_start
    proc_init filename proc_name = do
      pcb ← kalloc 1
      place_proc pcb raw
      change_proc pcb (λ v. record v { filename = filename })
      copy_name fuel (name_addr pcb) proc_name
      dir ← new_tables kernel_table
      change_proc pcb (λ v. record v { pgdir = dir; ticks = task_ticks_default })
      pid ← alloc_pid
      change_proc pcb (λ v. record v {
        pid = pid;
        parent = null;
        ifkernel = user_proc;
        ifsaved_context = unsaved_context;
      })
      proc_set_general pcb
      proc_set_ready pcb
      proc_start pcb user_proc
      pure pcb

    -- `main_name` is the address of the text "main_proc".
    unfoldable pub task_init : (tss_at main_name main : Ptr) → Cmd Procs (Unit {0})
    unfolding copy_name change_proc proc_set_general proc_set_ready proc_start tss_desc_set
    task_init tss_at main_name main = do
      lists (klist_init (ready_list mgr))
      lists (klist_init (sleep_list mgr))
      lists (klist_init (general_list mgr))
      pcb ← kalloc 1
      (λ k. ok tt (record k { cur_proc = pcb }))
      place_proc pcb raw
      change_proc pcb (λ v. record v { filename = main })
      copy_name fuel (name_addr pcb) main_name
      change_proc pcb (λ v. record v { pgdir = kernel_table; ticks = task_ticks_default })
      pid ← alloc_pid
      change_proc pcb (λ v. record v {
        pid = pid;
        parent = null;
        ifkernel = kernel_proc;
        ifsaved_context = unsaved_context;
      })
      proc_set_general pcb
      proc_set_ready pcb
      proc_start pcb kernel_proc
      tss_init tss_at
