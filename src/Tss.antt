-- ===== src/Tss.antt =====
-- source/kernel/tss_old/tss_old.c and tss_old.h, with `alloc_pid` of
-- source/kernel/task_old/task_old.c: tasks that the processor switches by their task state
-- segments. `task_manager` lies at the address `mgr`: `cur_task`, then the lists of 20 bytes each.
-- A `task_t` lies in a page of its own and is known by its address; its list nodes lie in the heap
-- of lists, 120 and 128 bytes into it. `raw` is what a new page holds, read as a task. `int`
-- fields are bit patterns of 32 bits. `ASSERT` is empty, as in a build without KERNEL_DEBUG, and
-- access through `NULL` is a fault.
pub mod Store
pub mod Places
pub mod Robin
pub mod Ready
pub mod Waiting
pub mod Ticks
pub mod Refines
pub mod Fair
pub mod Init
pub mod Lists
pub mod Child
pub mod Spawn
pub mod Writes
pub mod Kernel
pub mod Boot
use little_os.Base.{
  ℕ, ◌+◌, ◌-◌, ◌^◌, Bool, true, false, ◌||◌, Option, none, some, if◌then◌else◌, leb, ◌==◌, update,
}
use little_os.Base.Word.{u16, add32, sub32}
use little_os.Cmd.{Run, ok, fault, Cmd, pure, ◌>>=◌, ◌>>◌, within}
use little_os.Klist.{
  Ptr, null, Heap, klist_init, klist_append, klist_remove, klist_len, klist_get_first_node,
}
use little_os.Irq.{IrqStatus, irq_enter_protection, irq_leave_protection}
use little_os.Mem.{Memory}
use little_os.Memory.{AddrAlloc, kalloc_pages, ualloc_pages}
use little_os.Gdt.{
  GdtTable, gdt_alloc_seg, gdt_segment_set, kernel_selector_cs, kernel_selector_ds,
  user_selector_cs, user_selector_ds,
}
use little_os.PageTable.{Paging, create_page_table}
use little_os.Thread.{TaskStatus, ready, running, blocked, is_ready}

-- `tss_t`, less the fields that stay 0.
pub record TssRecord : Type 0 where
  pub esp0 : ℕ
  pub ss0 : ℕ
  pub cr3 : ℕ
  pub eip : ℕ
  pub eflags : ℕ
  pub eax : ℕ
  pub ecx : ℕ
  pub edx : ℕ
  pub ebx : ℕ
  pub esp : ℕ
  pub ebp : ℕ
  pub esi : ℕ
  pub edi : ℕ
  pub es : ℕ
  pub cs : ℕ
  pub ss : ℕ
  pub ds : ℕ
  pub fs : ℕ
  pub gs : ℕ

abbrev pub zero_tss : TssRecord
zero_tss = record {
  esp0 = 0;
  ss0 = 0;
  cr3 = 0;
  eip = 0;
  eflags = 0;
  eax = 0;
  ecx = 0;
  edx = 0;
  ebx = 0;
  esp = 0;
  ebp = 0;
  esi = 0;
  edi = 0;
  es = 0;
  cs = 0;
  ss = 0;
  ds = 0;
  fs = 0;
  gs = 0;
}

pub record TssTask : Type 0 where
  pub status : TaskStatus
  pub tss : TssRecord
  pub tss_sel : ℕ
  pub ifkernel : ℕ
  pub parent : Ptr
  pub pid : ℕ
  pub ticks : ℕ
  pub default_ticks : ℕ

-- What the functions change: the tasks and their lists, the memory with its manager, the
-- descriptors, the last process number, the flags, and the task register.
pub record System : Type 0 where
  pub heap : Heap
  pub task : Ptr → Option TssTask
  pub cur_task : Ptr
  pub mem : Memory
  pub manager : AddrAlloc
  pub gdt : GdtTable
  pub global_pid : ℕ
  pub eflags : ℕ
  pub tr : ℕ

-- KERNEL_PROC, USER_PROC and TASK_TICKS_DEFAULT.
abbrev pub kernel_proc : ℕ
kernel_proc = 0

abbrev pub user_proc : ℕ
user_proc = 1

abbrev pub task_ticks_default : ℕ
task_ticks_default = 5

-- `sizeof(tss_t)`, and where it lies in a task.
abbrev pub tss_size : ℕ
tss_size = 104

abbrev pub tss_addr : Ptr → Ptr
tss_addr task = task + 4

abbrev pub state_node : Ptr → Ptr
state_node task = task + 120

abbrev pub general_node : Ptr → Ptr
general_node task = task + 128

-- `KLIST_STRUCT_ADDR(node, task_t, state_node)`.
abbrev pub task_of : Ptr → Ptr
task_of node = if node == null then null else sub32 node 120

abbrev pub lists : {A : Type 0} → Cmd Heap A → Cmd System A
lists m k = within (λ h. record k { heap = h }) (m k.heap)

-- A walk gets two rounds more than the list's length.
abbrev pub remove : Ptr → Ptr → Cmd System Ptr
remove list node k = lists (klist_remove (k.heap.len list + 2) list node) k

unfoldable pub get_task : Ptr → Cmd System TssTask
get_task p k = elim (k.task p) [ none ↦ fault | some v ↦ ok v k ]

-- A write to fields of a task.
unfoldable pub change_task : Ptr → (TssTask → TssTask) → Cmd System (Unit {0})
change_task p f k = elim (k.task p) [
  | none ↦ fault
  | some v ↦ ok tt (record k { task = update k.task p (some (f v)) })
]

abbrev pub change_tss : Ptr → (TssRecord → TssRecord) → Cmd System (Unit {0})
change_tss p f = change_task p (λ v. record v { tss = f v.tss })

abbrev pub enter_protection : Cmd System IrqStatus
enter_protection k =
    let (eflags, status) = irq_enter_protection k.eflags in ok status (record k { eflags = eflags })

abbrev pub leave_protection : IrqStatus → Cmd System (Unit {0})
leave_protection status k = ok tt (record k { eflags = irq_leave_protection k.eflags status })

abbrev pub kalloc : ℕ → Cmd System ℕ
kalloc n k =
    let (manager, addr) = kalloc_pages k.manager n in ok addr (record k { manager = manager })

abbrev pub ualloc : ℕ → Cmd System ℕ
ualloc n k =
    let (manager, addr) = ualloc_pages k.manager n in ok addr (record k { manager = manager })

-- `create_page_table`, of which `kernel_table` is a global.
abbrev pub new_tables : (kernel_table : Ptr) → Cmd System ℕ
new_tables kernel_table k =
    let (s, dir) = create_page_table (record { mem = k.mem; manager = k.manager }) kernel_table in
    ok dir (record k { mem = s.mem; manager = s.manager })

-- `++global_pid`.
unfoldable pub alloc_pid : Cmd System ℕ
alloc_pid k = ok (add32 k.global_pid 1) (record k { global_pid = add32 k.global_pid 1 })

-- The selector is an `int`, -1 when no descriptor is free. `init_tss` then writes entry
-- 8191, behind the table, where ASSERT(tss_sel > 0) would stop it; theorems on a new task ask for a
-- free descriptor.
abbrev pub alloc_selector : Cmd System ℕ
alloc_selector k = ok (elim (gdt_alloc_seg k.gdt) [ none ↦ 2 ^ 32 - 1 | some s ↦ s ]) k

-- SEG_S_SYSTEM | SEG_TYPE_TSS | SEG_DPL0 | SEG_P_PRESENT.
abbrev pub seg_tss : ℕ
seg_tss = 9 + 2 ^ 7

-- ELFAGS_MBS | EFLAGS_IF.
abbrev pub eflags_start : ℕ
eflags_start = 2 ^ 1 + 2 ^ 9

-- The segments of both kinds of tasks.
abbrev pub with_selectors : (data_sel code_sel : ℕ) → TssRecord → TssRecord
with_selectors data_sel code_sel s = record s {
  ss = data_sel;
  es = data_sel;
  ds = data_sel;
  fs = data_sel;
  gs = data_sel;
  cs = code_sel;
}

unfoldable pub init_tss : (kernel_table : Ptr) → Ptr → ℕ → ℕ → Cmd System ℕ
unfolding change_task
init_tss kernel_table task entry ifkernel = do
  tss_sel ← alloc_selector
  (λ k.
      ok tt
        (record k { gdt = gdt_segment_set k.gdt (u16 tss_sel) tss_size (tss_addr task) seg_tss }))
  change_tss task (λ s. zero_tss)
  kernel_stack ← kalloc 1
  change_tss task (λ s. record s { eip = entry; esp0 = kernel_stack; ss0 = kernel_selector_ds })
  (if ifkernel == kernel_proc
      then (do
        stack ← kalloc 1
        change_tss task (λ s.
            with_selectors kernel_selector_ds kernel_selector_cs
              (record s { esp = stack; cr3 = kernel_table })))
      else (do
        stack ← ualloc 1
        change_tss task
            (λ s. with_selectors user_selector_ds user_selector_cs (record s { esp = stack }))
        dir ← new_tables kernel_table
        change_tss task (λ s. record s { cr3 = dir })))
  change_tss task (λ s. record s { eflags = eflags_start })
  change_task task (λ v. record v { tss_sel = tss_sel })
  pure 0

-- `far_jmp(tss_sel, 0)`, the processor's task switch, up to the point where the task that jumped
-- runs again: the selector that it jumped to is in `tr`.
abbrev pub switch_to_tss : ℕ → Cmd System (Unit {0})
switch_to_tss tss_sel k = ok tt (record k { tr = tss_sel })

unfoldable pub task_switch_from_to : Ptr → Ptr → Cmd System (Unit {0})
unfolding get_task
task_switch_from_to from to = do v ← get_task to; switch_to_tss v.tss_sel

unfoldable pub cur_task : Cmd System Ptr
cur_task k = ok k.cur_task k

-- Of a new page, which holds `raw`.
abbrev pub place_task : Ptr → TssTask → Cmd System (Unit {0})
place_task task raw k =
    if task == null then fault else ok tt (record k { task = update k.task task (some raw) })

module _ (mgr : Ptr) where
  abbrev pub general_list : Ptr
  general_list = mgr + 4

  abbrev pub ready_list : Ptr
  ready_list = mgr + 24

  abbrev pub sleep_list : Ptr
  sleep_list = mgr + 44

  unfoldable pub task_set_general : Ptr → Cmd System (Unit {0})
  task_set_general task = lists (klist_append general_list (general_node task))

  unfoldable pub task_set_ready : Ptr → Cmd System (Unit {0})
  unfolding change_task
  task_set_ready task = do
    remove ready_list (state_node task)
    change_task task (λ v. record v { status = ready })
    lists (klist_append ready_list (state_node task))

  unfoldable pub task_fifo : Cmd System Ptr
  task_fifo = do next_node ← lists (klist_get_first_node ready_list); pure (task_of next_node)

  -- SCHEDULE_SECTIONS is THREAD_FIFO.
  unfoldable pub task_schedule : Cmd System Ptr
  unfolding task_fifo
  task_schedule = task_fifo

  unfoldable pub task_dispatch : Cmd System (Unit {0})
  unfolding cur_task task_schedule get_task change_task task_switch_from_to
  task_dispatch = do
    cur ← cur_task
    next ← task_schedule
    go ← (if next == cur then pure false else do v ← get_task next; pure (is_ready v.status))
    (if go
        then (do
          (λ k. ok tt (record k { cur_task = next }))
          change_task next (λ v. record v { status = running })
          task_switch_from_to cur next)
        else do n ← lists (klist_len ready_list); pure tt)

  unfoldable pub task_set_block : Ptr → Cmd System (Unit {0})
  unfolding change_task task_dispatch
  task_set_block task = do change_task task (λ v. record v { status = blocked }); task_dispatch

  -- `--cur->ticks <= 0` compares an `int`.
  unfoldable pub task_time_ticks : Cmd System (Unit {0})
  unfolding cur_task change_task get_task task_set_ready task_dispatch
  task_time_ticks = do
    state ← enter_protection
    cur ← cur_task
    change_task cur (λ v. record v { ticks = sub32 v.ticks 1 })
    v ← get_task cur
    (if v.ticks == 0 || leb (2 ^ 31) v.ticks
        then (do
          task_set_ready cur
          change_task cur (λ v. record v { ticks = v.default_ticks })
          task_dispatch)
        else pure tt)
    leave_protection state

  module _ (kernel_table : Ptr) (raw : TssTask) where
    unfoldable pub init_task : (entry : ℕ) → Cmd System Ptr
    unfolding change_task alloc_pid task_set_general task_set_ready init_tss
    init_task entry = do
      status ← enter_protection
      task ← kalloc 1
      place_task task raw
      change_task task
          (λ v. record v { ticks = task_ticks_default; default_ticks = task_ticks_default })
      pid ← alloc_pid
      change_task task (λ v. record v { pid = pid; ifkernel = user_proc; parent = null })
      task_set_general task
      task_set_ready task
      v ← get_task task
      init_tss kernel_table task entry v.ifkernel
      leave_protection status
      pure task

    unfoldable pub tss_task_init : Cmd System (Unit {0})
    unfolding change_task get_task alloc_pid task_set_general task_set_ready init_tss
    tss_task_init = do
      lists (klist_init ready_list)
      lists (klist_init sleep_list)
      lists (klist_init general_list)
      status ← enter_protection
      task ← kalloc 1
      place_task task raw
      change_task task
          (λ v. record v { ticks = task_ticks_default; default_ticks = task_ticks_default })
      pid ← alloc_pid
      change_task task (λ v. record v { pid = pid })
      (λ k. ok tt (record k { cur_task = task }))
      change_task task (λ v. record v { ifkernel = kernel_proc; parent = null })
      task_set_general task
      task_set_ready task
      change_task task (λ v. record v { status = running })
      v ← get_task task
      init_tss kernel_table task 0 v.ifkernel
      v ← get_task task
      (λ k. ok tt (record k { tr = v.tss_sel }))
      leave_protection status
