-- ===== src/Proc.antt =====
-- The processes of source/kernel/task_old/task_old.c and task_old.h, with `sys_getpid` of
-- source/kernel/syscall/syscall.c. `proc_manager` lies at the address `mgr`: `cur_proc`, then the
-- lists of 20 bytes each. A `proc_pcb_t` of 92 bytes lies in a page of its own and is known by its
-- address; its list nodes lie in the heap of lists, 60 and 68 bytes into it, its name in the bytes
-- of memory, in a field of 20 bytes that a longer name would leave for the fields behind it, which
-- is not modelled; and a `context_t` under its address. `raw` is what a new page holds, read as a
-- process. Access through `NULL` is a fault.
pub mod Switch
pub mod Store
pub mod Queue
pub mod Start
pub mod Init
use little_os.Base.{
  ℕ, ◌+◌, ◌-◌, ◌*◌, ◌^◌, Bool, true, false, ◌||◌, Option, none, some, if◌then◌else◌, leb, ◌==◌,
  update,
}
use little_os.Base.Word.{add32, sub32}
use little_os.Cmd.{Run, ok, fault, out_of_fuel, Cmd, pure, ◌>>=◌, ◌>>◌, within}
use little_os.Klist.{
  Ptr, null, Heap, klist_init, klist_append, klist_remove, klist_len, klist_get_first_node,
}
use little_os.Irq.{IrqStatus, irq_leave_protection}
use little_os.Mem.{Memory}
use little_os.Memory.{AddrAlloc, mem_page_size, kalloc_pages, ualloc_pages}
use little_os.Gdt.{
  GdtTable, gdt_segment_set, kernel_selector_cs, kernel_selector_ds, user_selector_cs,
  user_selector_ds,
}
use little_os.Klib.{kstrcpy}
use little_os.PageTable.{Paging, create_page_table}
use little_os.Thread.{TaskStatus, ready, running, is_ready, task_ticks_default}
use little_os.Tss.{
  TssRecord, zero_tss, tss_size, seg_tss, with_selectors, kernel_proc, user_proc, eflags_start,
}

pub record Context : Type 0 where
  pub edi : ℕ
  pub esi : ℕ
  pub ebp : ℕ
  pub esp_dummy : ℕ
  pub ebx : ℕ
  pub edx : ℕ
  pub ecx : ℕ
  pub eax : ℕ
  pub gs : ℕ
  pub fs : ℕ
  pub es : ℕ
  pub ds : ℕ
  pub eip : ℕ
  pub cs : ℕ
  pub eflags : ℕ
  pub esp : ℕ
  pub ss : ℕ

pub data IfSavedContext : Type 0 where
  saved_context unsaved_context : IfSavedContext

pub record ProcPcb : Type 0 where
  pub pid : ℕ
  pub kstack : ℕ
  pub filename : ℕ
  pub priority : ℕ
  pub status : TaskStatus
  pub stack_magic : ℕ
  pub ticks : ℕ
  pub parent : Ptr
  pub ifkernel : ℕ
  pub ifsaved_context : IfSavedContext
  pub thread_table : Ptr
  pub context : Ptr
  pub pgdir : ℕ

-- What the functions change: the processes with their lists and contexts, `cur_proc` and
-- `irq_state` of `proc_manager`, the memory with its manager, the last process number, `tss`, the
-- descriptors, the task register, the flags, the page directory's register, and the registers that
-- the last `iret` loaded.
pub record Procs : Type 0 where
  pub heap : Heap
  pub proc : Ptr → Option ProcPcb
  pub contexts : Ptr → Context
  pub cur_proc : Ptr
  pub irq_state : IrqStatus
  pub mem : Memory
  pub manager : AddrAlloc
  pub global_pid : ℕ
  pub tss : TssRecord
  pub gdt : GdtTable
  pub tr : ℕ
  pub eflags : ℕ
  pub cr3 : ℕ
  pub cpu : Context

-- KERNEL_SELECTOR_TSS.
abbrev pub kernel_selector_tss : ℕ
kernel_selector_tss = 3 * 2 ^ 3

-- TASK_DEFAULF_PRIO, TASK_STACK_MAGIC and KERNEL_STACK_SIZE.
abbrev pub task_default_prio : ℕ
task_default_prio = 31

abbrev pub task_stack_magic : ℕ
task_stack_magic = 0x19870916

abbrev pub kernel_stack_size : ℕ
kernel_stack_size = 8 * 1024

-- `sizeof(proc_pcb_t)`.
abbrev pub pcb_size : ℕ
pcb_size = 92

abbrev pub name_addr : Ptr → Ptr
name_addr pcb = pcb + 8

abbrev pub state_node : Ptr → Ptr
state_node pcb = pcb + 60

abbrev pub general_node : Ptr → Ptr
general_node pcb = pcb + 68

abbrev pub general_list : (mgr : Ptr) → Ptr
general_list mgr = mgr + 4

abbrev pub ready_list : (mgr : Ptr) → Ptr
ready_list mgr = mgr + 24

abbrev pub sleep_list : (mgr : Ptr) → Ptr
sleep_list mgr = mgr + 44

-- `KLIST_STRUCT_ADDR(node, proc_pcb_t, state_node)`.
abbrev pub proc_of : Ptr → Ptr
proc_of node = if node == null then null else sub32 node 60

abbrev pub lists : {A : Type 0} → Cmd Heap A → Cmd Procs A
lists m k = within (λ h. record k { heap = h }) (m k.heap)

-- A walk gets two rounds more than the list's length.
abbrev pub remove : Ptr → Ptr → Cmd Procs Ptr
remove list node k = lists (klist_remove (k.heap.len list + 2) list node) k

unfoldable pub get_proc : Ptr → Cmd Procs ProcPcb
get_proc p k = elim (k.proc p) [ none ↦ fault | some v ↦ ok v k ]

-- A write to fields of a process.
unfoldable pub change_proc : Ptr → (ProcPcb → ProcPcb) → Cmd Procs (Unit {0})
change_proc p f k = elim (k.proc p) [
  | none ↦ fault
  | some v ↦ ok tt (record k { proc = update k.proc p (some (f v)) })
]

-- A write to fields of the context that a process points to.
abbrev pub change_context : Ptr → (Context → Context) → Cmd Procs (Unit {0})
change_context p f = do
  v ← get_proc p
  (λ k. ok tt (record k { contexts = update k.contexts v.context (f (k.contexts v.context)) }))

-- Of a new page, which holds `raw`.
abbrev pub place_proc : Ptr → ProcPcb → Cmd Procs (Unit {0})
place_proc p raw k =
    if p == null then fault else ok tt (record k { proc = update k.proc p (some raw) })

abbrev pub kalloc : ℕ → Cmd Procs ℕ
kalloc n k =
    let (manager, addr) = kalloc_pages k.manager n in ok addr (record k { manager = manager })

abbrev pub ualloc : ℕ → Cmd Procs ℕ
ualloc n k =
    let (manager, addr) = ualloc_pages k.manager n in ok addr (record k { manager = manager })

abbrev pub new_tables : (kernel_table : Ptr) → Cmd Procs ℕ
new_tables kernel_table k =
    let (s, dir) = create_page_table (record { mem = k.mem; manager = k.manager }) kernel_table in
    ok dir (record k { mem = s.mem; manager = s.manager })

abbrev pub leave_protection : Cmd Procs (Unit {0})
leave_protection k = ok tt (record k { eflags = irq_leave_protection k.eflags k.irq_state })

-- `kstrcpy` into the bytes of memory; the fuel bounds the search for the string's end.
unfoldable pub copy_name : ℕ → Ptr → Ptr → Cmd Procs (Unit {0})
copy_name fuel dest src k = elim (kstrcpy fuel k.mem dest src) [
  | none ↦ out_of_fuel
  | some m ↦ ok tt (record k { mem = m })
]

-- `++global_pid`.
abbrev pub alloc_pid : Cmd Procs ℕ
alloc_pid k = ok (add32 k.global_pid 1) (record k { global_pid = add32 k.global_pid 1 })

unfoldable pub cur_proc : Cmd Procs Ptr
cur_proc k = ok k.cur_proc k

unfoldable pub proc_ifkernel : Cmd Procs Bool
unfolding cur_proc get_proc
proc_ifkernel = do cur ← cur_proc; v ← get_proc cur; pure (v.ifkernel == kernel_proc)

unfoldable pub sys_getpid : Cmd Procs ℕ
unfolding cur_proc get_proc
sys_getpid = do cur ← cur_proc; v ← get_proc cur; pure v.pid
