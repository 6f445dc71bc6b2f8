-- ===== src/Syscall.antt =====
-- source/kernel/syscall/syscall.c and syscall.h: the table of system calls, and `sys_fork`, which
-- runs on the tasks of source/kernel/tss_old/tss_old.c. `hlt` is the processor's wait for an
-- interrupt. `sys_frame` lies in memory that the call does not write.
pub mod Fork
pub mod Space
pub mod Reach
use little_os.Base.{ℕ, Option, some, update}
use little_os.Cmd.{Run, ok, Cmd, pure, ◌>>=◌, ◌>>◌, within}
use little_os.Klist.{Ptr}
use little_os.Irq.{IrqStatus}
use little_os.Tss.{
  TssRecord, TssTask, System, cur_task, get_task, change_task, change_tss, init_task,
  enter_protection, leave_protection,
}

pub record SyscallFrame : Type 0 where
  pub arg1 : ℕ
  pub arg2 : ℕ
  pub arg3 : ℕ
  pub gs : ℕ
  pub fs : ℕ
  pub es : ℕ
  pub ds : ℕ
  pub edi : ℕ
  pub esi : ℕ
  pub ebp : ℕ
  pub esp : ℕ
  pub ebx : ℕ
  pub edx : ℕ
  pub ecx : ℕ
  pub eax : ℕ
  pub num : ℕ
  pub erro_code : ℕ
  pub eip : ℕ
  pub cs : ℕ
  pub eflags : ℕ

-- The functions in the table.
pub data SyscallEntry : Type 0 where
  getpid write read fork malloc putchar : SyscallEntry

-- SYS_GETPID to SYS_PUTCHAR.
abbrev pub number : SyscallEntry → ℕ
number getpid = 0
number write = 1
number read = 2
number fork = 3
number malloc = 4
number putchar = 5

abbrev pub SyscallTable : Type 0
SyscallTable = ℕ → Option SyscallEntry

unfoldable pub syscall_init : SyscallTable → SyscallTable
syscall_init table =
    let table = update table (number getpid) (some getpid) in
    let table = update table (number write) (some write) in
    let table = update table (number read) (some read) in
    let table = update table (number fork) (some fork) in
    let table = update table (number malloc) (some malloc) in
    update table (number putchar) (some putchar)

-- The tasks, with `proc_manager.irq_state`.
pub record Calls : Type 0 where
  pub system : System
  pub irq_state : IrqStatus

abbrev pub on_system : {A : Type 0} → Cmd System A → Cmd Calls A
on_system m c = within (λ k. record c { system = k }) (m c.system)

-- The registers that a new task takes from the frame.
abbrev pub copy_frame : SyscallFrame → TssRecord → TssRecord
copy_frame sys_frame s = record s {
  gs = sys_frame.gs;
  fs = sys_frame.fs;
  es = sys_frame.es;
  ds = sys_frame.ds;
  edi = sys_frame.edi;
  esi = sys_frame.esi;
  ebp = sys_frame.ebp;
  esp = sys_frame.esp;
  ebx = sys_frame.ebx;
  edx = sys_frame.edx;
  ecx = sys_frame.ecx;
  eip = sys_frame.eip;
  cs = sys_frame.cs;
  eflags = sys_frame.eflags;
}

module _ (mgr kernel_table : Ptr) (raw : TssTask) where
  unfoldable pub sys_fork : SyscallFrame → Cmd Calls ℕ
  unfolding cur_task get_task change_task
  sys_fork sys_frame = do
    cur ← on_system cur_task
    new_task ← on_system (init_task mgr kernel_table raw sys_frame.eip)
    status ← on_system enter_protection
    (λ c. ok tt (record c { irq_state = status }))
    on_system (change_tss new_task (copy_frame sys_frame))
    on_system (change_task new_task (λ v. record v { parent = cur }))
    w ← on_system (get_task cur)
    on_system (change_task new_task (λ v. record v { ifkernel = w.ifkernel }))
    on_system (change_tss new_task (λ s. record s { eax = 0 }))
    (λ c. on_system (leave_protection c.irq_state) c)
    v ← on_system (get_task new_task)
    pure v.pid
