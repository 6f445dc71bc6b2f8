-- ===== src/Thread.antt =====
-- The threads of source/kernel/task_old/task_old.c and task_old.h, with `task_status` of
-- source/comm/types.h. `thread_manager` lies at the address `mgr`: `cur_thread`, then the lists of
-- 20 bytes each. A `thread_pcb_t` is known by its address; its list nodes lie in the heap of
-- lists, 40 and 48 bytes into it. `int` fields are bit patterns of 32 bits.
-- `resume` is what the other threads do from a switch until the thread that switched runs again.
pub mod Ready
pub mod Dispatch
pub mod Sync
pub mod Create
use little_os.Base.{
  ℕ, ◌+◌, ◌^◌, Bool, true, false, ◌&&◌, ◌||◌, Option, none, some, if◌then◌else◌, leb, ◌==◌, update,
  not,
}
use little_os.Base.Word.{add32, sub32}
use little_os.Cmd.{Run, ok, fault, Cmd, pure, ◌>>=◌, ◌>>◌, within}
use little_os.Klist.{
  Ptr, null, Heap, klist_append, klist_push, klist_remove, klist_len, klist_get_first_node,
}
use little_os.Mem.{Memory}
use little_os.Memory.{AddrAlloc}
use little_os.Irq.{IrqStatus, irq_enter_protection, irq_leave_protection}

pub data TaskStatus : Type 0 where
  running created ready blocked waiting hanging sleep died : TaskStatus

-- `status == TASK_READY`.
abbrev pub is_ready : TaskStatus → Bool
is_ready ready = true
is_ready _ = false

-- `thread_pcb_t`, less the name, which lies in the bytes of memory, and the nodes.
pub record ThreadPcb : Type 0 where
  pub kstack : ℕ
  pub priority : ℕ
  pub status : TaskStatus
  pub stack_magic : ℕ
  pub ticks : ℕ

-- `value` is that of the semaphore at an address; `mem` holds names and stacks.
pub record Threads : Type 0 where
  pub heap : Heap
  pub thread : Ptr → Option ThreadPcb
  pub cur_thread : Ptr
  pub value : Ptr → ℕ
  pub mem : Memory
  pub manager : AddrAlloc
  pub eflags : ℕ
  pub esp : ℕ

-- TASK_TICKS_DEFAULT.
abbrev pub task_ticks_default : ℕ
task_ticks_default = 5

abbrev pub state_node : Ptr → Ptr
state_node pcb = pcb + 40

abbrev pub general_node : Ptr → Ptr
general_node pcb = pcb + 48

-- `KLIST_STRUCT_ADDR(node, thread_pcb_t, state_node)`.
abbrev pub thread_of : Ptr → Ptr
thread_of node = if node == null then null else sub32 node 40

abbrev pub lists : {A : Type 0} → Cmd Heap A → Cmd Threads A
lists m k = within (λ h. record k { heap = h }) (m k.heap)

-- A walk gets two rounds more than the list's length.
abbrev pub remove : Ptr → Ptr → Cmd Threads Ptr
remove list node k = lists (klist_remove (k.heap.len list + 2) list node) k

unfoldable pub get_thread : Ptr → Cmd Threads ThreadPcb
get_thread p k = elim (k.thread p) [ none ↦ fault | some v ↦ ok v k ]

abbrev pub put_thread : Ptr → ThreadPcb → Cmd Threads (Unit {0})
put_thread p v k = ok tt (record k { thread = update k.thread p (some v) })

abbrev pub enter_protection : Cmd Threads IrqStatus
enter_protection k =
    let (eflags, status) = irq_enter_protection k.eflags in ok status (record k { eflags = eflags })

abbrev pub leave_protection : IrqStatus → Cmd Threads (Unit {0})
leave_protection status k = ok tt (record k { eflags = irq_leave_protection k.eflags status })

unfoldable pub cur_thread : Cmd Threads Ptr
cur_thread k = ok k.cur_thread k

-- `simple_switch` pushes four registers and keeps the stack, and pops four from the other stack.
unfoldable pub switch_thread_from_to : Cmd Threads (Unit {0}) → Ptr → Ptr → Cmd Threads (Unit {0})
unfolding get_thread
switch_thread_from_to resume from to = do
  w ← get_thread to
  v ← get_thread from
  (λ k. put_thread from (record v { kstack = sub32 k.esp 16 }) k)
  (λ k. ok tt (record k { esp = add32 w.kstack 16 }))
  resume

module _ (mgr : Ptr) where
  abbrev pub general_list : Ptr
  general_list = mgr + 4

  abbrev pub ready_list : Ptr
  ready_list = mgr + 24

  abbrev pub sleep_list : Ptr
  sleep_list = mgr + 44

  unfoldable pub thread_set_general : Ptr → Cmd Threads (Unit {0})
  thread_set_general pcb = lists (klist_append general_list (general_node pcb))

  unfoldable pub thread_push_ready : Ptr → Cmd Threads (Unit {0})
  unfolding get_thread
  thread_push_ready pcb = do
    remove ready_list (state_node pcb)
    v ← get_thread pcb
    put_thread pcb (record v { status = ready })
    lists (klist_push ready_list (state_node pcb))

  unfoldable pub thread_set_ready : Ptr → Cmd Threads (Unit {0})
  unfolding get_thread
  thread_set_ready pcb = do
    remove ready_list (state_node pcb)
    v ← get_thread pcb
    put_thread pcb (record v { status = ready })
    lists (klist_append ready_list (state_node pcb))

  unfoldable pub thread_set_sleep : Ptr → Cmd Threads (Unit {0})
  unfolding get_thread
  thread_set_sleep pcb = do
    v ← get_thread pcb
    put_thread pcb (record v { status = sleep })
    lists (klist_append sleep_list (state_node pcb))

  unfoldable pub thread_fifo : Cmd Threads Ptr
  thread_fifo = do next_node ← lists (klist_get_first_node ready_list); pure (thread_of next_node)

  -- SCHEDULE_SECTIONS is THREAD_FIFO.
  unfoldable pub thread_schedule : Cmd Threads Ptr
  unfolding thread_fifo
  thread_schedule = thread_fifo

  module _ (resume : Cmd Threads (Unit {0})) where
    unfoldable pub thread_dispatch : Cmd Threads (Unit {0})
    unfolding cur_thread thread_schedule get_thread switch_thread_from_to
    thread_dispatch = do
      cur ← cur_thread
      next ← thread_schedule
      go ← (if next == cur then pure false else do v ← get_thread next; pure (is_ready v.status))
      (if go
          then (do
            (λ k. ok tt (record k { cur_thread = next }))
            v ← get_thread next
            put_thread next (record v { status = running })
            switch_thread_from_to resume cur next)
          else do n ← lists (klist_len ready_list); pure tt)

    unfoldable pub thread_set_block : Ptr → Cmd Threads (Unit {0})
    unfolding get_thread thread_dispatch
    thread_set_block pcb = do
      v ← get_thread pcb
      put_thread pcb (record v { status = blocked })
      thread_dispatch

    -- `--cur->ticks <= 0` compares an `int`.
    unfoldable pub thread_time_ticks : Cmd Threads (Unit {0})
    unfolding cur_thread get_thread thread_set_ready thread_dispatch
    thread_time_ticks = do
      cur ← cur_thread
      v ← get_thread cur
      put_thread cur (record v { ticks = sub32 v.ticks 1 })
      (if sub32 v.ticks 1 == 0 || leb (2 ^ 31) (sub32 v.ticks 1)
          then (do
            thread_set_ready cur
            v ← get_thread cur
            put_thread cur (record v { ticks = task_ticks_default })
            thread_dispatch)
          else pure tt)
