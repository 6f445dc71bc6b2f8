-- ===== src/Syscall/Fork.antt =====
-- `sys_fork`: the child and its place in the ready queue.
use little_os.Base.{◌+◌, ◌<◌, ◌^◌, ◌≡◌, ◌≢◌, refl, ◌∙◌, some, List, [], ◌∷◌, ◌++◌, length, update}
use little_os.Base.Word.{add32}
use little_os.Cmd.{ok}
use little_os.Klist.{Ptr, null, Heap}
use little_os.Irq.{IrqStatus, irq_enter_protection}
use little_os.Irq.Protect.{protection}
use little_os.Tss.{TssTask, System, cur_task}
use little_os.Tss.Init.{HasMeans, OwnMeans}
use little_os.Tss.Robin.{Turn, IsRobin}
use little_os.Tss.Child.{paid, new_page, new_turn, child, spawned}
use little_os.Tss.Spawn.{init_task-any, init_task-ok, new_page-ne-cur}
use little_os.Tss.Store.{get_task-ok, get_task-again, change_task-again, update_again}
use little_os.Tss.Waiting.{update_self, update_other}
use little_os.Tss.Writes.{IsRobin-write}
use little_os.Syscall.{SyscallFrame, copy_frame, sys_fork}

module _ (mgr kernel_table : Ptr) (raw : TssTask) (k : System) (frame : SyscallFrame) where
  -- The child of the current task, whose value is `v`: its `ss`, `esp0`, `ss0` and `cr3` are those
  -- of a new task.
  abbrev pub fork_child : TssTask → TssTask
  fork_child v =
      let c = child mgr kernel_table raw k frame.eip in
      record c {
        tss = record c.tss {
          eax = 0;
          ecx = frame.ecx;
          edx = frame.edx;
          ebx = frame.ebx;
          esp = frame.esp;
          ebp = frame.ebp;
          esi = frame.esi;
          edi = frame.edi;
          es = frame.es;
          cs = frame.cs;
          ds = frame.ds;
          fs = frame.fs;
          gs = frame.gs;
          eip = frame.eip;
          eflags = frame.eflags;
        };
        parent = k.cur_task;
        ifkernel = v.ifkernel;
      }

  abbrev pub forked : Heap → TssTask → System
  forked g v = record (spawned mgr kernel_table raw k frame.eip g) {
    task = update k.task (new_page k) (some (fork_child v));
  }

  module _ (status : IrqStatus) where
    -- The same without the means that init_tss asserts.
    pub sys_fork-any :
        (gs : List Ptr) (q : List Turn) (v : TssTask)
        → IsRobin mgr k gs q
        → k.task k.cur_task ≡ some v
        → new_page k ≢ null
        → length gs + 1 < 2 ^ 31
        → length q + 1 < 2 ^ 31
        → (g : Heap) × (sys_fork mgr kernel_table raw frame
              (record { system = k; irq_state = status })
            ≡ ok
                (add32 k.global_pid 1)
                (record { system = forked g v; irq_state = (irq_enter_protection k.eflags).1 }))
          × IsRobin mgr (forked g v) (gs ++ (new_page k ∷ [])) (q ++ (new_turn (new_page k) ∷ []))
    unfolding sys_fork cur_task
    sys_fork-any gs q v is at granted room_all room =
        let a = new_page k in
        let c = child mgr kernel_table raw k frame.eip in
        let ne = new_page-ne-cur mgr kernel_table raw k frame.eip gs q is granted room_all room in
        let (g, run, is₁) =
          init_task-any mgr kernel_table raw k frame.eip gs q is granted room_all room in
        let k₁ : System = record (spawned mgr kernel_table raw k frame.eip g) {
          task = k.task;
          eflags = (irq_enter_protection k.eflags).0;
        } in
        let c₁ : TssTask = record c { tss = copy_frame frame c.tss } in
        let c₂ : TssTask = record c₁ { parent = k.cur_task } in
        let c₃ : TssTask = record c₂ { ifkernel = v.ifkernel } in
        let k₂ : System = record k₁ { task = update k.task a (some c₂) } in
        let kept : k₂.task k.cur_task ≡ some v =
          update_other k.task a (some c₂) k.cur_task ne ∙ at in
        (
          g,
          rw (
            run,
            change_task-again (λ v. record v { tss = copy_frame frame v.tss }) k₁ a c,
            change_task-again (λ v. record v { parent = k.cur_task }) k₁ a c₁,
            get_task-ok {v = v} k₂ kept,
            change_task-again (λ w. record w { ifkernel = v.ifkernel }) k₁ a c₂,
            change_task-again (λ v. record v { tss = record v.tss { eax = 0 } }) k₁ a c₃,
            (protection k.eflags).2,
            get_task-again (record k₁ { eflags = k.eflags }) a (fork_child v),
          ),
          let kept =
                IsRobin-write mgr (spawned mgr kernel_table raw k frame.eip g) (gs ++ (a ∷ []))
                  (q ++ (new_turn a ∷ [])) a c (fork_child v) (update_self k.task a (some c))
                  (refl, refl) refl is₁ in
              rw (← update_again k.task a (some c) (some (fork_child v))) kept,
        )

    -- When the ready queue is well formed, the current task is stored as v, the manager has a
    -- page for the new task and grants its two stacks and its directory, a descriptor is
    -- free, and both lists have room, sys_fork returns global_pid + 1. The task of that
    -- number has each general register, eip, eflags and segment register of the frame, but 0
    -- in eax and the ss of user programs, the current task as its parent, and the current
    -- task's ifkernel; its page directory and its stack in the kernel are pages that were
    -- free, its descriptor was free, and it stands last in the ready queue. All other tasks
    -- stay, the queue stays well formed, and the status of interrupts is kept in irq_state.
    pub sys_fork-ok :
        (gs : List Ptr) (q : List Turn) (v : TssTask)
        → IsRobin mgr k gs q
        → k.task k.cur_task ≡ some v
        → new_page k ≢ null
        → HasMeans kernel_table (paid k) (new_page k) frame.eip
        → length gs + 1 < 2 ^ 31
        → length q + 1 < 2 ^ 31
        → (g : Heap) × (sys_fork mgr kernel_table raw frame
              (record { system = k; irq_state = status })
            ≡ ok
                (add32 k.global_pid 1)
                (record { system = forked g v; irq_state = (irq_enter_protection k.eflags).1 }))
          × OwnMeans kernel_table (paid k) (new_page k) frame.eip
          × IsRobin mgr (forked g v) (gs ++ (new_page k ∷ [])) (q ++ (new_turn (new_page k) ∷ []))
    sys_fork-ok gs q v is at granted means room_all room =
        let (g₁, run₁, own, is₁) =
          init_task-ok mgr kernel_table raw k frame.eip gs q is granted means room_all room in
        let (g, run, is') = sys_fork-any gs q v is at granted room_all room in (g, run, own, is')
