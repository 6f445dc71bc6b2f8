-- ===== src/Syscall/Reach.antt =====
-- What the kernel does to the tasks, in any order: ticks of the clock, new tasks, system calls of
-- the current task, and its blocking.
use little_os.Base.{ℕ, ◌+◌, ◌<◌, ◌^◌, ◌≡◌, ◌≢◌, ap, arith, some, List, [], ◌∷◌, ◌++◌, length}
use mathlib.Core.Path.{subst}
use native.Mathlib.Decide.{ℕ_discrete}
use little_os.Cmd.{ok, fault, same_run}
use little_os.Klist.{Ptr, null, tail}
use little_os.Irq.{IrqStatus}
use little_os.Memory.Pages.{IsManager}
use little_os.Tss.{
  TssTask, System, general_list, ready_list, task_time_ticks, task_set_block, init_task,
  tss_task_init,
}
use little_os.Tss.Boot.{started, tss_task_init-any}
use little_os.Tss.Places.{length-nodes}
use little_os.Tss.Refines.{task_time_ticks-robin_tick}
use little_os.Tss.Robin.{Turn, tasks, robin_tick, IsRobin}
use little_os.Tss.Init.{HasMeans}
use little_os.Tss.Kernel.{HasKernelMeans}
use little_os.Tss.Child.{paid, new_page, new_turn, spawned}
use little_os.Tss.Spawn.{init_task-any, init_task-null}
use little_os.Tss.Waiting.{length-tasks}
use little_os.Tss.Writes.{task_set_block-stays}
use little_os.Syscall.{SyscallFrame, Calls, sys_fork}
use little_os.Syscall.Fork.{forked, sys_fork-any}

-- Both lists have room for another task.
pub record HasRoom (mgr : Ptr) (k : System) : Type 0 where
  pub all : k.heap.len (general_list mgr) + 1 < 2 ^ 31
  pub queue : k.heap.len (ready_list mgr) + 1 < 2 ^ 31

module _ (mgr kernel_table : Ptr) (raw : TssTask) where
  -- One operation that returns. A new task gets a descriptor, its stacks and its directory.
  pub data Step : Calls → Calls → Type 0 where
    tick :
        (c : Calls) (k : System)
        → task_time_ticks mgr c.system ≡ ok tt k
        → Step c (record c { system = k })
    new :
        (c : Calls) (k : System) (entry : ℕ) (a : Ptr)
        → HasRoom mgr c.system
        → HasMeans kernel_table (paid c.system) (new_page c.system) entry
        → init_task mgr kernel_table raw entry c.system ≡ ok a k
        → Step c (record c { system = k })
    fork :
        (c d : Calls) (frame : SyscallFrame) (pid : ℕ)
        → HasRoom mgr c.system
        → HasMeans kernel_table (paid c.system) (new_page c.system) frame.eip
        → sys_fork mgr kernel_table raw frame c ≡ ok pid d
        → Step c d
    block :
        (c : Calls) (k : System)
        → task_set_block mgr c.system.cur_task c.system ≡ ok tt k
        → Step c (record c { system = k })

  pub data Reach (c : Calls) : Calls → Type 0 where
    here : Reach c c
    next : {d e : Calls} → Reach c d → Step d e → Reach c e

-- Some queue is that of the tasks.
abbrev pub HasRobin : Ptr → System → Type 0
HasRobin mgr k = (gs : List Ptr) × (q : List Turn) × IsRobin mgr k gs q

HasRobin-same : (mgr : Ptr) (j k : System) → j ≡ k → HasRobin mgr j → HasRobin mgr k
HasRobin-same mgr j k e h = subst (HasRobin mgr) e h

general_room :
    (mgr : Ptr) (k : System) (gs : List Ptr) (q : List Turn)
    → IsRobin mgr k gs q
    → HasRoom mgr k
    → (length gs + 1 < 2 ^ 31) × (length q + 1 < 2 ^ 31)
general_room mgr k gs [] is room = absurd is
general_room mgr k gs (e ∷ es) is room = (
  omega (arith, is.general.count, length-nodes 128 gs, room.all),
  omega (arith, is.queue.count, length-nodes 120 (tasks es), length-tasks es, room.queue),
)

stored_now :
    (mgr : Ptr) (k : System) (gs : List Ptr) (q : List Turn)
    → IsRobin mgr k gs q
    → (v : TssTask) × (k.task k.cur_task ≡ some v)
stored_now mgr k gs [] is = absurd is
stored_now mgr k gs (e ∷ es) is = (is.value, is.current.stored)

sys_fork-null :
    (mgr kernel_table : Ptr) (raw : TssTask) (c : Calls) (frame : SyscallFrame)
    → new_page c.system ≡ null
    → sys_fork mgr kernel_table raw frame c ≡ fault
unfolding sys_fork
sys_fork-null mgr kernel_table raw c frame z =
    rw (init_task-null mgr kernel_table raw c.system frame.eip z)

module _ (mgr kernel_table : Ptr) (raw : TssTask) where
  Step-HasRobin :
      {c d : Calls} → Step mgr kernel_table raw c d → HasRobin mgr c.system → HasRobin mgr d.system
  Step-HasRobin (tick c k run) (gs, q, is) =
      let (k', run', is', flags) = task_time_ticks-robin_tick mgr c.system gs q is in
      HasRobin-same mgr k' k (same_run run' run) (gs, robin_tick q, is')
  Step-HasRobin (new c k entry a room means run) (gs, q, is) =
      let r = general_room mgr c.system gs q is room in
      elim (ℕ_discrete (new_page c.system) null) [
        | yes z ↦ (let bad = init_task-null mgr kernel_table raw c.system entry z in cc)
        | no real ↦
            (let (g, run', is') =
                init_task-any mgr kernel_table raw c.system entry gs q is real r.0 r.1 in
              HasRobin-same mgr (spawned mgr kernel_table raw c.system entry g) k
                (same_run run' run)
                (gs ++ (new_page c.system ∷ []), q ++ (new_turn (new_page c.system) ∷ []), is'))
      ]
  Step-HasRobin (fork c d frame pid room means run) (gs, q, is) =
      let r = general_room mgr c.system gs q is room in
      let (v, at) = stored_now mgr c.system gs q is in
      elim (ℕ_discrete (new_page c.system) null) [
        | yes z ↦ (let bad = sys_fork-null mgr kernel_table raw c frame z in cc)
        | no real ↦
            (let (g, run', is') =
                sys_fork-any mgr kernel_table raw c.system frame c.irq_state gs q v is at real r.0
                  r.1 in
              HasRobin-same mgr (forked mgr kernel_table raw c.system frame g v) d.system
                (ap (λ (s : Calls). s.system) (same_run run' run))
                (gs ++ (new_page c.system ∷ []), q ++ (new_turn (new_page c.system) ∷ []), is'))
      ]
  Step-HasRobin (block c k run) (gs, q, is) =
      let (v, at) = stored_now mgr c.system gs q is in
      let (run', is') = task_set_block-stays mgr c.system gs q v is at in
      HasRobin-same mgr _ k (same_run run' run) (gs, q, is')

  Reach-keeps :
      {c d : Calls} → HasRobin mgr c.system → Reach mgr kernel_table raw c d → HasRobin mgr d.system
  Reach-keeps h here = h
  Reach-keeps h (next r s) = Step-HasRobin s (Reach-keeps h r)

  -- From a state whose ready queue is well formed, every state that ticks, new tasks, forks and
  -- blocking of the current task lead to, in any order and while the lists have room, has a
  -- well-formed ready queue again, and the next tick of the clock returns.
  pub Reach-HasRobin :
      {c d : Calls}
      → HasRobin mgr c.system
      → Reach mgr kernel_table raw c d
      → HasRobin mgr d.system × ((k : System) × (task_time_ticks mgr d.system ≡ ok tt k))
  Reach-HasRobin {c} {d} h r =
      let (gs, q, is) = Reach-keeps h r in
      let (k, run, is', flags) = task_time_ticks-robin_tick mgr d.system gs q is in
      ((gs, q, is), (k, run))

-- When tss_task_init started from a well-formed manager that has a page and two stacks for the
-- first task, with a free descriptor and with the lists below its pages, every state that ticks,
-- new tasks, forks and blocking of the current task lead to from there, in any order, as long as
-- the lists have room and each new task gets a descriptor, its stacks and its directory, has a
-- well-formed ready queue, and the next tick of the clock returns.
pub boot-HasRobin :
    (mgr kernel_table : Ptr) (raw : TssTask) (k b : System) (irq_state : IrqStatus) (d : Calls)
    → IsManager k.manager
    → tail (ready_list mgr) < k.manager.kernelstart
    → new_page k ≢ null
    → HasKernelMeans kernel_table (paid k) (new_page k) 0
    → tss_task_init mgr kernel_table raw k ≡ ok tt b
    → Reach mgr kernel_table raw (record { system = b; irq_state = irq_state }) d
    → HasRobin mgr d.system × ((j : System) × (task_time_ticks mgr d.system ≡ ok tt j))
boot-HasRobin mgr kernel_table raw k b irq_state d is below granted means boot r =
    let (g, run, robin) = tss_task_init-any mgr kernel_table raw k is below granted in
    Reach-HasRobin mgr kernel_table raw
      (HasRobin-same mgr (started mgr kernel_table raw k g) b (same_run run boot)
        (new_page k ∷ [], new_turn (new_page k) ∷ [], robin))
      r
