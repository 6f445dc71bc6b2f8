-- ===== src/Tss/Robin.antt =====
-- The round robin that the ticks of the clock make of the ready queue, and the states of the
-- tasks that stand for it.
use little_os.Base.{Option, ℕ, ◌-◌, ◌<◌, ◌^◌, ◌≡◌, List, [], ◌∷◌, ◌++◌, some, if◌then◌else◌, ◌==◌}
use little_os.Klist.{Ptr, tail}
use little_os.Klist.Chain.{IsList}
use little_os.Memory.{AddrAlloc}
use little_os.Memory.Pages.{IsManager}
use little_os.Thread.{ready}
use little_os.Tss.{TssTask, System, state_node, ready_list, general_list}
use little_os.Tss.Places.{All, InPage, nodes}

-- A task in the queue, with what is left of its time slice.
pub record Turn : Type 0 where
  pub task : Ptr
  pub left : ℕ
  pub slice : ℕ

-- The first of the queue runs: a tick takes from its slice, and at the end of that it goes to the
-- end of the queue with a new one.
unfoldable pub robin_tick : List Turn → List Turn
robin_tick [] = []
robin_tick (e ∷ es) =
    if e.left == 1
    then es ++ (record e { left = e.slice } ∷ [])
    else record e { left = e.left - 1 } ∷ es

abbrev pub tasks : List Turn → List Ptr
tasks [] = []
tasks (e ∷ es) = e.task ∷ tasks es

-- The task of `e` is in memory as `value`, with the ticks that `e` says.
pub record Holds (m : AddrAlloc) (task : Ptr → Option TssTask) (e : Turn) (value : TssTask)
    : Type 0 where
  pub stored : task e.task ≡ some value
  pub page : InPage m e.task
  pub ticks : value.ticks ≡ e.left
  pub default_ticks : value.default_ticks ≡ e.slice
  pub some_left : 0 < e.left
  pub some_slice : 0 < e.slice
  pub small_left : e.left < 2 ^ 31
  pub small_slice : e.slice < 2 ^ 31

-- Such tasks wait for their turn, as ready.
abbrev pub AllWait : AddrAlloc → (Ptr → Option TssTask) → List Turn → Type 0
AllWait m task [] = Unit
AllWait m task (e ∷ es) =
    ((v : TssTask) × Holds m task e v × (v.status ≡ ready)) × AllWait m task es

-- The state of the tasks whose ready queue is `e ∷ es`: `cur_task` is the first of the queue, the
-- others are ready, and both lists of `gs` and of the queue are well formed in pages that the
-- manager has given out.
pub record IsSystem (mgr : Ptr) (k : System) (gs : List Ptr) (e : Turn) (es : List Turn)
    : Type 0 where
  pub manager : IsManager k.manager
  pub below : tail (ready_list mgr) < k.manager.kernelstart
  pub general : IsList k.heap (general_list mgr) (nodes 128 gs)
  pub queue : IsList k.heap (ready_list mgr) (state_node k.cur_task ∷ nodes 120 (tasks es))
  pub all : All (InPage k.manager) gs
  pub now : k.cur_task ≡ e.task
  pub value : TssTask
  pub current : Holds k.manager k.task (record e { task = k.cur_task }) value
  pub waiting : AllWait k.manager k.task es

-- The same with the whole queue as one.
abbrev pub IsRobin : (mgr : Ptr) → System → (gs : List Ptr) → List Turn → Type 0
IsRobin mgr k gs [] = ⊥
IsRobin mgr k gs (e ∷ es) = IsSystem mgr k gs e es
