-- ===== src/Tss/Writes.antt =====
-- Writes to a task that leave its ticks alone, and `task_set_block` of the current task.
use little_os.Base.{
  Option, ◌≡◌, ◌≢◌, inl, inr, refl, sym, ◌∙◌, ap, arith, some, List, [], ◌∷◌, update, ◌==◌,
  Bool-cases, ==_iff,
}
use little_os.Cmd.{ok}
use little_os.Klist.{Ptr, tail}
use little_os.Klist.Chain.{Away-left}
use little_os.Memory.{AddrAlloc}
use little_os.Memory.Single.{Grown-refl}
use little_os.Thread.{blocked}
use little_os.Tss.{TssTask, System, state_node, ready_list, task_set_block}
use little_os.Tss.Places.{nodes, InPage-small}
use little_os.Tss.Ready.{task_dispatch_self}
use little_os.Tss.Robin.{Turn, tasks, Holds, AllWait, IsRobin}
use little_os.Tss.Store.{change_task-ok}
use little_os.Tss.Waiting.{AllWait-kept, update_other, update_self}

-- Two values with the same ticks.
abbrev pub SameTicks : TssTask → TssTask → Type 0
SameTicks v w = (w.ticks ≡ v.ticks) × (w.default_ticks ≡ v.default_ticks)

module _ (m : AddrAlloc) (task : Ptr → Option TssTask) (a : Ptr) (v w : TssTask)
    (at : task a ≡ some v) (same : SameTicks v w) where
  Holds-write_self :
      (e : Turn)
      → e.task ≡ a
      → (x : TssTask) → Holds m task e x
      → Holds m (update task a (some w)) e w
  Holds-write_self e here x h =
      let x-eq : x ≡ v = cc (h.stored, at, here) in
      record {
        stored = rw here (update_self task a (some w));
        page = h.page;
        ticks = same.0 ∙ ap (λ (y : TssTask). y.ticks) (sym x-eq) ∙ h.ticks;
        default_ticks = same.1 ∙ ap (λ (y : TssTask). y.default_ticks) (sym x-eq) ∙ h.default_ticks;
        some_left = h.some_left;
        some_slice = h.some_slice;
        small_left = h.small_left;
        small_slice = h.small_slice;
      }

  Holds-write_other :
      (e : Turn)
      → e.task ≢ a
      → (x : TssTask) → Holds m task e x
      → Holds m (update task a (some w)) e x
  Holds-write_other e ne x h = record {
    stored = update_other task a (some w) e.task ne ∙ h.stored;
    page = h.page;
    ticks = h.ticks;
    default_ticks = h.default_ticks;
    some_left = h.some_left;
    some_slice = h.some_slice;
    small_left = h.small_left;
    small_slice = h.small_slice;
  }

  Holds-write :
      (e : Turn) (x : TssTask)
      → Holds m task e x
      → (y : TssTask) × Holds m (update task a (some w)) e y
  Holds-write e x h = elim (Bool-cases (e.task == a)) [
    | inl here ↦ (w, Holds-write_self e ((==_iff e.task a).0 here) x h)
    | inr other ↦ (x, Holds-write_other e (ground (arith)) x h)
  ]

  AllWait-write :
      w.status ≡ v.status
      → (es : List Turn) → AllWait m task es
      → AllWait m (update task a (some w)) es
  AllWait-write st [] h = tt
  AllWait-write st (e ∷ es) h = (
    elim (Bool-cases (e.task == a)) [
      | inl here ↦
          (let at_a = (==_iff e.task a).0 here in
            (w, Holds-write_self e at_a h.0.0 h.0.1, st ∙ cc (h.0.1.stored, at, at_a, h.0.2)))
      | inr other ↦ (h.0.0, Holds-write_other e (ground (arith)) h.0.0 h.0.1, h.0.2)
    ],
    AllWait-write st es h.1,
  )

-- A write that leaves status and ticks alone keeps the queue.
pub IsRobin-write :
    (mgr : Ptr) (k : System) (gs : List Ptr) (q : List Turn) (a : Ptr) (v w : TssTask)
    → k.task a ≡ some v
    → SameTicks v w
    → w.status ≡ v.status
    → IsRobin mgr k gs q
    → IsRobin mgr (record k { task = update k.task a (some w) }) gs q
IsRobin-write mgr k gs [] a v w at same st is = is
IsRobin-write mgr k gs (e ∷ es) a v w at same st is =
    let now =
      Holds-write k.manager k.task a v w at same (record e { task = k.cur_task }) is.value
        is.current in
    record {
      manager = is.manager;
      below = is.below;
      general = is.general;
      queue = is.queue;
      all = is.all;
      now = is.now;
      value = now.0;
      current = now.1;
      waiting = AllWait-write k.manager k.task a v w at same st es is.waiting;
    }

-- task_set_block of the current task, when the ready queue is well formed, marks it as blocked
-- and leaves it where it is: it stays first in the ready queue and goes on running.
pub task_set_block-stays :
    (mgr : Ptr) (k : System) (gs : List Ptr) (q : List Turn) (v : TssTask)
    → IsRobin mgr k gs q
    → k.task k.cur_task ≡ some v
    → let k' = record k {
      task = update k.task k.cur_task (some (record v { status = blocked }));
    } in
      (task_set_block mgr k.cur_task k ≡ ok tt k') × IsRobin mgr k' gs q
unfolding task_set_block
task_set_block-stays mgr k gs [] v is at = absurd is
task_set_block-stays mgr k gs (e ∷ es) v is at =
    let w : TssTask = record v { status = blocked } in
    let k' : System = record k { task = update k.task k.cur_task (some w) } in
    (
      rw (
        change_task-ok {v = v} (λ v. record v { status = blocked }) k at,
        task_dispatch_self mgr k' (nodes 120 (tasks es)) is.queue
            (InPage-small k.cur_task 120 is.manager is.current.page (omega arith)),
      ),
      record {
        manager = is.manager;
        below = is.below;
        general = is.general;
        queue = is.queue;
        all = is.all;
        now = is.now;
        value = w;
        current =
            Holds-write_self k.manager k.task k.cur_task v w at (refl, refl)
              (record e { task = k.cur_task }) refl is.value is.current;
        waiting =
            AllWait-kept k.manager k.manager k.task k'.task k.cur_task 120 es
              (Grown-refl is.manager) (update_other k.task k.cur_task (some w))
              (Away-left (state_node k.cur_task) (nodes 120 (tasks es)) (tail (ready_list mgr) ∷ [])
                is.queue.apart.1.0)
              is.waiting;
      },
    )
