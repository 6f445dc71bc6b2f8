-- ===== src/Tss/Refines.antt =====
-- Each tick of the clock is a tick of the round robin.
use little_os.Base.{
  Option, ◌-◌, ◌≡◌, ◌≢◌, refl, sym, ◌∙◌, arith, some, List, [], ◌∷◌, ◌++◌, update, ==_of_ne, ◌==◌,
  inl, inr, Bool-cases, ==_iff,
}
use little_os.Cmd.{ok}
use little_os.Klist.{Ptr, tail}
use little_os.Klist.Chain.{Away, Away-left}
use little_os.Memory.{AddrAlloc}
use little_os.Memory.Single.{Grown, Grown-refl}
use little_os.Irq.Protect.{protection}
use little_os.Thread.{running}
use little_os.Tss.{TssTask, System, state_node, ready_list, task_time_ticks}
use little_os.Tss.Places.{InPage-small, InPage-Grown, nodes, nodes-append}
use little_os.Tss.Ready.{task_dispatch_self, task_dispatch-next}
use little_os.Tss.Robin.{Turn, tasks, Holds, IsSystem, IsRobin, robin_tick}
use little_os.Tss.Ticks.{inside, counted, counting, back, rested, renewed, tick_within, tick_end}
use little_os.Tss.Waiting.{AllWait-append, AllWait-kept, tasks-append, update_other, update_self}

module _ (mgr : Ptr) (k : System) (gs : List Ptr) (e : Turn) (es : List Turn)
    (is : IsSystem mgr k gs e es) where
  pub cur_apart : Away (state_node k.cur_task) (nodes 120 (tasks es))
  cur_apart =
      Away-left (state_node k.cur_task) (nodes 120 (tasks es)) (tail (ready_list mgr) ∷ [])
        is.queue.apart.1.0

  within-IsSystem :
      e.left ≢ 1
      → IsSystem mgr
          (record k { task = counting mgr k gs e es is })
          gs
          (record e { left = e.left - 1 })
          es
  within-IsSystem h = record {
    manager = is.manager;
    below = is.below;
    general = is.general;
    queue = is.queue;
    all = is.all;
    now = is.now;
    value = counted mgr k gs e es is;
    current = record {
      stored = update_self k.task k.cur_task _;
      page = is.current.page;
      ticks = ground (arith, is.current.ticks, is.current.some_left, is.current.small_left);
      default_ticks = is.current.default_ticks;
      some_left = omega (arith, is.current.some_left);
      some_slice = is.current.some_slice;
      small_left = omega (arith, is.current.small_left);
      small_slice = is.current.small_slice;
    };
    waiting =
        AllWait-kept k.manager k.manager k.task (counting mgr k gs e es is) k.cur_task 120 es
          (Grown-refl is.manager) (update_other k.task k.cur_task _) cur_apart is.waiting;
  }

  -- The task whose slice has ended, as the last of the queue.
  renewed-Holds :
      (m : AddrAlloc) (task : Ptr → Option TssTask)
      → task k.cur_task ≡ some (rested mgr k gs e es is)
      → Grown k.manager m
      → Holds m task (record e { task = k.cur_task; left = e.slice }) (rested mgr k gs e es is)
  renewed-Holds m task stored g = record {
    stored = stored;
    page = InPage-Grown k.cur_task g is.current.page;
    ticks = is.current.default_ticks;
    default_ticks = is.current.default_ticks;
    some_left = is.current.some_slice;
    some_slice = is.current.some_slice;
    small_left = is.current.small_slice;
    small_slice = is.current.small_slice;
  }

  renewed_self : renewed mgr k gs e es is k.cur_task ≡ some (rested mgr k gs e es is)
  renewed_self = update_self (back mgr k gs e es is) k.cur_task (some (rested mgr k gs e es is))

  renewed_other : (p : Ptr) → p ≢ k.cur_task → renewed mgr k gs e es is p ≡ k.task p
  renewed_other p ne = rw (==_of_ne p k.cur_task ne)

-- A task alone goes on with a new slice.
alone_tick :
    (mgr : Ptr) (k : System) (gs : List Ptr) (e : Turn) (is : IsSystem mgr k gs e [])
    → e.left ≡ 1
    → (k' : System) × (task_time_ticks mgr k ≡ ok tt k')
      × IsRobin mgr k' gs (record e { left = e.slice } ∷ [])
      × (k'.eflags ≡ k.eflags)
alone_tick mgr k gs e is h =
    let (g, run, queue, general) = tick_end mgr k gs e [] is h in
    let k₁ : System = record (inside mgr k gs e [] is) {
      heap = g;
      task = renewed mgr k gs e [] is;
    } in
    (
      record k { heap = g; task = renewed mgr k gs e [] is },
      run
          ∙ (rw (
            task_dispatch_self mgr k₁ [] queue
                (InPage-small k.cur_task 120 is.manager is.current.page (omega arith)),
            (protection k.eflags).2,
          )),
      record {
        manager = is.manager;
        below = is.below;
        general = general;
        queue = queue;
        all = is.all;
        now = is.now;
        value = rested mgr k gs e [] is;
        current =
            renewed-Holds mgr k gs e [] is k.manager (renewed mgr k gs e [] is)
              (renewed_self mgr k gs e [] is) (Grown-refl is.manager);
        waiting = tt;
      },
      refl,
    )

-- Another task in the queue takes the processor.
next_tick :
    (mgr : Ptr) (k : System) (gs : List Ptr) (e u : Turn) (us : List Turn)
    (is : IsSystem mgr k gs e (u ∷ us))
    → e.left ≡ 1
    → (k' : System) × (task_time_ticks mgr k ≡ ok tt k')
      × IsRobin mgr k' gs (u ∷ (us ++ (record e { left = e.slice } ∷ [])))
      × (k'.eflags ≡ k.eflags)
next_tick mgr k gs e u us is h =
    let (g, run, queue, general) = tick_end mgr k gs e (u ∷ us) is h in
    let old = renewed mgr k gs e (u ∷ us) is in
    let w : TssTask = is.waiting.0.0 in
    let holds : Holds k.manager k.task u w = is.waiting.0.1 in
    let other : u.task ≢ k.cur_task = λ z. (cur_apart mgr k gs e (u ∷ us) is).0 (omega arith) in
    let k₁ : System = record (inside mgr k gs e (u ∷ us) is) { heap = g; task = old } in
    let at : old u.task ≡ some w =
      renewed_other mgr k gs e (u ∷ us) is u.task other ∙ holds.stored in
    let last : List Turn = record e { left = e.slice } ∷ [] in
    let same = Grown-refl is.manager in
    let apart : Away (state_node u.task) (nodes 120 (tasks us)) =
      Away-left (state_node u.task) (nodes 120 (tasks us)) (tail (ready_list mgr) ∷ [])
        is.queue.apart.1.1.0 in
    let new : Ptr → Option TssTask = update old u.task (some (record w { status = running })) in
    (
      record k { heap = g; cur_task = u.task; task = new; tr = w.tss_sel },
      run
          ∙ (rw (
            task_dispatch-next mgr k₁ u.task w _ queue
                (InPage-small u.task 120 is.manager holds.page (omega arith)) other at
                is.waiting.0.2,
            (protection k.eflags).2,
          )),
      record {
        manager = is.manager;
        below = is.below;
        general = general;
        queue = rw (tasks-append us last, nodes-append 120 (tasks us) (tasks last), ← is.now) queue;
        all = is.all;
        now = refl;
        value = record w { status = running };
        current = record {
          stored = update_self old u.task _;
          page = holds.page;
          ticks = holds.ticks;
          default_ticks = holds.default_ticks;
          some_left = holds.some_left;
          some_slice = holds.some_slice;
          small_left = holds.small_left;
          small_slice = holds.small_slice;
        };
        waiting =
            AllWait-append k.manager new us last
              (AllWait-kept k.manager k.manager old new u.task 120 us same
                (update_other old u.task _) apart
                (AllWait-kept k.manager k.manager k.task old k.cur_task 120 us same
                  (renewed_other mgr k gs e (u ∷ us) is) (cur_apart mgr k gs e (u ∷ us) is).1
                  is.waiting.1))
              (
                (
                  rested mgr k gs e (u ∷ us) is,
                  rw (← is.now) (
                      renewed-Holds mgr k gs e (u ∷ us) is k.manager new
                        (update_other old u.task _ k.cur_task (λ z. other (sym z))
                          ∙ renewed_self mgr k gs e (u ∷ us) is)
                        same),
                  refl,
                ),
                tt,
              );
      },
      refl,
    )

tick_end-IsRobin :
    (mgr : Ptr) (k : System) (gs : List Ptr) (e : Turn) (es : List Turn)
    (is : IsSystem mgr k gs e es)
    → e.left ≡ 1
    → (k' : System) × (task_time_ticks mgr k ≡ ok tt k')
      × IsRobin mgr k' gs (es ++ (record e { left = e.slice } ∷ []))
      × (k'.eflags ≡ k.eflags)
tick_end-IsRobin mgr k gs e [] is h = alone_tick mgr k gs e is h
tick_end-IsRobin mgr k gs e (u ∷ us) is h = next_tick mgr k gs e u us is h

-- When the ready queue is well formed with each slice from 1 to below 2 ^ 31, task_time_ticks on
-- the tasks in memory does what robin_tick does to the queue, and leaves the flags as they were.
pub task_time_ticks-robin_tick :
    (mgr : Ptr) (k : System) (gs : List Ptr) (q : List Turn)
    → IsRobin mgr k gs q
    → (k' : System) × (task_time_ticks mgr k ≡ ok tt k')
      × IsRobin mgr k' gs (robin_tick q)
      × (k'.eflags ≡ k.eflags)
unfolding robin_tick
task_time_ticks-robin_tick mgr k gs [] is = absurd is
task_time_ticks-robin_tick mgr k gs (e ∷ es) is = elim (Bool-cases (e.left == 1)) [
  | inl done ↦ rw done (tick_end-IsRobin mgr k gs e es is ((==_iff e.left 1).0 done))
  | inr more ↦
      (let ne : e.left ≢ 1 = λ z. ground (arith) in
        rw more (
          record k { task = counting mgr k gs e es is },
          tick_within mgr k gs e es is ne,
          within-IsSystem mgr k gs e es is ne,
          refl,
        ))
]
