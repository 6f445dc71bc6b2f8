-- ===== src/Tss/Store.antt =====
-- Reads and writes of tasks.
use little_os.Base.{◌<◌, ◌^◌, ◌≡◌, ◌∙◌, ap, fun_ext, arith, Option, some, update, ==_of_ne, ==_refl}
use little_os.Cmd.{ok}
use little_os.Klist.{Ptr, null}
use little_os.Tss.{TssTask, System, state_node, task_of, get_task, change_task}

pub get_task-ok : {p : Ptr} {v : TssTask} (k : System) → k.task p ≡ some v → get_task p k ≡ ok v k
unfolding get_task
get_task-ok k e = rw (e, get_task)

pub change_task-ok :
    {p : Ptr} {v : TssTask} (f : TssTask → TssTask) (k : System)
    → k.task p ≡ some v
    → change_task p f k ≡ ok tt (record k { task = update k.task p (some (f v)) })
unfolding change_task
change_task-ok f k e = rw (e, change_task)

pub task_of-state_node : (t : Ptr) → state_node t < 2 ^ 32 → task_of (state_node t) ≡ t
task_of-state_node t h = rw (==_of_ne (state_node t) null (omega arith)) (omega arith)

pub update_again :
    (task : Ptr → Option TssTask) (p : Ptr) (a b : Option TssTask)
    → update (update task p a) p b ≡ update task p b
update_again task p a b = fun_ext (λ q. ground arith)

-- A second write to a task takes the place of the first.
pub change_task-again :
    (f : TssTask → TssTask) (k : System) (p : Ptr) (v : TssTask)
    → change_task p f (record k { task = update k.task p (some v) })
      ≡ ok tt (record k { task = update k.task p (some (f v)) })
change_task-again f k p v =
    change_task-ok {v = v} f (record k { task = update k.task p (some v) }) (rw (==_refl p))
    ∙ ap (λ T. ok tt (record k { task = T })) (update_again k.task p (some v) (some (f v)))

pub get_task-again :
    (k : System) (p : Ptr) (v : TssTask)
    → get_task p (record k { task = update k.task p (some v) })
      ≡ ok v (record k { task = update k.task p (some v) })
get_task-again k p v =
    get_task-ok {v = v} (record k { task = update k.task p (some v) }) (rw (==_refl p))
