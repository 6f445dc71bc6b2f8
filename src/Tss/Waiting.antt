-- ===== src/Tss/Waiting.antt =====
-- The tasks that wait, when another task changes and when the manager gives out pages.
use little_os.Base.{
  Option, ◌+◌, ◌≡◌, ◌≢◌, refl, ◌∙◌, arith, List, [], ◌∷◌, ◌++◌, length, update, ==_of_ne, ==_refl,
}
use little_os.Klist.{Ptr}
use little_os.Klist.Chain.{Away}
use little_os.Memory.{AddrAlloc}
use little_os.Memory.Single.{Grown}
use little_os.Tss.{TssTask}
use little_os.Tss.Places.{All, InPage, InPage-Grown, nodes}
use little_os.Tss.Robin.{Turn, tasks, Holds, AllWait}

pub tasks-append : (es fs : List Turn) → tasks (es ++ fs) ≡ tasks es ++ tasks fs
tasks-append [] fs = refl
tasks-append (e ∷ es) fs = rw (tasks-append es fs)

pub length-tasks : (es : List Turn) → length (tasks es) ≡ length es
length-tasks [] = refl
length-tasks (e ∷ es) = omega (arith, length-tasks es)

pub AllWait-append :
    (m : AddrAlloc) (task : Ptr → Option TssTask) (es fs : List Turn)
    → AllWait m task es
    → AllWait m task fs
    → AllWait m task (es ++ fs)
AllWait-append m task [] fs a b = b
AllWait-append m task (e ∷ es) fs a b = (a.0, AllWait-append m task es fs a.1 b)

-- Tasks that are stored as before are held as before, also in a manager that has given out more.
pub Holds-kept :
    (m w : AddrAlloc) (task task' : Ptr → Option TssTask) (e : Turn) (v : TssTask)
    → Grown m w
    → task' e.task ≡ task e.task
    → Holds m task e v
    → Holds w task' e v
Holds-kept m w task task' e v g same h = record {
  stored = same ∙ h.stored;
  page = InPage-Grown e.task g h.page;
  ticks = h.ticks;
  default_ticks = h.default_ticks;
  some_left = h.some_left;
  some_slice = h.some_slice;
  small_left = h.small_left;
  small_slice = h.small_slice;
}

pub AllWait-kept :
    (m w : AddrAlloc) (task task' : Ptr → Option TssTask) (t x : Ptr) (es : List Turn)
    → Grown m w
    → ((p : Ptr) → p ≢ t → task' p ≡ task p)
    → Away (t + x) (nodes x (tasks es))
    → AllWait m task es
    → AllWait w task' es
AllWait-kept m w task task' t x [] g same out a = tt
AllWait-kept m w task task' t x (e ∷ es) g same out a = (
  (
    a.0.0,
    Holds-kept m w task task' e a.0.0 g (same e.task (λ z. out.0 (omega arith))) a.0.1,
    a.0.2,
  ),
  AllWait-kept m w task task' t x es g same out.1 a.1,
)

-- A write to one task.
pub update_other :
    (task : Ptr → Option TssTask) (t : Ptr) (v : Option TssTask) (p : Ptr)
    → p ≢ t
    → update task t v p ≡ task p
update_other task t v p ne = rw (==_of_ne p t ne)

pub update_self :
    (task : Ptr → Option TssTask) (t : Ptr) (v : Option TssTask) → update task t v t ≡ v
update_self task t v = rw (==_refl t)

pub All-pages :
    (m : AddrAlloc) (task : Ptr → Option TssTask) (es : List Turn)
    → AllWait m task es
    → All (InPage m) (tasks es)
All-pages m task [] a = tt
All-pages m task (e ∷ es) a = (a.0.1.page, All-pages m task es a.1)
