-- ===== src/Tss/Fair.antt =====
-- Every task in the ready queue gets its turn.
use little_os.Base.{
  ℕ, zero, suc, ◌+◌, ◌-◌, ◌<◌, ◌≡◌, refl, ◌∙◌, ap, arith, List, [], ◌∷◌, ◌++◌, ==_of_ne, ◌==◌, true,
  false, append_assoc,
}
use mathlib.Core.List.{append-nil}
use little_os.Cmd.{ok, Cmd, pure, ◌>>◌}
use little_os.Klist.{Ptr}
use little_os.Tss.{System, task_time_ticks}
use little_os.Tss.Robin.{Turn, AllWait, IsRobin, robin_tick}
use little_os.Tss.Refines.{task_time_ticks-robin_tick}

-- So many ticks, one after the other.
pub ticks : Ptr → ℕ → Cmd System (Unit {0})
ticks mgr zero = pure tt
ticks mgr (suc n) = task_time_ticks mgr >> ticks mgr n

robin_run : ℕ → List Turn → List Turn
robin_run zero q = q
robin_run (suc n) q = robin_run n (robin_tick q)

-- What is left of the slices.
abbrev pub total : List Turn → ℕ
total [] = 0
total (e ∷ es) = e.left + total es

-- The tasks with new slices.
abbrev pub refresh : List Turn → List Turn
refresh [] = []
refresh (e ∷ es) = record e { left = e.slice } ∷ refresh es

abbrev Started : List Turn → Type 0
Started [] = Unit
Started (e ∷ es) = (0 < e.left) × Started es

robin_run-add : (m n : ℕ) (q : List Turn) → robin_run (m + n) q ≡ robin_run n (robin_run m q)
unfolding robin_run
robin_run-add zero n q = let e : zero + n ≡ n = omega arith in rw e
robin_run-add (suc m) n q =
    let e : suc m + n ≡ suc (m + n) = omega arith in rw e (robin_run-add m n (robin_tick q))

robin_slice :
    (n : ℕ) (e : Turn) (es : List Turn)
    → e.left ≡ suc n
    → robin_run (suc n) (e ∷ es) ≡ es ++ (record e { left = e.slice } ∷ [])
unfolding robin_run robin_tick
robin_slice zero e es h = let t : (e.left == 1) ≡ true = ground (arith) in rw t
robin_slice (suc n) e es h =
    let t : (e.left == 1) ≡ false = ==_of_ne e.left 1 (omega arith) in
    rw t (robin_slice n (record e { left = e.left - 1 }) es (omega arith))

robin_turn :
    (es : List Turn) (t : Turn) (fs : List Turn)
    → Started es
    → robin_run (total es) (es ++ (t ∷ fs)) ≡ t ∷ (fs ++ refresh es)
unfolding robin_run
robin_turn [] t fs h = rw append-nil
robin_turn (e ∷ es) t fs h =
    let p : e.left ≡ suc (e.left - 1) = omega (arith, h.0) in
    robin_run-add e.left (total es) (e ∷ (es ++ (t ∷ fs)))
    ∙ ap (robin_run (total es)) (
        ap (λ n. robin_run n (e ∷ (es ++ (t ∷ fs)))) p
        ∙ robin_slice (e.left - 1) e (es ++ (t ∷ fs)) p
        ∙ append_assoc es (t ∷ fs) (record e { left = e.slice } ∷ []))
    ∙ robin_turn es t (fs ++ (record e { left = e.slice } ∷ [])) h.1
    ∙ ap (λ l. t ∷ l) (append_assoc fs (record e { left = e.slice } ∷ []) (refresh es))

ticks-robin_run :
    (mgr : Ptr) (n : ℕ) (k : System) (gs : List Ptr) (q : List Turn)
    → IsRobin mgr k gs q
    → (k' : System) × (ticks mgr n k ≡ ok tt k') × IsRobin mgr k' gs (robin_run n q)
unfolding ticks robin_run
ticks-robin_run mgr zero k gs q is = (k, refl, is)
ticks-robin_run mgr (suc n) k gs q is =
    let (k₁, run₁, is₁, flags) = task_time_ticks-robin_tick mgr k gs q is in
    let (k₂, run₂, is₂) = ticks-robin_run mgr n k₁ gs (robin_tick q) is₁ in
    (k₂, rw (run₁, run₂), is₂)

waiting-Started :
    (mgr : Ptr) (k : System) (es fs : List Turn) → AllWait k.manager k.task (es ++ fs) → Started es
waiting-Started mgr k [] fs a = tt
waiting-Started mgr k (e ∷ es) fs a = (a.0.1.some_left, waiting-Started mgr k es fs a.1)

queue-Started :
    (mgr : Ptr) (k : System) (gs : List Ptr) (es : List Turn) (t : Turn) (fs : List Turn)
    → IsRobin mgr k gs (es ++ (t ∷ fs))
    → Started es
queue-Started mgr k gs [] t fs is = tt
queue-Started mgr k gs (e ∷ es) t fs is =
    (is.current.some_left, waiting-Started mgr k es (t ∷ fs) is.waiting)

first-now :
    (mgr : Ptr) (k : System) (gs : List Ptr) (t : Turn) (fs : List Turn)
    → IsRobin mgr k gs (t ∷ fs)
    → k.cur_task ≡ t.task
first-now mgr k gs t fs is = is.now

-- A task t that stands in the ready queue behind the tasks es becomes the current task after as
-- many ticks as are left of the slices of es, all of which run through; the queue is then t, the
-- tasks that stood behind it, and es with new slices.
pub ticks-turn :
    (mgr : Ptr) (k : System) (gs : List Ptr) (es : List Turn) (t : Turn) (fs : List Turn)
    → IsRobin mgr k gs (es ++ (t ∷ fs))
    → (k' : System) × (ticks mgr (total es) k ≡ ok tt k')
      × (k'.cur_task ≡ t.task)
      × IsRobin mgr k' gs (t ∷ (fs ++ refresh es))
ticks-turn mgr k gs es t fs is =
    let (k', run, is') = ticks-robin_run mgr (total es) k gs (es ++ (t ∷ fs)) is in
    let turn : IsRobin mgr k' gs (t ∷ (fs ++ refresh es)) =
      rw (robin_turn es t fs (queue-Started mgr k gs es t fs is)) at is' in
    (k', run, first-now mgr k' gs t (fs ++ refresh es) turn, turn)
