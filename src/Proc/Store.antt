-- ===== src/Proc/Store.antt =====
-- Reads and writes of processes.
use little_os.Base.{
  ℕ, ◌<◌, ◌^◌, ◌≡◌, ◌∙◌, ap, fun_ext, arith, Option, some, update, ==_of_ne, ==_refl,
}
use little_os.Cmd.{ok}
use little_os.Klib.{kstrcpy}
use little_os.Klist.{Ptr, null}
use little_os.Mem.{Memory}
use little_os.Proc.{
  ProcPcb, Procs, state_node, proc_of, get_proc, change_proc, change_context, Context, copy_name,
}

pub get_proc-ok : {p : Ptr} {v : ProcPcb} (k : Procs) → k.proc p ≡ some v → get_proc p k ≡ ok v k
unfolding get_proc
get_proc-ok k e = rw (e, get_proc)

pub change_proc-ok :
    {p : Ptr} {v : ProcPcb} (f : ProcPcb → ProcPcb) (k : Procs)
    → k.proc p ≡ some v
    → change_proc p f k ≡ ok tt (record k { proc = update k.proc p (some (f v)) })
unfolding change_proc
change_proc-ok f k e = rw (e, change_proc)

pub proc_of-state_node : (t : Ptr) → state_node t < 2 ^ 32 → proc_of (state_node t) ≡ t
proc_of-state_node t h = rw (==_of_ne (state_node t) null (omega arith)) (omega arith)

pub write_again :
    (proc : Ptr → Option ProcPcb) (p : Ptr) (a b : Option ProcPcb)
    → update (update proc p a) p b ≡ update proc p b
write_again proc p a b = fun_ext (λ q. ground arith)

-- A second write to a process takes the place of the first.
pub change_proc-again :
    (f : ProcPcb → ProcPcb) (k : Procs) (p : Ptr) (v : ProcPcb)
    → change_proc p f (record k { proc = update k.proc p (some v) })
      ≡ ok tt (record k { proc = update k.proc p (some (f v)) })
change_proc-again f k p v =
    change_proc-ok {v = v} f (record k { proc = update k.proc p (some v) }) (rw (==_refl p))
    ∙ ap (λ T. ok tt (record k { proc = T })) (write_again k.proc p (some v) (some (f v)))

pub get_proc-again :
    (k : Procs) (p : Ptr) (v : ProcPcb)
    → get_proc p (record k { proc = update k.proc p (some v) })
      ≡ ok v (record k { proc = update k.proc p (some v) })
get_proc-again k p v =
    get_proc-ok {v = v} (record k { proc = update k.proc p (some v) }) (rw (==_refl p))

context_again :
    (contexts : Ptr → Context) (p : Ptr) (a b : Context)
    → update (update contexts p a) p b ≡ update contexts p b
context_again contexts p a b = fun_ext (λ q. ground arith)

-- Writes to the context of a process that was written before.
pub change_context-new :
    (f : Context → Context) (k : Procs) (p : Ptr) (v : ProcPcb)
    → change_context p f (record k { proc = update k.proc p (some v) })
      ≡ ok tt (record k {
        proc = update k.proc p (some v);
        contexts = update k.contexts v.context (f (k.contexts v.context));
      })
change_context-new f k p v = rw (get_proc-again k p v)

pub change_context-again :
    (f : Context → Context) (k : Procs) (p : Ptr) (v : ProcPcb) (c : Context)
    → change_context p f
        (record k { proc = update k.proc p (some v); contexts = update k.contexts v.context c })
      ≡ ok tt (record k {
        proc = update k.proc p (some v);
        contexts = update k.contexts v.context (f c);
      })
change_context-again f k p v c =
    rw
      (
        get_proc-again (record k { contexts = update k.contexts v.context c }) p v,
        ==_refl v.context,
      )
      (ap (λ C. ok tt (record k { proc = update k.proc p (some v); contexts = C }))
        (context_again k.contexts v.context c (f c)))

pub copy_name-ok :
    (fuel : ℕ) (dest src : Ptr) (k : Procs) (m : Memory)
    → kstrcpy fuel k.mem dest src ≡ some m
    → copy_name fuel dest src k ≡ ok tt (record k { mem = m })
unfolding copy_name
copy_name-ok fuel dest src k m e = rw (e, copy_name)
