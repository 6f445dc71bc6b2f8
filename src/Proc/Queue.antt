-- ===== src/Proc/Queue.antt =====
-- The ready queue of processes, and the switch to another process.
use little_os.Base.{
  Option, ◌+◌, ◌<◌, ◌%◌, ◌^◌, ◌≡◌, ◌≢◌, refl, sym, arith, some, List, [], ◌∷◌, ◌++◌, length, update,
  ==_of_ne, ==_refl, ◌==◌, Bool-cases, inl, inr, true, if◌then◌else◌,
}
use little_os.Base.Word.{sub32}
use little_os.Cmd.{ok}
use little_os.Klist.{Ptr, null, Heap, klist_len, get_len}
use little_os.Klist.Chain.{Away, ring, IsList}
use little_os.Klist.Frame.{Untouched, Untouched-trans}
use little_os.Klist.Insert.{klist_append-IsList}
use little_os.Klist.Find.{klist_ends}
use little_os.Klist.Remove.{klist_remove-hit, klist_remove-miss}
use little_os.Irq.{irq_leave_protection}
use little_os.Thread.{running, ready, task_ticks_default}
use little_os.Proc.{ProcPcb, Procs, unsaved_context, state_node, ready_list, cur_proc}
use little_os.Proc.Switch.{
  proc_fifo, proc_schedule, proc_set_ready, proc_dispatch, proc_switch, update_tss_esp0,
  proc_time_ticks,
}
use little_os.Proc.Store.{
  get_proc-ok, get_proc-again, change_proc-ok, change_proc-again, proc_of-state_node,
}

-- The process `t`, stored as `v`, has given way to `u`, stored as `w`, with a context that leaves
-- the kernel's privilege.
abbrev pub switched : Ptr → Ptr → ProcPcb → ProcPcb → Procs → Procs
switched t u v w k = record k {
  proc =
      update (update k.proc u (some (record w { status = running }))) t
        (some (record v { ifsaved_context = unsaved_context }));
  cur_proc = u;
  cr3 = w.pgdir;
  tss = record k.tss { esp0 = w.kstack };
  cpu = record (k.contexts w.context) { esp_dummy = k.cpu.esp_dummy };
  eflags = (k.contexts w.context).eflags;
}

module _ (mgr : Ptr) where
  -- The first of the queue goes to its end.
  pub proc_set_ready-first :
      (k : Procs) (t : Ptr) (v : ProcPcb) (xs : List Ptr)
      → IsList k.heap (ready_list mgr) (state_node t ∷ xs)
      → (g : Heap) × (proc_set_ready mgr t (record k { proc = update k.proc t (some v) })
          ≡ ok tt
              (record k { heap = g; proc = update k.proc t (some (record v { status = ready })) }))
        × IsList g (ready_list mgr) (xs ++ (state_node t ∷ []))
        × Untouched k.heap g (ready_list mgr) (ring (ready_list mgr) (state_node t ∷ xs))
  unfolding proc_set_ready
  proc_set_ready-first k t v xs is =
      let l : Ptr = ready_list mgr in
      let n : Ptr = state_node t in
      let (g₁, run₁, is₁, same₁) =
        klist_remove-hit (k.heap.len l + 2) n [] xs is (omega (arith, is.count)) in
      let out : Away n (ring l xs) = ((λ z. is.apart.0.0 (sym z)), is.apart.1.0) in
      let (g₂, run₂, is₂, same₂) =
        klist_append-IsList is₁ (λ z. is.real.1.0 (sym z)) out (omega (arith, is.small)) in
      (
        g₂,
        rw (
          run₁,
          change_proc-again (λ v. record v { status = ready }) (record k { heap = g₁ }) t v,
          run₂,
        ),
        is₂,
        Untouched-trans same₁ same₂ (λ p w. (w.1.0, (w.0, w.1.1))),
      )

  -- A process that was written before and is not in the queue goes to its end.
  pub proc_set_ready-new :
      (k : Procs) (t : Ptr) (v : ProcPcb) (xs : List Ptr)
      → IsList k.heap (ready_list mgr) xs
      → state_node t ≢ null
      → Away (state_node t) (ring (ready_list mgr) xs)
      → length xs + 1 < 2 ^ 31
      → (g : Heap) × (proc_set_ready mgr t (record k { proc = update k.proc t (some v) })
          ≡ ok tt
              (record k { heap = g; proc = update k.proc t (some (record v { status = ready })) }))
        × IsList g (ready_list mgr) (xs ++ (state_node t ∷ []))
        × Untouched k.heap g (ready_list mgr) (state_node t ∷ ring (ready_list mgr) xs)
  unfolding proc_set_ready
  proc_set_ready-new k t v xs is real out room =
      let miss =
        klist_remove-miss (k.heap.len (ready_list mgr) + 2) (state_node t) xs is out.1
          (omega (arith, is.count)) in
      let (g, run, is', same) = klist_append-IsList is real out room in
      (g, rw (miss, change_proc-again (λ v. record v { status = ready }) k t v, run), is', same)

  -- When the current process is the first of the well-formed ready queue, with its node at a
  -- 32-bit address, proc_dispatch changes nothing but that the flags are set as irq_state says,
  -- and that only if it is alone: with others behind it they stay as they are.
  pub proc_dispatch_first :
      (k : Procs) (xs : List Ptr)
      → IsList k.heap (ready_list mgr) (state_node k.cur_proc ∷ xs)
      → state_node k.cur_proc < 2 ^ 32
      → proc_dispatch mgr k
        ≡ ok tt (record k {
          eflags = if length xs == 0 then irq_leave_protection k.eflags k.irq_state else k.eflags;
        })
  unfolding proc_dispatch proc_schedule proc_fifo cur_proc klist_len get_len
  proc_dispatch_first k xs is small =
      let alone : (k.heap.len (ready_list mgr) == 1) ≡ (length xs == 0) =
        ground (arith, is.count) in
      rw
        (
          (klist_ends is).0,
          proc_of-state_node k.cur_proc small,
          ==_refl k.cur_proc,
          ==_of_ne (ready_list mgr) null (λ z. is.real.0 (sym z)),
          alone,
        )
        (elim (Bool-cases (length xs == 0)) [ inl h ↦ rw h | inr h ↦ rw h ])

  -- Another process at the front of the queue, which is ready, takes the processor.
  pub proc_dispatch-next :
      (k : Procs) (u : Ptr) (v w : ProcPcb) (xs : List Ptr)
      → IsList k.heap (ready_list mgr) (state_node u ∷ xs)
      → state_node u < 2 ^ 32
      → u ≢ k.cur_proc
      → k.proc k.cur_proc ≡ some v
      → k.proc u ≡ some w
      → w.status ≡ ready
      → (k.contexts w.context).cs % 4 ≢ 0
      → proc_dispatch mgr k ≡ ok tt (switched k.cur_proc u v w k)
  unfolding proc_dispatch proc_schedule proc_fifo cur_proc update_tss_esp0 proc_switch
  proc_dispatch-next k u v w xs is small ne ev ew st outer =
      let w' : ProcPcb = record w { status = running } in
      let k₁ : Procs = record k { cur_proc = u; proc = update k.proc u (some w') } in
      let T : Ptr → Option ProcPcb =
        update k₁.proc k.cur_proc (some (record v { ifsaved_context = unsaved_context })) in
      let at : k₁.proc k.cur_proc ≡ some v = rw (==_of_ne k.cur_proc u (λ e. ne (sym e))) ev in
      let there : T u ≡ some w' = rw (==_of_ne u k.cur_proc ne, ==_refl u) refl in
      let k₂ : Procs = record k₁ { proc = T } in
      let k₃ : Procs = record k₂ { cr3 = w.pgdir } in
      let k₄ : Procs = record k₃ {
        tss = record k.tss { esp0 = w.kstack };
        eflags = irq_leave_protection k.eflags k.irq_state;
      } in
      rw (
        (klist_ends is).0,
        proc_of-state_node u small,
        ==_of_ne u k.cur_proc ne,
        get_proc-ok {v = w} k ew,
        st,
        change_proc-ok {v = w} (λ v. record v { status = running }) (record k { cur_proc = u }) ew,
        change_proc-ok {v = v} (λ v. record v { ifsaved_context = unsaved_context }) k₁ at,
        get_proc-ok {v = w'} k₂ there,
        get_proc-ok {v = w'} k₃ there,
        get_proc-ok {v = w'} k₄ there,
        ==_of_ne ((k.contexts w.context).cs % 4) 0 outer,
      )

  -- When the time slice of the current process, the first of the well-formed ready queue, ends
  -- with a tick, and the second one, u, is ready, with its node at a 32-bit address and a
  -- context that runs outside the kernel's privilege, proc_time_ticks moves the current process
  -- to the end of the queue, as ready and with five ticks, and starts u: its page directory,
  -- its kernel stack and the registers of its context are loaded, its flags too, and nothing of
  -- the other processes changes.
  pub proc_time_ticks-next :
      (k : Procs) (u : Ptr) (v w : ProcPcb) (xs : List Ptr)
      → IsList k.heap (ready_list mgr) (state_node k.cur_proc ∷ state_node u ∷ xs)
      → state_node u < 2 ^ 32
      → k.proc k.cur_proc ≡ some v
      → v.ticks ≡ 1
      → k.proc u ≡ some w
      → w.status ≡ ready
      → (k.contexts w.context).cs % 4 ≢ 0
      → (g : Heap) × (proc_time_ticks mgr k
          ≡ ok tt (
              switched k.cur_proc u
                (record v { ticks = task_ticks_default; status = ready })
                w
                (record k {
                  heap = g;
                  proc =
                      update k.proc k.cur_proc
                        (some (record v { ticks = task_ticks_default; status = ready }));
                })))
        × IsList g (ready_list mgr) (state_node u ∷ (xs ++ (state_node k.cur_proc ∷ [])))
        × Untouched k.heap g
            (ready_list mgr)
            (ring (ready_list mgr) (state_node k.cur_proc ∷ state_node u ∷ xs))
  unfolding proc_time_ticks cur_proc
  proc_time_ticks-next k u v w xs is small ev last ew st outer =
      let cur = k.cur_proc in
      let v₁ : ProcPcb = record v { ticks = sub32 v.ticks 1 } in
      let v₂ : ProcPcb = record v₁ { status = ready } in
      let v₃ : ProcPcb = record v { ticks = task_ticks_default; status = ready } in
      let (g, run, is', same) = proc_set_ready-first k cur v₁ (state_node u ∷ xs) is in
      let k₁ : Procs = record k { heap = g } in
      let k₂ : Procs = record k₁ { proc = update k.proc cur (some v₃) } in
      let ne : u ≢ cur = λ z. is.apart.1.0.0 (omega arith) in
      let zero_test : (sub32 v.ticks 1 == 0) ≡ true = ground arith in
      let there : k₂.proc u ≡ some w = rw (==_of_ne u cur ne) ew in
      (
        g,
        rw (
          change_proc-ok {v = v} (λ v. record v { ticks = sub32 v.ticks 1 }) k ev,
          get_proc-again k cur v₁,
          zero_test,
          run,
          change_proc-again (λ v. record v { ticks = task_ticks_default }) k₁ cur v₂,
          proc_dispatch-next k₂ u v₃ w (xs ++ (state_node cur ∷ [])) is' small ne (rw (==_refl cur))
              there st outer,
        ),
        is',
        same,
      )
