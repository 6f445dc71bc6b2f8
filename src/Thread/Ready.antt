-- ===== src/Thread/Ready.antt =====
-- The ready queue of threads.
use little_os.Base.{
  ◌+◌, ◌<◌, ◌^◌, ◌≡◌, ◌≢◌, sym, arith, some, List, [], ◌∷◌, ◌++◌, length, update, ==_of_ne,
  length-append, append_assoc,
}
use little_os.Cmd.{ok}
use little_os.Klist.{Ptr, null, Heap, tail}
use little_os.Klist.Chain.{Away, Distinct, Distinct-drop, Away-drop, ring, IsList}
use little_os.Klist.Frame.{Untouched, Untouched-trans}
use little_os.Klist.Insert.{klist_append-IsList, klist_push-IsList}
use little_os.Klist.Remove.{klist_remove-hit, klist_remove-miss}
use little_os.Thread.{
  Threads, ThreadPcb, ready, get_thread, state_node, thread_of, ready_list, thread_set_ready,
  thread_push_ready,
}

pub get_thread-ok :
    {p : Ptr} {v : ThreadPcb} (k : Threads) → k.thread p ≡ some v → get_thread p k ≡ ok v k
unfolding get_thread
get_thread-ok k e = rw (e, get_thread)

pub thread_of-state_node : (t : Ptr) → state_node t < 2 ^ 32 → thread_of (state_node t) ≡ t
thread_of-state_node t h = rw (==_of_ne (state_node t) null (omega arith)) (omega arith)

ring_drop :
    (p n l : Ptr) (xs ys : List Ptr)
    → Away p (ring l (xs ++ (n ∷ ys)))
    → (p ≢ n) × Away p (ring l (xs ++ ys))
ring_drop p n l xs ys w =
    let r = Away-drop p n (l ∷ xs) (ys ++ (tail l ∷ [])) (rw append_assoc at w) in
    (r.0, rw append_assoc r.1)

module _ (mgr : Ptr) where
  -- thread_set_ready of a thread that stands in the well-formed ready queue moves it to the
  -- queue's end as ready; the others keep their order, and nothing outside the queue changes.
  pub thread_set_ready-ok :
      (k : Threads) (t : Ptr) (v : ThreadPcb) (xs ys : List Ptr)
      → k.thread t ≡ some v
      → IsList k.heap (ready_list mgr) (xs ++ (state_node t ∷ ys))
      → (g : Heap) × (thread_set_ready mgr t k
          ≡ ok tt (record k {
            heap = g;
            thread = update k.thread t (some (record v { status = ready }));
          }))
        × IsList g (ready_list mgr) ((xs ++ ys) ++ (state_node t ∷ []))
        × Untouched k.heap g (ready_list mgr) (ring (ready_list mgr) (xs ++ (state_node t ∷ ys)))
  unfolding thread_set_ready
  thread_set_ready-ok k t v xs ys e is =
      let l : Ptr = ready_list mgr in
      let n : Ptr = state_node t in
      let total = length-append xs (n ∷ ys) in
      let less = length-append xs ys in
      let d : Distinct ((l ∷ xs) ++ (n ∷ (ys ++ (tail l ∷ [])))) = rw append_assoc at is.apart in
      let out : Away n (ring l (xs ++ ys)) =
        rw append_assoc (Distinct-drop n (l ∷ xs) (ys ++ (tail l ∷ [])) d).0 in
      let real : n ≢ null = λ z. (ring_drop null n l xs ys is.real).0 (sym z) in
      let (g₁, run₁, is₁, same₁) =
        klist_remove-hit (k.heap.len l + 2) n xs ys is (omega (arith, is.count, total)) in
      let (g₂, run₂, is₂, same₂) =
        klist_append-IsList is₁ real out (omega (arith, is.small, total, less)) in
      (
        g₂,
        rw (run₁, get_thread-ok (record k { heap = g₁ }) e, run₂),
        is₂,
        Untouched-trans same₁ same₂ (λ p w. ring_drop p n l xs ys w),
      )

  -- A thread that does not stand in the ready queue is put in front of it.
  pub thread_push_ready-ok :
      (k : Threads) (t : Ptr) (v : ThreadPcb) (xs : List Ptr)
      → k.thread t ≡ some v
      → IsList k.heap (ready_list mgr) xs
      → Away (state_node t) (ring (ready_list mgr) xs)
      → length xs + 1 < 2 ^ 31
      → (g : Heap) × (thread_push_ready mgr t k
          ≡ ok tt (record k {
            heap = g;
            thread = update k.thread t (some (record v { status = ready }));
          }))
        × IsList g (ready_list mgr) (state_node t ∷ xs)
        × Untouched k.heap g (ready_list mgr) (state_node t ∷ ring (ready_list mgr) xs)
  unfolding thread_push_ready
  thread_push_ready-ok k t v xs e is out room =
      let miss =
        klist_remove-miss (k.heap.len (ready_list mgr) + 2) (state_node t) xs is out.1
          (omega (arith, is.count)) in
      let (g, run, is', same) = klist_push-IsList is (omega arith) out room in
      (g, rw (miss, get_thread-ok k e, run), is', same)
