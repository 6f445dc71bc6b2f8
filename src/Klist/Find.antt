-- ===== src/Klist/Find.antt =====
-- `klist_find` and the queries: what the walk from the first node sees.
use little_os.Base.{
  ℕ, zero, suc, ◌+◌, ◌<◌, ◌≡◌, ◌≢◌, sym, List, [], ◌∷◌, ◌++◌, arith, length, ==_refl, ==_of_ne,
  ◌==◌,
}
use little_os.Cmd.{ok, fault}
use little_os.Klist.{
  Ptr, null, Heap, head, tail, find_loop, klist_find, klist_len, klist_count, klist_empty,
  klist_get_first_node, klist_get_last_node, klist_get_next_node, klist_pop, set_prev,
}
use little_os.Klist.Access.{get_next-ok, get_len-ok, get_prev-ok}
use little_os.Klist.Chain.{Away, Linked, IsList, Distinct-last, Linked-split, way}
use little_os.Klist.Unlink.{reals}

module _ (h : Heap) (n : Ptr) where
  find_loop-hit :
      (k : ℕ) (a : Ptr) (xs : List Ptr)
      → Linked h a xs n
      → Away null (xs ++ (n ∷ []))
      → Away n xs
      → length xs < k
      → find_loop k n (h.next a) h ≡ ok n h
  unfolding find_loop
  find_loop-hit zero a xs c z w f = absurd (omega arith)
  find_loop-hit (suc k) a [] c z w f = rw (c.0, ==_of_ne n null (λ e. z.0 (sym e)), ==_refl n)
  find_loop-hit (suc k) a (x ∷ xs) c z w f =
      rw
        (
          c.0,
          ==_of_ne x null (λ e. z.0 (sym e)),
          ==_of_ne x n (λ e. w.0 (sym e)),
          get_next-ok (λ e. z.0 (sym e)),
        )
        (find_loop-hit k x xs c.2 z.1 w.1 (omega arith))

  find_loop-miss :
      (k : ℕ) (a b : Ptr) (xs : List Ptr)
      → Linked h a xs b
      → h.next b ≡ null
      → Away null (xs ++ (b ∷ []))
      → Away n (xs ++ (b ∷ []))
      → length xs + 1 < k
      → find_loop k n (h.next a) h ≡ ok null h
  unfolding find_loop
  find_loop-miss zero a b xs c s z w f = absurd (omega arith)
  find_loop-miss (suc zero) a b xs c s z w f = absurd (omega arith)
  find_loop-miss (suc (suc k)) a b [] c s z w f = rw (
    c.0,
    ==_of_ne b null (λ e. z.0 (sym e)),
    ==_of_ne b n (λ e. w.0 (sym e)),
    get_next-ok (λ e. z.0 (sym e)),
    s,
  )
  find_loop-miss (suc (suc k)) a b (x ∷ xs) c s z w f =
      rw
        (
          c.0,
          ==_of_ne x null (λ e. z.0 (sym e)),
          ==_of_ne x n (λ e. w.0 (sym e)),
          get_next-ok (λ e. z.0 (sym e)),
        )
        (find_loop-miss (suc k) x b xs c.2 s z.1 w.1 (omega arith))

-- The node that a walk from the front, or from the back, of `xs` meets first.
abbrev pub first_or : Ptr → List Ptr → Ptr
first_or b [] = b
first_or b (x ∷ xs) = x

abbrev pub last_or : Ptr → List Ptr → Ptr
last_or a [] = a
last_or a (x ∷ xs) = last_or x xs

next-first_or :
    (h : Heap) (a : Ptr) (xs : List Ptr) (b : Ptr) → Linked h a xs b → h.next a ≡ first_or b xs
next-first_or h a [] b c = c.0
next-first_or h a (x ∷ xs) b c = c.0

prev-last_or :
    (h : Heap) (a : Ptr) (xs : List Ptr) (b : Ptr) → Linked h a xs b → h.prev b ≡ last_or a xs
prev-last_or h a [] b c = c.1
prev-last_or h a (x ∷ xs) b c = prev-last_or h x xs b c.2

module _ {l : Ptr} {h : Heap} where
  -- klist_find returns a node of a well-formed list, with fuel for the nodes in front of it,
  -- and changes nothing.
  pub klist_find-hit :
      (fuel : ℕ) (n : Ptr) (xs ys : List Ptr)
      → IsList h l (xs ++ (n ∷ ys))
      → length xs < fuel
      → klist_find fuel l n h ≡ ok n h
  unfolding klist_find
  klist_find-hit fuel n xs ys is f =
      rw (get_next-ok (λ e. is.real.0 (sym e)))
        (let r = way h l n xs ys is in find_loop-hit h n fuel (head l) xs r.0 r.1 r.2 f)

  -- klist_find of what is neither a node of a well-formed list nor its tail returns NULL and
  -- changes nothing, with fuel for the whole list.
  pub klist_find-miss :
      (fuel : ℕ) (n : Ptr) (xs : List Ptr)
      → IsList h l xs
      → Away n (xs ++ (tail l ∷ []))
      → length xs + 1 < fuel
      → klist_find fuel l n h ≡ ok null h
  unfolding klist_find
  klist_find-miss fuel n xs is w f =
      rw (get_next-ok (λ e. is.real.0 (sym e)))
        (find_loop-miss h n fuel (head l) (tail l) xs is.chain is.stop is.real.1 w f)

  -- The walk goes on into the sentinel: looking for the list's own tail finds it.
  pub klist_find-tail :
      (fuel : ℕ) (xs : List Ptr)
      → IsList h l xs
      → length xs < fuel
      → klist_find fuel l (tail l) h ≡ ok (tail l) h
  unfolding klist_find
  klist_find-tail fuel xs is f = rw (get_next-ok (λ e. is.real.0 (sym e))) (
      find_loop-hit h (tail l) fuel (head l) xs is.chain is.real.1
        (Distinct-last xs (tail l) is.apart.1) f)

  -- `klist_len` and `klist_count` are the number of nodes, and `klist_empty` tests it for 0.
  pub klist_len-length :
      {xs : List Ptr}
      → IsList h l xs
      → (klist_len l h ≡ ok (length xs) h)
        × (klist_count l h ≡ ok (length xs) h)
        × (klist_empty l h ≡ ok (length xs == 0) h)
  unfolding klist_len klist_count klist_empty
  klist_len-length is =
      let hl : l ≢ null = omega arith in
      (rw (get_len-ok hl, is.count), rw (get_len-ok hl, is.count), rw (get_len-ok hl, is.count))

  -- The first and the last node are the list's, and of an empty list the sentinel at the other
  -- end, never `NULL`; behind a node comes the next one, or the tail.
  pub klist_ends :
      {xs : List Ptr}
      → IsList h l xs
      → (klist_get_first_node l h ≡ ok (first_or (tail l) xs) h)
        × (klist_get_last_node l h ≡ ok (last_or (head l) xs) h)
  unfolding klist_get_first_node klist_get_last_node
  klist_ends {xs} is = (
    rw (get_next-ok (λ e. is.real.0 (sym e)), next-first_or h (head l) xs (tail l) is.chain),
    rw (get_prev-ok {p = tail l} (omega arith), prev-last_or h (head l) xs (tail l) is.chain),
  )

  pub klist_get_next_node-ok :
      (n : Ptr) (xs ys : List Ptr)
      → IsList h l (xs ++ (n ∷ ys))
      → klist_get_next_node n h ≡ ok (first_or (tail l) ys) h
  unfolding klist_get_next_node
  klist_get_next_node-ok n xs ys is =
      let c = (Linked-split h (head l) n (tail l) xs ys is.chain).1 in
      rw (get_next-ok (λ e. (reals l n h xs ys is).0 (sym e)), next-first_or h n ys (tail l) c)

  -- On an empty list `klist_pop` writes through the tail's `next`, which is `NULL`.
  pub klist_pop_empty : IsList h l [] → klist_pop l h ≡ fault
  unfolding klist_pop set_prev
  klist_pop_empty is =
      let hl : l ≢ null = omega arith in
      let ht : tail l ≢ null = omega arith in
      rw (get_next-ok hl, is.chain.0, get_next-ok hl, is.chain.0, get_next-ok ht, is.stop)
