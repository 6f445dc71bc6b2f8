-- ===== src/Klist/Remove.antt =====
-- `klist_remove` and `klist_pop` on a list in memory.
use little_os.Base.{
  ℕ, zero, suc, ◌+◌, ◌<◌, ◌≡◌, ◌≢◌, sym, List, [], ◌∷◌, ◌++◌, arith, length, ==_refl, ==_of_ne,
}
use little_os.Cmd.{ok, fault}
use little_os.Klist.{
  Ptr, null, Heap, head, tail, unlink, remove_loop, klist_remove, klist_pop, set_prev,
}
use little_os.Klist.Access.{get_next-ok, get_prev-ok, set_next-ok}
use little_os.Klist.Chain.{Away, Linked, ring, IsList, Distinct-last, last_facts, way}
use little_os.Klist.Frame.{Untouched}
use little_os.Klist.Unlink.{unlinked, unlink-ok, unlinked-IsList, unlinked-Untouched, klist_pop-ok}

module _ (l : Ptr) (h : Heap) (n : Ptr) where
  remove_loop-hit :
      (k : ℕ) (a : Ptr) (xs : List Ptr)
      → Linked h a xs n
      → Away null (xs ++ (n ∷ []))
      → Away n xs
      → length xs < k
      → remove_loop k l n (h.next a) h ≡ unlink l n h
  unfolding remove_loop
  remove_loop-hit zero a xs c z w f = absurd (omega arith)
  remove_loop-hit (suc k) a [] c z w f = rw (c.0, ==_of_ne n null (λ e. z.0 (sym e)), ==_refl n)
  remove_loop-hit (suc k) a (x ∷ xs) c z w f =
      rw
        (
          c.0,
          ==_of_ne x null (λ e. z.0 (sym e)),
          ==_of_ne x n (λ e. w.0 (sym e)),
          get_next-ok (λ e. z.0 (sym e)),
        )
        (remove_loop-hit k x xs c.2 z.1 w.1 (omega arith))

  remove_loop-miss :
      (k : ℕ) (a b : Ptr) (xs : List Ptr)
      → Linked h a xs b
      → h.next b ≡ null
      → Away null (xs ++ (b ∷ []))
      → Away n (xs ++ (b ∷ []))
      → length xs + 1 < k
      → remove_loop k l n (h.next a) h ≡ ok null h
  unfolding remove_loop
  remove_loop-miss zero a b xs c s z w f = absurd (omega arith)
  remove_loop-miss (suc zero) a b xs c s z w f = absurd (omega arith)
  remove_loop-miss (suc (suc k)) a b [] c s z w f = rw (
    c.0,
    ==_of_ne b null (λ e. z.0 (sym e)),
    ==_of_ne b n (λ e. w.0 (sym e)),
    get_next-ok (λ e. z.0 (sym e)),
    s,
  )
  remove_loop-miss (suc (suc k)) a b (x ∷ xs) c s z w f =
      rw
        (
          c.0,
          ==_of_ne x null (λ e. z.0 (sym e)),
          ==_of_ne x n (λ e. w.0 (sym e)),
          get_next-ok (λ e. z.0 (sym e)),
        )
        (remove_loop-miss (suc k) x b xs c.2 s z.1 w.1 (omega arith))

unlink-tail : (l : Ptr) (h : Heap) (xs : List Ptr) → IsList h l xs → unlink l (tail l) h ≡ fault
unfolding unlink set_prev
unlink-tail l h xs is =
    let r = last_facts h l xs is in
    let ht : tail l ≢ null = omega arith in
    rw (
      get_prev-ok ht,
      get_next-ok ht,
      set_next-ok (λ e. r.0 (sym e)),
      get_next-ok ht,
      ==_of_ne (tail l) (h.prev (tail l)) r.1,
      is.stop,
    )

module _ {l : Ptr} {h : Heap} (fuel : ℕ) where
  -- On a well-formed list whose nodes include n, with fuel for the nodes in front of it,
  -- klist_remove returns n, leaves a well-formed list of the other nodes in the same order with
  -- the count lowered, and changes no memory outside the list.
  pub klist_remove-hit :
      (n : Ptr) (xs ys : List Ptr)
      → IsList h l (xs ++ (n ∷ ys))
      → length xs < fuel
      → (g : Heap) × (klist_remove fuel l n h ≡ ok n g)
        × IsList g l (xs ++ ys)
        × Untouched h g l (ring l (xs ++ (n ∷ ys)))
  unfolding klist_remove
  klist_remove-hit n xs ys is f =
      let r = way h l n xs ys is in
      (
        unlinked l n h,
        rw
            (
              get_next-ok (λ e. is.real.0 (sym e)),
              remove_loop-hit l h n fuel (head l) xs r.0 r.1 r.2 f,
            )
            (unlink-ok l n h xs ys is),
        unlinked-IsList l n h xs ys is,
        unlinked-Untouched l n h xs ys is,
      )

  -- klist_remove of what is neither a node of a well-formed list nor its tail returns NULL and
  -- changes nothing, with fuel for the whole list.
  pub klist_remove-miss :
      (n : Ptr) (xs : List Ptr)
      → IsList h l xs
      → Away n (xs ++ (tail l ∷ []))
      → length xs + 1 < fuel
      → klist_remove fuel l n h ≡ ok null h
  unfolding klist_remove
  klist_remove-miss n xs is w f =
      rw (get_next-ok (λ e. is.real.0 (sym e)))
        (remove_loop-miss l h n fuel (head l) (tail l) xs is.chain is.stop is.real.1 w f)

  -- klist_remove of a well-formed list's own tail, with more fuel than nodes, walks on into the
  -- sentinel and writes through NULL.
  pub klist_remove-tail :
      (xs : List Ptr) → IsList h l xs → length xs < fuel → klist_remove fuel l (tail l) h ≡ fault
  unfolding klist_remove
  klist_remove-tail xs is f =
      rw
        (
          get_next-ok (λ e. is.real.0 (sym e)),
          remove_loop-hit l h (tail l) fuel (head l) xs is.chain is.real.1
              (Distinct-last xs (tail l) is.apart.1) f,
        )
        (unlink-tail l h xs is)

-- klist_pop of a well-formed list that is not empty returns the first node and leaves a
-- well-formed list of the others, changing nothing outside the list.
pub klist_pop-IsList :
    {l n : Ptr} {h : Heap} {xs : List Ptr}
    → IsList h l (n ∷ xs)
    → (g : Heap) × (klist_pop l h ≡ ok n g) × IsList g l xs × Untouched h g l (ring l (n ∷ xs))
klist_pop-IsList {l} {n} {h} {xs} is = (
  unlinked l n h,
  klist_pop-ok is,
  unlinked-IsList l n h [] xs is,
  unlinked-Untouched l n h [] xs is,
)
