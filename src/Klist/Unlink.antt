-- ===== src/Klist/Unlink.antt =====
-- Taking a node out of a list in memory: `unlink` of `klist_remove`, and `klist_pop`.
use little_os.Base.{
  ◌≡◌, ◌≢◌, List, [], ◌∷◌, ◌++◌, arith, update, length-append, append_assoc, sym, ==_of_ne,
}
use little_os.Base.Word.{sub32}
use little_os.Cmd.{ok}
use little_os.Klist.{Ptr, null, Heap, head, tail, unlink, klist_pop}
use little_os.Klist.Access.{
  get_prev-ok, get_next-ok, get_len-ok, set_prev-ok, set_next-ok, set_len-ok,
}
use little_os.Klist.Chain.{
  Away, Distinct, Linked, ring, IsList, Away-right, Away-left, Away-drop, Distinct-drop, Away-prev,
  Away-next, Distinct-last, Linked-split,
}
use little_os.Klist.Frame.{Writes, Linked-Writes, Untouched}

-- The memory behind the removal of `n`.
abbrev pub unlinked : Ptr → Ptr → Heap → Heap
unlinked l n h = record {
  prev = update h.prev (h.next n) (h.prev n);
  next = update h.next (h.prev n) (h.next n);
  len = update h.len l (sub32 (h.len l) 1);
}

pub unlink-eq :
    (l n : Ptr) (h : Heap)
    → l ≢ null
    → n ≢ null
    → h.prev n ≢ null
    → h.next n ≢ null
    → n ≢ h.prev n
    → unlink l n h ≡ ok n (unlinked l n h)
unfolding unlink
unlink-eq l n h hl hn hp hf ne = rw (
  get_prev-ok hn,
  get_next-ok hn,
  set_next-ok hp,
  get_next-ok hn,
  ==_of_ne n (h.prev n) ne,
  set_prev-ok hf,
  get_len-ok hl,
  set_len-ok hl,
)

module _ (l n : Ptr) (h : Heap) where
  unlinked-Linked :
      (a : Ptr) (xs ys : List Ptr) (b : Ptr)
      → Linked h a xs n
      → Linked h n ys b
      → Distinct (a ∷ (xs ++ (n ∷ (ys ++ (b ∷ [])))))
      → Linked (unlinked l n h) a (xs ++ ys) b
  unlinked-Linked a [] [] b c e d = ground arith
  unlinked-Linked a [] (y ∷ ys) b c e d =
      (ground arith, ground arith, Linked-Writes writes y ys b near near d.1.1.0 d.1.1.0 e.2)
    where
      writes : Writes h (unlinked l n h) a a y y
      writes = record { nexts = ground arith; prevs = ground arith }

      near : Away a (y ∷ ys)
      near = Away-left a (y ∷ ys) (b ∷ []) d.0.1
  unlinked-Linked a (x ∷ xs) ys b c e d =
      let before = Away-prev h a x xs n c.2 (Away-left a (x ∷ xs) (n ∷ (ys ++ (b ∷ []))) d.0) in
      let behind = Away-next h x n ys b e (Away-right x xs (n ∷ (ys ++ (b ∷ []))) d.1.0).1 in
      (ground arith, ground arith, unlinked-Linked x xs ys b c.2 e d.1)

-- Taking `n` out of the list in memory.
module _ (l n : Ptr) (h : Heap) (xs ys : List Ptr) (is : IsList h l (xs ++ (n ∷ ys))) where
  chains : Linked h (head l) xs n × Linked h n ys (tail l)
  chains = Linked-split h (head l) n (tail l) xs ys is.chain

  distinct : Distinct (head l ∷ (xs ++ (n ∷ (ys ++ (tail l ∷ [])))))
  distinct = rw append_assoc at is.apart

  real : Away null (head l ∷ (xs ++ (n ∷ (ys ++ (tail l ∷ [])))))
  real = rw append_assoc at is.real

  rest-Distinct :
      Away n (head l ∷ (xs ++ (ys ++ (tail l ∷ []))))
      × Distinct (head l ∷ (xs ++ (ys ++ (tail l ∷ []))))
  rest-Distinct = Distinct-drop n (head l ∷ xs) (ys ++ (tail l ∷ [])) distinct

  pub node-ne-prev : n ≢ h.prev n
  node-ne-prev =
      Away-prev h n (head l) xs n chains.0
        (Away-left n (head l ∷ xs) (ys ++ (tail l ∷ [])) rest-Distinct.0)

  reach :
      (p : Ptr)
      → Away p (head l ∷ (xs ++ (n ∷ (ys ++ (tail l ∷ [])))))
      → (p ≢ h.prev n) × (p ≢ h.next n)
  reach p w = (
    Away-prev h p (head l) xs n chains.0 (Away-left p (head l ∷ xs) (n ∷ (ys ++ (tail l ∷ []))) w),
    Away-next h p n ys (tail l) chains.1
        (Away-right p (head l ∷ xs) (n ∷ (ys ++ (tail l ∷ []))) w).1,
  )

  head-ne-next : head l ≢ h.next n
  head-ne-next =
      Away-next h (head l) n ys (tail l) chains.1
        (Away-right (head l) xs (n ∷ (ys ++ (tail l ∷ []))) distinct.0).1

  tail-ne-prev : tail l ≢ h.prev n
  tail-ne-prev = Away-prev h (tail l) (head l) xs n chains.0 (
      Away-left (tail l) (head l ∷ xs) (n ∷ ys)
        (Distinct-last (head l ∷ (xs ++ (n ∷ ys))) (tail l) is.apart))

  pub reals : (null ≢ n) × (null ≢ h.prev n) × (null ≢ h.next n)
  reals =
      let r = reach null real in
      ((Away-drop null n (head l ∷ xs) (ys ++ (tail l ∷ [])) real).0, r.0, r.1)

  pub unlinked-IsList : IsList (unlinked l n h) l (xs ++ ys)
  unlinked-IsList = record {
    start = ground (arith, is.start, head-ne-next);
    chain = unlinked-Linked l n h (head l) xs ys (tail l) chains.0 chains.1 distinct;
    stop = ground (arith, is.stop, tail-ne-prev);
    apart = rw append_assoc rest-Distinct.1;
    real = rw append_assoc (Away-drop null n (head l ∷ xs) (ys ++ (tail l ∷ [])) real).1;
    count = ground (arith, is.small, is.count, length-append xs (n ∷ ys), length-append xs ys);
    small = omega (arith, is.small, length-append xs (n ∷ ys), length-append xs ys);
  }

  pub unlinked-Untouched : Untouched h (unlinked l n h) l (ring l (xs ++ (n ∷ ys)))
  unlinked-Untouched = record {
    nexts = λ p w. ground (arith, reach p (rw append_assoc at w));
    prevs = λ p w. ground (arith, reach p (rw append_assoc at w));
    lens = ground arith;
  }

  pub unlink-ok : unlink l n h ≡ ok n (unlinked l n h)
  unlink-ok =
      unlink-eq l n h (omega (arith, is.real.0)) (omega (arith, (reals.0))) (omega (arith, reals.1))
        (omega (arith, reals.2)) node-ne-prev

pub klist_pop-ok :
    {l n : Ptr} {h : Heap} {xs : List Ptr}
    → IsList h l (n ∷ xs)
    → klist_pop l h ≡ ok n (unlinked l n h)
unfolding klist_pop
klist_pop-ok {l} {n} {h} {xs} is =
    let hl : l ≢ null = omega arith in
    let r = reals l n h [] xs is in
    let hn : n ≢ null = omega arith in
    rw
      (
        get_next-ok hl,
        is.chain.0,
        get_next-ok hl,
        is.chain.0,
        get_next-ok hn,
        set_prev-ok (λ e. r.2 (sym e)),
        get_next-ok hl,
        is.chain.0,
        get_next-ok hn,
        set_next-ok hl,
        get_len-ok hl,
        set_len-ok hl,
      )
      (rw is.chain.1)
