-- ===== src/Klist/Insert.antt =====
-- `klist_init`, `klist_push` and `klist_append` on a list in memory.
use little_os.Base.{
  sym, ==_of_ne, ◌+◌, ◌<◌, ◌^◌, ◌≡◌, ◌≢◌, List, [], ◌∷◌, ◌++◌, arith, length, update, length-append,
  append_assoc,
}
use little_os.Base.Word.{add32}
use little_os.Cmd.{ok}
use little_os.Klist.{Ptr, null, Heap, head, tail, klist_init, klist_push, klist_append}
use little_os.Klist.Access.{
  get_prev-ok, get_next-ok, get_len-ok, set_prev-ok, set_next-ok, set_len-ok,
}
use little_os.Klist.Chain.{
  Away, Distinct, Linked, ring, IsList, Away-left, Away-insert, Distinct-insert, Away-prev,
  Away-next, Away-last, last_facts,
}
use little_os.Klist.Frame.{Writes, Linked-Writes, Untouched}

-- The memory behind `klist_push` and `klist_append`.
abbrev pub pushed : Ptr → Ptr → Heap → Heap
pushed l n h = record {
  prev = update (update h.prev n (head l)) (h.next (head l)) n;
  next = update (update h.next n (h.next (head l))) (head l) n;
  len = update h.len l (add32 (h.len l) 1);
}

abbrev pub appended : Ptr → Ptr → Heap → Heap
appended l n h = record {
  prev = update (update h.prev n (h.prev (tail l))) (tail l) n;
  next = update (update h.next n (tail l)) (h.prev (tail l)) n;
  len = update h.len l (add32 (h.len l) 1);
}

pub klist_push-eq :
    (l n : Ptr) (h : Heap)
    → l ≢ null
    → n ≢ null
    → n ≢ l
    → h.next l ≢ null
    → klist_push l n h ≡ ok tt (pushed l n h)
unfolding klist_push
klist_push-eq l n h hl hn ne hf = rw (
  set_prev-ok hn,
  get_next-ok hl,
  set_next-ok hn,
  get_next-ok hl,
  ==_of_ne l n (λ e. ne (sym e)),
  set_prev-ok hf,
  set_next-ok hl,
  get_len-ok hl,
  set_len-ok hl,
)

pub klist_append-eq :
    (l n : Ptr) (h : Heap)
    → l ≢ null
    → n ≢ null
    → n ≢ tail l
    → h.prev (tail l) ≢ null
    → klist_append l n h ≡ ok tt (appended l n h)
unfolding klist_append
klist_append-eq l n h hl hn ne hf =
    let ht : tail l ≢ null = omega arith in
    rw (
      set_next-ok hn,
      get_prev-ok ht,
      set_prev-ok hn,
      get_prev-ok ht,
      ==_of_ne (tail l) n (λ e. ne (sym e)),
      set_next-ok hf,
      set_prev-ok ht,
      get_len-ok hl,
      set_len-ok hl,
    )

module _ (l n : Ptr) (h : Heap) where
  appended-Linked :
      (a : Ptr) (xs : List Ptr)
      → Linked h a xs (tail l)
      → Distinct (a ∷ (xs ++ (tail l ∷ [])))
      → Away n (a ∷ (xs ++ (tail l ∷ [])))
      → Linked (appended l n h) a (xs ++ (n ∷ [])) (tail l)
  appended-Linked a [] c d w = ground arith
  appended-Linked a (x ∷ xs) c d w =
      let far = Away-prev h a x xs (tail l) c.2 (d.0.0, Away-left a xs (tail l ∷ []) d.0.1) in
      let inner = Away-last x xs (tail l) d.1.0 in
      (ground arith, ground arith, appended-Linked x xs c.2 d.1 w.1)

  pushed-Linked :
      (xs : List Ptr)
      → Linked h (head l) xs (tail l)
      → Distinct (ring l xs)
      → Away n (ring l xs)
      → Linked (pushed l n h) (head l) (n ∷ xs) (tail l)
  pushed-Linked [] c d w = ground arith
  pushed-Linked (x ∷ xs) c d w = (
    ground arith,
    ground arith,
    (
      ground arith,
      ground arith,
      Linked-Writes writes x xs (tail l) (Away-left n (x ∷ xs) (tail l ∷ []) w.1)
          (Away-left (head l) (x ∷ xs) (tail l ∷ []) d.0) w.1.1 d.1.0 c.2,
    ),
  )
    where
      writes : Writes h (pushed l n h) n (head l) n x
      writes = record { nexts = ground arith; prevs = ground arith }

-- A new node between two parts of a list in memory: what `klist_push` and `klist_append` share.
module _ {l n : Ptr} {h : Heap} {xs : List Ptr} (is : IsList h l xs) (hn : n ≢ null)
    (out : Away n (ring l xs)) (room : length xs + 1 < 2 ^ 31) where
  -- klist_append of a real node that is not in a well-formed list, which has room for it, puts
  -- the node last, keeps the list well formed, and changes only the node and the list.
  pub klist_append-IsList :
      (g : Heap) × (klist_append l n h ≡ ok tt g)
      × IsList g l (xs ++ (n ∷ []))
      × Untouched h g l (n ∷ ring l xs)
  klist_append-IsList = (
    appended l n h,
    klist_append-eq l n h (omega arith) hn (Away-last n xs (tail l) out.1)
        (λ e. (last_facts h l xs is).0 (sym e)),
    record {
      start = ground arith;
      chain = appended-Linked l n h (head l) xs is.chain is.apart out;
      stop = ground (arith, (last_facts h l xs is).1, Away-last n xs (tail l) out.1);
      apart = rw append_assoc (Distinct-insert n (head l ∷ xs) (tail l ∷ []) out is.apart);
      real =
          rw append_assoc
            (Away-insert null n (head l ∷ xs) (tail l ∷ []) (λ e. hn (sym e)) is.real);
      count = ground (arith, length-append xs (n ∷ []));
      small = omega (arith, length-append xs (n ∷ []));
    },
    record {
      nexts = λ p w. ground (
        arith,
        Away-prev h p (head l) xs (tail l) is.chain (Away-left p (head l ∷ xs) (tail l ∷ []) w.1),
      );
      prevs = λ p w. ground (arith, Away-last p xs (tail l) w.1.1);
      lens = ground arith;
    },
  )

  first_real : h.next (head l) ≢ null
  first_real e = Away-next h null (head l) xs (tail l) is.chain is.real.1 (sym e)

  -- klist_push of a real node that is not in a well-formed list, which has room for it, puts
  -- the node first, keeps the list well formed, and changes only the node and the list.
  pub klist_push-IsList :
      (g : Heap) × (klist_push l n h ≡ ok tt g)
      × IsList g l (n ∷ xs)
      × Untouched h g l (n ∷ ring l xs)
  klist_push-IsList = (
    pushed l n h,
    klist_push-eq l n h (omega arith) hn out.0 first_real,
    record {
      start = ground (arith, Away-next h (head l) (head l) xs (tail l) is.chain is.apart.0);
      chain = pushed-Linked l n h xs is.chain is.apart out;
      stop = ground (arith, Away-last n xs (tail l) out.1);
      apart = ((omega arith, is.apart.0), (out.1, is.apart.1));
      real = (is.real.0, (omega arith, is.real.1));
      count = ground arith;
      small = omega arith;
    },
    record {
      nexts = ground arith;
      prevs = λ p w. ground (arith, Away-next h p (head l) xs (tail l) is.chain w.1.1);
      lens = ground arith;
    },
  )

-- klist_init at a real address makes the list empty and well formed, whatever the memory held,
-- and changes only its sentinels and its length.
pub klist_init-IsList :
    (l : Ptr) (h : Heap)
    → l ≢ null
    → (g : Heap) × (klist_init l h ≡ ok tt g) × IsList g l [] × Untouched h g l (ring l [])
unfolding klist_init
klist_init-IsList l h hl =
    let ht : tail l ≢ null = omega arith in
    (
      record {
        prev = update (update h.prev (head l) null) (tail l) (head l);
        next = update (update h.next (head l) (tail l)) (tail l) null;
        len = update h.len l 0;
      },
      rw (set_prev-ok hl, set_next-ok hl, set_prev-ok ht, set_next-ok ht, set_len-ok hl),
      record {
        start = ground arith;
        chain = ground arith;
        stop = ground arith;
        apart = omega arith;
        real = omega arith;
        count = ground arith;
        small = omega arith;
      },
      record { nexts = ground arith; prevs = ground arith; lens = ground arith },
    )
