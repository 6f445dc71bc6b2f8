-- ===== src/Klist/Chain.antt =====
-- What a list in memory stands for: the nodes between its sentinels, in order.
use little_os.Base.{◌<◌, ◌^◌, ◌≡◌, ◌≢◌, List, [], ◌∷◌, ◌++◌, arith, length}
use little_os.Klist.{Ptr, null, Heap, head, tail}

-- `p` is none of the nodes `xs`.
abbrev pub Away : Ptr → List Ptr → Type 0
Away p [] = Unit
Away p (x ∷ xs) = (p ≢ x) × Away p xs

abbrev pub Distinct : List Ptr → Type 0
Distinct [] = Unit
Distinct (x ∷ xs) = Away x xs × Distinct xs

-- From `a` the `next` fields lead through `xs` to `b`, and the `prev` fields lead back.
abbrev pub Linked : Heap → Ptr → List Ptr → Ptr → Type 0
Linked h a [] b = (h.next a ≡ b) × (h.prev b ≡ a)
Linked h a (x ∷ xs) b = (h.next a ≡ x) × (h.prev x ≡ a) × Linked h x xs b

-- The nodes of the list at `l` with the sentinels.
abbrev pub ring : Ptr → List Ptr → List Ptr
ring l xs = head l ∷ (xs ++ (tail l ∷ []))

-- The list at `l` holds the nodes `xs`: well formed, and its `len` is their number.
pub record IsList (h : Heap) (l : Ptr) (xs : List Ptr) : Type 0 where
  pub start : h.prev (head l) ≡ null
  pub chain : Linked h (head l) xs (tail l)
  pub stop : h.next (tail l) ≡ null
  pub apart : Distinct (ring l xs)
  pub real : Away null (ring l xs)
  pub count : h.len l ≡ length xs
  pub small : length xs < 2 ^ 31

pub Away-append : (p : Ptr) (xs ys : List Ptr) → Away p xs → Away p ys → Away p (xs ++ ys)
Away-append p [] ys a b = b
Away-append p (x ∷ xs) ys a b = (a.0, Away-append p xs ys a.1 b)

pub Away-left : (p : Ptr) (xs ys : List Ptr) → Away p (xs ++ ys) → Away p xs
Away-left p [] ys a = tt
Away-left p (x ∷ xs) ys a = (a.0, Away-left p xs ys a.1)

pub Away-right : (p : Ptr) (xs ys : List Ptr) → Away p (xs ++ ys) → Away p ys
Away-right p [] ys a = a
Away-right p (x ∷ xs) ys a = Away-right p xs ys a.1

-- Dropping a node, or putting one in, among those that `p` is none of.
pub Away-drop :
    (p x : Ptr) (xs ys : List Ptr) → Away p (xs ++ (x ∷ ys)) → (p ≢ x) × Away p (xs ++ ys)
Away-drop p x [] ys a = a
Away-drop p x (y ∷ xs) ys a = let r = Away-drop p x xs ys a.1 in (r.0, (a.0, r.1))

pub Away-insert :
    (p x : Ptr) (xs ys : List Ptr) → p ≢ x → Away p (xs ++ ys) → Away p (xs ++ (x ∷ ys))
Away-insert p x [] ys n a = (n, a)
Away-insert p x (y ∷ xs) ys n a = (a.0, Away-insert p x xs ys n a.1)

pub Distinct-drop :
    (x : Ptr) (xs ys : List Ptr)
    → Distinct (xs ++ (x ∷ ys))
    → Away x (xs ++ ys) × Distinct (xs ++ ys)
Distinct-drop x [] ys d = d
Distinct-drop x (y ∷ xs) ys d =
    let r = Distinct-drop x xs ys d.1 in
    let s = Away-drop y x xs ys d.0 in ((λ e. s.0 (omega arith), r.0), (s.1, r.1))

pub Distinct-insert :
    (x : Ptr) (xs ys : List Ptr)
    → Away x (xs ++ ys)
    → Distinct (xs ++ ys)
    → Distinct (xs ++ (x ∷ ys))
Distinct-insert x [] ys a d = (a, d)
Distinct-insert x (y ∷ xs) ys a d =
    (Away-insert y x xs ys (λ e. a.0 (omega arith)) d.0, Distinct-insert x xs ys a.1 d.1)

-- The node that `b` points back to is `a` or one of `xs`, and the node that `a` points to is one
-- of `xs` or `b`.
pub Away-prev :
    (h : Heap) (p a : Ptr) (xs : List Ptr) (b : Ptr)
    → Linked h a xs b
    → Away p (a ∷ xs)
    → p ≢ h.prev b
Away-prev h p a [] b c w = omega arith
Away-prev h p a (x ∷ xs) b c w = Away-prev h p x xs b c.2 w.1

pub Away-next :
    (h : Heap) (p a : Ptr) (xs : List Ptr) (b : Ptr)
    → Linked h a xs b
    → Away p (xs ++ (b ∷ []))
    → p ≢ h.next a
Away-next h p a [] b c w = omega arith
Away-next h p a (x ∷ xs) b c w = omega arith

pub Away-last : (p : Ptr) (xs : List Ptr) (b : Ptr) → Away p (xs ++ (b ∷ [])) → p ≢ b
Away-last p xs b w = (Away-right p xs (b ∷ []) w).0

pub Distinct-last : (xs : List Ptr) (b : Ptr) → Distinct (xs ++ (b ∷ [])) → Away b xs
Distinct-last xs b d = Away-left b xs [] (Distinct-drop b xs [] d).0

Away-cut : (p n : Ptr) (xs ys : List Ptr) → Away p (xs ++ (n ∷ ys)) → Away p (xs ++ (n ∷ []))
Away-cut p n [] ys w = (w.0, tt)
Away-cut p n (x ∷ xs) ys w = (w.0, Away-cut p n xs ys w.1)

Distinct-left : (xs ys : List Ptr) → Distinct (xs ++ ys) → Distinct xs
Distinct-left [] ys d = tt
Distinct-left (x ∷ xs) ys d = (Away-left x xs ys d.0, Distinct-left xs ys d.1)

pub Linked-split :
    (h : Heap) (a n b : Ptr) (xs ys : List Ptr)
    → Linked h a (xs ++ (n ∷ ys)) b
    → Linked h a xs n × Linked h n ys b
Linked-split h a n b [] ys c = ((c.0, c.1), c.2)
Linked-split h a n b (x ∷ xs) ys c =
    let r = Linked-split h x n b xs ys c.2 in ((c.0, c.1, r.0), r.1)

-- The way from the head to a node of the list, as a walk along `next` sees it.
pub way :
    (h : Heap) (l n : Ptr) (xs ys : List Ptr)
    → IsList h l (xs ++ (n ∷ ys))
    → Linked h (head l) xs n × Away null (xs ++ (n ∷ [])) × Away n xs
way h l n xs ys is =
    let inner = Distinct-left (xs ++ (n ∷ ys)) (tail l ∷ []) is.apart.1 in
    (
      (Linked-split h (head l) n (tail l) xs ys is.chain).0,
      Away-cut null n xs ys (Away-left null (xs ++ (n ∷ ys)) (tail l ∷ []) is.real.1),
      Away-left n xs ys (Distinct-drop n xs ys inner).0,
    )

-- The node in front of the tail is real, and another node.
pub last_facts :
    (h : Heap) (l : Ptr) (xs : List Ptr)
    → IsList h l xs
    → (null ≢ h.prev (tail l)) × (tail l ≢ h.prev (tail l))
last_facts h l xs is = (
  Away-prev h null (head l) xs (tail l) is.chain
      (Away-left null (head l ∷ xs) (tail l ∷ []) is.real),
  Away-prev h (tail l) (head l) xs (tail l) is.chain
      (Distinct-last (head l ∷ xs) (tail l) is.apart),
)
