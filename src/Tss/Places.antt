-- ===== src/Tss/Places.antt =====
-- Tasks in pages of the manager: their nodes never meet.
use little_os.Base.{ℕ, ◌+◌, ◌*◌, ◌<◌, ◌^◌, ◌≡◌, ◌≢◌, refl, arith, List, [], ◌∷◌, ◌++◌, length}
use little_os.Klist.{Ptr, tail}
use little_os.Klist.Chain.{Away, Away-append, ring}
use little_os.Klist.Frame.{AllAway}
use little_os.Memory.{AddrAlloc, mem_page_size}
use little_os.Memory.Pages.{IsManager, in_use}
use little_os.Memory.Single.{Grown, TakenPage}

abbrev pub All : (Ptr → Type 0) → List Ptr → Type 0
All P [] = Unit
All P (t ∷ ts) = P t × All P ts

pub All-append : (P : Ptr → Type 0) (ts us : List Ptr) → All P ts → All P us → All P (ts ++ us)
All-append P [] us h g = g
All-append P (t ∷ ts) us h g = (h.0, All-append P ts us h.1 g)

pub All-left : (P : Ptr → Type 0) (ts us : List Ptr) → All P (ts ++ us) → All P ts
All-left P [] us h = tt
All-left P (t ∷ ts) us h = (h.0, All-left P ts us h.1)

pub All-right : (P : Ptr → Type 0) (ts us : List Ptr) → All P (ts ++ us) → All P us
All-right P [] us h = h
All-right P (t ∷ ts) us h = All-right P ts us h.1

pub All-map : (P Q : Ptr → Type 0) (ts : List Ptr) → ((t : Ptr) → P t → Q t) → All P ts → All Q ts
All-map P Q [] f h = tt
All-map P Q (t ∷ ts) f h = (f t h.0, All-map P Q ts f h.1)

-- The nodes `x` bytes into the tasks.
abbrev pub nodes : ℕ → List Ptr → List Ptr
nodes x [] = []
nodes x (t ∷ ts) = (t + x) ∷ nodes x ts

pub nodes-append : (x : ℕ) (ts us : List Ptr) → nodes x (ts ++ us) ≡ nodes x ts ++ nodes x us
nodes-append x [] us = refl
nodes-append x (t ∷ ts) us = rw (nodes-append x ts us)

pub length-nodes : (x : ℕ) (ts : List Ptr) → length (nodes x ts) ≡ length ts
length-nodes x [] = refl
length-nodes x (t ∷ ts) = omega (arith, length-nodes x ts)

-- A page of the manager that is in use starts at `t`.
pub record InPage (m : AddrAlloc) (t : Ptr) : Type 0 where
  pub page : ℕ
  pub at : t ≡ m.kernelstart + page * mem_page_size
  pub managed : page < m.bitmap.count
  pub used : in_use m page ≢ 0

pub InPage-Grown : {m w : AddrAlloc} (t : Ptr) → Grown m w → InPage m t → InPage w t
InPage-Grown t g p = record {
  page = p.page;
  at = omega (arith, p.at, g.start);
  managed = omega (arith, p.managed, g.count);
  used = λ z. p.used (g.free p.page z);
}

pub TakenPage-InPage : {m w : AddrAlloc} {t : Ptr} → TakenPage m w t → InPage w t
TakenPage-InPage tp = record {
  page = tp.page;
  at = omega (arith, tp.address, tp.grown.start);
  managed = omega (arith, tp.inside_page, tp.grown.count);
  used = λ z. omega (arith, z, tp.is_used);
}

pub InPage-small :
    {m : AddrAlloc} (t x : ℕ) → IsManager m → InPage m t → x < mem_page_size → t + x < 2 ^ 32
InPage-small t x is p hx = omega (arith, p.at, p.managed, is.fits)

-- A new page is none of those in use.
pub fresh_other :
    {m w : AddrAlloc} {a t : Ptr} (x y : ℕ)
    → TakenPage m w a
    → InPage m t
    → x < mem_page_size
    → y < mem_page_size
    → a + x ≢ t + y
fresh_other x y tp p hx hy e =
    let same : p.page ≡ tp.page = omega (arith, tp.address, p.at, e) in p.used (rw same tp.was_free)

pub fresh_nodes :
    {m w : AddrAlloc} {a : Ptr} (x y : ℕ) (ts : List Ptr)
    → TakenPage m w a
    → All (InPage m) ts
    → x < mem_page_size
    → y < mem_page_size
    → Away (a + x) (nodes y ts)
fresh_nodes x y [] tp h hx hy = tt
fresh_nodes x y (t ∷ ts) tp h hx hy =
    (fresh_other x y tp h.0 hx hy, fresh_nodes x y ts tp h.1 hx hy)

-- What lies below the pages is no node.
pub low_nodes :
    (m : AddrAlloc) (p x : ℕ) (ts : List Ptr)
    → p < m.kernelstart
    → All (InPage m) ts
    → Away p (nodes x ts)
low_nodes m p x [] low h = tt
low_nodes m p x (t ∷ ts) low h = (omega (arith, h.0.at), low_nodes m p x ts low h.1)

-- Nodes at different places of tasks differ.
pub node_apart :
    {m : AddrAlloc} (t x y : ℕ) (us : List Ptr)
    → InPage m t
    → All (InPage m) us
    → x < mem_page_size
    → y < mem_page_size
    → x ≢ y
    → Away (t + x) (nodes y us)
node_apart t x y [] p h hx hy ne = tt
node_apart t x y (u ∷ us) p h hx hy ne =
    (omega (arith, p.at, h.0.at), node_apart t x y us p h.1 hx hy ne)

-- `p` is no node of the list at `l`.
pub Away-ring :
    (p l x : ℕ) (ts : List Ptr)
    → p ≢ l
    → p ≢ tail l
    → Away p (nodes x ts)
    → Away p (ring l (nodes x ts))
Away-ring p l x ts n₁ n₂ w = (n₁, Away-append p (nodes x ts) (tail l ∷ []) w (n₂, tt))

AllAway-append : (xs ys zs : List Ptr) → AllAway xs zs → AllAway ys zs → AllAway (xs ++ ys) zs
AllAway-append [] ys zs v w = w
AllAway-append (x ∷ xs) ys zs v w = (v.0, AllAway-append xs ys zs v.1 w)

module _ (m : AddrAlloc) (x y : ℕ) (hx : x < mem_page_size) (hy : y < mem_page_size) (ne : x ≢ y)
    (l r : Ptr) (low_r : tail r < m.kernelstart) (us : List Ptr) (ups : All (InPage m) us) where
  nodes_apart : (ts : List Ptr) → All (InPage m) ts → AllAway (nodes x ts) (ring r (nodes y us))
  nodes_apart [] h = tt
  nodes_apart (t ∷ ts) h = (
    Away-ring (t + x) r y us (omega (arith, h.0.at)) (omega (arith, h.0.at))
        (node_apart t x y us h.0 ups hx hy ne),
    nodes_apart ts h.1,
  )

  -- Two lists of tasks by different nodes, with their ends below the pages, share no node.
  pub rings_apart :
      (ts : List Ptr)
      → All (InPage m) ts
      → tail l < m.kernelstart
      → tail l < r
      → AllAway (ring l (nodes x ts)) (ring r (nodes y us))
  rings_apart ts h low_l before = (
    Away-ring l r y us (omega arith) (omega arith) (low_nodes m l y us (omega arith) ups),
    AllAway-append (nodes x ts) (tail l ∷ []) (ring r (nodes y us)) (nodes_apart ts h) (
      Away-ring (tail l) r y us (omega arith) (omega arith) (low_nodes m (tail l) y us low_l ups),
      tt,
    ),
  )
