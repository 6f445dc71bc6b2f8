-- ===== src/Klist/Frame.antt =====
-- Writes outside a chain, and what list operations leave alone.
use little_os.Base.{sym, ◌∙◌, ◌≡◌, ◌≢◌, List, [], ◌∷◌, ◌++◌, arith}
use little_os.Klist.{Ptr, Heap, tail}
use little_os.Klist.Chain.{Away, Linked, ring, IsList}

-- `g` is `h` but for `next` at `q₁` and `q₂`, and for `prev` at `r₁` and `r₂`.
pub record Writes (h g : Heap) (q₁ q₂ r₁ r₂ : Ptr) : Type 0 where
  pub nexts : (p : Ptr) → p ≢ q₁ → p ≢ q₂ → g.next p ≡ h.next p
  pub prevs : (p : Ptr) → p ≢ r₁ → p ≢ r₂ → g.prev p ≡ h.prev p

module _ {h g : Heap} {q₁ q₂ r₁ r₂ : Ptr} (w : Writes h g q₁ q₂ r₁ r₂) where
  pub Linked-Writes :
      (a : Ptr) (xs : List Ptr) (b : Ptr)
      → Away q₁ (a ∷ xs)
      → Away q₂ (a ∷ xs)
      → Away r₁ (xs ++ (b ∷ []))
      → Away r₂ (xs ++ (b ∷ []))
      → Linked h a xs b
      → Linked g a xs b
  Linked-Writes a [] b n₁ n₂ p₁ p₂ c = ground (arith, w.nexts a, w.prevs b)
  Linked-Writes a (x ∷ xs) b n₁ n₂ p₁ p₂ c = (
    ground (arith, w.nexts a),
    ground (arith, w.prevs x),
    Linked-Writes x xs b n₁.1 n₂.1 p₁.1 p₂.1 c.2,
  )

-- The operation changes no node but those of `xs`, and no `len` but that of the list at `l`.
pub record Untouched (h g : Heap) (l : Ptr) (xs : List Ptr) : Type 0 where
  pub nexts : (p : Ptr) → Away p xs → g.next p ≡ h.next p
  pub prevs : (p : Ptr) → Away p xs → g.prev p ≡ h.prev p
  pub lens : (m : Ptr) → m ≢ l → g.len m ≡ h.len m

pub Untouched-trans :
    {h g i : Heap} {l : Ptr} {xs ys : List Ptr}
    → Untouched h g l xs
    → Untouched g i l ys
    → ((p : Ptr) → Away p xs → Away p ys)
    → Untouched h i l xs
Untouched-trans s t within = record {
  nexts = λ p w. t.nexts p (within p w) ∙ s.nexts p w;
  prevs = λ p w. t.prevs p (within p w) ∙ s.prevs p w;
  lens = λ m n. t.lens m n ∙ s.lens m n;
}

-- None of `xs` is one of `ys`.
abbrev pub AllAway : List Ptr → List Ptr → Type 0
AllAway [] ys = Unit
AllAway (a ∷ xs) ys = Away a ys × AllAway xs ys

pub AllAway-nil : (xs : List Ptr) → AllAway xs []
AllAway-nil [] = tt
AllAway-nil (a ∷ xs) = (tt, AllAway-nil xs)

pub AllAway-cons : (b : Ptr) (xs ys : List Ptr) → Away b xs → AllAway xs ys → AllAway xs (b ∷ ys)
AllAway-cons b [] ys n w = tt
AllAway-cons b (a ∷ xs) ys n w = (((λ e. n.0 (sym e)), w.0), AllAway-cons b xs ys n.1 w.1)

pub AllAway-sym : (xs ys : List Ptr) → AllAway xs ys → AllAway ys xs
AllAway-sym [] ys w = AllAway-nil ys
AllAway-sym (a ∷ xs) ys w = AllAway-cons a ys xs w.0 (AllAway-sym xs ys w.1)

module _ {h g : Heap} {l : Ptr} {zs : List Ptr} (u : Untouched h g l zs) where
  Linked-Untouched :
      (a : Ptr) (xs : List Ptr) (b : Ptr)
      → AllAway (a ∷ (xs ++ (b ∷ []))) zs
      → Linked h a xs b
      → Linked g a xs b
  Linked-Untouched a [] b w c = (u.nexts a w.0 ∙ c.0, u.prevs b w.1.0 ∙ c.1)
  Linked-Untouched a (x ∷ xs) b w c =
      (u.nexts a w.0 ∙ c.0, u.prevs x w.1.0 ∙ c.1, Linked-Untouched x xs b w.1 c.2)

  last-Away : (a : Ptr) (xs : List Ptr) (b : Ptr) → AllAway (a ∷ (xs ++ (b ∷ []))) zs → Away b zs
  last-Away a [] b w = w.1.0
  last-Away a (x ∷ xs) b w = last-Away x xs b w.1

  -- Another list, none of whose nodes the operation touches, stays as it is.
  pub IsList-Untouched :
      (m : Ptr) (xs : List Ptr) → m ≢ l → AllAway (ring m xs) zs → IsList h m xs → IsList g m xs
  IsList-Untouched m xs ne w is = record {
    start = u.prevs m w.0 ∙ is.start;
    chain = Linked-Untouched m xs (tail m) w is.chain;
    stop = u.nexts (tail m) (last-Away m xs (tail m) w) ∙ is.stop;
    apart = is.apart;
    real = is.real;
    count = u.lens m ne ∙ is.count;
    small = is.small;
  }
