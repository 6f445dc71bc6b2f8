-- ===== src/Tests/Lists.antt =====
-- A list in memory at 100 with the nodes 200 and 300.
use little_os.Base.{◌≡◌, refl, arith, [], ◌∷◌, if◌then◌else◌, ◌==◌}
use little_os.Cmd.{ok}
use little_os.Klist.{Heap, klist_append, klist_remove}
use little_os.Klist.Chain.{IsList}
use little_os.Klist.Frame.{Untouched}
use little_os.Klist.Insert.{klist_append-IsList}
use little_os.Klist.Remove.{klist_remove-hit}

abbrev pub two : Heap
two = record {
  prev = λ p. if p == 200 then 100 else if p == 300 then 200 else if p == 108 then 300 else 0;
  next = λ p. if p == 100 then 200 else if p == 200 then 300 else if p == 300 then 108 else 0;
  len = λ p. if p == 100 then 2 else 0;
}

two-IsList : IsList two 100 (200 ∷ 300 ∷ [])
two-IsList = record {
  start = refl;
  chain = omega arith;
  stop = refl;
  apart = omega arith;
  real = omega arith;
  count = refl;
  small = omega arith;
}

klist_append-IsList_example :
    (g : Heap) × (klist_append 100 500 two ≡ ok tt g)
    × IsList g 100 (200 ∷ 300 ∷ 500 ∷ [])
    × Untouched two g 100 (500 ∷ 100 ∷ 200 ∷ 300 ∷ 108 ∷ [])
klist_append-IsList_example =
    klist_append-IsList two-IsList (omega arith) (omega arith) (omega arith)

klist_remove-hit_example :
    (g : Heap) × (klist_remove 2 100 300 two ≡ ok 300 g)
    × IsList g 100 (200 ∷ [])
    × Untouched two g 100 (100 ∷ 200 ∷ 300 ∷ 108 ∷ [])
klist_remove-hit_example = klist_remove-hit 2 300 (200 ∷ []) [] two-IsList (omega arith)
