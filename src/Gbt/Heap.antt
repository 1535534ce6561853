-- ===== src/Gbt/Heap.antt =====
-- src/gbt.rs, `HeapItem` and the `BinaryHeap` of the standard library, of which the program uses
-- that `pop` takes a greatest item. A heap is the list of its items.
pub mod Select
use satya_btc.Common.{ℕ, Option, none, some, List, [], ◌∷◌, Ordering, compare}
use satya_btc.Float.{Float}

pub record HeapItem (F : Type 0) : Type 0 where
  pub score : F
  pub order : ℕ
  pub uid : ℕ

-- `Ordering::then_with`
abbrev pub then_with : Ordering → Ordering → Ordering
then_with Ordering.eq other = other
then_with Ordering.lt _ = Ordering.lt
then_with Ordering.gt _ = Ordering.gt

-- `none` is the panic of `expect("scores are finite")`.
abbrev pub cmp : {F : Type 0} ⦃f : Float F⦄ → HeapItem F → HeapItem F → Option Ordering
cmp ⦃f⦄ a b = elim (f.partial_cmp a.score b.score) [
  | none ↦ none
  | some o ↦ some (then_with (then_with o (compare b.order a.order)) (compare b.uid a.uid))
]

pub data Pop (F : Type 0) : Type 0 where
  empty : Pop F
  top : HeapItem F → List (HeapItem F) → Pop F
  unordered : Pop F

module _ {F : Type 0} where
  -- An item that stays in the heap.
  abbrev pub stays : HeapItem F → Pop F → Pop F
  stays x empty = empty
  stays x (top best rest) = top best (x ∷ rest)
  stays x unordered = unordered

module _ {F : Type 0} where
  -- The branch of a comparison: a greater item takes the place of the best one.
  abbrev pub choose : Option Ordering → Pop F → Pop F → Pop F
  choose none kept passed = unordered
  choose (some Ordering.gt) kept passed = kept
  choose (some _) kept passed = passed

module _ {F : Type 0} ⦃f : Float F⦄ where
  -- The greatest of an item and the rest.
  unfoldable pub select : HeapItem F → List (HeapItem F) → Pop F
  select best [] = top best []
  select best (x ∷ xs) =
      let kept = stays best (select x xs) in
      let passed = stays x (select best xs) in choose (cmp x best) kept passed

  unfoldable pub pop : List (HeapItem F) → Pop F
  unfolding select
  pop [] = empty
  pop (x ∷ xs) = select x xs
