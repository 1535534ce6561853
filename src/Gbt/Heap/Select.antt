-- ===== src/Gbt/Heap/Select.antt =====
-- What `pop` of src/gbt.rs's heap keeps: every item, once.
use satya_btc.Common.{
  ℕ, suc, ◌+◌, ◌≡◌, ◌≢◌, refl, Option, none, some, List, [], ◌∷◌, Ordering, arith, length, All,
}
use satya_btc.Float.{Float, IsFloat, IsNum}
use satya_btc.Gbt.Heap.{HeapItem, Pop, empty, top, unordered, stays, choose, cmp, select, pop}

module _ {F : Type 0} where
  -- A number of each item, added up.
  abbrev pub total : (HeapItem F → ℕ) → List (HeapItem F) → ℕ
  total g [] = 0
  total g (x ∷ xs) = g x + total g xs

  abbrev pub OnTop : (HeapItem F → List (HeapItem F) → Type 0) → Pop F → Type 0
  OnTop R (top item rest) = R item rest
  OnTop R _ = Unit

  choose-OnTop :
      (R : HeapItem F → List (HeapItem F) → Type 0) (o : Option Ordering) (p q : Pop F)
      → OnTop R p
      → OnTop R q
      → OnTop R (choose o p q)
  choose-OnTop R none p q hp hq = tt
  choose-OnTop R (some Ordering.gt) p q hp hq = hp
  choose-OnTop R (some _) p q hp hq = hq

  stays-All :
      (Q : HeapItem F → Type 0) (x : HeapItem F) (p : Pop F)
      → Q x
      → OnTop (λ i r. Q i × All Q r) p
      → OnTop (λ i r. Q i × All Q r) (stays x p)
  stays-All Q x (top best rest) q h = (h.0, (q, h.1))
  stays-All Q x _ q h = tt

  -- The items that `total` counts are those of the heap.
  abbrev Splits : ((HeapItem F → ℕ) → ℕ) → HeapItem F → List (HeapItem F) → Type 0
  Splits whole i r = (g : HeapItem F → ℕ) → whole g ≡ g i + total g r

  stays-Splits :
      (x : HeapItem F) (p : Pop F) (whole : (HeapItem F → ℕ) → ℕ)
      → OnTop (Splits whole) p
      → OnTop (Splits (λ g. g x + whole g)) (stays x p)
  stays-Splits x (top best rest) whole h = λ g. omega (arith, h g)
  stays-Splits x _ whole h = tt

  OnTop-map :
      (R S : HeapItem F → List (HeapItem F) → Type 0) (p : Pop F)
      → ((i : HeapItem F) (r : List (HeapItem F)) → R i r → S i r)
      → OnTop R p
      → OnTop S p
  OnTop-map R S (top i r) k h = k i r h
  OnTop-map R S _ k h = tt

module _ {F : Type 0} ⦃f : Float F⦄ where
  select-All :
      (Q : HeapItem F → Type 0) (best : HeapItem F) (xs : List (HeapItem F))
      → Q best
      → All Q xs
      → OnTop (λ i r. Q i × All Q r) (select best xs)
  unfolding select
  select-All Q best [] q h = (q, tt)
  select-All Q best (x ∷ xs) q h =
      choose-OnTop (λ i r. Q i × All Q r) (cmp x best) (stays best (select x xs))
        (stays x (select best xs)) (stays-All Q best (select x xs) q (select-All Q x xs h.0 h.1))
        (stays-All Q x (select best xs) h.0 (select-All Q best xs q h.1))

  select-Splits :
      (best : HeapItem F) (xs : List (HeapItem F))
      → OnTop (Splits (λ g. g best + total g xs)) (select best xs)
  unfolding select
  select-Splits best [] = λ g. refl
  select-Splits best (x ∷ xs) =
      let whole : (HeapItem F → ℕ) → ℕ = λ g. g best + total g (x ∷ xs) in
      choose-OnTop (Splits whole) (cmp x best) (stays best (select x xs)) (stays x (select best xs))
        (stays-Splits best (select x xs) (λ g. g x + total g xs) (select-Splits x xs))
        (OnTop-map (Splits (λ g. g x + (g best + total g xs))) (Splits whole)
          (stays x (select best xs)) (λ i r h g. omega (arith, h g))
          (stays-Splits x (select best xs) (λ g. g best + total g xs) (select-Splits best xs)))

  pub pop-All :
      (Q : HeapItem F → Type 0) (heap : List (HeapItem F)) (i : HeapItem F) (r : List (HeapItem F))
      → pop heap ≡ top i r
      → All Q heap
      → Q i × All Q r
  unfolding pop
  pop-All Q [] i r e h = cc
  pop-All Q (x ∷ xs) i r e h = rw e at (select-All Q x xs h.0 h.1)

  pub pop-total :
      (g : HeapItem F → ℕ) (heap : List (HeapItem F)) (i : HeapItem F) (r : List (HeapItem F))
      → pop heap ≡ top i r
      → total g heap ≡ g i + total g r
  unfolding pop
  pop-total g [] i r e = cc
  pop-total g (x ∷ xs) i r e =
      let h : OnTop (Splits (λ g'. g' x + total g' xs)) (top i r) = rw e at (select-Splits x xs) in
      h g

  pub length-total : (heap : List (HeapItem F)) → length heap ≡ total (λ _. 1) heap
  length-total [] = refl
  length-total (x ∷ xs) = omega (arith, length-total xs)

  pub pop-length :
      (heap : List (HeapItem F)) (i : HeapItem F) (r : List (HeapItem F))
      → pop heap ≡ top i r
      → length heap ≡ suc (length r)
  pop-length heap i r e =
      omega (arith, pop-total (λ _. 1) heap i r e, length-total heap, length-total r)

  stays-empty : (x : HeapItem F) (p : Pop F) → p ≢ empty → stays x p ≢ empty
  stays-empty x empty h e = h refl
  stays-empty x (top _ _) h e = cc
  stays-empty x unordered h e = cc

  choose-empty : (o : Option Ordering) (p q : Pop F) → p ≢ empty → q ≢ empty → choose o p q ≢ empty
  choose-empty none p q hp hq e = cc
  choose-empty (some Ordering.gt) p q hp hq e = hp e
  choose-empty (some _) p q hp hq e = hq e

  select-empty : (best : HeapItem F) (xs : List (HeapItem F)) → select best xs ≢ empty
  unfolding select
  select-empty best [] e = cc
  select-empty best (x ∷ xs) e =
      choose-empty (cmp x best) _ _ (stays-empty best _ (select-empty x xs))
        (stays-empty x _ (select-empty best xs)) e

  -- Only the empty heap gives nothing.
  pub pop-eq-empty : (heap : List (HeapItem F)) → pop heap ≡ empty → heap ≡ []
  unfolding pop
  pop-eq-empty [] e = refl
  pop-eq-empty (x ∷ xs) e = absurd (select-empty x xs e)

  stays-unordered : (x : HeapItem F) (p : Pop F) → p ≢ unordered → stays x p ≢ unordered
  stays-unordered x empty h e = cc
  stays-unordered x (top _ _) h e = cc
  stays-unordered x unordered h e = h refl

  module _ (laws : IsFloat F) where
    abbrev pub ScoreIsNum : HeapItem F → Type 0
    ScoreIsNum i = IsNum i.score

    chosen-unordered :
        (o : Option Ordering) (p q : Pop F)
        → o ≢ none
        → p ≢ unordered
        → q ≢ unordered
        → choose o p q ≢ unordered
    chosen-unordered none p q ho hp hq = absurd (ho refl)
    chosen-unordered (some Ordering.gt) p q ho hp hq = hp
    chosen-unordered (some _) p q ho hp hq = hq

    cmp-ne-none : (x y : HeapItem F) → ScoreIsNum x → ScoreIsNum y → cmp x y ≢ none
    cmp-ne-none x y hx hy = let (o, e) = laws.compares x.score y.score hx hy in ground arith

    choose-unordered :
        (x y : HeapItem F) (p q : Pop F)
        → ScoreIsNum x
        → ScoreIsNum y
        → p ≢ unordered
        → q ≢ unordered
        → choose (cmp x y) p q ≢ unordered
    choose-unordered x y p q hx hy = chosen-unordered (cmp x y) p q (cmp-ne-none x y hx hy)

    select-unordered :
        (best : HeapItem F) (xs : List (HeapItem F))
        → ScoreIsNum best
        → All ScoreIsNum xs
        → select best xs ≢ unordered
    unfolding select
    select-unordered best [] h hs e = cc
    select-unordered best (x ∷ xs) h hs e =
        choose-unordered x best _ _ hs.0 h
          (stays-unordered best _ (select-unordered x xs hs.0 hs.1))
          (stays-unordered x _ (select-unordered best xs h hs.1)) e

    -- The comparison never meets a NaN: no panic.
    pub pop-unordered : (heap : List (HeapItem F)) → All ScoreIsNum heap → pop heap ≢ unordered
    unfolding pop
    pop-unordered [] h e = cc
    pop-unordered (x ∷ xs) h e = select-unordered x xs h.0 h.1 e
