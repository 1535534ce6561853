-- ===== src/Fees/Tiers/Weights.antt =====
-- src/fees.rs: the weight of rates, which the sort does not change, and what a tier is.
use satya_btc.Common.{
  ℕ, ◌+◌, ◌≤◌, ◌<◌, ◌≡◌, refl, ap, ◌∙◌, Bool, true, false, ◌⊎◌, none, some, List, [], ◌∷◌, arith,
  Ordering, if◌then◌else◌,
}
use satya_btc.Float.{Float}
use satya_btc.Fees.Tiers.{desc, insert_desc, sort_desc}

-- The weight of the rates that a test picks.
abbrev pub weight_by : {F : Type 0} → (F → Bool) → List (F × ℕ) → ℕ
weight_by picks [] = 0
weight_by picks ((rate, weight) ∷ rest) = (if picks rate then weight else 0) + weight_by picks rest

abbrev pub total_weight : {F : Type 0} → List (F × ℕ) → ℕ
total_weight xs = weight_by (λ rate. true) xs

module _ {F : Type 0} ⦃f : Float F⦄ where
  -- `rate > r` and `rate >= r`
  abbrev pub exceeds : F → F → Bool
  exceeds r rate = elim (f.partial_cmp rate r) [
    | none ↦ false
    | some Ordering.gt ↦ true
    | some Ordering.eq ↦ false
    | some Ordering.lt ↦ false
  ]

  abbrev pub reaches : F → F → Bool
  reaches r rate = elim (f.partial_cmp rate r) [
    | none ↦ false
    | some Ordering.gt ↦ true
    | some Ordering.eq ↦ true
    | some Ordering.lt ↦ false
  ]

  -- Either all the weight stays below the threshold and the tier is the floor, or the tier is a rate, or
  -- the floor above it, at which the weight first reaches the threshold: what pays more stays below it,
  -- what pays as much or more does not.
  abbrev pub IsMarginal : ℕ → F → List (F × ℕ) → F → Type 0
  IsMarginal threshold floor xs tier =
      ((total_weight xs < threshold) × (tier ≡ floor))
      ⊎ ((r : F) × (tier ≡ f.fmax r floor)
          × (weight_by (exceeds r) xs < threshold)
          × (threshold ≤ weight_by (reaches r) xs))

  pub weight_by-insert_desc :
      (picks : F → Bool) (a : F × ℕ) (xs : List (F × ℕ))
      → weight_by picks (insert_desc a xs) ≡ weight_by picks (a ∷ xs)
  unfolding insert_desc
  weight_by-insert_desc picks a [] = refl
  weight_by-insert_desc picks a (b ∷ rest) = go (desc a b) refl (weight_by-insert_desc picks a rest)
    where
      go :
          (o : Ordering)
          → desc a b ≡ o
          → weight_by picks (insert_desc a rest) ≡ weight_by picks (a ∷ rest)
          → weight_by picks (insert_desc a (b ∷ rest)) ≡ weight_by picks (a ∷ b ∷ rest)
      go Ordering.gt e ih = rw (insert_desc, e) (omega (arith, ih))
      go Ordering.eq e ih = rw (insert_desc, e) refl
      go Ordering.lt e ih = rw (insert_desc, e) refl

  pub weight_by-sort_desc :
      (picks : F → Bool) (xs : List (F × ℕ)) → weight_by picks (sort_desc xs) ≡ weight_by picks xs
  unfolding sort_desc
  weight_by-sort_desc picks [] = refl
  weight_by-sort_desc picks (a ∷ rest) =
      weight_by-insert_desc picks a (sort_desc rest)
      ∙ ap (λ n. (if picks a.0 then a.1 else 0) + n) (weight_by-sort_desc picks rest)
