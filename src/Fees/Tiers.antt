-- ===== src/Fees/Tiers.antt =====
-- src/fees.rs, `tier_at_depth` and `recommended_tiers`.
pub mod Monotone
pub mod Weights
pub mod Marginal
use satya_btc.Common.{
  ℕ, ◌-◌, none, some, List, [], ◌∷◌, Ordering, add64, saturating_mul64, leb, if◌then◌else◌,
}
use satya_btc.Float.{Float}
use satya_btc.Gbt.Audit.{max_blocks, max_block_weight, block_reserved_weight}

pub record FeeEstimate (F : Type 0) : Type 0 where
  pub next_block : F
  pub within_3_blocks : F
  pub within_6_blocks : F
  pub horizon : F
  pub relay_floor : F
  pub computed_at : ℕ

abbrev pub tier_block_weight : ℕ
tier_block_weight = max_block_weight - block_reserved_weight

abbrev pub fastest_depth : ℕ
fastest_depth = 1

abbrev pub half_hour_depth : ℕ
half_hour_depth = 3

abbrev pub hour_depth : ℕ
hour_depth = 6

abbrev pub economy_depth : ℕ
economy_depth = max_blocks

module _ {F : Type 0} ⦃f : Float F⦄ where
  -- The loop, with the weight so far.
  unfoldable pub tier_from : ℕ → F → ℕ → List (F × ℕ) → F
  tier_from threshold floor cum [] = floor
  tier_from threshold floor cum ((rate, weight) ∷ rest) =
      let next = tier_from threshold floor (add64 cum weight) rest in
      if leb threshold (add64 cum weight) then f.fmax rate floor else next

  unfoldable pub tier_at_depth : List (F × ℕ) → ℕ → F → F
  unfolding tier_from
  tier_at_depth sorted_desc depth_blocks floor =
      tier_from (saturating_mul64 depth_blocks tier_block_weight) floor 0 sorted_desc

  -- `b.0.partial_cmp(&a.0).unwrap_or(Ordering::Equal)`
  abbrev pub desc : F × ℕ → F × ℕ → Ordering
  desc a b = elim (f.partial_cmp b.0 a.0) [ none ↦ Ordering.eq | some o ↦ o ]

  -- `sort_by`, which is stable.
  unfoldable pub insert_desc : F × ℕ → List (F × ℕ) → List (F × ℕ)
  insert_desc a [] = a ∷ []
  insert_desc a (b ∷ rest) = elim (desc a b) [
    | Ordering.gt ↦ b ∷ insert_desc a rest
    | _ ↦ a ∷ b ∷ rest
  ]

  unfoldable pub sort_desc : List (F × ℕ) → List (F × ℕ)
  unfolding insert_desc
  sort_desc [] = []
  sort_desc (a ∷ rest) = insert_desc a (sort_desc rest)

  unfoldable pub recommended_tiers : List (F × ℕ) → F → ℕ → FeeEstimate F
  unfolding tier_at_depth sort_desc
  recommended_tiers rate_weights min_fee_sat_vb computed_at =
      let floor = min_fee_sat_vb in
      let sorted = sort_desc rate_weights in
      record {
        next_block = tier_at_depth sorted fastest_depth floor;
        within_3_blocks = tier_at_depth sorted half_hour_depth floor;
        within_6_blocks = tier_at_depth sorted hour_depth floor;
        horizon = tier_at_depth sorted economy_depth floor;
        relay_floor = floor;
        computed_at = computed_at;
      }
