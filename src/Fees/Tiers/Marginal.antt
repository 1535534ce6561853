-- ===== src/Fees/Tiers/Marginal.antt =====
-- src/fees.rs: what a tier is, whatever the order of the histogram.
use satya_btc.Common.{
  ℕ, ◌+◌, ◌*◌, ◌≤◌, ◌<◌, ◌≡◌, refl, true, false, ◌⊎◌, inl, inr, List, [], ◌∷◌, arith, add64,
  saturating_mul64, leb, Bool-cases, u64_mod,
}
use satya_btc.Float.{Float, IsFloat, Ge}
use satya_btc.Fees.Tiers.{
  fastest_depth, half_hour_depth, hour_depth, economy_depth, tier_block_weight, tier_from,
  tier_at_depth, sort_desc, recommended_tiers,
}
use satya_btc.Fees.Tiers.Monotone.{
  Above, IsDescending, Rates, sort_desc-Rates, sort_desc-IsDescending,
}
use satya_btc.Fees.Tiers.Weights.{
  weight_by, total_weight, exceeds, reaches, IsMarginal, weight_by-sort_desc,
}

module _ {F : Type 0} ⦃f : Float F⦄ (laws : IsFloat F) where
  exceeds-Ge : (r rate : F) → Ge r rate → exceeds r rate ≡ false
  exceeds-Ge r rate h = let over = laws.ge_not_gt r rate h in ground arith

  reaches-Ge : (r rate : F) → Ge rate r → reaches r rate ≡ true
  reaches-Ge r rate h = ground arith

  -- Nothing below a rate exceeds it.
  weight_by-Above : (r : F) (xs : List (F × ℕ)) → Above laws r xs → weight_by (exceeds r) xs ≡ 0
  weight_by-Above r [] h = refl
  weight_by-Above r ((rate, weight) ∷ rest) h =
      rw (exceeds-Ge r rate h.0) (omega (arith, weight_by-Above r rest h.1))

  -- Where the loop stops, with the weight before the list.
  record IsStop (threshold cum : ℕ) (floor : F) (xs : List (F × ℕ)) (tier : F) : Type 0 where
    rate : F
    tier_is : tier ≡ f.fmax rate floor
    less_above : cum + weight_by (exceeds rate) xs < threshold
    enough : threshold ≤ cum + weight_by (reaches rate) xs
    within : (q : F) → Above laws q xs → Ge q rate

  tier_from_stops :
      (threshold cum : ℕ) (floor : F) (xs : List (F × ℕ))
      → cum < threshold
      → cum + total_weight xs < u64_mod
      → Rates laws xs
      → IsDescending laws xs
      → ((cum + total_weight xs < threshold) × (tier_from threshold floor cum xs ≡ floor))
        ⊎ IsStop threshold cum floor xs (tier_from threshold floor cum xs)
  unfolding tier_from
  tier_from_stops threshold cum floor [] l room nx h = inl (omega arith, refl)
  tier_from_stops threshold cum floor ((q, w) ∷ rest) l room nx h =
      let sum : add64 cum w ≡ cum + w = omega (arith, room) in
      elim (Bool-cases (leb threshold (add64 cum w))) [
        | inl e ↦
            let own = exceeds-Ge q q (inr nx.0) in
            let from = reaches-Ge q q (inr nx.0) in
            let none_above = weight_by-Above q rest h.0 in
            let sure : threshold ≤ cum + w = ground arith in
            rw e (
              inr (record {
                rate = q;
                tier_is = refl;
                less_above = rw (own, none_above) (omega (arith, l));
                enough = rw from (omega (arith, sure));
                within = λ r above. above.0;
              }))
        | inr e ↦
            let less : cum + w < threshold = ground arith in
            let later =
              tier_from_stops threshold (cum + w) floor rest less (omega (arith, room)) nx.1 h.1 in
            rw (e, sum) (go e sum less later)
      ]
    where
      go :
          leb threshold (add64 cum w) ≡ false
          → add64 cum w ≡ cum + w
          → cum + w < threshold
          → ((cum + w + total_weight rest < threshold)
              × (tier_from threshold floor (cum + w) rest ≡ floor))
            ⊎ IsStop threshold (cum + w) floor rest (tier_from threshold floor (cum + w) rest)
          → ((cum + (w + total_weight rest) < threshold)
              × (tier_from threshold floor (cum + w) rest ≡ floor))
            ⊎ IsStop threshold cum floor ((q, w) ∷ rest) (tier_from threshold floor (cum + w) rest)
      go e sum less (inl (small, is)) = inl (omega (arith, small), is)
      go e sum less (inr stop) =
          let at = reaches-Ge stop.rate q (stop.within q h.0) in
          inr (record {
            rate = stop.rate;
            tier_is = stop.tier_is;
            less_above = elim (Bool-cases (exceeds stop.rate q)) [
              | inl k ↦ rw k (omega (arith, stop.less_above))
              | inr k ↦ rw k (omega (arith, stop.less_above))
            ];
            enough = rw at (omega (arith, stop.enough));
            within = λ r above. stop.within r above.1;
          })

  tier_at_depth-IsMarginal :
      (depth : ℕ) (floor : F) (xs : List (F × ℕ))
      → 0 < depth
      → total_weight xs < u64_mod
      → Rates laws xs
      → IsMarginal
          (saturating_mul64 depth tier_block_weight)
          floor
          xs
          (tier_at_depth (sort_desc xs) depth floor)
  unfolding tier_at_depth
  tier_at_depth-IsMarginal depth floor xs positive room nx = go (
      tier_from_stops (saturating_mul64 depth tier_block_weight) 0 floor (sort_desc xs)
        (omega (arith, positive)) (omega (arith, room, all)) (sort_desc-Rates laws xs nx)
        (sort_desc-IsDescending laws xs nx))
    where
      all : weight_by (λ (rate : F). true) (sort_desc xs) ≡ total_weight xs
      all = weight_by-sort_desc (λ rate. true) xs

      go :
          ((0 + total_weight (sort_desc xs) < saturating_mul64 depth tier_block_weight)
              × (tier_at_depth (sort_desc xs) depth floor ≡ floor))
            ⊎ IsStop
                (saturating_mul64 depth tier_block_weight)
                0
                floor
                (sort_desc xs)
                (tier_at_depth (sort_desc xs) depth floor)
          → IsMarginal
              (saturating_mul64 depth tier_block_weight)
              floor
              xs
              (tier_at_depth (sort_desc xs) depth floor)
      go (inl (small, is)) = inl (omega (arith, small, all), is)
      go (inr stop) = inr (
        stop.rate,
        stop.tier_is,
        omega (arith, stop.less_above, weight_by-sort_desc (exceeds stop.rate) xs),
        omega (arith, stop.enough, weight_by-sort_desc (reaches stop.rate) xs),
      )

  -- For rates that are numbers, and weights whose sum fits a u64, each tier is the floor if all the
  -- weight stays below the blocks of its depth; else it is a rate, or the floor where that is greater,
  -- such that what pays more than the rate weighs less than the blocks and what pays at least the rate
  -- does not. The order of the rates does not matter.
  pub recommended_tiers-IsMarginal :
      (rate_weights : List (F × ℕ)) (min_fee_sat_vb : F) (computed_at : ℕ)
      → Rates laws rate_weights
      → total_weight rate_weights < u64_mod
      → IsMarginal
          (fastest_depth * tier_block_weight)
          min_fee_sat_vb
          rate_weights
          (recommended_tiers rate_weights min_fee_sat_vb computed_at).next_block
        × IsMarginal
            (half_hour_depth * tier_block_weight)
            min_fee_sat_vb
            rate_weights
            (recommended_tiers rate_weights min_fee_sat_vb computed_at).within_3_blocks
        × IsMarginal
            (hour_depth * tier_block_weight)
            min_fee_sat_vb
            rate_weights
            (recommended_tiers rate_weights min_fee_sat_vb computed_at).within_6_blocks
        × IsMarginal
            (economy_depth * tier_block_weight)
            min_fee_sat_vb
            rate_weights
            (recommended_tiers rate_weights min_fee_sat_vb computed_at).horizon
  unfolding recommended_tiers
  recommended_tiers-IsMarginal rate_weights min_fee_sat_vb computed_at nx room = (
    tier_at_depth-IsMarginal fastest_depth min_fee_sat_vb rate_weights (omega arith) room nx,
    tier_at_depth-IsMarginal half_hour_depth min_fee_sat_vb rate_weights (omega arith) room nx,
    tier_at_depth-IsMarginal hour_depth min_fee_sat_vb rate_weights (omega arith) room nx,
    tier_at_depth-IsMarginal economy_depth min_fee_sat_vb rate_weights (omega arith) room nx,
  )
