-- ===== src/Fees/Tests.antt =====
-- Tiers of small histograms, in millionths of a sat/vB, and the theorems about src/fees.rs at such
-- inputs.
use satya_btc.Common.{ℕ, zero, suc, ◌<◌, ◌≡◌, refl, List, [], ◌∷◌, arith, length}
use satya_btc.Float.{Scaled, scaled_float, scaled_laws, Ge}
use satya_btc.Gbt.Pack.{done}
use satya_btc.Gbt.Ancestors.{parents_of}
use satya_btc.Gbt.Ancestors.Closure.{Has, IsAcyclic}
use satya_btc.Gbt.Project.Audits.{IsDense, tx_of}
use satya_btc.Fees.Tiers.{FeeEstimate, recommended_tiers}
use satya_btc.Fees.Tiers.Monotone.{recommended_tiers_descend}
use satya_btc.Fees.Tiers.Weights.{IsMarginal}
use satya_btc.Fees.Tiers.Marginal.{recommended_tiers-IsMarginal}
use satya_btc.Fees.Snapshot.{Entry, snapshot_to_gbt, compute_estimate}
use satya_btc.Fees.Snapshot.Dense.{snapshot_to_gbt-IsDense, compute_estimate_returns}

-- `tiers_descend_with_block_depth`
abbrev backlog : List (Scaled × ℕ)
backlog =
    (5_000_000, 4_000_000)
    ∷ (100_000_000, 4_000_000)
    ∷ (20_000_000, 4_000_000)
    ∷ (50_000_000, 4_000_000)
    ∷ []

backlog_tiers : recommended_tiers backlog 1_000_000 0 ≡ record {
  next_block = 100_000_000;
  within_3_blocks = 20_000_000;
  within_6_blocks = 1_000_000;
  horizon = 1_000_000;
  relay_floor = 1_000_000;
  computed_at = 0;
}
unfolding recommended_tiers
backlog_tiers = refl

recommended_tiers_descend_example :
    Ge {F = Scaled}
      (recommended_tiers backlog 1_000_000 0).next_block
      (recommended_tiers backlog 1_000_000 0).within_3_blocks
    × Ge {F = Scaled}
        (recommended_tiers backlog 1_000_000 0).within_3_blocks
        (recommended_tiers backlog 1_000_000 0).within_6_blocks
    × Ge {F = Scaled}
        (recommended_tiers backlog 1_000_000 0).within_6_blocks
        (recommended_tiers backlog 1_000_000 0).horizon
    × Ge {F = Scaled} (recommended_tiers backlog 1_000_000 0).horizon 1_000_000
recommended_tiers_descend_example =
    recommended_tiers_descend scaled_laws backlog 1_000_000 0 (refl, (refl, (refl, (refl, tt))))
      refl

recommended_tiers-IsMarginal_example :
    IsMarginal {F = Scaled} 3_996_000 1_000_000 backlog
      (recommended_tiers backlog 1_000_000 0).next_block
    × IsMarginal {F = Scaled} 11_988_000 1_000_000 backlog
        (recommended_tiers backlog 1_000_000 0).within_3_blocks
    × IsMarginal {F = Scaled} 23_976_000 1_000_000 backlog
        (recommended_tiers backlog 1_000_000 0).within_6_blocks
    × IsMarginal {F = Scaled} 31_968_000 1_000_000 backlog
        (recommended_tiers backlog 1_000_000 0).horizon
recommended_tiers-IsMarginal_example =
    recommended_tiers-IsMarginal scaled_laws backlog 1_000_000 0 (refl, (refl, (refl, (refl, tt))))
      (omega arith)

-- One that depends on nothing in the snapshot.
abbrev lone : List Entry
lone = record { txid = 7; fee = 1400; weight = 560; depends = 9 ∷ [] } ∷ []

snapshot_to_gbt-IsDense_example :
    IsDense (snapshot_to_gbt lone)
    × (length (snapshot_to_gbt lone) ≡ length lone)
    × ((u : ℕ) → u < length lone → (tx_of (snapshot_to_gbt lone) u).uid ≡ u)
snapshot_to_gbt-IsDense_example = snapshot_to_gbt-IsDense lone (omega arith)

lone_parents : (u p : ℕ) → Has (parents_of (snapshot_to_gbt lone) u) p → p < 0
unfolding snapshot_to_gbt
lone_parents zero p h = absurd (ground arith)
lone_parents (suc u) p h = absurd (ground arith)

lone-IsAcyclic : IsAcyclic (snapshot_to_gbt lone) (λ u. u)
lone-IsAcyclic = record {
  in_range = λ u p h. absurd (omega (arith, lone_parents u p h));
  below = λ u p h. absurd (omega (arith, lone_parents u p h));
}

compute_estimate_returns_example :
    (e : FeeEstimate Scaled) × (compute_estimate lone 1_000_000 11 ≡ done e)
compute_estimate_returns_example =
    compute_estimate_returns scaled_laws lone (λ u. u) 1_000_000 11 lone-IsAcyclic
