-- ===== src/Gbt/Tests.antt =====
-- Runs of the projection of src/gbt.rs on small inputs, in millionths of a sat/vB, and the theorems
-- about it at such inputs.
use satya_btc.Common.{
  ℕ, zero, suc, ◌≤◌, ◌<◌, ◌≡◌, ◌↔◌, refl, true, some, List, [], ◌∷◌, arith, ==_iff, All, count,
}
use satya_btc.Float.{Scaled, scaled_float, scaled_laws}
use satya_btc.Gbt.Audit.{GbtTx, Audit, Projection, audit_of, score_of}
use satya_btc.Gbt.Ancestors.{parents_of}
use satya_btc.Gbt.Ancestors.Closure.{Has, Ancestor}
use satya_btc.Gbt.Heap.{pop}
use satya_btc.Gbt.Pack.{Outcome, done, refresh_descendants, include}
use satya_btc.Gbt.Pack.Once.{occurrences}
use satya_btc.Gbt.Pack.Rated.{rated}
use satya_btc.Gbt.Project.{
  blank_audits, link_children, fill_ancestors, no_memo, project_with, project,
}
use satya_btc.Gbt.Project.Closures.{fill_ancestors_exact}
use satya_btc.Gbt.Project.Order.{TxsFirst, project_with_order}
use satya_btc.Gbt.Project.Placement.{IsProjectable, project_with_returns}
use satya_btc.Gbt.Project.Blocks.{
  IsU32Input, IsBlock, project_with_once, project_with_weights, project_with_complete,
}

abbrev tx : ℕ → ℕ → ℕ → List ℕ → GbtTx
tx uid fee weight parents = record {
  uid = uid;
  order = uid;
  fee = fee;
  weight = weight;
  parents = parents;
}

abbrev blocks_of : Outcome (Projection Scaled) → List (List ℕ)
blocks_of (done p) = p.blocks
blocks_of _ = []

program : Unit {0}
unfolding project pop refresh_descendants score_of include
program = tt

-- `independent_txs_rank_by_descending_feerate`
independent :
    blocks_of (project (tx 0 10_000 1000 [] ∷ tx 1 5_000 1000 [] ∷ tx 2 1_000 1000 [] ∷ []))
    ≡ (0 ∷ 1 ∷ 2 ∷ []) ∷ []
unfolding program
independent = refl

-- `cpfp_parent_pulled_up_by_child`
pulled_up :
    project {F = Scaled} (tx 0 250 1000 [] ∷ tx 1 25_000 1000 (0 ∷ []) ∷ [])
    ≡ done (record {
      blocks = (0 ∷ 1 ∷ []) ∷ [];
      effective_rates = (1, 50_500_000) ∷ (0, 50_500_000) ∷ [];
    })
unfolding program
pulled_up = refl

-- `overflow_spills_to_next_block`
spills :
    blocks_of (project (tx 0 10_000 3_995_990 [] ∷ tx 1 1_000 3_995_990 [] ∷ []))
    ≡ (0 ∷ []) ∷ (1 ∷ []) ∷ []
unfolding program
spills = refl

-- A held transaction is lost when the heap drains on entries that were used before: the low-rate
-- parent 0 was included with its child 1, and its own entry is the last to be popped.
lost :
    blocks_of
      (project (tx 0 250 1000 [] ∷ tx 1 25_000 1000 (0 ∷ []) ∷ tx 2 1_000_000 3_995_000 [] ∷ []))
    ≡ (0 ∷ 1 ∷ []) ∷ []
unfolding program
lost = refl

-- A parent that its child pays for.
abbrev pair : List GbtTx
pair = tx 0 250 1000 [] ∷ tx 1 25_000 1000 (0 ∷ []) ∷ []

abbrev uid_rank : ℕ → ℕ
uid_rank u = u

pair_parents : (u p : ℕ) → Has (parents_of pair u) p → (p ≡ 0) × (u ≡ 1)
pair_parents zero p h = absurd (ground arith)
pair_parents (suc zero) p h = ground (arith, ==_iff 0 p)
pair_parents (suc (suc u)) p h = absurd (ground arith)

pair-IsProjectable : IsProjectable pair uid_rank
pair-IsProjectable = record {
  dense = record {
    uids = (omega arith, (omega arith, tt));
    parents = (tt, ((omega arith, tt), tt));
  };
  acyclic = record {
    in_range = λ u p h. omega (arith, (pair_parents u p h).0);
    below = λ u p h. omega (arith, (pair_parents u p h).0, (pair_parents u p h).1);
  };
}

pair-IsU32Input : IsU32Input pair 4_000_000 4_000
pair-IsU32Input = record {
  weights = (omega arith, (omega arith, tt));
  size = omega arith;
  reserve = omega arith;
  max_weight = omega arith;
}

abbrev pair_projection : Projection Scaled
pair_projection = record {
  blocks = (0 ∷ 1 ∷ []) ∷ [];
  effective_rates = (1, 50_500_000) ∷ (0, 50_500_000) ∷ [];
}

pair_run : project_with pair 8 4_000_000 4_000 ≡ done pair_projection
unfolding program
pair_run = refl

project_with_returns_example :
    (p : Projection Scaled) × (project_with pair 8 4_000_000 4_000 ≡ done p)
project_with_returns_example =
    project_with_returns Scaled pair uid_rank pair-IsProjectable 8 4_000_000 4_000 scaled_laws

project_with_once_example :
    (occurrences 0 ((0 ∷ 1 ∷ []) ∷ []) ≤ 1)
    × ((occurrences 0 ((0 ∷ 1 ∷ []) ∷ []) ≡ 1)
        ↔ (rated {F = Scaled} 0 ((1, 50_500_000) ∷ (0, 50_500_000) ∷ []) ≡ true))
project_with_once_example =
    project_with_once Scaled pair uid_rank pair-IsProjectable 8 4_000_000 4_000 pair_projection
      pair_run 0

project_with_weights_example : All (IsBlock pair 4_000_000 4_000) ((0 ∷ 1 ∷ []) ∷ []) × (1 ≤ 8)
project_with_weights_example =
    project_with_weights Scaled pair uid_rank pair-IsProjectable 8 4_000_000 4_000 pair_projection
      pair_run pair-IsU32Input

project_with_complete_example : occurrences 1 ((0 ∷ 1 ∷ []) ∷ []) ≡ 1
project_with_complete_example =
    project_with_complete Scaled pair uid_rank pair-IsProjectable 8 4_000_000 4_000 pair_projection
      pair_run pair-IsU32Input (omega arith) 1 (omega arith)

project_with_order_example : TxsFirst pair [] (0 ∷ 1 ∷ [])
project_with_order_example =
    project_with_order Scaled pair uid_rank pair-IsProjectable 8 4_000_000 4_000 pair_projection
      pair_run

abbrev pair_linked : List Audit
pair_linked =
    record { order = 0; fee = 250; weight = 1000; ancestors = []; children = 1 ∷ [] }
    ∷ record { order = 1; fee = 25_000; weight = 1000; ancestors = []; children = [] }
    ∷ []

pair_links : link_children pair (blank_audits pair) ≡ some pair_linked
unfolding program
pair_links = refl

fill_ancestors_exact_example :
    (audits : List Audit) × (fill_ancestors pair 2 0 (no_memo 2) pair_linked ≡ some audits)
    × ((u a : ℕ)
        → u < 2
        → (Has (audit_of audits u).ancestors a ↔ Ancestor pair u a)
          × (count a (audit_of audits u).ancestors ≤ 1))
fill_ancestors_exact_example =
    fill_ancestors_exact pair uid_rank pair-IsProjectable pair_linked pair_links
