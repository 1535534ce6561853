-- ===== src/Sim/Node/Truthful.antt =====
-- src/sim/mock_node.rs: the chains of the node, with their ancestor totals and the index of the children.
pub mod Shape
pub mod Leave
pub mod Arrive
pub mod Pick
pub mod Amounts
pub mod Steps
pub mod Evict
pub mod Churn
pub mod Mine
pub mod History
use satya_btc.Common.{ℕ, ◌+◌, ◌*◌, ◌≤◌, ◌<◌, ◌≡◌, Option, none, some, List, [], ◌∷◌}
use satya_btc.Rpc.{MempoolEntry}
use satya_btc.Sim.Node.{lookup}

-- An entry stands alone with its own totals, or on a parent that is in the mempool, whose totals it
-- adds to its own and whose child it is in the index.
pub data IsLinked (txs : List (ℕ × MempoolEntry)) (children : List (ℕ × ℕ)) (id : ℕ)
    (e : MempoolEntry) : Type 0 where
  root :
      e.depends ≡ []
      → e.ancestorsize ≡ e.vsize
      → e.fees.ancestor ≡ e.fees.base
      → IsLinked txs children id e
  child :
      (p : ℕ) (pe : MempoolEntry)
      → e.depends ≡ p ∷ []
      → lookup p txs ≡ some pe
      → lookup p children ≡ some id
      → e.ancestorsize ≡ e.vsize + pe.ancestorsize
      → e.fees.ancestor ≡ e.fees.base + pe.fees.ancestor
      → IsLinked txs children id e

-- The sizes stay below those of `born` entries of the greatest size.
pub record IsForest (born : ℕ) (txs : List (ℕ × MempoolEntry)) (children : List (ℕ × ℕ))
    : Type 0 where
  pub linked : (id : ℕ) (e : MempoolEntry) → lookup id txs ≡ some e → IsLinked txs children id e
  pub sized : (id : ℕ) (e : MempoolEntry) → lookup id txs ≡ some e → 0 < e.vsize
  pub bound : (id : ℕ) (e : MempoolEntry) → lookup id txs ≡ some e → e.ancestorsize ≤ 100_000 * born
  pub index :
      (p c : ℕ)
      → lookup p children ≡ some c
      → (e : MempoolEntry) × (lookup c txs ≡ some e) × (e.depends ≡ p ∷ [])
