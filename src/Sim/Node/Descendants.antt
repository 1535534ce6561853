-- ===== src/Sim/Node/Descendants.antt =====
-- src/sim/mock_node.rs: the descendant totals of the entries.
pub mod Mend
pub mod Walk
pub mod Arrive
pub mod Leave
use satya_btc.Common.{ℕ, ◌+◌, ◌≤◌, ◌≡◌, none, some, List}
use satya_btc.Rpc.{MempoolEntry}
use satya_btc.Sim.Node.{lookup}

-- An entry has no child and just its own totals, or adds those of its child, which is in the mempool.
pub data IsWhole (txs : List (ℕ × MempoolEntry)) (children : List (ℕ × ℕ)) (id : ℕ)
    (e : MempoolEntry) : Type 0 where
  last :
      lookup id children ≡ none
      → e.descendantsize ≡ e.vsize
      → e.fees.descendant ≡ e.fees.base
      → IsWhole txs children id e
  inner :
      (c : ℕ) (ce : MempoolEntry)
      → lookup id children ≡ some c
      → lookup c txs ≡ some ce
      → e.descendantsize ≡ e.vsize + ce.descendantsize
      → e.fees.descendant ≡ e.fees.base + ce.fees.descendant
      → IsWhole txs children id e

pub record IsDescended (limit : ℕ) (txs : List (ℕ × MempoolEntry)) (children : List (ℕ × ℕ))
    : Type 0 where
  pub whole : (id : ℕ) (e : MempoolEntry) → lookup id txs ≡ some e → IsWhole txs children id e
  pub low : (id : ℕ) (e : MempoolEntry) → lookup id txs ≡ some e → e.descendantsize ≤ limit
