-- ===== src/Sim/Node/Surface.antt =====
-- src/sim/mock_node.rs: what the node answers.
use satya_btc.Common.{ℕ, Bool, true, not, Option, some}
use satya_btc.Rpc.{MempoolEntry, MempoolRpc, ok}
use satya_btc.Mempool.{keys}
use satya_btc.Sim.Node.{lookup, MockNode}

module _ {R F : Type 0} where
  abbrev pub loaded_sync : MockNode R F → Bool
  loaded_sync n = not n.reloading

  abbrev pub entry_by_txid : MockNode R F → ℕ → Option MempoolEntry
  entry_by_txid n txid = lookup txid n.txs

  abbrev pub child_of : MockNode R F → ℕ → Option ℕ
  child_of n parent = lookup parent n.children

  -- The implementation of the trait. A copy of an entry is the entry.
  instance abbrev pub node_surface : MempoolRpc (MockNode R F)
  node_surface = record {
    mempool_info = λ n. ok (record { loaded = some (loaded_sync n); mempoolminfee = n.min_fee });
    raw_mempool_txids = λ n. ok (keys n.txs);
    raw_mempool_verbose = λ n. ok n.txs;
    mempool_entry = λ n txid. ok (entry_by_txid n txid);
    tip_height = λ n. ok n.tip_height;
    reconnect = λ n. (true, n);
  }
