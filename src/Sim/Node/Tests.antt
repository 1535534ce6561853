-- ===== src/Sim/Node/Tests.antt =====
-- The node of src/sim/mock_node.rs with a generator that counts, and the theorems about it at such
-- inputs. Each arrival attaches to an open chain where there is one.
use satya_btc.Common.{
  ℕ, suc, ◌≤◌, ◌<◌, ◌≡◌, refl, true, false, none, some, List, [], ◌∷◌, arith, ◌==◌, ==_iff, not,
  ◌&&◌, contains, add64,
}
use satya_btc.Float.{Scaled, scaled_float}
use satya_btc.Mempool.{keys}
use satya_btc.Rpc.{MempoolEntry}
use satya_btc.Sim.Random.{Rng, Draw, Casts, IsFresh}
use satya_btc.Sim.Node.{
  lookup, MockNode, ChurnConfig, parent_in, ancestors_of, evict, entry_at, own_rate_sat_vb,
}
use satya_btc.Sim.Node.Arrival.{new_node, advance, reload}
use satya_btc.Sim.Node.Block.{mine_block, ranked}
use satya_btc.Sim.Node.Block.Weight.{sum_weight, IsWeighed, mine_block_confirms}
use satya_btc.Sim.Node.Descent.{evict_removes_leaf}
use satya_btc.Sim.Node.Totals.{total_size, total_fee, ancestors_of_totals}
use satya_btc.Sim.Node.Truthful.{IsForest}
use satya_btc.Sim.Node.Truthful.Shape.{IsSame}
use satya_btc.Sim.Node.Truthful.Steps.{IsTruthful}
use satya_btc.Sim.Node.Truthful.Churn.{new_node-IsTruthful}
use satya_btc.Sim.Node.Truthful.History.{
  Operation, churn, restart, mine, perform_all, born_after, perform_all-IsTruthful,
}

program : Unit {0}
unfolding new_node mine_block evict ancestors_of own_rate_sat_vb
program = tt

-- A draw counts up, a range gives its least number, and a txid is the count.
instance abbrev pub count_ranges : Rng ℕ
count_ranges = record { gen_range = λ lo hi r. (lo, r); fill = λ r. (r, suc r) }

instance abbrev pub count_draws : Draw ℕ Scaled
count_draws = record { gen = λ r. (0, suc r) }

instance abbrev pub plain_casts : Casts Scaled
plain_casts = record {
  powf = λ u s. u;
  round_u64 = λ x. x;
  trunc_u64 = λ x. x;
  is_finite = λ x. true;
}

pub count-IsFresh : IsFresh ℕ Scaled
count-IsFresh = record {
  Used = λ r id. id < r;
  in_range = λ lo hi r h. (omega arith, h);
  new = λ r h. omega (arith, h);
  drawn = λ r. omega arith;
  fill_keeps = λ r id h. omega (arith, h);
  gen_keeps = λ r id h. omega (arith, h);
  range_keeps = λ lo hi r id h. h;
}

abbrev chains : ChurnConfig Scaled
chains = record {
  arrivals_per_tick = 1;
  evictions_per_tick = 1;
  fee = record { min_sat_vb = 1; max_sat_vb = 2; skew = 1_000_000 };
  cpfp_fraction = 500_000;
  max_chain = 2;
}

abbrev two_txs : MockNode ℕ Scaled
two_txs = new_node (λ ks. 1) 0 2 chains

two_keys : keys two_txs.txs ≡ 4 ∷ 2 ∷ []
unfolding program
two_keys = refl

-- The second arrival attached to the first.
attached : parent_in two_txs.txs 4 ≡ some 2
unfolding program
attached = refl

-- The map gives the parent first, and the eviction takes its child.
leaf_evicted : keys (evict two_txs).txs ≡ 2 ∷ []
unfolding program
leaf_evicted = refl

child_there : lookup 4 two_txs.txs ≡ some (entry_at two_txs.txs 4)
unfolding program
child_there = refl

two_txs-IsForest : IsForest 2 two_txs.txs two_txs.children
two_txs-IsForest =
    (new_node-IsTruthful count-IsFresh 2 (λ ks. 1) 0 2 chains (omega arith)
      (omega arith, omega arith)).forest

abbrev history : List (Operation Scaled)
history = churn ∷ restart ∷ mine ∷ churn ∷ []

three_more : born_after 2 history two_txs ≡ 4
unfolding program advance reload
three_more = refl

perform_all-IsTruthful_example :
    IsTruthful count-IsFresh 2 (born_after 2 history two_txs) (perform_all history two_txs)
perform_all-IsTruthful_example =
    perform_all-IsTruthful count-IsFresh (λ ks. 1) 0 2 chains history
      (omega (arith, three_more), omega (arith, three_more))

evict_removes_leaf_example :
    (leaf : ℕ) × (entry : MempoolEntry) × (lookup leaf two_txs.children ≡ none)
    × (lookup leaf two_txs.txs ≡ some entry)
    × (lookup leaf (evict two_txs).txs ≡ none)
    × ((v : ℕ) (x : MempoolEntry)
        → (leaf == v) ≡ false
        → lookup v two_txs.txs ≡ some x
        → (y : MempoolEntry) × (lookup v (evict two_txs).txs ≡ some y) × IsSame x y)
evict_removes_leaf_example =
    evict_removes_leaf 2 two_txs 4 (entry_at two_txs.txs 4) two_txs-IsForest child_there

ancestors_of_totals_example :
    ((entry_at two_txs.txs 4).ancestorsize
      ≡ total_size two_txs.txs (4 ∷ ancestors_of two_txs.txs 4))
    × ((entry_at two_txs.txs 4).fees.ancestor
        ≡ total_fee two_txs.txs (4 ∷ ancestors_of two_txs.txs 4))
ancestors_of_totals_example =
    ancestors_of_totals 2 two_txs.txs two_txs.children 4 (entry_at two_txs.txs 4) two_txs-IsForest
      child_there

-- Both are mined.
all_mined : keys (mine_block two_txs).txs ≡ []
unfolding program
all_mined = refl

weighed : IsWeighed two_txs.txs
unfolding program
weighed id e l = ground (arith, ==_iff 2 id, ==_iff 4 id)

mine_block_confirms_example :
    (set : List ℕ) × (sum_weight two_txs.txs set ≤ 4_000_000)
    × ((c p : ℕ) → contains set c ≡ true → parent_in two_txs.txs c ≡ some p → contains set p ≡ true)
    × ((score t : ℕ) (rest : List (ℕ × ℕ))
        → ranked two_txs.txs (keys two_txs.txs) ≡ (score, t) ∷ rest
        → sum_weight two_txs.txs (t ∷ ancestors_of two_txs.txs t) ≤ 4_000_000
        → contains set t ≡ true)
    × ((v : ℕ)
        → contains (keys (mine_block two_txs).txs) v
          ≡ (not (contains set v) && contains (keys two_txs.txs) v))
    × ((mine_block two_txs).tip_height ≡ add64 two_txs.tip_height 1)
mine_block_confirms_example = mine_block_confirms 2 two_txs two_txs-IsForest weighed (omega arith)
