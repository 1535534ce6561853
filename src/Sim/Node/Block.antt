-- ===== src/Sim/Node/Block.antt =====
-- src/sim/mock_node.rs: a block is mined, and what it confirms leaves. Sums of `u64` wrap.
pub mod Closed
pub mod Repair
pub mod Walked
pub mod Roots
pub mod Confirm
pub mod Totals
pub mod Weight
use satya_btc.Common.{
  ℕ, zero, suc, ◌+◌, ◌*◌, ◌/◌, ◌%◌, Bool, true, false, not, ◌&&◌, ◌||◌, Option, none, some, List,
  [], ◌∷◌, add64, u64_mod, ltb, leb, ◌==◌, if◌then◌else◌, contains, min, max,
}
use satya_btc.Gbt.Ancestors.{insert_all}
use satya_btc.Rpc.{MempoolEntry}
use satya_btc.Mempool.{keys, map_remove, remove_all}
use satya_btc.Sim.Node.{
  amounts_fit, lookup, map_update, MockNode, entry_at, own_rate_sat_vb, ancestors_of, greatest,
  update_each,
}

abbrev pub block_weight : ℕ
block_weight = 4_000_000

abbrev pub effective_rate : List (ℕ × MempoolEntry) → ℕ → ℕ
effective_rate txs t =
    let e = entry_at txs t in min (own_rate_sat_vb e) (e.fees.ancestor / max e.ancestorsize 1)

-- `ranked.sort_by`: the greater rate first, and then the smaller txid.
abbrev pub ranks_before : ℕ × ℕ → ℕ × ℕ → Bool
ranks_before (a, s) (b, t) = ltb b a || ((a == b) && leb s t)

abbrev pub insert_ranked : ℕ × ℕ → List (ℕ × ℕ) → List (ℕ × ℕ)
insert_ranked a [] = a ∷ []
insert_ranked a (b ∷ rest) = if ranks_before a b then a ∷ b ∷ rest else b ∷ insert_ranked a rest

abbrev pub ranked : List (ℕ × MempoolEntry) → List ℕ → List (ℕ × ℕ)
ranked txs [] = []
ranked txs (t ∷ rest) = insert_ranked (effective_rate txs t, t) (ranked txs rest)

abbrev pub weight_of : MempoolEntry → ℕ
weight_of e = elim e.weight [ none ↦ e.vsize * 4 % u64_mod | some w ↦ w ]

abbrev pub pkg_weight : List (ℕ × MempoolEntry) → List ℕ → ℕ
pkg_weight txs [] = 0
pkg_weight txs (x ∷ rest) = add64 (weight_of (entry_at txs x)) (pkg_weight txs rest)

abbrev pub unconfirmed : List ℕ → List ℕ → List ℕ
unconfirmed confirmed [] = []
unconfirmed confirmed (a ∷ rest) =
    if contains confirmed a then unconfirmed confirmed rest else a ∷ unconfirmed confirmed rest

-- The loop over the ranked transactions, with the weight used and the set so far.
unfoldable pub fill_block : List (ℕ × MempoolEntry) → List (ℕ × ℕ) → ℕ → List ℕ → ℕ × List ℕ
unfolding ancestors_of
fill_block txs [] used confirmed = (used, confirmed)
fill_block txs ((score, t) ∷ rest) used confirmed =
    let pkg = t ∷ unconfirmed confirmed (ancestors_of txs t) in
    let total = add64 used (pkg_weight txs pkg) in
    let skip = fill_block txs rest used confirmed in
    let take_it = fill_block txs rest total (insert_all pkg confirmed) in
    if contains confirmed t || ltb block_weight total then skip else take_it

-- The survivors whose parent is confirmed.
abbrev pub rerooted : List (ℕ × MempoolEntry) → List ℕ → List ℕ → List ℕ
rerooted txs set [] = []
rerooted txs set (t ∷ rest) =
    let more = rerooted txs set rest in
    if contains set t then more else elim (entry_at txs t).depends [
      | [] ↦ more
      | p ∷ _ ↦ if contains set p then t ∷ more else more
    ]

abbrev pub make_root : MempoolEntry → MempoolEntry
make_root e = record e {
  depends = [];
  ancestorsize = e.vsize;
  fees = record e.fees { ancestor = e.fees.base };
}

abbrev pub on_parent : MempoolEntry → MempoolEntry → MempoolEntry
on_parent p c = record c {
  ancestorsize = add64 c.vsize p.ancestorsize;
  fees = record c.fees { ancestor = c.fees.base + p.fees.ancestor };
}

-- The walk down from a new root, on fuel.
unfoldable pub repair : List (ℕ × ℕ) → ℕ → ℕ → List (ℕ × MempoolEntry) → List (ℕ × MempoolEntry)
repair children zero parent txs = txs
repair children (suc fuel) parent txs = elim (lookup parent children) [
  | none ↦ txs
  | some child ↦ repair children fuel child (map_update child (on_parent (entry_at txs parent)) txs)
]

unfoldable pub repair_all :
    List (ℕ × ℕ) → ℕ → List ℕ → List (ℕ × MempoolEntry) → List (ℕ × MempoolEntry)
unfolding repair
repair_all children fuel [] txs = txs
repair_all children fuel (t ∷ rest) txs = repair_all children fuel rest (repair children fuel t txs)

module _ {R F : Type 0} where
  -- The ancestor sizes before the block grow along a chain, so the greatest is enough fuel.
  unfoldable pub confirm_set : List ℕ → MockNode R F → MockNode R F
  unfolding repair_all remove_all
  confirm_set set n =
      let roots = rerooted n.txs set (keys n.txs) in
      let left = remove_all set (update_each make_root roots n.txs) in
      let children = remove_all set n.children in
      let repaired = repair_all children (suc (greatest n.txs)) roots left in
      record n {
        txs = repaired;
        children = children;
        panicked = n.panicked || not (amounts_fit repaired (keys repaired));
      }

  unfoldable pub mine_block : MockNode R F → MockNode R F
  unfolding fill_block confirm_set
  mine_block n =
      let (used, confirmed) = fill_block n.txs (ranked n.txs (keys n.txs)) 0 [] in
      confirm_set confirmed (record n { tip_height = add64 n.tip_height 1 })
