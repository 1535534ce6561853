-- ===== src/Sim/Node/Truthful/Mine.antt =====
-- src/sim/mock_node.rs: a mined block keeps the chains and their totals.
use satya_btc.Common.{
  ℕ, ◌*◌, ◌≡◌, refl, sym, subst, true, false, ◌≤◌, inl, inr, some, List, [], ◌∷◌, arith, max, ◌==◌,
  contains, Bool-cases,
}
use satya_btc.Sim.Random.{Rng, Draw, IsFresh}
use satya_btc.Mempool.{keys}
use satya_btc.Sim.Node.{lookup, MockNode, amounts_fit}
use satya_btc.Rpc.{MempoolEntry}
use satya_btc.Sim.Node.Truthful.Amounts.{all_amounts_fit}
use satya_btc.Sim.Node.Block.{mine_block, confirm_set}
use satya_btc.Sim.Node.Block.Closed.{mine_block_adds_none}
use satya_btc.Sim.Node.Block.Roots.{contains-keys}
use satya_btc.Sim.Node.Block.Confirm.{mine_block-IsForest}
use satya_btc.Sim.Node.Block.Totals.{mine_block-IsDescended, mine_block_parents}
use satya_btc.Sim.Node.Chains.{fewer-IsShallow}
use satya_btc.Sim.Node.Truthful.Steps.{IsRoomy, IsTruthful}

lookup_key :
    {A : Type 0} (m : List (ℕ × A)) (v : ℕ)
    → contains (keys m) v ≡ true
    → (a : A) × (lookup v m ≡ some a)
lookup_key [] v h = absurd (ground arith)
lookup_key ((j, x) ∷ rest) v h = elim (Bool-cases (j == v)) [
  | inl e ↦ (x, ground arith)
  | inr e ↦ let (a, l) = lookup_key rest v (ground arith) in (a, ground arith)
]

module _ {R F : Type 0} ⦃rng : Rng R⦄ ⦃draw : Draw R F⦄ (fresh : IsFresh R F) (u : ℕ) where
  mine_block_draws : (n : MockNode R F) → (mine_block n).rng ≡ n.rng
  unfolding mine_block confirm_set
  mine_block_draws n = refl

  mine_block_calm :
      (n : MockNode R F)
      → n.panicked ≡ false
      → amounts_fit (mine_block n).txs (keys (mine_block n).txs) ≡ true
      → (mine_block n).panicked ≡ false
  unfolding mine_block confirm_set
  mine_block_calm n calm fit = rw (calm, fit) refl

  pub mine_block-IsTruthful :
      (born : ℕ) (n : MockNode R F)
      → IsRoomy u born
      → IsTruthful fresh u born n
      → IsTruthful fresh u born (mine_block n)
  unfolding mine_block
  mine_block-IsTruthful born n room h =
      let parents = mine_block_parents born (100_000 * born) n h.forest h.descended in
      let forest = mine_block-IsForest born n room.0 h.forest in
      let descended = mine_block-IsDescended born (100_000 * born) n h.forest h.descended in
      let priced : (v : ℕ) (y : MempoolEntry)
          → lookup v (mine_block n).txs ≡ some y
          → y.fees.base ≤ u * y.vsize =
        λ v y l. let (e, k, s) = parents v y l in rw (s.base, s.vsize) (h.priced v e k) in
      let fit =
        all_amounts_fit u born (mine_block n).txs (mine_block n).children forest descended priced
          room.1 in
      record {
        forest = forest;
        descended = descended;
        shallow =
            fewer-IsShallow (max n.cfg.max_chain 1) n.txs (mine_block n).txs
              (λ v e' l. let (e, k, s) = parents v e' l in (e, k, s.parents)) h.shallow;
        used = λ id e' l.
            let (e, there) =
              lookup_key n.txs id
                (mine_block_adds_none n id (contains-keys (mine_block n).txs id e' l)) in
            subst (λ r. fresh.Used r id) (sym (mine_block_draws n)) (h.used id e there);
        price = h.price;
        priced = priced;
        calm = mine_block_calm n h.calm fit;
      }
