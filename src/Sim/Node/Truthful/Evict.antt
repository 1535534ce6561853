-- ===== src/Sim/Node/Truthful/Evict.antt =====
-- src/sim/mock_node.rs: evictions keep the chains.
use satya_btc.Common.{ℕ, zero, suc, ◌*◌, ◌≡◌, ◌∷◌, ◌∙◌, sym, subst, inl, inr, max, List-cases}
use satya_btc.Mempool.{keys}
use satya_btc.Sim.Random.{Rng, Draw, IsFresh}
use satya_btc.Sim.Node.{
  first_key, MockNode, ChurnConfig, remove_leaf, evict, evict_times, walk_down, greatest,
}
use satya_btc.Sim.Node.Truthful.Leave.{remove_leaf-IsForest, remove_leaf-keeps}
use satya_btc.Sim.Node.Chains.{IsShallow, fewer-IsShallow}
use satya_btc.Sim.Node.Descendants.Leave.{remove_leaf-IsDescended}
use satya_btc.Sim.Node.Truthful.Pick.{evict_starts}
use satya_btc.Sim.Node.Truthful.Steps.{IsTruthful}

module _ {R F : Type 0} ⦃rng : Rng R⦄ ⦃draw : Draw R F⦄ (fresh : IsFresh R F) (u : ℕ) where
  remove_leaf-IsTruthful :
      (born leaf : ℕ) (n : MockNode R F)
      → IsTruthful fresh u born n
      → IsTruthful fresh u born (remove_leaf leaf n)
  remove_leaf-IsTruthful born leaf n h =
      let (same, same_cfg, same_tip, quiet, within) = remove_leaf-keeps leaf n in
      record {
        forest = remove_leaf-IsForest born leaf n h.forest;
        descended = remove_leaf-IsDescended born (100_000 * born) leaf n h.forest h.descended;
        shallow =
            subst (λ (c : ChurnConfig F). IsShallow (max c.max_chain 1) (remove_leaf leaf n).txs)
              (sym same_cfg)
              (fewer-IsShallow (max n.cfg.max_chain 1) n.txs (remove_leaf leaf n).txs
                (λ v e' l. let (e, k, d) = within v e' l in (e, k, inr d.depends)) h.shallow);
        used = λ id e' l.
            let (e, k, d) = within id e' l in
            subst (λ r. fresh.Used r id) (sym same) (h.used id e k);
        price = rw same_cfg h.price;
        priced =
            λ id e' l. let (e, k, d) = within id e' l in rw (d.base, d.vsize) (h.priced id e k);
        calm = quiet ∙ h.calm;
      }

  evict-IsTruthful :
      (born : ℕ) (n : MockNode R F) → IsTruthful fresh u born n → IsTruthful fresh u born (evict n)
  unfolding evict
  evict-IsTruthful born n h = elim (List-cases n.txs) [
    | inl e ↦ rw (evict, e) h
    | inr ((k, x), rest, e) ↦
        let start = first_key n.hash (k ∷ keys rest) in
        let leaf = walk_down n.children (suc (greatest n.txs)) start in
        let same : remove_leaf leaf n ≡ evict n = evict_starts n k x rest e in
        subst (IsTruthful fresh u born) same (remove_leaf-IsTruthful born leaf n h)
  ]

  pub evict_times-IsTruthful :
      (k born : ℕ) (n : MockNode R F)
      → IsTruthful fresh u born n
      → IsTruthful fresh u born (evict_times k n)
  unfolding evict_times
  evict_times-IsTruthful zero born n h = h
  evict_times-IsTruthful (suc k) born n h =
      evict_times-IsTruthful k born (evict n) (evict-IsTruthful born n h)
