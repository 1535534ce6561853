-- ===== src/Sim/Node/Truthful/Amounts.antt =====
-- src/sim/mock_node.rs: the sums of the fees, where each fee is at most `u` sat for a vbyte.
use native.Mathlib.Nat.{mul-le-mul_left}
use satya_btc.Common.{
  ℕ, zero, suc, ◌+◌, ◌*◌, ◌≤◌, ◌<◌, ◌≡◌, refl, true, some, List, [], ◌∷◌, arith, u64_mod, All,
}
use satya_btc.Rpc.{MempoolEntry}
use satya_btc.Mempool.{keys}
use satya_btc.Sim.Node.{lookup, entry_at, amounts_fit}
use satya_btc.Sim.Node.Truthful.{IsLinked, root, child, IsForest}
use satya_btc.Sim.Node.Truthful.Pick.{all_found}
use satya_btc.Sim.Node.Descendants.{IsWhole, last, inner, IsDescended}

module _ (u born : ℕ) (txs : List (ℕ × MempoolEntry)) (children : List (ℕ × ℕ))
    (h : IsForest born txs children) (k : IsDescended (100_000 * born) txs children)
    (priced : (id : ℕ) (e : MempoolEntry)
      → lookup id txs ≡ some e
      → e.fees.base ≤ u * e.vsize) where
  -- Up the chain, whose ancestor sizes fall.
  ancestor_priced :
      (fuel id : ℕ) (e : MempoolEntry)
      → lookup id txs ≡ some e
      → e.ancestorsize < fuel
      → e.fees.ancestor ≤ u * e.ancestorsize
  ancestor_priced zero id e there enough = absurd (omega (arith, enough))
  ancestor_priced (suc fuel) id e there enough = go (ancestor_priced fuel) (h.linked id e there)
    where
      go :
          ((p : ℕ) (pe : MempoolEntry)
            → lookup p txs ≡ some pe
            → pe.ancestorsize < fuel
            → pe.fees.ancestor ≤ u * pe.ancestorsize)
          → IsLinked txs children id e
          → e.fees.ancestor ≤ u * e.ancestorsize
      go rec (root d a f) = rw (f, a) (priced id e there)
      go rec (child p pe d l c a f) =
          let up = rec p pe l (omega (arith, enough, a, h.sized id e there)) in
          let split : u * (e.vsize + pe.ancestorsize) ≡ u * e.vsize + u * pe.ancestorsize =
            grind arith in
          rw (f, a, split) (omega (arith, up, priced id e there))

  -- Down the chain, whose descendant sizes fall.
  descendant_priced :
      (fuel id : ℕ) (e : MempoolEntry)
      → lookup id txs ≡ some e
      → e.descendantsize < fuel
      → e.fees.descendant ≤ u * e.descendantsize
  descendant_priced zero id e there enough = absurd (omega (arith, enough))
  descendant_priced (suc fuel) id e there enough = go (descendant_priced fuel) (k.whole id e there)
    where
      go :
          ((c : ℕ) (ce : MempoolEntry)
            → lookup c txs ≡ some ce
            → ce.descendantsize < fuel
            → ce.fees.descendant ≤ u * ce.descendantsize)
          → IsWhole txs children id e
          → e.fees.descendant ≤ u * e.descendantsize
      go rec (last on a f) = rw (f, a) (priced id e there)
      go rec (inner c ce on l a f) =
          let down = rec c ce l (omega (arith, enough, a, h.sized id e there)) in
          let split : u * (e.vsize + ce.descendantsize) ≡ u * e.vsize + u * ce.descendantsize =
            grind arith in
          rw (f, a, split) (omega (arith, down, priced id e there))

  module _ (room : u * (100_000 * born) < u64_mod) where
    entry_fits :
        (id : ℕ) (e : MempoolEntry)
        → lookup id txs ≡ some e
        → (e.fees.ancestor < u64_mod) × (e.fees.descendant < u64_mod)
    entry_fits id e there =
        let up = ancestor_priced (suc e.ancestorsize) id e there (omega arith) in
        let down = descendant_priced (suc e.descendantsize) id e there (omega arith) in
        (
          omega (arith, up, mul-le-mul_left u (h.bound id e there), room),
          omega (arith, down, mul-le-mul_left u (k.low id e there), room),
        )

    fit_among :
        (ks : List ℕ)
        → All (λ j. (e : MempoolEntry) × (lookup j txs ≡ some e)) ks
        → amounts_fit txs ks ≡ true
    fit_among [] found = refl
    fit_among (j ∷ rest) ((e, there), found) =
        let (up, down) = entry_fits j e there in
        let same : entry_at txs j ≡ e = ground arith in
        let later = fit_among rest found in rw (same, later) (ground arith)

    -- The sums of all entries fit.
    pub all_amounts_fit : amounts_fit txs (keys txs) ≡ true
    all_amounts_fit = fit_among (keys txs) (all_found txs txs (λ v e l. (e, l)))
