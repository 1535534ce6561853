-- ===== src/Sim/Node/Totals.antt =====
-- src/sim/mock_node.rs: the ancestor totals of an entry are those of the walk to its root.
use satya_btc.Common.{ℕ, zero, suc, ◌+◌, ◌≤◌, ◌<◌, ◌≡◌, refl, some, List, [], ◌∷◌, arith}
use satya_btc.Rpc.{MempoolEntry}
use satya_btc.Sim.Node.{lookup, entry_at, walk_up, ancestors_of}
use satya_btc.Sim.Node.Truthful.{IsLinked, root, child, IsForest}

-- The sizes and the fees of the transactions of a list.
abbrev pub total_size : List (ℕ × MempoolEntry) → List ℕ → ℕ
total_size txs [] = 0
total_size txs (id ∷ rest) = (entry_at txs id).vsize + total_size txs rest

abbrev pub total_fee : List (ℕ × MempoolEntry) → List ℕ → ℕ
total_fee txs [] = 0
total_fee txs (id ∷ rest) = (entry_at txs id).fees.base + total_fee txs rest

walk_totals :
    (born : ℕ) (txs : List (ℕ × MempoolEntry)) (children : List (ℕ × ℕ)) (fuel id : ℕ)
    (e : MempoolEntry)
    → IsForest born txs children
    → lookup id txs ≡ some e
    → e.ancestorsize ≤ fuel
    → (e.ancestorsize ≡ total_size txs (id ∷ walk_up txs fuel id))
      × (e.fees.ancestor ≡ total_fee txs (id ∷ walk_up txs fuel id))
unfolding walk_up
walk_totals born txs children zero id e h there enough =
    absurd (go (h.sized id e there) (h.linked id e there))
  where
    go : 0 < e.vsize → IsLinked txs children id e → ⊥
    go positive (root d a f) = omega (arith, a)
    go positive (child p pe d l c a f) = omega (arith, a)
walk_totals born txs children (suc fuel) id e h there enough =
    go (h.sized id e there) (h.linked id e there)
      (λ p pe l less. walk_totals born txs children fuel p pe h l less)
  where
    go :
        0 < e.vsize
        → IsLinked txs children id e
        → ((p : ℕ) (pe : MempoolEntry)
            → lookup p txs ≡ some pe
            → pe.ancestorsize ≤ fuel
            → (pe.ancestorsize ≡ total_size txs (p ∷ walk_up txs fuel p))
              × (pe.fees.ancestor ≡ total_fee txs (p ∷ walk_up txs fuel p)))
        → (e.ancestorsize ≡ total_size txs (id ∷ walk_up txs (suc fuel) id))
          × (e.fees.ancestor ≡ total_fee txs (id ∷ walk_up txs (suc fuel) id))
    go positive (root d a f) again =
        let top : walk_up txs (suc fuel) id ≡ [] = rw (walk_up, there, d) refl in
        rw (top, entry_at, there) (omega (arith, a), omega (arith, f))
    go positive (child p pe d l c a f) again =
        let up : walk_up txs (suc fuel) id ≡ p ∷ walk_up txs fuel p =
          rw (walk_up, there, d, l) refl in
        let (size, fee) = again p pe l (omega (arith, a)) in
        rw (up, entry_at, there) (omega (arith, a, size), omega (arith, f, fee))

-- In a mempool whose chains are kept, the ancestor size and the ancestor fee of an entry are the sums
-- over itself and the transactions that `ancestors_of` gives.
pub ancestors_of_totals :
    (born : ℕ) (txs : List (ℕ × MempoolEntry)) (children : List (ℕ × ℕ)) (id : ℕ) (e : MempoolEntry)
    → IsForest born txs children
    → lookup id txs ≡ some e
    → (e.ancestorsize ≡ total_size txs (id ∷ ancestors_of txs id))
      × (e.fees.ancestor ≡ total_fee txs (id ∷ ancestors_of txs id))
unfolding ancestors_of
ancestors_of_totals born txs children id e h there =
    let same : entry_at txs id ≡ e = ground arith in
    let whole : ancestors_of txs id ≡ walk_up txs (suc e.ancestorsize) id =
      rw (ancestors_of, same) refl in
    rw whole (walk_totals born txs children (suc e.ancestorsize) id e h there (omega arith))
