-- ===== src/Sim/Node/Descent.antt =====
-- src/sim/mock_node.rs: the descent to a leaf ends, and each eviction removes a transaction.
use satya_btc.Common.{
  ℕ, zero, suc, ◌+◌, ◌≤◌, ◌<◌, ◌≡◌, sym, subst, false, inl, inr, none, some, List, [], ◌∷◌, arith,
  ◌==◌, ==_iff, if◌then◌else◌, Option-cases, Bool-cases, List-cases,
}
use satya_btc.Rpc.{MempoolEntry}
use satya_btc.Mempool.{keys, map_remove}
use satya_btc.Sim.Node.{first_key, lookup, MockNode, remove_leaf, evict, walk_down, greatest}
use satya_btc.Sim.Node.Maps.{lookup-map_remove}
use satya_btc.Sim.Node.Truthful.{IsLinked, root, child, IsForest}
use satya_btc.Sim.Node.Truthful.Pick.{first_key_there, evict_starts}
use satya_btc.Sim.Node.Truthful.Shape.{IsSame, IsShape, IsShape-refl, adjust-IsShape}

pub greatest_lem :
    (txs : List (ℕ × MempoolEntry)) (id : ℕ) (e : MempoolEntry)
    → lookup id txs ≡ some e
    → e.ancestorsize ≤ greatest txs
greatest_lem [] id e h = absurd (ground arith)
greatest_lem ((k, x) ∷ rest) id e h = elim (Bool-cases (k == id)) [
  | inl at ↦ let same : x ≡ e = ground arith in rw (sym same) (omega arith)
  | inr off ↦ omega (arith, greatest_lem rest id e (ground arith))
]

-- The child of a transaction has a greater ancestor size.
pub child_grows :
    (born : ℕ) (txs : List (ℕ × MempoolEntry)) (children : List (ℕ × ℕ)) (p c : ℕ)
    (pe : MempoolEntry)
    → IsForest born txs children
    → lookup p txs ≡ some pe
    → lookup p children ≡ some c
    → (e : MempoolEntry) × (lookup c txs ≡ some e) × (pe.ancestorsize < e.ancestorsize)
child_grows born txs children p c pe h there on =
    let (e, is, d) = h.index p c on in (e, is, go e d (h.sized c e is) (h.linked c e is))
  where
    go :
        (e : MempoolEntry)
        → e.depends ≡ p ∷ []
        → 0 < e.vsize
        → IsLinked txs children c e
        → pe.ancestorsize < e.ancestorsize
    go e d positive (root d1 a f) = absurd (ground arith)
    go e d positive (child q qe d1 l c1 a f) =
        let same : qe ≡ pe = ground arith in
        let larger : e.ancestorsize ≡ e.vsize + pe.ancestorsize = ground arith in
        omega (arith, larger)

-- Enough fuel for the descent: it ends at a transaction that has no child.
walk_down_ends :
    (born : ℕ) (txs : List (ℕ × MempoolEntry)) (children : List (ℕ × ℕ)) (fuel id : ℕ)
    (e : MempoolEntry)
    → IsForest born txs children
    → lookup id txs ≡ some e
    → greatest txs < fuel + e.ancestorsize
    → (lookup (walk_down children fuel id) children ≡ none)
      × (x : MempoolEntry) × (lookup (walk_down children fuel id) txs ≡ some x)
unfolding walk_down
walk_down_ends born txs children zero id e h there enough =
    absurd (omega (arith, greatest_lem txs id e there, enough))
walk_down_ends born txs children (suc fuel) id e h there enough =
    elim (Option-cases (lookup id children)) [
      | inl last ↦ rw (walk_down, last) (last, e, there)
      | inr (c, on) ↦
          let (x, is, grows) = child_grows born txs children id c e h there on in
          rw (walk_down, on)
            (walk_down_ends born txs children fuel c x h is (omega (arith, enough, grows)))
    ]

-- A removal of a transaction that has no child: it is gone, and the others are there as before.
module _ {R F : Type 0} (leaf : ℕ) (n : MockNode R F) (entry : MempoolEntry)
    (childless : lookup leaf n.children ≡ none) (there : lookup leaf n.txs ≡ some entry) where
  removed :
      (v : ℕ) → lookup v (map_remove leaf n.txs) ≡ (if leaf == v then none else lookup v n.txs)
  removed v = lookup-map_remove leaf n.txs v

  -- The map after a removal has the shape of the map without the leaf.
  remove_leaf-IsShape : IsShape (map_remove leaf n.txs) (remove_leaf leaf n).txs
  unfolding remove_leaf
  remove_leaf-IsShape = elim (List-cases entry.depends) [
    | inl d ↦ rw (remove_leaf, childless, there, d) (IsShape-refl (map_remove leaf n.txs))
    | inr (p, others, d) ↦
        rw (remove_leaf, childless, there, d)
          (adjust-IsShape p entry.vsize entry.fees.base false (map_remove leaf n.txs))
  ]

  removed_only :
      (lookup leaf (remove_leaf leaf n).txs ≡ none)
      × ((v : ℕ) (x : MempoolEntry)
          → (leaf == v) ≡ false
          → lookup v n.txs ≡ some x
          → (y : MempoolEntry) × (lookup v (remove_leaf leaf n).txs ≡ some y) × IsSame x y)
  removed_only =
      let shape = remove_leaf-IsShape in
      (
        elim (Option-cases (lookup leaf (remove_leaf leaf n).txs)) [
          | inl e ↦ e
          | inr (y, e) ↦
              let (x, before, same) = shape.back leaf y e in
              absurd (ground (arith, removed leaf, ==_iff leaf leaf))
        ],
        λ v x off h. shape.forth v x (ground (arith, removed v)),
      )

-- An eviction from a mempool that is not empty, whose chains are kept, removes just one transaction,
-- which has no child; the entries of the others stay the same but for their descendant totals.
pub evict_removes_leaf :
    {R F : Type 0} (born : ℕ) (n : MockNode R F) (id : ℕ) (e : MempoolEntry)
    → IsForest born n.txs n.children
    → lookup id n.txs ≡ some e
    → (leaf : ℕ) × (entry : MempoolEntry) × (lookup leaf n.children ≡ none)
      × (lookup leaf n.txs ≡ some entry)
      × (lookup leaf (evict n).txs ≡ none)
      × ((v : ℕ) (x : MempoolEntry)
          → (leaf == v) ≡ false
          → lookup v n.txs ≡ some x
          → (y : MempoolEntry) × (lookup v (evict n).txs ≡ some y) × IsSame x y)
unfolding evict
evict_removes_leaf {R = R} {F = F} born n id e h there = elim (List-cases n.txs) [
  | inl empty ↦ absurd (ground arith)
  | inr ((k, x0), rest, is) ↦
      let start = first_key n.hash (k ∷ keys rest) in
      let leaf = walk_down n.children (suc (greatest n.txs)) start in
      let (x, among) = first_key_there n.hash k x0 rest in
      let first : lookup start n.txs ≡ some x = rw is among in
      let (childless, entry, found) =
        walk_down_ends born n.txs n.children (suc (greatest n.txs)) start x h first (omega arith) in
      let same : remove_leaf leaf n ≡ evict n = evict_starts n k x0 rest is in
      let (gone, others) = removed_only leaf n entry childless found in
      (
        leaf,
        entry,
        childless,
        found,
        subst (λ (m : MockNode R F). lookup leaf m.txs ≡ none) same gone,
        λ v z off k.
            subst
              (λ (m : MockNode R F). (y : MempoolEntry) × (lookup v m.txs ≡ some y) × IsSame z y)
              same (others v z off k),
      )
]
