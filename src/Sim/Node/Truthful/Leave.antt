-- ===== src/Sim/Node/Truthful/Leave.antt =====
-- src/sim/mock_node.rs, `remove_leaf`: no child loses its parent.
use satya_btc.Common.{
  ℕ, ◌≡◌, refl, false, inl, inr, none, some, List, [], ◌∷◌, arith, ◌==◌, ==_iff, Option-cases,
  Bool-cases, List-cases,
}
use satya_btc.Rpc.{MempoolEntry}
use satya_btc.Mempool.{map_remove}
use satya_btc.Sim.Node.{lookup, MockNode, remove_leaf}
use satya_btc.Sim.Node.Maps.{lookup-map_remove}
use satya_btc.Sim.Node.Truthful.{IsLinked, root, child, IsForest}
use satya_btc.Sim.Node.Truthful.Shape.{IsSame, IsSame-refl, adjust-IsShape, shape-IsForest}

-- What is found after a removal was there before, under another key.
pub lookup_kept :
    {A : Type 0} (k : ℕ) (m : List (ℕ × A)) (v : ℕ) (a : A)
    → lookup v (map_remove k m) ≡ some a
    → ((k == v) ≡ false) × (lookup v m ≡ some a)
lookup_kept k m v a h =
    let found = lookup-map_remove k m v in (ground (arith, found), ground (arith, found))

pub lookup_left :
    {A : Type 0} (k : ℕ) (m : List (ℕ × A)) (v : ℕ) (a : A)
    → (k == v) ≡ false
    → lookup v m ≡ some a
    → lookup v (map_remove k m) ≡ some a
lookup_left k m v a off h = let found = lookup-map_remove k m v in ground (arith, found)

module _ (born : ℕ) (txs : List (ℕ × MempoolEntry)) (children : List (ℕ × ℕ))
    (h : IsForest born txs children) (leaf : ℕ) (entry : MempoolEntry)
    (childless : lookup leaf children ≡ none) (here : lookup leaf txs ≡ some entry) where
  -- Nobody stands on the leaf.
  pub not_parent : (p c : ℕ) → lookup p children ≡ some c → (leaf == p) ≡ false
  not_parent p c l = elim (Bool-cases (leaf == p)) [
    | inr off ↦ off
    | inl at ↦ let same : leaf ≡ p = (==_iff leaf p).0 at in absurd (ground arith)
  ]

  left_root : entry.depends ≡ [] → IsForest born (map_remove leaf txs) children
  left_root alone = record {
    linked = λ id e l.
        go_linked id e (lookup_kept leaf txs id e l)
          (h.linked id e (lookup_kept leaf txs id e l).1);
    sized = λ id e l. h.sized id e (lookup_kept leaf txs id e l).1;
    bound = λ id e l. h.bound id e (lookup_kept leaf txs id e l).1;
    index = λ p c l.
        let (e, k, d) = h.index p c l in (e, lookup_left leaf txs c e (go_index p c e k d) k, d);
  }
    where
      go_linked :
          (id : ℕ) (e : MempoolEntry)
          → ((leaf == id) ≡ false) × (lookup id txs ≡ some e)
          → IsLinked txs children id e
          → IsLinked (map_remove leaf txs) children id e
      go_linked id e k (root d a f) = root d a f
      go_linked id e k (child p pe d l c a f) =
          child p pe d (lookup_left leaf txs p pe (not_parent p id c) l) c a f

      go_index :
          (p c : ℕ) (e : MempoolEntry)
          → lookup c txs ≡ some e
          → e.depends ≡ p ∷ []
          → (leaf == c) ≡ false
      go_index p c e k d = elim (Bool-cases (leaf == c)) [
        | inr off ↦ off
        | inl at ↦
            let same : leaf ≡ c = (==_iff leaf c).0 at in
            let one : entry ≡ e = ground arith in absurd (ground arith)
      ]

  pub left_child :
      (parent : ℕ)
      → entry.depends ≡ parent ∷ []
      → lookup parent children ≡ some leaf
      → IsForest born (map_remove leaf txs) (map_remove parent children)
  left_child parent on above = record {
    linked = λ id e l.
        go_linked id e (lookup_kept leaf txs id e l)
          (h.linked id e (lookup_kept leaf txs id e l).1);
    sized = λ id e l. h.sized id e (lookup_kept leaf txs id e l).1;
    bound = λ id e l. h.bound id e (lookup_kept leaf txs id e l).1;
    index = λ p c l.
        let (other, l') = lookup_kept parent children p c l in
        let (e, k, d) = h.index p c l' in
        (e, lookup_left leaf txs c e (go_index p c e other k d) k, d);
  }
    where
      go_linked :
          (id : ℕ) (e : MempoolEntry)
          → ((leaf == id) ≡ false) × (lookup id txs ≡ some e)
          → IsLinked txs children id e
          → IsLinked (map_remove leaf txs) (map_remove parent children) id e
      go_linked id e k (root d a f) = root d a f
      go_linked id e (off, k) (child p pe d l c a f) =
          let other : (parent == p) ≡ false = elim (Bool-cases (parent == p)) [
            | inr no_match ↦ no_match
            | inl at ↦
                let same : parent ≡ p = (==_iff parent p).0 at in
                absurd (ground (arith, ==_iff leaf id))
          ] in
          child p pe d (lookup_left leaf txs p pe (not_parent p id c) l)
            (lookup_left parent children p id other c) a f

      go_index :
          (p c : ℕ) (e : MempoolEntry)
          → (parent == p) ≡ false
          → lookup c txs ≡ some e
          → e.depends ≡ p ∷ []
          → (leaf == c) ≡ false
      go_index p c e other k d = elim (Bool-cases (leaf == c)) [
        | inr off ↦ off
        | inl at ↦
            let same : leaf ≡ c = (==_iff leaf c).0 at in
            let one : entry ≡ e = ground arith in absurd (ground (arith, ==_iff parent p))
      ]

module _ {R F : Type 0} where
  -- The settings and the height are the same.
  abbrev pub IsSettled : MockNode R F → MockNode R F → Type 0
  IsSettled n n' = (n'.cfg ≡ n.cfg) × (n'.tip_height ≡ n.tip_height)

  pub remove_leaf-IsForest :
      (born leaf : ℕ) (n : MockNode R F)
      → IsForest born n.txs n.children
      → IsForest born (remove_leaf leaf n).txs (remove_leaf leaf n).children
  unfolding remove_leaf
  remove_leaf-IsForest born leaf n h = elim (Option-cases (lookup leaf n.children)) [
    | inr (c, e) ↦ rw (remove_leaf, e) h
    | inl e ↦ elim (Option-cases (lookup leaf n.txs)) [
      | inl e1 ↦ rw (remove_leaf, e, e1) h
      | inr (entry, e1) ↦ go entry e e1 (h.linked leaf entry e1)
    ]
  ]
    where
      go :
          (entry : MempoolEntry)
          → lookup leaf n.children ≡ none
          → lookup leaf n.txs ≡ some entry
          → IsLinked n.txs n.children leaf entry
          → IsForest born (remove_leaf leaf n).txs (remove_leaf leaf n).children
      go entry e e1 (root d a f) =
          rw (remove_leaf, e, e1, d) (left_root born n.txs n.children h leaf entry e e1 d)
      go entry e e1 (child p pe d l c a f) =
          rw (remove_leaf, e, e1, d)
            (shape-IsForest born (map_remove leaf n.txs) _ (map_remove p n.children)
              (adjust-IsShape p entry.vsize entry.fees.base false (map_remove leaf n.txs))
              (left_child born n.txs n.children h leaf entry e e1 p d c))

  -- Nothing is drawn, and what is found after it was there, with the same parent.
  pub remove_leaf-keeps :
      (leaf : ℕ) (n : MockNode R F)
      → ((remove_leaf leaf n).rng ≡ n.rng)
        × ((remove_leaf leaf n).cfg ≡ n.cfg)
        × ((remove_leaf leaf n).tip_height ≡ n.tip_height)
        × ((remove_leaf leaf n).panicked ≡ n.panicked)
        × ((v : ℕ) (e' : MempoolEntry)
            → lookup v (remove_leaf leaf n).txs ≡ some e'
            → (e : MempoolEntry) × (lookup v n.txs ≡ some e) × IsSame e e')
  unfolding remove_leaf
  remove_leaf-keeps leaf n = elim (Option-cases (lookup leaf n.children)) [
    | inr (c, e) ↦ rw (remove_leaf, e) (refl, refl, refl, refl, λ v e' h. (e', h, IsSame-refl e'))
    | inl e ↦ elim (Option-cases (lookup leaf n.txs)) [
      | inl e1 ↦ rw (remove_leaf, e, e1) (refl, refl, refl, refl, λ v e' h. (e', h, IsSame-refl e'))
      | inr (entry, e1) ↦ elim (List-cases entry.depends) [
        | inl d ↦
            rw (remove_leaf, e, e1, d)
              (
                refl,
                refl,
                refl,
                refl,
                λ v e' h. (e', (lookup_kept leaf n.txs v e' h).1, IsSame-refl e'),
              )
        | inr (p, others, d) ↦
            let shape =
              adjust-IsShape p entry.vsize entry.fees.base false (map_remove leaf n.txs) in
            rw (remove_leaf, e, e1, d)
              (
                refl,
                refl,
                refl,
                refl,
                λ v e' h.
                    let (x, k, same) = shape.back v e' h in
                    (x, (lookup_kept leaf n.txs v x k).1, same),
              )
      ]
    ]
  ]
