-- ===== src/Sim/Node/Descendants/Leave.antt =====
-- src/sim/mock_node.rs, `remove_leaf`: a removal keeps the descendant totals.
use satya_btc.Common.{
  ℕ, ◌≤◌, ◌≡◌, refl, ap, ◌∙◌, false, inl, inr, none, some, List, [], ◌∷◌, arith, ◌==◌, ==_iff,
  Bool-cases, Option-cases,
}
use satya_btc.Rpc.{MempoolEntry}
use satya_btc.Mempool.{map_remove}
use satya_btc.Sim.Node.{lookup, MockNode, remove_leaf, adjust_descendant_totals}
use satya_btc.Sim.Node.Maps.{lookup-map_remove}
use satya_btc.Sim.Node.Truthful.{IsLinked, root, child, IsForest}
use satya_btc.Sim.Node.Truthful.Leave.{lookup_kept, lookup_left, left_child, not_parent}
use satya_btc.Sim.Node.Descendants.{IsWhole, last, inner, IsDescended}
use satya_btc.Sim.Node.Descendants.Mend.{IsMending, IsOwing, last_owing}
use satya_btc.Sim.Node.Descendants.Walk.{to_take, adjust_takes}

module _ (born limit : ℕ) (txs : List (ℕ × MempoolEntry)) (children : List (ℕ × ℕ))
    (h : IsForest born txs children) (k : IsDescended limit txs children) (leaf : ℕ)
    (entry : MempoolEntry) (childless : lookup leaf children ≡ none)
    (here : lookup leaf txs ≡ some entry) where
  abbrev without : List (ℕ × MempoolEntry)
  without = map_remove leaf txs

  -- Whose child the leaf is.
  above_leaf : (v : ℕ) → lookup v children ≡ some leaf → entry.depends ≡ v ∷ []
  above_leaf v on =
      let (x, there, d) = h.index v leaf on in let same : entry ≡ x = ground arith in rw same d

  still-IsWhole :
      (v : ℕ) (x : MempoolEntry) (children' : List (ℕ × ℕ))
      → (lookup v children ≡ some leaf → ⊥)
      → lookup v children' ≡ lookup v children
      → IsWhole txs children v x
      → IsWhole without children' v x
  still-IsWhole v x children' apart same (last on s f) = last (same ∙ on) s f
  still-IsWhole v x children' apart same (inner c ce on l s f) = elim (Bool-cases (leaf == c)) [
    | inr off ↦ inner c ce (same ∙ on) (lookup_left leaf txs c ce off l) s f
    | inl at ↦ let one : leaf ≡ c = (==_iff leaf c).0 at in absurd (apart (ground arith))
  ]

  left_low : (v : ℕ) (x : MempoolEntry) → lookup v without ≡ some x → x.descendantsize ≤ limit
  left_low v x l = k.low v x (lookup_kept leaf txs v x l).1

  root_left : entry.depends ≡ [] → IsDescended limit without children
  root_left alone = record {
    whole = λ v x l.
        still-IsWhole v x children (λ on. let d = above_leaf v on in absurd (ground arith)) refl
          (k.whole v x (lookup_kept leaf txs v x l).1);
    low = left_low;
  }

  module _ (parent : ℕ) (pe : MempoolEntry) (d : entry.depends ≡ parent ∷ [])
      (there : lookup parent txs ≡ some pe) (on : lookup parent children ≡ some leaf) where
    abbrev without_child : List (ℕ × ℕ)
    without_child = map_remove parent children

    other_child : (v : ℕ) → (parent == v) ≡ false → lookup v without_child ≡ lookup v children
    other_child v off = ground (arith, lookup-map_remove parent children v)

    leaf_whole :
        IsWhole txs children leaf entry
        → (entry.descendantsize ≡ entry.vsize) × (entry.fees.descendant ≡ entry.fees.base)
    leaf_whole (last on1 s f) = (s, f)
    leaf_whole (inner c ce on1 l s f) = absurd (ground arith)

    parent_owes :
        IsWhole txs children parent pe
        → IsOwing (to_take entry.vsize entry.fees.base) without without_child parent pe
    parent_owes (last on1 s f) = absurd (ground arith)
    parent_owes (inner c ce on1 l s f) =
        let same : c ≡ leaf = ground arith in
        let one : ce ≡ entry = ground arith in
        let (size, fee) = leaf_whole (k.whole leaf entry here) in
        last_owing (ground (arith, lookup-map_remove parent children parent, ==_iff parent parent))
          (omega (arith, s, size, ap (λ (x : MempoolEntry). x.descendantsize) one))
          (omega (arith, f, fee, ap (λ (x : MempoolEntry). x.fees.descendant) one))

    without-IsMending :
        IsMending (to_take entry.vsize entry.fees.base) limit without without_child parent pe
    without-IsMending = record {
      whole = λ v x off l.
          still-IsWhole v x without_child
            (λ on1.
              let d1 = above_leaf v on1 in
              let same : parent ≡ v = ground arith in absurd (ground (arith, ==_iff parent v)))
            (other_child v off) (k.whole v x (lookup_kept leaf txs v x l).1);
      owing = parent_owes (k.whole parent pe there);
      low = left_low;
      room = λ v x l most. omega (arith, left_low v x l);
    }

    child_left :
        IsDescended limit
          (adjust_descendant_totals parent entry.vsize entry.fees.base false without)
          without_child
    child_left =
        adjust_takes entry.vsize entry.fees.base limit born without_child parent pe without
          (left_child born txs children h leaf entry childless here parent d on)
          (lookup_left leaf txs parent pe
            (not_parent born txs children h leaf entry childless here parent leaf on) there)
          without-IsMending

module _ {R F : Type 0} where
  pub remove_leaf-IsDescended :
      (born limit leaf : ℕ) (n : MockNode R F)
      → IsForest born n.txs n.children
      → IsDescended limit n.txs n.children
      → IsDescended limit (remove_leaf leaf n).txs (remove_leaf leaf n).children
  unfolding remove_leaf
  remove_leaf-IsDescended born limit leaf n h k = elim (Option-cases (lookup leaf n.children)) [
    | inr (c, e) ↦ rw (remove_leaf, e) k
    | inl e ↦ elim (Option-cases (lookup leaf n.txs)) [
      | inl e1 ↦ rw (remove_leaf, e, e1) k
      | inr (entry, e1) ↦ go entry e e1 (h.linked leaf entry e1)
    ]
  ]
    where
      go :
          (entry : MempoolEntry)
          → lookup leaf n.children ≡ none
          → lookup leaf n.txs ≡ some entry
          → IsLinked n.txs n.children leaf entry
          → IsDescended limit (remove_leaf leaf n).txs (remove_leaf leaf n).children
      go entry e e1 (root d a f) =
          rw (remove_leaf, e, e1, d) (root_left born limit n.txs n.children h k leaf entry e e1 d)
      go entry e e1 (child p pe d l c a f) =
          rw (remove_leaf, e, e1, d)
            (child_left born limit n.txs n.children h k leaf entry e e1 p pe d l c)
