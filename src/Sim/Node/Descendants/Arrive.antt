-- ===== src/Sim/Node/Descendants/Arrive.antt =====
-- src/sim/mock_node.rs: an arrival keeps the descendant totals.
use satya_btc.Common.{
  ℕ, suc, ◌+◌, ◌*◌, ◌≤◌, ◌<◌, ◌≡◌, ap, ◌∙◌, true, false, inl, inr, none, some, List, [], ◌∷◌, arith,
  ◌==◌, ==_iff, Bool-cases, Option-cases, u64_mod,
}
use satya_btc.Rpc.{MempoolEntry}
use satya_btc.Mempool.{map_insert}
use satya_btc.Sim.Node.{lookup, adjust_descendant_totals}
use satya_btc.Sim.Node.Maps.{lookup-map_insert}
use satya_btc.Sim.Node.Truthful.{IsLinked, root, child, IsForest}
use satya_btc.Sim.Node.Truthful.Arrive.{inserted, still_there, found_after, attached-IsForest}
use satya_btc.Sim.Node.Descendants.{IsWhole, last, inner, IsDescended}
use satya_btc.Sim.Node.Descendants.Mend.{IsMending, IsOwing, inner_owing}
use satya_btc.Sim.Node.Descendants.Walk.{to_add, adjust_adds}

module _ (born : ℕ) (txs : List (ℕ × MempoolEntry)) (children : List (ℕ × ℕ))
    (h : IsForest born txs children) (k : IsDescended (100_000 * born) txs children) (id : ℕ)
    (e : MempoolEntry) (new : lookup id txs ≡ none) (small : e.vsize ≤ 100_000)
    (size : e.descendantsize ≡ e.vsize) (fee : e.fees.descendant ≡ e.fees.base) where
  -- The new transaction is no parent.
  new_childless : lookup id children ≡ none
  new_childless = elim (Option-cases (lookup id children)) [
    | inl none_there ↦ none_there
    | inr (c, on) ↦ let (x, there, d) = h.index id c on in go c x d (h.linked c x there)
  ]
    where
      go :
          (c : ℕ) (x : MempoolEntry)
          → x.depends ≡ id ∷ []
          → IsLinked txs children c x
          → lookup id children ≡ none
      go c x d (root d1 a f) = absurd (ground arith)
      go c x d (child p pe d1 l c1 a f) =
          let here : lookup id txs ≡ some pe = ground arith in absurd (ground arith)

  abbrev with_new : List (ℕ × MempoolEntry)
  with_new = map_insert id e txs

  still-IsWhole :
      (v : ℕ) (x : MempoolEntry) → IsWhole txs children v x → IsWhole with_new children v x
  still-IsWhole v x (last on s f) = last on s f
  still-IsWhole v x (inner c ce on l s f) = inner c ce on (still_there id e txs c ce new l) s f

  new_low :
      (v : ℕ) (x : MempoolEntry)
      → lookup v with_new ≡ some x
      → x.descendantsize ≤ 100_000 * suc born
  new_low v x l = elim (found_after id e txs v x l) [
    | inl (at, is) ↦ rw is (omega (arith, size, small))
    | inr old ↦ omega (arith, k.low v x old)
  ]

  pub alone-IsDescended : IsDescended (100_000 * suc born) with_new children
  alone-IsDescended = record {
    whole = λ v x l. elim (found_after id e txs v x l) [
      | inl (at, is) ↦ rw (is, at) (last new_childless size fee)
      | inr old ↦ still-IsWhole v x (k.whole v x old)
    ];
    low = new_low;
  }

  module _ (positive : 0 < e.vsize) (parent : ℕ) (pe : MempoolEntry)
      (there : lookup parent txs ≡ some pe) (childless : lookup parent children ≡ none)
      (d : e.depends ≡ parent ∷ []) (a : e.ancestorsize ≡ e.vsize + pe.ancestorsize)
      (f : e.fees.ancestor ≡ e.fees.base + pe.fees.ancestor) where
    abbrev with_child : List (ℕ × ℕ)
    with_child = map_insert parent id children

    not_parent : (parent == id) ≡ false
    not_parent = elim (Bool-cases (parent == id)) [
      | inr off ↦ off
      | inl at ↦ let same : parent ≡ id = (==_iff parent id).0 at in absurd (ground arith)
    ]

    other_child : (v : ℕ) → (parent == v) ≡ false → lookup v with_child ≡ lookup v children
    other_child v off = ground (arith, lookup-map_insert parent id children v)

    other-IsWhole :
        (v : ℕ) (x : MempoolEntry)
        → (parent == v) ≡ false
        → IsWhole txs children v x
        → IsWhole with_new with_child v x
    other-IsWhole v x off (last on s f1) = last (other_child v off ∙ on) s f1
    other-IsWhole v x off (inner c ce on l s f1) =
        inner c ce (other_child v off ∙ on) (still_there id e txs c ce new l) s f1

    parent_owes :
        IsWhole txs children parent pe
        → IsOwing (to_add e.vsize e.fees.base) with_new with_child parent pe
    parent_owes (last on s f1) =
        inner_owing id e (inserted parent id children) (inserted id e txs) (omega (arith, s, size))
          (omega (arith, f1, fee))
    parent_owes (inner c ce on l s f1) = absurd (ground arith)

    with_new-IsMending :
        IsMending (to_add e.vsize e.fees.base) (100_000 * suc born) with_new with_child parent pe
    with_new-IsMending = record {
      whole = λ v x off l. elim (found_after id e txs v x l) [
        | inl (at, is) ↦ rw (is, at) (last (other_child id not_parent ∙ new_childless) size fee)
        | inr old ↦ other-IsWhole v x off (k.whole v x old)
      ];
      owing = parent_owes (k.whole parent pe there);
      low = new_low;
      room = λ v x l most. elim (found_after id e txs v x l) [
        | inl (at, is) ↦
            absurd (omega (arith, most, positive, a, ap (λ (y : MempoolEntry). y.ancestorsize) is))
        | inr old ↦ omega (arith, k.low v x old, small)
      ];
    }

    pub attached-IsDescended :
        100_000 * suc born < u64_mod
        → IsDescended
            (100_000 * suc born)
            (adjust_descendant_totals parent e.vsize e.fees.base true with_new)
            with_child
    attached-IsDescended room =
        adjust_adds e.vsize e.fees.base (100_000 * suc born) (suc born) with_child parent pe
          with_new room
          (attached-IsForest born txs children h id e new positive small parent pe there childless d
            a f)
          (still_there id e txs parent pe new there) with_new-IsMending
