-- ===== src/Sim/Node/Block/Totals.antt =====
-- src/sim/mock_node.rs, `mine_block`: a block keeps the descendant totals.
use satya_btc.Common.{
  ℕ, zero, suc, ◌≡◌, refl, ◌∙◌, false, ◌⊎◌, inl, inr, none, some, List, [], ◌∷◌, arith, contains,
  Option-cases,
}
use satya_btc.Rpc.{MempoolEntry}
use satya_btc.Mempool.{keys, remove_all}
use satya_btc.Sim.Node.{lookup, map_update, MockNode, entry_at, parent_in, update_each, greatest}
use satya_btc.Sim.Node.Truthful.{IsForest}
use satya_btc.Sim.Node.Truthful.Shape.{
  IsRelated, IsRelated-refl, IsRelated-trans, update-IsRelated, update_each-IsRelated,
}
use satya_btc.Sim.Node.Descendants.{IsWhole, last, inner, IsDescended}
use satya_btc.Sim.Node.Block.{
  fill_block, ranked, rerooted, make_root, on_parent, repair, repair_all, confirm_set, mine_block,
}
use satya_btc.Sim.Node.Block.Closed.{IsClosed, fill_block-IsClosed}
use satya_btc.Sim.Node.Block.Roots.{lookup-remove_all}

-- All but the ancestor totals, and perhaps the parent, which may have left.
pub record IsHeir (e e' : MempoolEntry) : Type 0 where
  pub vsize : e'.vsize ≡ e.vsize
  pub descendantsize : e'.descendantsize ≡ e.descendantsize
  pub base : e'.fees.base ≡ e.fees.base
  pub descendant : e'.fees.descendant ≡ e.fees.descendant
  pub parents : (e'.depends ≡ []) ⊎ (e'.depends ≡ e.depends)

IsHeir-refl : (e : MempoolEntry) → IsHeir e e
IsHeir-refl e = record {
  vsize = refl;
  descendantsize = refl;
  base = refl;
  descendant = refl;
  parents = inr refl;
}

IsHeir-trans : (a b c : MempoolEntry) → IsHeir a b → IsHeir b c → IsHeir a c
IsHeir-trans a b c h k = record {
  vsize = k.vsize ∙ h.vsize;
  descendantsize = k.descendantsize ∙ h.descendantsize;
  base = k.base ∙ h.base;
  descendant = k.descendant ∙ h.descendant;
  parents = elim k.parents [
    | inl gone ↦ inl gone
    | inr same ↦ elim h.parents [ inl gone ↦ inl (same ∙ gone) | inr before ↦ inr (same ∙ before) ]
  ];
}

repair-IsRelated :
    (children : List (ℕ × ℕ)) (fuel p : ℕ) (txs : List (ℕ × MempoolEntry))
    → IsRelated IsHeir txs (repair children fuel p txs)
unfolding repair
repair-IsRelated children zero p txs = IsRelated-refl IsHeir IsHeir-refl IsHeir-trans txs
repair-IsRelated children (suc fuel) p txs = elim (Option-cases (lookup p children)) [
  | inl e ↦ rw (repair, e) (IsRelated-refl IsHeir IsHeir-refl IsHeir-trans txs)
  | inr (c, e) ↦
      let g = on_parent (entry_at txs p) in
      rw (repair, e)
        (IsRelated-trans IsHeir IsHeir-refl IsHeir-trans txs (map_update c g txs)
          (repair children fuel c (map_update c g txs))
          (update-IsRelated IsHeir IsHeir-refl IsHeir-trans g
            (λ x. record {
              vsize = refl;
              descendantsize = refl;
              base = refl;
              descendant = refl;
              parents = inr refl;
            })
            c txs)
          (repair-IsRelated children fuel c (map_update c g txs)))
]

repair_all-IsRelated :
    (children : List (ℕ × ℕ)) (fuel : ℕ) (roots : List ℕ) (txs : List (ℕ × MempoolEntry))
    → IsRelated IsHeir txs (repair_all children fuel roots txs)
unfolding repair_all
repair_all-IsRelated children fuel [] txs = IsRelated-refl IsHeir IsHeir-refl IsHeir-trans txs
repair_all-IsRelated children fuel (r ∷ rest) txs =
    IsRelated-trans IsHeir IsHeir-refl IsHeir-trans txs (repair children fuel r txs) _
      (repair-IsRelated children fuel r txs)
      (repair_all-IsRelated children fuel rest (repair children fuel r txs))

module _ (born limit : ℕ) (txs : List (ℕ × MempoolEntry)) (children : List (ℕ × ℕ)) (set : List ℕ)
    (h : IsForest born txs children) (k : IsDescended limit txs children)
    (closed : IsClosed txs set) where
  abbrev rooted : List (ℕ × MempoolEntry)
  rooted = update_each make_root (rerooted txs set (keys txs)) txs

  abbrev left : List (ℕ × MempoolEntry)
  left =
      repair_all (remove_all set children) (suc (greatest txs)) (rerooted txs set (keys txs))
        (remove_all set rooted)

  rooted-IsRelated : IsRelated IsHeir txs rooted
  rooted-IsRelated =
      update_each-IsRelated IsHeir IsHeir-refl IsHeir-trans make_root
        (λ x. record {
          vsize = refl;
          descendantsize = refl;
          base = refl;
          descendant = refl;
          parents = inl refl;
        })
        (rerooted txs set (keys txs)) txs

  survives :
      (v : ℕ) (e : MempoolEntry)
      → lookup v txs ≡ some e
      → contains set v ≡ false
      → (e' : MempoolEntry) × (lookup v left ≡ some e') × IsHeir e e'
  survives v e there out =
      let (x, l, s) = rooted-IsRelated.forth v e there in
      let kept : lookup v (remove_all set rooted) ≡ some x =
        ground (arith, lookup-remove_all set rooted v) in
      let (y, l', t) =
        (repair_all-IsRelated (remove_all set children) (suc (greatest txs))
            (rerooted txs set (keys txs)) (remove_all set rooted)).forth
          v x kept in
      (y, l', IsHeir-trans e x y s t)

  survived :
      (v : ℕ) (e' : MempoolEntry)
      → lookup v left ≡ some e'
      → (contains set v ≡ false) × (e : MempoolEntry) × (lookup v txs ≡ some e) × IsHeir e e'
  survived v e' there =
      let (x, l, t) =
        (repair_all-IsRelated (remove_all set children) (suc (greatest txs))
            (rerooted txs set (keys txs)) (remove_all set rooted)).back
          v e' there in
      let found = lookup-remove_all set rooted v in
      let out : contains set v ≡ false = ground (arith, found) in
      let before : lookup v rooted ≡ some x = ground (arith, found) in
      let (e, l', s) = rooted-IsRelated.back v x before in (out, e, l', IsHeir-trans e x e' s t)

  left-IsWhole :
      (v : ℕ) (e e' : MempoolEntry)
      → contains set v ≡ false
      → lookup v txs ≡ some e
      → IsHeir e e'
      → IsWhole txs children v e
      → IsWhole left (remove_all set children) v e'
  left-IsWhole v e e' out there s (last on a f) =
      let gone : lookup v (remove_all set children) ≡ none =
        ground (arith, lookup-remove_all set children v) in
      last gone (omega (arith, s.descendantsize, s.vsize, a))
        (omega (arith, s.descendant, s.base, f))
  left-IsWhole v e e' out there s (inner c ce on l a f) =
      let (x, here, d) = h.index v c on in
      let up : parent_in txs c ≡ some v = rw (parent_in, here, d, there) refl in
      let stays : contains set c ≡ false = ground (arith, closed c v) in
      let (ce', l', t) = survives c ce l stays in
      let still : lookup v (remove_all set children) ≡ some c =
        ground (arith, lookup-remove_all set children v) in
      inner c ce' still l' (omega (arith, s.descendantsize, s.vsize, a, t.descendantsize))
        (omega (arith, s.descendant, s.base, f, t.descendant))

  left-IsDescended : IsDescended limit left (remove_all set children)
  left-IsDescended = record {
    whole = λ v e' l.
        let (out, e, there, s) = survived v e' l in
        left-IsWhole v e e' out there s (k.whole v e there);
    low = λ v e' l.
        let (out, e, there, s) = survived v e' l in
        omega (arith, s.descendantsize, k.low v e there);
  }

module _ {R F : Type 0} where
  pub mine_block-IsDescended :
      (born limit : ℕ) (n : MockNode R F)
      → IsForest born n.txs n.children
      → IsDescended limit n.txs n.children
      → IsDescended limit (mine_block n).txs (mine_block n).children
  unfolding mine_block confirm_set
  mine_block-IsDescended born limit n h k =
      let order = ranked n.txs (keys n.txs) in
      let (weight, closed) =
        fill_block-IsClosed born n.txs n.children order 0 [] h (omega arith)
          (λ c p here up. absurd (ground arith)) in
      left-IsDescended born limit n.txs n.children (fill_block n.txs order 0 []).1 h k closed

  -- What is left was there, with the parent that it had or none, and with its own size and fee.
  pub mine_block_parents :
      (born limit : ℕ) (n : MockNode R F)
      → IsForest born n.txs n.children
      → IsDescended limit n.txs n.children
      → (v : ℕ) (e' : MempoolEntry) → lookup v (mine_block n).txs ≡ some e'
      → (e : MempoolEntry) × (lookup v n.txs ≡ some e) × IsHeir e e'
  unfolding mine_block confirm_set
  mine_block_parents born limit n h k v e' l =
      let order = ranked n.txs (keys n.txs) in
      let (weight, closed) =
        fill_block-IsClosed born n.txs n.children order 0 [] h (omega arith)
          (λ c p here up. absurd (ground arith)) in
      let (out, e, there, s) =
        survived born limit n.txs n.children (fill_block n.txs order 0 []).1 h k closed v e' l in
      (e, there, s)
