-- ===== src/Sim/Node/Block/Confirm.antt =====
-- src/sim/mock_node.rs, `mine_block`: a block keeps the chains.
use satya_btc.Common.{
  ℕ, suc, ◌*◌, ◌≤◌, ◌<◌, ◌≡◌, refl, ap, ◌∙◌, sym, subst, true, false, inl, inr, none, some, List,
  [], ◌∷◌, arith, contains, Bool-cases, Option-cases, u64_mod, if◌then◌else◌, min, add64,
}
use satya_btc.Rpc.{MempoolEntry}
use satya_btc.Mempool.{keys, remove_all}
use satya_btc.Sim.Node.{lookup, MockNode, parent_in, update_each, greatest}
use satya_btc.Sim.Node.Descent.{greatest_lem}
use satya_btc.Sim.Node.Truthful.{IsLinked, root, child, IsForest}
use satya_btc.Sim.Node.Block.{fill_block, ranked, rerooted, make_root, confirm_set, mine_block}
use satya_btc.Sim.Node.Block.Closed.{IsClosed, fill_block-IsClosed}
use satya_btc.Sim.Node.Block.Repair.{IsAlmost, alone, above, IsRepairing}
use satya_btc.Sim.Node.Block.Walked.{repair_all-IsRepairing, repaired-IsForest}
use satya_btc.Sim.Node.Block.Roots.{
  lookup-remove_all, contains-keys, lookup-update_each, lookup-update_each-none, is_orphan,
  contains-rerooted,
}

module _ (born : ℕ) (txs : List (ℕ × MempoolEntry)) (children : List (ℕ × ℕ)) (set : List ℕ)
    (h : IsForest born txs children) (closed : IsClosed txs set) where
  abbrev roots : List ℕ
  roots = rerooted txs set (keys txs)

  abbrev left : List (ℕ × MempoolEntry)
  left = remove_all set (update_each make_root roots txs)

  abbrev children_left : List (ℕ × ℕ)
  children_left = remove_all set children

  abbrev survivor : ℕ → MempoolEntry → MempoolEntry
  survivor v e = if contains roots v then make_root e else e

  survives :
      (v : ℕ) (e : MempoolEntry)
      → lookup v txs ≡ some e
      → contains set v ≡ false
      → lookup v left ≡ some (survivor v e)
  survives v e there out =
      let first = lookup-update_each roots txs v e there in
      let second = lookup-remove_all set (update_each make_root roots txs) v in
      second ∙ ap (λ b. if b then none else lookup v (update_each make_root roots txs)) out ∙ first

  survived :
      (v : ℕ) (e' : MempoolEntry)
      → lookup v left ≡ some e'
      → (contains set v ≡ false)
        × (e : MempoolEntry) × (lookup v txs ≡ some e)
        × (e' ≡ survivor v e)
  survived v e' there =
      let second = lookup-remove_all set (update_each make_root roots txs) v in
      elim (Bool-cases (contains set v)) [
        | inl confirmed ↦ absurd (ground arith)
        | inr out ↦ elim (Option-cases (lookup v txs)) [
          | inl gone ↦ let still = lookup-update_each-none roots txs v gone in absurd (ground arith)
          | inr (e, is) ↦ let found = survives v e is out in (out, e, is, ground arith)
        ]
      ]

  root_flag :
      (v : ℕ) (e : MempoolEntry)
      → lookup v txs ≡ some e
      → contains set v ≡ false
      → contains roots v ≡ is_orphan txs set v
  root_flag v e there out =
      ground (arith, contains-rerooted txs set (keys txs) v, contains-keys txs v e there)

  child_index :
      (p c : ℕ)
      → contains set p ≡ false
      → lookup p children ≡ some c
      → lookup p children_left ≡ some c
  child_index p c out on = ground (arith, lookup-remove_all set children p)

  own_at_most : (v : ℕ) (e : MempoolEntry) → lookup v txs ≡ some e → e.vsize ≤ e.ancestorsize
  own_at_most v e there = go (h.linked v e there)
    where
      go : IsLinked txs children v e → e.vsize ≤ e.ancestorsize
      go (root d a f) = omega (arith, a)
      go (child p pe d l c a f) = omega (arith, a)

  survivor_at_most :
      (v : ℕ) (e : MempoolEntry)
      → lookup v txs ≡ some e
      → ((survivor v e).vsize ≡ e.vsize) × ((survivor v e).ancestorsize ≤ e.ancestorsize)
  survivor_at_most v e there = elim (Bool-cases (contains roots v)) [
    | inl k ↦ rw k (refl, own_at_most v e there)
    | inr k ↦ rw k (refl, omega arith)
  ]

  left_linked :
      (v : ℕ) (e : MempoolEntry)
      → lookup v txs ≡ some e
      → contains set v ≡ false
      → IsLinked txs children v e
      → IsAlmost children_left roots left v (survivor v e)
  left_linked v e there out (root d a f) =
      let flag : contains roots v ≡ false = ground (arith, root_flag v e there out) in
      rw flag (alone d a f)
  left_linked v e there out (child p pe d l c a f) =
      let flag = root_flag v e there out in
      elim (Bool-cases (contains set p)) [
        | inl confirmed ↦
            let new : contains roots v ≡ true = ground arith in rw new (alone refl refl refl)
        | inr stays ↦
            let same : contains roots v ≡ false = ground arith in
            rw same (
              above p (survivor p pe) d (survives p pe l stays) (child_index p v stays c)
                (omega (arith, a, (survivor_at_most p pe l).1)) (λ k. rw k (a, f)))
      ]

  left_index :
      (p c : ℕ)
      → lookup p children_left ≡ some c
      → (e : MempoolEntry) × (lookup c left ≡ some e) × (e.depends ≡ p ∷ [])
  left_index p c on = elim (Bool-cases (contains set p)) [
    | inl confirmed ↦ absurd (ground (arith, lookup-remove_all set children p))
    | inr out ↦
        let before : lookup p children ≡ some c =
          ground (arith, lookup-remove_all set children p) in
        let (e, there, d) = h.index p c before in go e there d (h.linked c e there) out
  ]
    where
      go :
          (e : MempoolEntry)
          → lookup c txs ≡ some e
          → e.depends ≡ p ∷ []
          → IsLinked txs children c e
          → contains set p ≡ false
          → (e : MempoolEntry) × (lookup c left ≡ some e) × (e.depends ≡ p ∷ [])
      go e there d (root d1 a f) out = absurd (ground arith)
      go e there d (child q qe d1 l c1 a f) out =
          let here : lookup p txs ≡ some qe = ground arith in
          let up : parent_in txs c ≡ some p = rw (parent_in, there, d, here) refl in
          let stays : contains set c ≡ false = ground (arith, closed c p) in
          let same : contains roots c ≡ false = ground (arith, root_flag c e there stays) in
          let found = survives c e there stays in (e, ground arith, d)

  left-IsRepairing : IsRepairing (min (greatest txs) (100_000 * born)) children_left roots left
  left-IsRepairing = record {
    linked = λ v e' l.
        let (out, e, there, is) = survived v e' l in
        subst (IsAlmost children_left roots left v) (sym is)
          (left_linked v e there out (h.linked v e there));
    sized = λ v e' l.
        let (out, e, there, is) = survived v e' l in
        rw is (omega (arith, (survivor_at_most v e there).0, h.sized v e there));
    bound = λ v e' l.
        let (out, e, there, is) = survived v e' l in
        rw is (
          omega
            (arith, (survivor_at_most v e there).1, h.bound v e there, greatest_lem txs v e there));
    index = left_index;
  }

module _ {R F : Type 0} where
  -- The chains after the transactions of a set with their ancestors left.
  confirm_set-IsForest :
      (born : ℕ) (set : List ℕ) (n : MockNode R F)
      → 100_000 * born < u64_mod
      → IsForest born n.txs n.children
      → IsClosed n.txs set
      → IsForest born (confirm_set set n).txs (confirm_set set n).children
  unfolding confirm_set
  confirm_set-IsForest born set n room h closed =
      let limit = min (greatest n.txs) (100_000 * born) in
      let children = remove_all set n.children in
      let small : limit < u64_mod = omega (arith, room) in
      repaired-IsForest limit small children born _ (omega arith) (
        repair_all-IsRepairing limit small children (suc (greatest n.txs))
          (rerooted n.txs set (keys n.txs))
          (remove_all set (update_each make_root (rerooted n.txs set (keys n.txs)) n.txs))
          (omega arith) (left-IsRepairing born n.txs n.children set h closed))

  pub mine_block-IsForest :
      (born : ℕ) (n : MockNode R F)
      → 100_000 * born < u64_mod
      → IsForest born n.txs n.children
      → IsForest born (mine_block n).txs (mine_block n).children
  unfolding mine_block
  mine_block-IsForest born n room h =
      let order = ranked n.txs (keys n.txs) in
      let (weight, closed) =
        fill_block-IsClosed born n.txs n.children order 0 [] h (omega arith)
          (λ c p here up. absurd (ground arith)) in
      confirm_set-IsForest born (fill_block n.txs order 0 []).1
        (record n { tip_height = add64 n.tip_height 1 }) room h closed
