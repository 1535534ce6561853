-- ===== src/Sim/Node/Block/Closed.antt =====
-- src/sim/mock_node.rs, `mine_block`: a block takes no transaction without its parent.
use satya_btc.Common.{
  ℕ, zero, suc, ◌≤◌, ◌<◌, ◌≡◌, refl, ap, ◌∙◌, true, not, ◌&&◌, ◌||◌, inl, inr, none, some, List, [],
  ◌∷◌, arith, ==_iff, contains, Bool-cases, Option-cases, add64, ltb,
}
use satya_btc.Gbt.Ancestors.{insert_all}
use satya_btc.Gbt.Ancestors.Closure.{contains-insert_all}
use satya_btc.Rpc.{MempoolEntry}
use satya_btc.Mempool.{keys, remove_all}
use satya_btc.Mempool.Reconcile.{keys-remove_all}
use satya_btc.Sim.Node.{
  lookup, map_update, MockNode, entry_at, parent_in, walk_up, ancestors_of, update_each, greatest,
}
use satya_btc.Sim.Node.Truthful.{IsLinked, root, child, IsForest}
use satya_btc.Sim.Node.Block.{
  block_weight, unconfirmed, pkg_weight, fill_block, ranked, rerooted, make_root, on_parent, repair,
  repair_all, confirm_set, mine_block,
}

-- With a transaction the set has its parent.
abbrev pub IsClosed : List (ℕ × MempoolEntry) → List ℕ → Type 0
IsClosed txs set =
    (c p : ℕ) → contains set c ≡ true → parent_in txs c ≡ some p → contains set p ≡ true

contains-unconfirmed :
    (confirmed xs : List ℕ) (v : ℕ)
    → contains (unconfirmed confirmed xs) v ≡ (contains xs v && not (contains confirmed v))
contains-unconfirmed confirmed [] v = refl
contains-unconfirmed confirmed (a ∷ rest) v =
    ground (arith, contains-unconfirmed confirmed rest v, ==_iff a v)

walk_closed :
    (born : ℕ) (txs : List (ℕ × MempoolEntry)) (children : List (ℕ × ℕ)) (fuel id : ℕ)
    (e : MempoolEntry)
    → IsForest born txs children
    → lookup id txs ≡ some e
    → e.ancestorsize ≤ fuel
    → (c p : ℕ) → contains (id ∷ walk_up txs fuel id) c ≡ true
    → parent_in txs c ≡ some p
    → contains (walk_up txs fuel id) p ≡ true
unfolding walk_up
walk_closed born txs children zero id e h there enough c p k up =
    absurd (go (h.sized id e there) (h.linked id e there))
  where
    go : 0 < e.vsize → IsLinked txs children id e → ⊥
    go positive (root d a f) = omega (arith, a)
    go positive (child q qe d l c1 a f) = omega (arith, a)
walk_closed born txs children (suc fuel) id e h there enough c p k up =
    go (h.sized id e there) (h.linked id e there)
      (λ q qe l less k1. walk_closed born txs children fuel q qe h l less c p k1 up)
  where
    go :
        0 < e.vsize
        → IsLinked txs children id e
        → ((q : ℕ) (qe : MempoolEntry)
            → lookup q txs ≡ some qe
            → qe.ancestorsize ≤ fuel
            → contains (q ∷ walk_up txs fuel q) c ≡ true
            → contains (walk_up txs fuel q) p ≡ true)
        → contains (walk_up txs (suc fuel) id) p ≡ true
    go positive (root d a f) again =
        let top : walk_up txs (suc fuel) id ≡ [] = rw (walk_up, there, d) refl in
        let own : parent_in txs id ≡ none = rw (parent_in, there, d) refl in
        absurd (ground (arith, ==_iff id c))
    go positive (child q qe d l c1 a f) again =
        let step : walk_up txs (suc fuel) id ≡ q ∷ walk_up txs fuel q =
          rw (walk_up, there, d, l) refl in
        let own : parent_in txs id ≡ some q = rw (parent_in, there, d, l) refl in
        let less : qe.ancestorsize ≤ fuel = omega (arith, a) in
        let above = again q qe l less in ground (arith, above, ==_iff id c, ==_iff q p)

-- A transaction with its ancestors.
pkg_closed :
    (born : ℕ) (txs : List (ℕ × MempoolEntry)) (children : List (ℕ × ℕ)) (t : ℕ)
    → IsForest born txs children
    → (c p : ℕ) → contains (t ∷ ancestors_of txs t) c ≡ true
    → parent_in txs c ≡ some p
    → contains (ancestors_of txs t) p ≡ true
unfolding ancestors_of
pkg_closed born txs children t h c p k up = elim (Option-cases (lookup t txs)) [
  | inl gone ↦
      let own : parent_in txs t ≡ none = rw (parent_in, gone) refl in
      let top : ancestors_of txs t ≡ [] = rw (ancestors_of, walk_up, own) refl in
      absurd (ground (arith, ==_iff t c))
  | inr (e, there) ↦
      let same : entry_at txs t ≡ e = ground arith in
      walk_closed born txs children (suc (entry_at txs t).ancestorsize) t e h there
        (rw same (omega arith)) c p k up
]

pub fill_block-IsClosed :
    (born : ℕ) (txs : List (ℕ × MempoolEntry)) (children : List (ℕ × ℕ)) (order : List (ℕ × ℕ))
    (used : ℕ) (confirmed : List ℕ)
    → IsForest born txs children
    → used ≤ block_weight
    → IsClosed txs confirmed
    → ((fill_block txs order used confirmed).0 ≤ block_weight)
      × IsClosed txs (fill_block txs order used confirmed).1
unfolding fill_block
fill_block-IsClosed born txs children [] used confirmed h l k = (l, k)
fill_block-IsClosed born txs children ((score, t) ∷ rest) used confirmed h l k =
    let pkg = t ∷ unconfirmed confirmed (ancestors_of txs t) in
    let total = add64 used (pkg_weight txs pkg) in
    let skip = fill_block-IsClosed born txs children rest used confirmed h l k in
    let both = λ (v : ℕ). contains-insert_all pkg confirmed v in
    let fresh = λ (v : ℕ). contains-unconfirmed confirmed (ancestors_of txs t) v in
    let more : IsClosed txs (insert_all pkg confirmed) = λ c p here up.
      ground
        (arith, both c, both p, fresh c, fresh p, k c p, pkg_closed born txs children t h c p) in
    elim (Bool-cases (contains confirmed t || ltb block_weight total)) [
      | inl e ↦ rw e skip
      | inr e ↦ rw e (
          fill_block-IsClosed born txs children rest total (insert_all pkg confirmed) h
            (ground arith) more)
    ]

-- The repairs change no keys.
keys-map_update :
    {A : Type 0} (k : ℕ) (g : A → A) (m : List (ℕ × A)) → keys (map_update k g m) ≡ keys m
keys-map_update k g [] = refl
keys-map_update k g ((j, x) ∷ rest) = ap (λ ks. j ∷ ks) (keys-map_update k g rest)

keys-update_each :
    (g : MempoolEntry → MempoolEntry) (ids : List ℕ) (txs : List (ℕ × MempoolEntry))
    → keys (update_each g ids txs) ≡ keys txs
keys-update_each g [] txs = refl
keys-update_each g (a ∷ rest) txs =
    keys-update_each g rest (map_update a g txs) ∙ keys-map_update a g txs

keys-repair :
    (children : List (ℕ × ℕ)) (fuel parent : ℕ) (txs : List (ℕ × MempoolEntry))
    → keys (repair children fuel parent txs) ≡ keys txs
unfolding repair
keys-repair children zero parent txs = refl
keys-repair children (suc fuel) parent txs = elim (Option-cases (lookup parent children)) [
  | inl e ↦ rw (repair, e) refl
  | inr (c, e) ↦
      let changed = map_update c (on_parent (entry_at txs parent)) txs in
      rw (repair, e) (keys-repair children fuel c changed ∙ keys-map_update c _ txs)
]

keys-repair_all :
    (children : List (ℕ × ℕ)) (fuel : ℕ) (roots : List ℕ) (txs : List (ℕ × MempoolEntry))
    → keys (repair_all children fuel roots txs) ≡ keys txs
unfolding repair_all
keys-repair_all children fuel [] txs = refl
keys-repair_all children fuel (t ∷ rest) txs =
    keys-repair_all children fuel rest (repair children fuel t txs)
    ∙ keys-repair children fuel t txs

module _ {R F : Type 0} where
  pub keys-confirm_set :
      (set : List ℕ) (n : MockNode R F) (v : ℕ)
      → contains (keys (confirm_set set n).txs) v
        ≡ (not (contains set v) && contains (keys n.txs) v)
  unfolding confirm_set
  keys-confirm_set set n v =
      let roots = rerooted n.txs set (keys n.txs) in
      let updated = update_each make_root roots n.txs in
      let repaired =
        keys-repair_all (remove_all set n.children) (suc (greatest n.txs)) roots
          (remove_all set updated) in
      rw (repaired, keys-remove_all set updated v, keys-update_each make_root roots n.txs) refl

  pub mine_block_adds_none :
      (n : MockNode R F) (v : ℕ)
      → contains (keys (mine_block n).txs) v ≡ true
      → contains (keys n.txs) v ≡ true
  unfolding mine_block confirm_set
  mine_block_adds_none n v k =
      let set = (fill_block n.txs (ranked n.txs (keys n.txs)) 0 []).1 in
      let next : MockNode R F = record n { tip_height = add64 n.tip_height 1 } in
      ground (arith, keys-confirm_set set next v)
