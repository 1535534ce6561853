-- ===== src/Sim/Node/Chains.antt =====
-- src/sim/mock_node.rs: how long the chains are.
use satya_btc.Common.{
  ℕ, zero, suc, ◌+◌, ◌≤◌, ◌<◌, ◌≡◌, refl, ◌∙◌, sym, subst, ◌⊎◌, inl, inr, none, some, List, [], ◌∷◌,
  arith, Option-cases, List-cases, length,
}
use satya_btc.Rpc.{MempoolEntry}
use satya_btc.Mempool.{map_insert}
use satya_btc.Sim.Node.{lookup, parent_in, walk_up, ancestors_of, entry_at}
use satya_btc.Sim.Node.Truthful.{IsLinked, root, child, IsForest}
use satya_btc.Sim.Node.Truthful.Arrive.{inserted, still_there, found_after}

-- Each chain has at most so many transactions; the walk ends, whatever the fuel.
pub record IsShallow (bound : ℕ) (txs : List (ℕ × MempoolEntry)) : Type 0 where
  pub short :
      (fuel v : ℕ) (e : MempoolEntry) → lookup v txs ≡ some e → length (walk_up txs fuel v) < bound

-- The parent of an entry is in the mempool, and it is in that entry.
parent_there :
    (txs : List (ℕ × MempoolEntry)) (v p : ℕ)
    → parent_in txs v ≡ some p
    → (e : MempoolEntry) × (pe : MempoolEntry) × (others : List ℕ) × (lookup v txs ≡ some e)
      × (e.depends ≡ p ∷ others)
      × (lookup p txs ≡ some pe)
parent_there txs v p up = elim (Option-cases (lookup v txs)) [
  | inl gone ↦ absurd (ground arith)
  | inr (e, there) ↦ elim (List-cases e.depends) [
    | inl d ↦ absurd (ground arith)
    | inr (q, others, d) ↦ elim (Option-cases (lookup q txs)) [
      | inl gone ↦ absurd (ground arith)
      | inr (pe, here) ↦
          let same : q ≡ p = ground arith in
          (
            e,
            pe,
            others,
            there,
            subst (λ x. e.depends ≡ x ∷ others) same d,
            subst (λ x. lookup x txs ≡ some pe) same here,
          )
    ]
  ]
]

-- With no new parents, the walk from a transaction that was there is no longer.
walk_fewer :
    (txs txs' : List (ℕ × MempoolEntry))
    → ((v p : ℕ) (e : MempoolEntry)
        → lookup v txs ≡ some e
        → parent_in txs' v ≡ some p
        → parent_in txs v ≡ some p)
    → (fuel v : ℕ) (e : MempoolEntry) → lookup v txs ≡ some e
    → length (walk_up txs' fuel v) ≤ length (walk_up txs fuel v)
unfolding walk_up
walk_fewer txs txs' before zero v e there = omega arith
walk_fewer txs txs' before (suc fuel) v e there = elim (Option-cases (parent_in txs' v)) [
  | inl none_there ↦ rw (walk_up, none_there) (omega arith)
  | inr (p, up) ↦
      let up1 = before v p e there up in
      let (x, pe, others, there', d, here) = parent_there txs v p up1 in
      rw (walk_up, up, up1) (omega (arith, walk_fewer txs txs' before fuel p pe here))
]

-- Where each entry was there, and has the parent that it had or none.
pub fewer-IsShallow :
    (bound : ℕ) (txs txs' : List (ℕ × MempoolEntry))
    → ((v : ℕ) (e' : MempoolEntry)
        → lookup v txs' ≡ some e'
        → (e : MempoolEntry) × (lookup v txs ≡ some e)
          × ((e'.depends ≡ []) ⊎ (e'.depends ≡ e.depends)))
    → IsShallow bound txs
    → IsShallow bound txs'
fewer-IsShallow bound txs txs' old h = record {
  short = λ fuel v e' l.
      let (e, there, d) = old v e' l in
      omega (
        arith,
        h.short fuel v e there,
        walk_fewer txs txs' (λ v p e there up. same_parent v p up) fuel v e there,
      );
}
  where
    same_parent : (v p : ℕ) → parent_in txs' v ≡ some p → parent_in txs v ≡ some p
    same_parent v p up =
        let (e', pe', others, there', d', here') = parent_there txs' v p up in
        let (e, there, kept) = old v e' there' in
        let (pe, here, kept_p) = old p pe' here' in
        elim kept [
          | inl gone ↦ absurd (ground arith)
          | inr same ↦
              let d : e.depends ≡ p ∷ others = sym same ∙ d' in rw (parent_in, there, d, here) refl
        ]

module _ (born : ℕ) (txs : List (ℕ × MempoolEntry)) (children : List (ℕ × ℕ))
    (h : IsForest born txs children) where
  -- More fuel than the ancestor size makes the walk no longer.
  walk_bounded :
      (fuel more id : ℕ) (e : MempoolEntry)
      → lookup id txs ≡ some e
      → e.ancestorsize ≤ fuel
      → length (walk_up txs more id) ≤ length (walk_up txs fuel id)
  unfolding walk_up
  walk_bounded zero more id e there enough = absurd (go (h.sized id e there) (h.linked id e there))
    where
      go : 0 < e.vsize → IsLinked txs children id e → ⊥
      go positive (root d a f) = omega (arith, a)
      go positive (child q qe d l c1 a f) = omega (arith, a)
  walk_bounded (suc fuel) zero id e there enough = omega arith
  walk_bounded (suc fuel) (suc more) id e there enough =
      go (h.sized id e there) (h.linked id e there)
        (λ q qe l less. walk_bounded fuel more q qe l less)
    where
      go :
          0 < e.vsize
          → IsLinked txs children id e
          → ((q : ℕ) (qe : MempoolEntry)
              → lookup q txs ≡ some qe
              → qe.ancestorsize ≤ fuel
              → length (walk_up txs more q) ≤ length (walk_up txs fuel q))
          → length (walk_up txs (suc more) id) ≤ length (walk_up txs (suc fuel) id)
      go positive (root d a f) again =
          let own : parent_in txs id ≡ none = rw (parent_in, there, d) refl in
          rw (walk_up, own) (omega arith)
      go positive (child q qe d l c1 a f) again =
          let own : parent_in txs id ≡ some q = rw (parent_in, there, d, l) refl in
          rw (walk_up, own) (omega (arith, again q qe l (omega (arith, a, positive, enough))))

  walk_at_most :
      (more id : ℕ) (e : MempoolEntry)
      → lookup id txs ≡ some e
      → length (walk_up txs more id) ≤ length (ancestors_of txs id)
  unfolding ancestors_of
  walk_at_most more id e there =
      let at : entry_at txs id ≡ e = ground arith in
      let whole : ancestors_of txs id ≡ walk_up txs (suc e.ancestorsize) id =
        rw (ancestors_of, at) refl in
      rw whole (walk_bounded (suc e.ancestorsize) more id e there (omega arith))

  module _ (id : ℕ) (e : MempoolEntry) (new : lookup id txs ≡ none) where
    abbrev with_new : List (ℕ × MempoolEntry)
    with_new = map_insert id e txs

    parent_before :
        (v p : ℕ) (x : MempoolEntry)
        → lookup v txs ≡ some x
        → parent_in with_new v ≡ some p
        → parent_in txs v ≡ some p
    parent_before v p x there up = go (h.linked v x there)
      where
        go : IsLinked txs children v x → parent_in txs v ≡ some p
        go (root d a f) =
            let now = still_there id e txs v x new there in
            let none_up : parent_in with_new v ≡ none = rw (parent_in, now, d) refl in
            absurd (ground arith)
        go (child q qe d l c a f) =
            let now = still_there id e txs v x new there in
            let still = still_there id e txs q qe new l in
            let new_up : parent_in with_new v ≡ some q = rw (parent_in, now, d, still) refl in
            let old_up : parent_in txs v ≡ some q = rw (parent_in, there, d, l) refl in
            old_up ∙ sym new_up ∙ up

    -- What was there keeps its chain.
    others_short :
        (bound fuel v : ℕ) (x : MempoolEntry)
        → IsShallow bound txs
        → lookup v txs ≡ some x
        → length (walk_up with_new fuel v) < bound
    others_short bound fuel v x k there =
        omega (arith, k.short fuel v x there, walk_fewer txs with_new parent_before fuel v x there)

    cases_new :
        (bound : ℕ)
        → IsShallow bound txs
        → ((fuel : ℕ) → length (walk_up with_new fuel id) < bound)
        → IsShallow bound with_new
    cases_new bound k own = record {
      short = λ fuel v x l. elim (found_after id e txs v x l) [
        | inl (at, is) ↦ subst (λ w. length (walk_up with_new fuel w) < bound) (sym at) (own fuel)
        | inr old ↦ others_short bound fuel v x k old
      ];
    }

    pub alone-IsShallow :
        (bound : ℕ) → 0 < bound → e.depends ≡ [] → IsShallow bound txs → IsShallow bound with_new
    unfolding walk_up
    alone-IsShallow bound positive d k = cases_new bound k own
      where
        up : parent_in with_new id ≡ none
        up = rw (parent_in, inserted id e txs, d) refl

        own : (fuel : ℕ) → length (walk_up with_new fuel id) < bound
        own zero = positive
        own (suc fuel) = rw (walk_up, up) positive

    pub attached-IsShallow :
        (bound parent : ℕ) (pe : MempoolEntry)
        → lookup parent txs ≡ some pe
        → e.depends ≡ parent ∷ []
        → length (ancestors_of txs parent) + 1 < bound
        → IsShallow bound txs
        → IsShallow bound with_new
    unfolding walk_up
    attached-IsShallow bound parent pe there d short k = cases_new bound k own
      where
        up : parent_in with_new id ≡ some parent
        up = rw (parent_in, inserted id e txs, d, still_there id e txs parent pe new there) refl

        own : (fuel : ℕ) → length (walk_up with_new fuel id) < bound
        own zero = omega (arith, short)
        own (suc fuel) =
            rw (walk_up, up)
              (omega (
                arith,
                short,
                walk_at_most fuel parent pe there,
                walk_fewer txs with_new parent_before fuel parent pe there,
              ))
