-- ===== src/Sim/Node/Block/Repair.antt =====
-- src/sim/mock_node.rs, `confirm_set`: the walks down from the new roots mend the totals.
use satya_btc.Common.{
  ℕ, ◌+◌, ◌≤◌, ◌<◌, ◌≡◌, refl, ap, sym, subst, false, ◌⊎◌, inl, inr, none, some, List, [], ◌∷◌,
  arith, ◌==◌, ==_iff, contains, Bool-cases, Option-cases, add64, u64_mod,
}
use satya_btc.Rpc.{MempoolEntry}
use satya_btc.Sim.Node.{lookup, map_update}
use satya_btc.Sim.Node.Maps.{lookup-map_update}
use satya_btc.Sim.Node.Block.{on_parent}

-- An entry stands alone, or on a parent that is in the mempool; its totals are at least its parent's
-- and its own, and are just these unless the parent is on the list of those to mend.
pub data IsAlmost (children : List (ℕ × ℕ)) (bad : List ℕ) (txs : List (ℕ × MempoolEntry)) (id : ℕ)
    (e : MempoolEntry) : Type 0 where
  alone :
      e.depends ≡ []
      → e.ancestorsize ≡ e.vsize
      → e.fees.ancestor ≡ e.fees.base
      → IsAlmost children bad txs id e
  above :
      (p : ℕ) (pe : MempoolEntry)
      → e.depends ≡ p ∷ []
      → lookup p txs ≡ some pe
      → lookup p children ≡ some id
      → e.vsize + pe.ancestorsize ≤ e.ancestorsize
      → (contains bad p ≡ false
          → (e.ancestorsize ≡ e.vsize + pe.ancestorsize)
            × (e.fees.ancestor ≡ e.fees.base + pe.fees.ancestor))
      → IsAlmost children bad txs id e

pub record IsRepairing (limit : ℕ) (children : List (ℕ × ℕ)) (bad : List ℕ)
    (txs : List (ℕ × MempoolEntry)) : Type 0 where
  pub linked : (id : ℕ) (e : MempoolEntry) → lookup id txs ≡ some e → IsAlmost children bad txs id e
  pub sized : (id : ℕ) (e : MempoolEntry) → lookup id txs ≡ some e → 0 < e.vsize
  pub bound : (id : ℕ) (e : MempoolEntry) → lookup id txs ≡ some e → e.ancestorsize ≤ limit
  pub index :
      (p c : ℕ)
      → lookup p children ≡ some c
      → (e : MempoolEntry) × (lookup c txs ≡ some e) × (e.depends ≡ p ∷ [])

module _ (limit : ℕ) (room : limit < u64_mod) (children : List (ℕ × ℕ)) where
  -- A transaction that has no child needs no mending.
  pub mended :
      (p : ℕ) (bad : List ℕ) (txs : List (ℕ × MempoolEntry))
      → lookup p children ≡ none
      → IsRepairing limit children (p ∷ bad) txs
      → IsRepairing limit children bad txs
  mended p bad txs last h = record {
    linked = λ id e l. go id e (h.linked id e l);
    sized = h.sized;
    bound = h.bound;
    index = h.index;
  }
    where
      go :
          (id : ℕ) (e : MempoolEntry)
          → IsAlmost children (p ∷ bad) txs id e
          → IsAlmost children bad txs id e
      go id e (alone d a f) = alone d a f
      go id e (above q qe d l c most exact) = above q qe d l c most (λ k.
          exact (elim (Bool-cases (p == q)) [
            | inl at ↦ let same : p ≡ q = (==_iff p q).0 at in absurd (ground arith)
            | inr off ↦ ground arith
          ]))

  -- The parent of a transaction that is the child of one.
  pub parent_of_child :
      (p c : ℕ) (bad : List ℕ) (txs : List (ℕ × MempoolEntry))
      → IsRepairing limit children bad txs
      → lookup p children ≡ some c
      → (e : MempoolEntry) × (pe : MempoolEntry) × (lookup c txs ≡ some e)
        × (e.depends ≡ p ∷ [])
        × (lookup p txs ≡ some pe)
        × (e.vsize + pe.ancestorsize ≤ e.ancestorsize)
        × (0 < e.vsize)
        × (e.ancestorsize ≤ limit)
  parent_of_child p c bad txs h on =
      let (e, there, d) = h.index p c on in go e there d (h.linked c e there)
    where
      go :
          (e : MempoolEntry)
          → lookup c txs ≡ some e
          → e.depends ≡ p ∷ []
          → IsAlmost children bad txs c e
          → (e : MempoolEntry) × (pe : MempoolEntry) × (lookup c txs ≡ some e)
            × (e.depends ≡ p ∷ [])
            × (lookup p txs ≡ some pe)
            × (e.vsize + pe.ancestorsize ≤ e.ancestorsize)
            × (0 < e.vsize)
            × (e.ancestorsize ≤ limit)
      go e there d (alone d1 a f) = absurd (ground arith)
      go e there d (above q qe d1 l c1 most exact) =
          let here : lookup p txs ≡ some qe = ground arith in
          (e, qe, there, d, here, most, h.sized c e there, h.bound c e there)

  -- A step of the walk: the child of the parent is mended, and its own child is next.
  module _ (p c : ℕ) (pe ce : MempoolEntry) (bad : List ℕ) (txs : List (ℕ × MempoolEntry))
      (h : IsRepairing limit children (p ∷ bad) txs) (here : lookup p txs ≡ some pe)
      (on : lookup p children ≡ some c) (there : lookup c txs ≡ some ce) (d : ce.depends ≡ p ∷ [])
      (below : ce.vsize + pe.ancestorsize ≤ ce.ancestorsize) (positive : 0 < ce.vsize)
      (small : ce.ancestorsize ≤ limit) where
    abbrev changed : List (ℕ × MempoolEntry)
    changed = map_update c (on_parent pe) txs

    pub sum : add64 ce.vsize pe.ancestorsize ≡ ce.vsize + pe.ancestorsize
    sum = omega (arith, below, small, room)

    not_own_parent : (c == p) ≡ false
    not_own_parent = elim (Bool-cases (c == p)) [
      | inr off ↦ off
      | inl at ↦
          let same : c ≡ p = (==_iff c p).0 at in
          let one : ce ≡ pe = ground arith in
          absurd (omega (arith, below, positive, ap (λ (e : MempoolEntry). e.ancestorsize) one))
    ]

    pub changed_child : lookup c changed ≡ some (on_parent pe ce)
    changed_child = ground (arith, lookup-map_update c (on_parent pe) txs c, ==_iff c c)

    changed_other :
        (v : ℕ) (e : MempoolEntry)
        → (c == v) ≡ false
        → lookup v txs ≡ some e
        → lookup v changed ≡ some e
    changed_other v e off l = ground (arith, lookup-map_update c (on_parent pe) txs v)

    changed_cases :
        (v : ℕ) (e : MempoolEntry)
        → lookup v changed ≡ some e
        → ((c ≡ v) × (e ≡ on_parent pe ce)) ⊎ (((c == v) ≡ false) × (lookup v txs ≡ some e))
    changed_cases v e l = elim (Bool-cases (c == v)) [
      | inl at ↦ let same : c ≡ v = (==_iff c v).0 at in inl (same, ground (arith, changed_child))
      | inr off ↦ inr (
        off,
        elim (Option-cases (lookup v txs)) [
          | inl gone ↦ absurd (ground (arith, lookup-map_update c (on_parent pe) txs v))
          | inr (x, is) ↦ let found = changed_other v x off is in ground arith
        ],
      )
    ]

    other_linked :
        (v : ℕ) (e : MempoolEntry)
        → (c == v) ≡ false
        → IsAlmost children (p ∷ bad) txs v e
        → IsAlmost children (c ∷ bad) changed v e
    other_linked v e off (alone d1 a f) = alone d1 a f
    other_linked v e off (above q qe d1 l on1 most exact) = elim (Bool-cases (c == q)) [
      | inl at ↦
          let same : c ≡ q = (==_iff c q).0 at in
          let one : ce ≡ qe = ground arith in
          above q (on_parent pe ce) d1
            (subst (λ x. lookup x changed ≡ some (on_parent pe ce)) same changed_child) on1
            (omega (arith, sum, below, most, ap (λ (x : MempoolEntry). x.ancestorsize) one))
            (λ k. absurd (ground arith))
      | inr far ↦ above q qe d1 (changed_other q qe far l) on1 most (λ k.
          exact (elim (Bool-cases (p == q)) [
            | inl at ↦ let same : p ≡ q = (==_iff p q).0 at in absurd (ground (arith, ==_iff c v))
            | inr off1 ↦ ground arith
          ]))
    ]

    pub changed-IsRepairing : IsRepairing limit children (c ∷ bad) changed
    changed-IsRepairing = record {
      linked = λ v e l. elim (changed_cases v e l) [
        | inl (at, is) ↦
            subst (λ x. IsAlmost children (c ∷ bad) changed x e) at
              (subst (IsAlmost children (c ∷ bad) changed c) (sym is) (
                above p pe d (changed_other p pe not_own_parent here) on (omega (arith, sum))
                  (λ k. (sum, refl))))
        | inr (off, is) ↦ other_linked v e off (h.linked v e is)
      ];
      sized = λ v e l. elim (changed_cases v e l) [
        | inl (at, is) ↦ rw is positive
        | inr (off, is) ↦ h.sized v e is
      ];
      bound = λ v e l. elim (changed_cases v e l) [
        | inl (at, is) ↦ rw is (omega (arith, sum, below, small))
        | inr (off, is) ↦ h.bound v e is
      ];
      index = λ q v l.
          let (e, is, d1) = h.index q v l in
          elim (Bool-cases (c == v)) [
            | inl at ↦
                let same : c ≡ v = (==_iff c v).0 at in
                let one : ce ≡ e = ground arith in
                (
                  on_parent pe ce,
                  subst (λ x. lookup x changed ≡ some (on_parent pe ce)) same changed_child,
                  ground arith,
                )
            | inr off ↦ (e, changed_other v e off is, d1)
          ];
    }
