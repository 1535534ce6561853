-- ===== src/Sim/Node/Truthful/Shape.antt =====
-- src/sim/mock_node.rs: changes of the descendant totals leave the chains as they are.
use satya_btc.Common.{
  ℕ, ◌≡◌, refl, ◌∙◌, subst, Bool, true, false, inl, inr, some, List, [], ◌∷◌, arith, ◌==◌,
  Option-cases, Bool-cases,
}
use satya_btc.Rpc.{MempoolEntry}
use satya_btc.Sim.Node.{
  lookup, map_update, add_total, sub_total, update_each, adjust_descendant_totals, ancestors_of,
}
use satya_btc.Sim.Node.Maps.{lookup-map_update}
use satya_btc.Sim.Node.Truthful.{IsLinked, root, child, IsForest}

-- All but the descendant totals.
pub record IsSame (e e' : MempoolEntry) : Type 0 where
  pub depends : e'.depends ≡ e.depends
  pub vsize : e'.vsize ≡ e.vsize
  pub ancestorsize : e'.ancestorsize ≡ e.ancestorsize
  pub base : e'.fees.base ≡ e.fees.base
  pub ancestor : e'.fees.ancestor ≡ e.fees.ancestor

pub IsSame-refl : (e : MempoolEntry) → IsSame e e
IsSame-refl e = record {
  depends = refl;
  vsize = refl;
  ancestorsize = refl;
  base = refl;
  ancestor = refl;
}

-- Two maps with the same keys, whose entries are so related.
pub record IsRelated (Rel : MempoolEntry → MempoolEntry → Type 0)
    (txs txs' : List (ℕ × MempoolEntry)) : Type 0 where
  pub forth :
      (v : ℕ) (e : MempoolEntry)
      → lookup v txs ≡ some e
      → (e' : MempoolEntry) × (lookup v txs' ≡ some e') × Rel e e'
  pub back :
      (v : ℕ) (e' : MempoolEntry)
      → lookup v txs' ≡ some e'
      → (e : MempoolEntry) × (lookup v txs ≡ some e) × Rel e e'

abbrev pub IsShape : List (ℕ × MempoolEntry) → List (ℕ × MempoolEntry) → Type 0
IsShape txs txs' = IsRelated IsSame txs txs'

pub IsSame-trans : (a b c : MempoolEntry) → IsSame a b → IsSame b c → IsSame a c
IsSame-trans a b c h k = record {
  depends = k.depends ∙ h.depends;
  vsize = k.vsize ∙ h.vsize;
  ancestorsize = k.ancestorsize ∙ h.ancestorsize;
  base = k.base ∙ h.base;
  ancestor = k.ancestor ∙ h.ancestor;
}

module _ (Rel : MempoolEntry → MempoolEntry → Type 0) (same : (e : MempoolEntry) → Rel e e)
    (joined : (a b c : MempoolEntry) → Rel a b → Rel b c → Rel a c) where
  pub IsRelated-refl : (txs : List (ℕ × MempoolEntry)) → IsRelated Rel txs txs
  IsRelated-refl txs = record { forth = λ v e h. (e, h, same e); back = λ v e h. (e, h, same e) }

  pub IsRelated-trans :
      (a b c : List (ℕ × MempoolEntry)) → IsRelated Rel a b → IsRelated Rel b c → IsRelated Rel a c
  IsRelated-trans a b c h k = record {
    forth = λ v e l.
        let (e1, l1, s1) = h.forth v e l in
        let (e2, l2, s2) = k.forth v e1 l1 in (e2, l2, joined e e1 e2 s1 s2);
    back = λ v e l.
        let (e1, l1, s1) = k.back v e l in
        let (e2, l2, s2) = h.back v e1 l1 in (e2, l2, joined e2 e1 e s2 s1);
  }

  pub update-IsRelated :
      (g : MempoolEntry → MempoolEntry)
      → ((e : MempoolEntry) → Rel e (g e))
      → (k : ℕ) (txs : List (ℕ × MempoolEntry)) → IsRelated Rel txs (map_update k g txs)
  update-IsRelated g quiet k txs = record {
    forth = λ v e h.
        let found = lookup-map_update k g txs v in
        elim (Bool-cases (k == v)) [
          | inl at ↦ (g e, ground (arith, found), quiet e)
          | inr off ↦ (e, ground (arith, found), same e)
        ];
    back = λ v e' h.
        let found = lookup-map_update k g txs v in
        elim (Option-cases (lookup v txs)) [
          | inl none_there ↦ absurd (ground (arith, found))
          | inr (e, is) ↦ elim (Bool-cases (k == v)) [
            | inl at ↦
                let new : g e ≡ e' = ground (arith, found) in (e, is, subst (Rel e) new (quiet e))
            | inr off ↦
                let new : e ≡ e' = ground (arith, found) in (e, is, subst (Rel e) new (same e))
          ]
        ];
  }

  pub update_each-IsRelated :
      (g : MempoolEntry → MempoolEntry)
      → ((e : MempoolEntry) → Rel e (g e))
      → (ids : List ℕ) (txs : List (ℕ × MempoolEntry)) → IsRelated Rel txs (update_each g ids txs)
  update_each-IsRelated g quiet [] txs = IsRelated-refl txs
  update_each-IsRelated g quiet (a ∷ rest) txs =
      IsRelated-trans txs (map_update a g txs) _ (update-IsRelated g quiet a txs)
        (update_each-IsRelated g quiet rest (map_update a g txs))

pub IsShape-refl : (txs : List (ℕ × MempoolEntry)) → IsShape txs txs
IsShape-refl txs = IsRelated-refl IsSame IsSame-refl IsSame-trans txs

pub adjust-IsShape :
    (id vsize base : ℕ) (add : Bool) (txs : List (ℕ × MempoolEntry))
    → IsShape txs (adjust_descendant_totals id vsize base add txs)
unfolding adjust_descendant_totals
adjust-IsShape id vsize base true txs =
    update_each-IsRelated IsSame IsSame-refl IsSame-trans (add_total vsize base)
      (λ e. record {
        depends = refl;
        vsize = refl;
        ancestorsize = refl;
        base = refl;
        ancestor = refl;
      })
      (id ∷ ancestors_of txs id) txs
adjust-IsShape id vsize base false txs =
    update_each-IsRelated IsSame IsSame-refl IsSame-trans (sub_total vsize base)
      (λ e. record {
        depends = refl;
        vsize = refl;
        ancestorsize = refl;
        base = refl;
        ancestor = refl;
      })
      (id ∷ ancestors_of txs id) txs

shape-IsLinked :
    (txs txs' : List (ℕ × MempoolEntry)) (children : List (ℕ × ℕ)) (id : ℕ) (e e' : MempoolEntry)
    → IsShape txs txs'
    → IsSame e e'
    → IsLinked txs children id e
    → IsLinked txs' children id e'
shape-IsLinked txs txs' children id e e' shape s (root d a f) =
    root (s.depends ∙ d) (omega (arith, s.ancestorsize, s.vsize, a))
      (omega (arith, s.ancestor, s.base, f))
shape-IsLinked txs txs' children id e e' shape s (child p pe d l c a f) =
    let (pe', l', t) = shape.forth p pe l in
    child p pe' (s.depends ∙ d) l' c (omega (arith, s.ancestorsize, s.vsize, a, t.ancestorsize))
      (omega (arith, s.ancestor, s.base, f, t.ancestor))

pub shape-IsForest :
    (born : ℕ) (txs txs' : List (ℕ × MempoolEntry)) (children : List (ℕ × ℕ))
    → IsShape txs txs'
    → IsForest born txs children
    → IsForest born txs' children
shape-IsForest born txs txs' children shape h = record {
  linked = λ id e' l.
      let (e, k, s) = shape.back id e' l in
      shape-IsLinked txs txs' children id e e' shape s (h.linked id e k);
  sized = λ id e' l. let (e, k, s) = shape.back id e' l in omega (arith, h.sized id e k, s.vsize);
  bound = λ id e' l.
      let (e, k, s) = shape.back id e' l in omega (arith, h.bound id e k, s.ancestorsize);
  index = λ p c l.
      let (e, k, d) = h.index p c l in
      let (e', k', s) = shape.forth c e k in (e', k', s.depends ∙ d);
}
