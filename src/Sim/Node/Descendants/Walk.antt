-- ===== src/Sim/Node/Descendants/Walk.antt =====
-- src/sim/mock_node.rs, `adjust_descendant_totals`: the whole walk mends the descendant totals.
use satya_btc.Common.{
  ℕ, zero, suc, ◌≤◌, ◌<◌, ◌≡◌, refl, ap, ◌∙◌, sym, true, false, inl, inr, Option, none, some, List,
  [], ◌∷◌, arith, Option-cases, List-cases, u64_mod,
}
use satya_btc.Rpc.{MempoolEntry}
use satya_btc.Sim.Node.{
  lookup, map_update, add_total, sub_total, parent_in, walk_up, ancestors_of, entry_at, update_each,
  adjust_descendant_totals,
}
use satya_btc.Sim.Node.Truthful.{IsLinked, root, child, IsForest}
use satya_btc.Sim.Node.Truthful.Shape.{IsShape, shape-IsForest}
use satya_btc.Sim.Node.Descendants.{IsDescended}
use satya_btc.Sim.Node.Descendants.Mend.{
  Amounts, IsMending, IsMender, next-IsShape, rooted, next-IsMending, next_other, parent_differs,
}

abbrev present : List (ℕ × MempoolEntry) → ℕ → Option ℕ
present txs p = elim (lookup p txs) [ none ↦ none | some _ ↦ some p ]

present_same :
    (txs txs' : List (ℕ × MempoolEntry)) (p : ℕ) → IsShape txs txs' → present txs' p ≡ present txs p
present_same txs txs' p shape = elim (Option-cases (lookup p txs)) [
  | inr (x, e) ↦ let (y, k, s) = shape.forth p x e in rw (present, e, k) refl
  | inl e ↦ elim (Option-cases (lookup p txs')) [
    | inl e' ↦ rw (present, e, e') refl
    | inr (x, e') ↦ let (y, k, s) = shape.back p x e' in absurd (ground arith)
  ]
]

parent_in_same :
    (txs txs' : List (ℕ × MempoolEntry)) (v : ℕ)
    → IsShape txs txs'
    → parent_in txs' v ≡ parent_in txs v
parent_in_same txs txs' v shape = elim (Option-cases (lookup v txs)) [
  | inl e ↦ elim (Option-cases (lookup v txs')) [
    | inl e' ↦ rw (parent_in, e, e') refl
    | inr (x, e') ↦ let (y, k, s) = shape.back v x e' in absurd (ground arith)
  ]
  | inr (x, e) ↦
      let (y, k, s) = shape.forth v x e in
      elim (List-cases x.depends) [
        | inl d ↦ let d' : y.depends ≡ [] = s.depends ∙ d in rw (parent_in, e, k, d, d') refl
        | inr (p, others, d) ↦
            let d' : y.depends ≡ p ∷ others = s.depends ∙ d in
            rw (parent_in, e, k, d, d') (present_same txs txs' p shape)
      ]
]

pub walk_up_same :
    (txs txs' : List (ℕ × MempoolEntry)) (fuel v : ℕ)
    → IsShape txs txs'
    → walk_up txs' fuel v ≡ walk_up txs fuel v
unfolding walk_up
walk_up_same txs txs' zero v shape = refl
walk_up_same txs txs' (suc fuel) v shape = elim (Option-cases (parent_in txs v)) [
  | inl e ↦
      let e' : parent_in txs' v ≡ none = parent_in_same txs txs' v shape ∙ e in
      rw (walk_up, e, e') refl
  | inr (p, e) ↦
      let e' : parent_in txs' v ≡ some p = parent_in_same txs txs' v shape ∙ e in
      rw (walk_up, e, e') (ap (λ r. p ∷ r) (walk_up_same txs txs' fuel p shape))
]

module _ (m : Amounts) (limit : ℕ) (g : MempoolEntry → MempoolEntry) (mender : IsMender m limit g)
    (born : ℕ) (children : List (ℕ × ℕ)) where
  walk_mends :
      (fuel p : ℕ) (pe : MempoolEntry) (txs : List (ℕ × MempoolEntry))
      → IsForest born txs children
      → lookup p txs ≡ some pe
      → pe.ancestorsize ≤ fuel
      → IsMending m limit txs children p pe
      → IsDescended limit (update_each g (p ∷ walk_up txs fuel p) txs) children
  unfolding walk_up
  walk_mends zero p pe txs h here enough w = absurd (go (h.sized p pe here) (h.linked p pe here))
    where
      go : 0 < pe.vsize → IsLinked txs children p pe → ⊥
      go positive (root d a f) = omega (arith, a)
      go positive (child q qe d l c a f) = omega (arith, a)
  walk_mends (suc fuel) p pe txs h here enough w =
      go (h.sized p pe here) (h.linked p pe here)
        (λ q qe next h1 l less w1. walk_mends fuel q qe next h1 l less w1)
    where
      go :
          0 < pe.vsize
          → IsLinked txs children p pe
          → ((q : ℕ) (qe : MempoolEntry) (next : List (ℕ × MempoolEntry))
              → IsForest born next children
              → lookup q next ≡ some qe
              → qe.ancestorsize ≤ fuel
              → IsMending m limit next children q qe
              → IsDescended limit (update_each g (q ∷ walk_up next fuel q) next) children)
          → IsDescended limit (update_each g (p ∷ walk_up txs (suc fuel) p) txs) children
      go positive (root d a f) again =
          let top : walk_up txs (suc fuel) p ≡ [] = rw (walk_up, here, d) refl in
          rw top (rooted m limit g mender born children txs p pe h here w d)
      go positive (child q qe d l on a f) again =
          let grows : qe.ancestorsize < pe.ancestorsize = omega (arith, a, positive) in
          let up : walk_up txs (suc fuel) p ≡ q ∷ walk_up txs fuel q =
            rw (walk_up, here, d, l) refl in
          let shape = next-IsShape m limit g mender born children txs p pe h here w in
          let same = walk_up_same txs (map_update p g txs) fuel q shape in
          rw (up, sym same)
            (again q qe (map_update p g txs)
              (shape-IsForest born txs (map_update p g txs) children shape h)
              (next_other m limit g mender born children txs p pe h here w q qe
                (parent_differs m limit g mender born children txs p pe h here w q qe d l on grows)
                l)
              (omega (arith, enough, grows))
              (next-IsMending m limit g mender born children txs p pe h here w q qe d l on grows))

  -- The whole walk of `adjust_descendant_totals`.
  adjust_mends :
      (p : ℕ) (pe : MempoolEntry) (txs : List (ℕ × MempoolEntry))
      → IsForest born txs children
      → lookup p txs ≡ some pe
      → IsMending m limit txs children p pe
      → IsDescended limit (update_each g (p ∷ ancestors_of txs p) txs) children
  unfolding ancestors_of
  adjust_mends p pe txs h here w =
      let at : entry_at txs p ≡ pe = ground arith in
      let whole : ancestors_of txs p ≡ walk_up txs (suc pe.ancestorsize) p =
        rw (ancestors_of, at) refl in
      rw whole (walk_mends (suc pe.ancestorsize) p pe txs h here (omega arith) w)

abbrev pub to_add : ℕ → ℕ → Amounts
to_add size fee = record { size_plus = size; size_minus = 0; fee_plus = fee; fee_minus = 0 }

abbrev pub to_take : ℕ → ℕ → Amounts
to_take size fee = record { size_plus = 0; size_minus = size; fee_plus = 0; fee_minus = fee }

add_total-IsMender :
    (size fee limit : ℕ) → limit < u64_mod → IsMender (to_add size fee) limit (add_total size fee)
add_total-IsMender size fee limit room = record {
  quiet = λ e. record {
    depends = refl;
    vsize = refl;
    ancestorsize = refl;
    base = refl;
    ancestor = refl;
  };
  size = λ e x l s. omega (arith, l, s, room);
  fee = λ e x s. omega (arith, s);
}

sub_total-IsMender : (size fee limit : ℕ) → IsMender (to_take size fee) limit (sub_total size fee)
sub_total-IsMender size fee limit = record {
  quiet = λ e. record {
    depends = refl;
    vsize = refl;
    ancestorsize = refl;
    base = refl;
    ancestor = refl;
  };
  size = λ e x l s. omega (arith, s);
  fee = λ e x s. omega (arith, s);
}

pub adjust_adds :
    (size fee limit born : ℕ) (children : List (ℕ × ℕ)) (p : ℕ) (pe : MempoolEntry)
    (txs : List (ℕ × MempoolEntry))
    → limit < u64_mod
    → IsForest born txs children
    → lookup p txs ≡ some pe
    → IsMending (to_add size fee) limit txs children p pe
    → IsDescended limit (adjust_descendant_totals p size fee true txs) children
unfolding adjust_descendant_totals
adjust_adds size fee limit born children p pe txs room h here w =
    adjust_mends (to_add size fee) limit (add_total size fee)
      (add_total-IsMender size fee limit room) born children p pe txs h here w

pub adjust_takes :
    (size fee limit born : ℕ) (children : List (ℕ × ℕ)) (p : ℕ) (pe : MempoolEntry)
    (txs : List (ℕ × MempoolEntry))
    → IsForest born txs children
    → lookup p txs ≡ some pe
    → IsMending (to_take size fee) limit txs children p pe
    → IsDescended limit (adjust_descendant_totals p size fee false txs) children
unfolding adjust_descendant_totals
adjust_takes size fee limit born children p pe txs h here w =
    adjust_mends (to_take size fee) limit (sub_total size fee) (sub_total-IsMender size fee limit)
      born children p pe txs h here w
