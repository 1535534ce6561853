-- ===== src/Sim/Node/Descendants/Mend.antt =====
-- src/sim/mock_node.rs, `adjust_descendant_totals`: the walk up mends the descendant totals.
use satya_btc.Common.{
  ℕ, ◌+◌, ◌≤◌, ◌<◌, ◌≡◌, ap, sym, false, ◌⊎◌, inl, inr, none, some, List, [], ◌∷◌, arith, ◌==◌,
  ==_iff, Bool-cases, Option-cases,
}
use satya_btc.Rpc.{MempoolEntry}
use satya_btc.Sim.Node.{lookup, map_update}
use satya_btc.Sim.Node.Maps.{lookup-map_update}
use satya_btc.Sim.Node.Descent.{child_grows}
use satya_btc.Sim.Node.Truthful.{IsForest}
use satya_btc.Sim.Node.Truthful.Shape.{IsSame, IsSame-refl, IsSame-trans, IsShape, update-IsRelated}
use satya_btc.Sim.Node.Descendants.{IsWhole, last, inner, IsDescended}

-- What is to be added to the totals of an entry, or taken from them.
pub record Amounts : Type 0 where
  pub size_plus : ℕ
  pub size_minus : ℕ
  pub fee_plus : ℕ
  pub fee_minus : ℕ

-- The totals of an entry are those that it should have, once the amounts are added and taken.
pub data IsOwing (m : Amounts) (txs : List (ℕ × MempoolEntry)) (children : List (ℕ × ℕ)) (id : ℕ)
    (e : MempoolEntry) : Type 0 where
  last_owing :
      lookup id children ≡ none
      → e.descendantsize + m.size_plus ≡ e.vsize + m.size_minus
      → e.fees.descendant + m.fee_plus ≡ e.fees.base + m.fee_minus
      → IsOwing m txs children id e
  inner_owing :
      (c : ℕ) (ce : MempoolEntry)
      → lookup id children ≡ some c
      → lookup c txs ≡ some ce
      → e.descendantsize + m.size_plus ≡ e.vsize + ce.descendantsize + m.size_minus
      → e.fees.descendant + m.fee_plus ≡ e.fees.base + ce.fees.descendant + m.fee_minus
      → IsOwing m txs children id e

-- All but one have their totals, and those that the walk may still meet have room.
pub record IsMending (m : Amounts) (limit : ℕ) (txs : List (ℕ × MempoolEntry))
    (children : List (ℕ × ℕ)) (p : ℕ) (pe : MempoolEntry) : Type 0 where
  pub whole :
      (v : ℕ) (e : MempoolEntry)
      → (p == v) ≡ false
      → lookup v txs ≡ some e
      → IsWhole txs children v e
  pub owing : IsOwing m txs children p pe
  pub low : (v : ℕ) (e : MempoolEntry) → lookup v txs ≡ some e → e.descendantsize ≤ limit
  pub room :
      (v : ℕ) (e : MempoolEntry)
      → lookup v txs ≡ some e
      → e.ancestorsize ≤ pe.ancestorsize
      → e.descendantsize + m.size_plus ≤ limit

-- A change that adds and takes the amounts.
pub record IsMender (m : Amounts) (limit : ℕ) (g : MempoolEntry → MempoolEntry) : Type 0 where
  pub quiet : (e : MempoolEntry) → IsSame e (g e)
  pub size :
      (e : MempoolEntry) (x : ℕ)
      → e.descendantsize + m.size_plus ≤ limit
      → e.descendantsize + m.size_plus ≡ x + m.size_minus
      → (g e).descendantsize ≡ x
  pub fee :
      (e : MempoolEntry) (x : ℕ)
      → e.fees.descendant + m.fee_plus ≡ x + m.fee_minus
      → (g e).fees.descendant ≡ x

-- A step of the walk: one entry is changed, and its parent is next.
module _ (m : Amounts) (limit : ℕ) (g : MempoolEntry → MempoolEntry) (mender : IsMender m limit g)
    (born : ℕ) (children : List (ℕ × ℕ)) where
  module _ (txs : List (ℕ × MempoolEntry)) (p : ℕ) (pe : MempoolEntry)
      (h : IsForest born txs children) (here : lookup p txs ≡ some pe)
      (w : IsMending m limit txs children p pe) where
    abbrev next : List (ℕ × MempoolEntry)
    next = map_update p g txs

    pub next-IsShape : IsShape txs next
    next-IsShape = update-IsRelated IsSame IsSame-refl IsSame-trans g mender.quiet p txs

    next_here : lookup p next ≡ some (g pe)
    next_here = ground (arith, lookup-map_update p g txs p, ==_iff p p)

    pub next_other :
        (v : ℕ) (e : MempoolEntry)
        → (p == v) ≡ false
        → lookup v txs ≡ some e
        → lookup v next ≡ some e
    next_other v e off l = ground (arith, lookup-map_update p g txs v)

    -- No transaction is its own child.
    not_own_child : (c : ℕ) → lookup p children ≡ some c → (p == c) ≡ false
    not_own_child c on = elim (Bool-cases (p == c)) [
      | inr off ↦ off
      | inl at ↦
          let same : p ≡ c = (==_iff p c).0 at in
          let (e, there, grows) = child_grows born txs children p c pe h here on in
          let one : pe ≡ e = ground arith in
          absurd (omega (arith, grows, ap (λ (x : MempoolEntry). x.ancestorsize) one))
    ]

    -- The totals of the changed entry are its own, and those of its child.
    mended_size : (g pe).descendantsize + m.size_minus ≡ pe.descendantsize + m.size_plus
    mended_size = go w.owing
      where
        go :
            IsOwing m txs children p pe
            → (g pe).descendantsize + m.size_minus ≡ pe.descendantsize + m.size_plus
        go (last_owing on s f) =
            omega (arith, s, mender.size pe pe.vsize (w.room p pe here (omega arith)) s)
        go (inner_owing c ce on l s f) = omega (
          arith,
          s,
          mender.size pe (pe.vsize + ce.descendantsize) (w.room p pe here (omega arith)) s,
        )

    mended_fee : (g pe).fees.descendant + m.fee_minus ≡ pe.fees.descendant + m.fee_plus
    mended_fee = go w.owing
      where
        go :
            IsOwing m txs children p pe
            → (g pe).fees.descendant + m.fee_minus ≡ pe.fees.descendant + m.fee_plus
        go (last_owing on s f) = omega (arith, f, mender.fee pe pe.fees.base f)
        go (inner_owing c ce on l s f) =
            omega (arith, f, mender.fee pe (pe.fees.base + ce.fees.descendant) f)

    mended-IsWhole : IsWhole next children p (g pe)
    mended-IsWhole = go w.owing
      where
        go : IsOwing m txs children p pe → IsWhole next children p (g pe)
        go (last_owing on s f) =
            let q = mender.quiet pe in
            last on (omega (arith, mended_size, s, q.vsize)) (omega (arith, mended_fee, f, q.base))
        go (inner_owing c ce on l s f) =
            let q = mender.quiet pe in
            inner c ce on (next_other c ce (not_own_child c on) l)
              (omega (arith, mended_size, s, q.vsize)) (omega (arith, mended_fee, f, q.base))

    -- The others keep theirs, but for the parent.
    kept-IsWhole :
        (v : ℕ) (e : MempoolEntry)
        → (lookup v children ≡ some p → ⊥)
        → IsWhole txs children v e
        → IsWhole next children v e
    kept-IsWhole v e apart (last on s f) = last on s f
    kept-IsWhole v e apart (inner c ce on l s f) = elim (Bool-cases (p == c)) [
      | inr off ↦ inner c ce on (next_other c ce off l) s f
      | inl at ↦ let same : p ≡ c = (==_iff p c).0 at in absurd (apart (ground arith))
    ]

    next_cases :
        (v : ℕ) (e : MempoolEntry)
        → lookup v next ≡ some e
        → ((p ≡ v) × (e ≡ g pe)) ⊎ (((p == v) ≡ false) × (lookup v txs ≡ some e))
    next_cases v e l = elim (Bool-cases (p == v)) [
      | inl at ↦ let same : p ≡ v = (==_iff p v).0 at in inl (same, ground (arith, next_here))
      | inr off ↦ inr (
        off,
        elim (Option-cases (lookup v txs)) [
          | inl gone ↦ absurd (ground (arith, lookup-map_update p g txs v))
          | inr (x, is) ↦ let found = next_other v x off is in ground arith
        ],
      )
    ]

    next_low : (v : ℕ) (e : MempoolEntry) → lookup v next ≡ some e → e.descendantsize ≤ limit
    next_low v e l = elim (next_cases v e l) [
      | inl (at, is) ↦ rw is (omega (arith, mended_size, w.room p pe here (omega arith)))
      | inr (off, is) ↦ w.low v e is
    ]

    -- No parent is left, or it is the next one.
    pub rooted : pe.depends ≡ [] → IsDescended limit next children
    rooted d = record {
      whole = λ v e l. elim (next_cases v e l) [
        | inl (at, is) ↦ rw (is, sym at) mended-IsWhole
        | inr (off, is) ↦
            kept-IsWhole v e (λ on. let (x, there, d') = h.index v p on in absurd (ground arith))
              (w.whole v e off is)
      ];
      low = next_low;
    }

    module _ (q : ℕ) (qe : MempoolEntry) (d : pe.depends ≡ q ∷ []) (l : lookup q txs ≡ some qe)
        (on : lookup q children ≡ some p) (grows : qe.ancestorsize < pe.ancestorsize) where
      pub parent_differs : (p == q) ≡ false
      parent_differs = elim (Bool-cases (p == q)) [
        | inr off ↦ off
        | inl at ↦
            let same : p ≡ q = (==_iff p q).0 at in
            let one : pe ≡ qe = ground arith in
            absurd (omega (arith, grows, ap (λ (x : MempoolEntry). x.ancestorsize) one))
      ]

      parent-IsOwing : IsWhole txs children q qe → IsOwing m next children q qe
      parent-IsOwing (last on1 s f) = absurd (ground arith)
      parent-IsOwing (inner c ce on1 l1 s f) =
          let same : ce ≡ pe = ground arith in
          inner_owing p (g pe) on next_here
            (omega (arith, mended_size, s, ap (λ (x : MempoolEntry). x.descendantsize) same))
            (omega (arith, mended_fee, f, ap (λ (x : MempoolEntry). x.fees.descendant) same))

      pub next-IsMending : IsMending m limit next children q qe
      next-IsMending = record {
        whole = λ v e off l1. elim (next_cases v e l1) [
          | inl (at, is) ↦ rw (is, sym at) mended-IsWhole
          | inr (off1, is) ↦
              kept-IsWhole v e
                (λ on1.
                  let (x, there, d1) = h.index v p on1 in
                  let same : q ≡ v = ground arith in absurd (ground (arith, ==_iff q v)))
                (w.whole v e off1 is)
        ];
        owing = parent-IsOwing (w.whole q qe parent_differs l);
        low = next_low;
        room = λ v e l1 a. elim (next_cases v e l1) [
          | inl (at, is) ↦ absurd (
              omega (
                arith,
                grows,
                a,
                (mender.quiet pe).ancestorsize,
                ap (λ (x : MempoolEntry). x.ancestorsize) is,
              ))
          | inr (off1, is) ↦ w.room v e is (omega (arith, a, grows))
        ];
      }
