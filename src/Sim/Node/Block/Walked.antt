-- ===== src/Sim/Node/Block/Walked.antt =====
-- src/sim/mock_node.rs, `confirm_set`: the whole walks down from the new roots.
use satya_btc.Common.{
  ℕ, zero, suc, ◌+◌, ◌*◌, ◌≤◌, ◌<◌, ◌≡◌, refl, sym, subst, inl, inr, none, some, List, [], ◌∷◌,
  arith, Option-cases, u64_mod,
}
use satya_btc.Rpc.{MempoolEntry}
use satya_btc.Sim.Node.{lookup, map_update, entry_at}
use satya_btc.Sim.Node.Truthful.{IsLinked, root, child, IsForest}
use satya_btc.Sim.Node.Block.{on_parent, repair, repair_all}
use satya_btc.Sim.Node.Block.Repair.{
  IsAlmost, alone, above, IsRepairing, mended, parent_of_child, sum, changed_child,
  changed-IsRepairing,
}

module _ (limit : ℕ) (room : limit < u64_mod) (children : List (ℕ × ℕ)) where
  stays :
      (fuel p : ℕ) (txs : List (ℕ × MempoolEntry))
      → lookup p children ≡ none
      → repair children fuel p txs ≡ txs
  unfolding repair
  stays zero p txs last = refl
  stays (suc fuel) p txs last = rw (repair, last) refl

  -- The walk from a transaction, with fuel for the sizes that are left.
  repair-IsRepairing :
      (fuel p : ℕ) (pe : MempoolEntry) (bad : List ℕ) (txs : List (ℕ × MempoolEntry))
      → lookup p txs ≡ some pe
      → limit < fuel + pe.ancestorsize
      → IsRepairing limit children (p ∷ bad) txs
      → IsRepairing limit children bad (repair children fuel p txs)
  unfolding repair
  repair-IsRepairing zero p pe bad txs here enough h =
      absurd (omega (arith, h.bound p pe here, enough))
  repair-IsRepairing (suc fuel) p pe bad txs here enough h =
      elim (Option-cases (lookup p children)) [
        | inl last ↦ rw (repair, last) (mended limit room children p bad txs last h)
        | inr (c, on) ↦
            let (ce, qe, there, d, here', most, positive, small) =
              parent_of_child limit room children p c (p ∷ bad) txs h on in
            let same : qe ≡ pe = ground arith in
            let below : ce.vsize + pe.ancestorsize ≤ ce.ancestorsize =
              subst (λ (x : MempoolEntry). ce.vsize + x.ancestorsize ≤ ce.ancestorsize) same most in
            let at : entry_at txs p ≡ pe = ground arith in
            rw (repair, on, at)
              (repair-IsRepairing fuel c (on_parent pe ce) bad (map_update c (on_parent pe) txs)
                (changed_child limit room children p c pe ce bad txs h here on there d below
                  positive small)
                (omega (
                  arith,
                  enough,
                  positive,
                  sum limit room children p c pe ce bad txs h here on there d below positive small,
                ))
                (changed-IsRepairing limit room children p c pe ce bad txs h here on there d below
                  positive small))
      ]

  pub repair_all-IsRepairing :
      (fuel : ℕ) (roots : List ℕ) (txs : List (ℕ × MempoolEntry))
      → limit < fuel
      → IsRepairing limit children roots txs
      → IsRepairing limit children [] (repair_all children fuel roots txs)
  unfolding repair_all
  repair_all-IsRepairing fuel [] txs enough h = h
  repair_all-IsRepairing fuel (r ∷ rest) txs enough h =
      repair_all-IsRepairing fuel rest (repair children fuel r txs) enough
        (elim (Option-cases (lookup r txs)) [
          | inr (e, there) ↦ repair-IsRepairing fuel r e rest txs there (omega (arith, enough)) h
          | inl gone ↦ elim (Option-cases (lookup r children)) [
            | inl last ↦
                subst (IsRepairing limit children rest) (sym (stays fuel r txs last))
                  (mended limit room children r rest txs last h)
            | inr (c, on) ↦
                let (ce, qe, there, d, here, most, positive, small) =
                  parent_of_child limit room children r c (r ∷ rest) txs h on in
                absurd (ground arith)
          ]
        ])

  -- When none is left to mend, the chains are kept.
  pub repaired-IsForest :
      (born : ℕ) (txs : List (ℕ × MempoolEntry))
      → limit ≤ 100_000 * born
      → IsRepairing limit children [] txs
      → IsForest born txs children
  repaired-IsForest born txs within h = record {
    linked = λ id e l. go id e (h.linked id e l);
    sized = h.sized;
    bound = λ id e l. omega (arith, h.bound id e l, within);
    index = h.index;
  }
    where
      go : (id : ℕ) (e : MempoolEntry) → IsAlmost children [] txs id e → IsLinked txs children id e
      go id e (alone d a f) = root d a f
      go id e (above p pe d l c most exact) = child p pe d l c (exact refl).0 (exact refl).1
