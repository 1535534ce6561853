-- ===== src/Gbt/Project/Filled.antt =====
-- src/gbt.rs, `project_with`: the closures that the audits are filled with, and what the loop may
-- rely on.
use satya_btc.Common.{
  ℕ, zero, suc, ◌+◌, ◌≤◌, ◌<◌, ◌≡◌, refl, ◌∙◌, false, inl, inr, Option, none, some, List, [], ◌∷◌,
  arith, ◌==◌, ==_iff, ltb, Bool-cases, length, set, contains, count, contains-count, All,
  get_or-replicate, length-replicate, unset-replicate, replicate,
}
use satya_btc.Gbt.Audit.{GbtTx, Audit, audit_of, no_audit}
use satya_btc.Gbt.Ancestors.{Memo}
use satya_btc.Gbt.Ancestors.Closure.{Has, Ancestor, parent, above, IsAcyclic, IsClosure}
use satya_btc.Gbt.Ancestors.Walk.{IsMemo, build_ancestors-Builds}
use satya_btc.Gbt.Pack.Marks.{All-of_count}
use satya_btc.Gbt.Pack.Valid.{IsAudited}
use satya_btc.Gbt.Project.{fill_ancestors, no_memo}
use satya_btc.Gbt.Project.Audits.{IsLinked, set-IsLinked, audit_of-set}

module _ (txs : List GbtTx) where
  -- The closures of the uids below `k` stand in the audits.
  pub record IsFilled (k : ℕ) (audits : List Audit) : Type 0 where
    pub linked : IsLinked txs audits
    pub closure : (u : ℕ) → u < k → IsClosure txs u (audit_of audits u).ancestors

  fill_one :
      (uid : ℕ) (audits : List Audit) (found : List ℕ)
      → uid < length txs
      → IsFilled uid audits
      → IsClosure txs uid found
      → IsFilled (uid + 1) (set audits uid (record (audit_of audits uid) { ancestors = found }))
  fill_one uid audits found here filled c =
      let a' = record (audit_of audits uid) { ancestors = found } in
      let own = filled.linked.alike uid in
      let at = λ (u : ℕ). audit_of-set audits uid u a' (omega (arith, here, filled.linked.size)) in
      record {
        linked =
            set-IsLinked txs audits uid a' here filled.linked
              (record { fee = own.fee; weight = own.weight; order = own.order })
              (filled.linked.kids uid);
        closure = λ u h. elim (Bool-cases (uid == u)) [
          | inl e ↦ let same : uid ≡ u = (==_iff uid u).0 e in rw (at u, e) (rw same at c)
          | inr e ↦ rw (at u, e) (filled.closure u (ground (arith, ==_iff uid u)))
        ];
      }

  module _ (rank : ℕ → ℕ) (acyclic : IsAcyclic txs rank) where
    fill_returns :
        (left uid : ℕ) (st : Memo) (audits : List Audit)
        → uid + left ≡ length txs
        → IsMemo txs st
        → st.visiting ≡ replicate (length txs) false
        → IsFilled uid audits
        → (audits' : List Audit) × (fill_ancestors txs left uid st audits ≡ some audits')
          × IsFilled (length txs) audits'
    unfolding fill_ancestors
    fill_returns zero uid st audits e m clear filled =
        let at : uid ≡ length txs = omega arith in (audits, refl, rw at at filled)
    fill_returns (suc left) uid st audits e m clear filled =
        let here : uid < length txs = omega arith in
        let call =
          build_ancestors-Builds txs rank acyclic (suc (length txs)) uid st here m
            (λ v k. absurd (ground (arith, get_or-replicate (length txs) v false)))
            (rw clear (omega (arith, unset-replicate (length txs)))) in
        let filled' = fill_one uid audits call.found here filled call.closure in
        let (audits', e', f') =
          fill_returns left (uid + 1) call.after _ (omega arith) call.memo (call.restored ∙ clear)
            filled' in
        (audits', ground (arith, call.returns), f')

    start-IsMemo : IsMemo txs (no_memo (length txs))
    start-IsMemo = record {
      memo_size = length-replicate (length txs) none;
      visiting_size = length-replicate (length txs) false;
      kept = λ u found e.
          absurd (ground (arith, get_or-replicate {A = Option (List ℕ)} (length txs) u none));
    }

    pub IsFilled-returns :
        (linked : List Audit)
        → IsLinked txs linked
        → (audits : List Audit) × (fill_ancestors txs (length txs) 0 (no_memo (length txs)) linked
            ≡ some audits)
          × IsFilled (length txs) audits
    IsFilled-returns linked l =
        fill_returns (length txs) 0 (no_memo (length txs)) linked (omega arith) start-IsMemo refl
          (record { linked = l; closure = λ u h. absurd (omega arith) })

    Ancestor-low : {u a : ℕ} → Ancestor txs u a → rank a < rank u
    Ancestor-low (parent k) = acyclic.below _ _ k
    Ancestor-low (above r k) = omega (arith, acyclic.below _ _ k, Ancestor-low r)

    Ancestor-in_range : {u a : ℕ} → Ancestor txs u a → a < length txs
    Ancestor-in_range (parent k) = acyclic.in_range _ _ k
    Ancestor-in_range (above r k) = acyclic.in_range _ _ k

    out_of_range : (audits : List Audit) (u : ℕ) → length audits ≤ u → audit_of audits u ≡ no_audit
    out_of_range [] u h = refl
    out_of_range (a ∷ rest) zero h = absurd (omega arith)
    out_of_range (a ∷ rest) (suc u) h = out_of_range rest u (omega arith)

    Has-of_count : (xs : List ℕ) (v : ℕ) → 0 < count v xs → Has xs v
    Has-of_count xs v h = ground (arith, contains-count xs v)

    module _ (audits : List Audit) (filled : IsFilled (length txs) audits) where
      -- What every list of ancestors has, in range or not.
      pub each_ancestors :
          (P : ℕ → List ℕ → Type 0)
          → ((u : ℕ) → P u [])
          → ((u : ℕ) (found : List ℕ) → IsClosure txs u found → P u found)
          → (u : ℕ) → P u (audit_of audits u).ancestors
      each_ancestors P none_known of_closure u = elim (Bool-cases (ltb u (length txs))) [
        | inl h ↦ of_closure u _ (filled.closure u (ground arith))
        | inr h ↦ rw (out_of_range audits u (ground (arith, filled.linked.size))) (none_known u)
      ]

      pub filled-IsAudited : IsAudited audits
      filled-IsAudited = record {
        near =
            each_ancestors (λ u xs. All (λ a. a < length audits) xs) (λ u. tt)
              (λ u found c.
                All-of_count (λ a. a < length audits) found
                  (λ v k. omega (
                    arith,
                    Ancestor-in_range (c.part.sound v (Has-of_count found v k)),
                    filled.linked.size,
                  )));
        kids = λ u. rw filled.linked.size (filled.linked.kids u);
        distinct =
            each_ancestors (λ u xs. (v : ℕ) → count v xs ≤ 1) (λ u v. omega arith)
              (λ u found c. c.part.distinct);
        apart =
            each_ancestors (λ u xs. count u xs ≡ 0) (λ u. refl)
              (λ u found c. elim (Bool-cases (contains found u)) [
                | inl e ↦ absurd (omega (arith, Ancestor-low (c.part.sound u e)))
                | inr e ↦ contains-count found u e
              ]);
      }

      pub filled_sound : (u a : ℕ) → Has (audit_of audits u).ancestors a → Ancestor txs u a
      filled_sound =
          each_ancestors (λ u xs. (a : ℕ) → Has xs a → Ancestor txs u a) (λ u a h. cc)
            (λ u found c. c.part.sound)
