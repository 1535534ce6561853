-- ===== src/Gbt/Project/Order.antt =====
-- src/gbt.rs, `project_with`: the order of the transactions in the blocks that it returns.
use satya_btc.Common.{
  ℕ, zero, suc, ◌+◌, ◌≤◌, ◌≡◌, refl, sym, false, inl, inr, List, [], ◌∷◌, ◌++◌, arith, append-nil,
  if◌then◌else◌, ◌==◌, ==_iff, Bool-cases, List-cases, ltb, length, contains, count, count-contains,
}
use satya_btc.Float.{Float}
use satya_btc.Gbt.Audit.{GbtTx, Audit, Projection, audit_of}
use satya_btc.Gbt.Ancestors.{parents_of}
use satya_btc.Gbt.Ancestors.Closure.{Has, Ancestor, parent, above, Distinct, IsClosure-complete}
use satya_btc.Gbt.Pack.Valid.{IsAudited}
use satya_btc.Gbt.Pack.{Limits, State, done}
use satya_btc.Gbt.Pack.Rule.{loop_rule}
use satya_btc.Gbt.Pack.Sorted.{IsNested, AncestorsFirst}
use satya_btc.Gbt.Pack.Ordered.{flatten, flatten-concat, IsOrdered, Ordered-Keeps}
use satya_btc.Gbt.Project.{start, close, project_with}
use satya_btc.Gbt.Project.Filled.{IsFilled, each_ancestors, filled-IsAudited}
use satya_btc.Gbt.Project.Start.{start-IsOnce}
use satya_btc.Gbt.Project.Placement.{
  IsProjectable, limits, valid_of, ancestors_sound, project_with_rule,
}

-- The first occurrence taken out.
abbrev without : ℕ → List ℕ → List ℕ
without v [] = []
without v (x ∷ xs) = if x == v then xs else x ∷ without v xs

count-without :
    (v w : ℕ) (xs : List ℕ) → count w (without v xs) + (if v == w then 1 else 0) ≤ count w xs + 1
count-without v w [] = ground arith
count-without v w (x ∷ xs) =
    ground (arith, count-without v w xs, ==_iff x v, ==_iff x w, ==_iff v w)

contains-without :
    (v w : ℕ) (xs : List ℕ) → (v == w) ≡ false → contains (without v xs) w ≡ contains xs w
contains-without v w [] h = refl
contains-without v w (x ∷ xs) h =
    ground (arith, contains-without v w xs h, ==_iff x v, ==_iff x w, ==_iff v w)

length-without : (v : ℕ) (xs : List ℕ) → Has xs v → suc (length (without v xs)) ≡ length xs
length-without v [] h = cc
length-without v (x ∷ xs) h = ground (arith, length-without v xs)

-- A list without duplicates is no longer than one that has its members.
length-le_of_subset :
    (xs ys : List ℕ) → Distinct xs → ((v : ℕ) → Has xs v → Has ys v) → length xs ≤ length ys
length-le_of_subset [] ys d h = omega arith
length-le_of_subset (x ∷ xs) ys d h =
    let here = h x (ground (arith, ==_iff x x)) in
    let rest =
      length-le_of_subset xs (without x ys) (λ v. omega (arith, d v))
        (λ v k.
          ground (arith, h v, contains-without x v ys, d v, count-contains xs v, ==_iff x v)) in
    omega (arith, length-without x ys here, rest)

Ancestor-join :
    {txs : List GbtTx} {u m a : ℕ} → Ancestor txs u m → Ancestor txs m a → Ancestor txs u a
Ancestor-join h (parent k) = above h k
Ancestor-join h (above r k) = above (Ancestor-join h r) k

-- Each transaction of the list stands after its ancestors, of which some may have been seen before.
abbrev pub TxsFirst : List GbtTx → List ℕ → List ℕ → Type 0
TxsFirst txs seen [] = Unit {0}
TxsFirst txs seen (m ∷ rest) =
    ((a : ℕ) → Ancestor txs m a → Has seen a) × TxsFirst txs (seen ++ m ∷ []) rest

module _ (txs : List GbtTx) (rank : ℕ → ℕ) (ok : IsProjectable txs rank) (audits : List Audit)
    (filled : IsFilled txs (length txs) audits) where
  filled_inner :
      (u m a : ℕ)
      → Has (audit_of audits u).ancestors m
      → Has (audit_of audits m).ancestors a
      → Has (audit_of audits u).ancestors a
  filled_inner =
      each_ancestors txs rank ok.acyclic audits filled
        (λ u xs. (m a : ℕ) → Has xs m → Has (audit_of audits m).ancestors a → Has xs a)
        (λ u m a h. cc)
        (λ u found c m a h k.
          IsClosure-complete txs c
            (Ancestor-join (c.part.sound m h) (ancestors_sound txs rank ok audits filled m a k)))

  filled-IsNested : IsNested audits
  filled-IsNested =
      let valid = filled-IsAudited txs rank ok.acyclic audits filled in
      record {
        inner = filled_inner;
        fewer = λ m a h.
            length-le_of_subset (a ∷ (audit_of audits a).ancestors) (audit_of audits m).ancestors
              (λ v. ground (arith, valid.apart a, valid.distinct a v, ==_iff a v))
              (λ v k. elim (Bool-cases (a == v)) [
                | inl at ↦ rw (← (==_iff a v).0 at) h
                | inr off ↦ filled_inner m a v h (ground arith)
              ]);
      }

  -- An ancestor by the parents is one by the closure that was computed.
  filled_complete : (u a : ℕ) → Ancestor txs u a → Has (audit_of audits u).ancestors a
  filled_complete u a h = elim (Bool-cases (ltb u (length txs))) [
    | inl near ↦ IsClosure-complete txs (filled.closure u (ground arith)) h
    | inr far ↦ absurd (no_ancestor u a (ground arith) h)
  ]
    where
      no_parent : (ts : List GbtTx) (u p : ℕ) → length ts ≤ u → Has (parents_of ts u) p → ⊥
      no_parent [] u p l h = cc
      no_parent (t ∷ ts) zero p l h = omega arith
      no_parent (t ∷ ts) (suc u) p l h = no_parent ts u p (omega arith) h

      no_ancestor : (u a : ℕ) → length txs ≤ u → Ancestor txs u a → ⊥
      no_ancestor u a l (parent h) = no_parent txs u a l h
      no_ancestor u a l (above r h) = no_ancestor u _ l r

  AncestorsFirst-TxsFirst :
      (seen xs : List ℕ) → AncestorsFirst audits seen xs → TxsFirst txs seen xs
  AncestorsFirst-TxsFirst seen [] h = tt
  AncestorsFirst-TxsFirst seen (m ∷ rest) h =
      (λ a k. h.0 a (filled_complete m a k), AncestorsFirst-TxsFirst (seen ++ m ∷ []) rest h.1)

flatten-close :
    {F : Type 0} ⦃f : Float F⦄ (s : State F)
    → flatten (close s).blocks ≡ flatten s.blocks ++ s.cur_block
unfolding close
flatten-close s = elim (List-cases s.cur_block) [
  | inl e ↦ rw e (sym (append-nil (flatten s.blocks)))
  | inr (x, rest, e) ↦ rw e (flatten-concat s.blocks (x ∷ rest))
]

start-IsOrdered :
    {F : Type 0} ⦃f : Float F⦄ {audits : List Audit} (valid : IsAudited audits)
    (nested : IsNested audits) (lim : Limits)
    → IsOrdered {F = F} valid nested lim (start lim audits)
unfolding start
start-IsOrdered valid nested lim = record { once = start-IsOnce valid lim; first = tt }

module _ (F : Type 0) ⦃f : Float F⦄ (txs : List GbtTx) (rank : ℕ → ℕ) (ok : IsProjectable txs rank)
    (max_blocks max_block_weight reserved : ℕ) (p : Projection F)
    (result : project_with txs max_blocks max_block_weight reserved ≡ done p) where
  -- Through the blocks in their order, every transaction stands after all of its ancestors: a miner
  -- could include them in that order.
  pub project_with_order : TxsFirst txs [] (flatten p.blocks)
  project_with_order =
      project_with_rule F txs rank ok max_blocks max_block_weight reserved
        (λ q. TxsFirst txs [] (flatten q.blocks)) (λ _. tt)
        (λ audits prep t ends.
          let valid = valid_of F txs rank ok max_blocks max_block_weight reserved audits prep in
          let nested = filled-IsNested txs rank ok audits prep.filled in
          let lim = limits max_blocks max_block_weight reserved in
          let (inv, _) =
            loop_rule audits lim (IsOrdered valid nested lim) (Ordered-Keeps valid nested lim) _ _ t
              (start-IsOrdered valid nested lim) ends in
          rw (flatten-close t)
            (AncestorsFirst-TxsFirst txs rank ok audits prep.filled [] _ inv.first))
        p result
