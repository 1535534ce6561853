-- ===== src/Gbt/Project/Blocks.antt =====
-- src/gbt.rs, `project_with`: what its blocks and its rates hold, in terms of the transactions.
use satya_btc.Common.{
  ℕ, zero, suc, ◌+◌, ◌-◌, ◌≤◌, ◌<◌, ◌≡◌, ◌↔◌, refl, Bool, true, ◌⊎◌, inl, inr, List, [], ◌∷◌, ◌++◌,
  arith, if◌then◌else◌, ◌==◌, ==_iff, Bool-cases, List-cases, length, length-append, All, All-map,
  All-get_or, take, u32_mod, count-contains, contains-count,
}
use satya_btc.Float.{Float}
use satya_btc.Gbt.Audit.{GbtTx, Audit, Projection, audit_of, is_used}
use satya_btc.Gbt.Ancestors.{no_tx}
use satya_btc.Gbt.Ancestors.Closure.{Has, Ancestor}
use satya_btc.Gbt.Heap.{HeapItem}
use satya_btc.Gbt.Heap.Select.{total}
use satya_btc.Gbt.Pack.{Limits, State, done, package_of}
use satya_btc.Gbt.Pack.Rule.{loop_rule}
use satya_btc.Gbt.Pack.Marks.{weight_sum, count-package}
use satya_btc.Gbt.Pack.Once.{occurrences}
use satya_btc.Gbt.Pack.Blocks.{Fits, within, alone, IsU32, IsPacked, Packed-Keeps}
use satya_btc.Gbt.Pack.Rated.{rated, IsRated, Rated-Keeps}
use satya_btc.Gbt.Pack.Complete.{all_weight, IsComplete, Complete-Keeps}
use satya_btc.Gbt.Project.{close, project_with}
use satya_btc.Gbt.Project.Audits.{IsLinked, tx_of}
use satya_btc.Gbt.Project.Start.{start-IsRated, start-IsPacked, start-IsComplete}
use satya_btc.Gbt.Project.Placement.{
  IsProjectable, ancestors_sound, limits, valid_of, project_with_rule, occurrences-close,
  close_rates,
}

-- The weight of a block, and of all that is given.
abbrev pub tx_weight : List GbtTx → List ℕ → ℕ
tx_weight txs [] = 0
tx_weight txs (m ∷ rest) = (tx_of txs m).weight + tx_weight txs rest

abbrev pub tx_total : List GbtTx → ℕ
tx_total [] = 0
tx_total (tx ∷ rest) = tx.weight + tx_total rest

-- The fields are of `u32`, and so are the limits.
pub record IsU32Input (txs : List GbtTx) (max_block_weight reserved : ℕ) : Type 0 where
  pub weights : All (λ tx. tx.weight < u32_mod) txs
  pub size : length txs < u32_mod
  pub reserve : reserved < u32_mod
  pub max_weight : max_block_weight < u32_mod

-- A block within the limit, or one transaction with nothing but ancestors of its own.
pub data IsBlock (txs : List GbtTx) (max_block_weight reserved : ℕ) (b : List ℕ) : Type 0 where
  small : reserved + tx_weight txs b ≤ max_block_weight → IsBlock txs max_block_weight reserved b
  single :
      (uid : ℕ)
      → Has b uid
      → ((a : ℕ) → Has b a → (a ≡ uid) ⊎ Ancestor txs uid a)
      → IsBlock txs max_block_weight reserved b

weight_sum-eq-tx :
    (txs : List GbtTx) (audits : List Audit) (b : List ℕ)
    → IsLinked txs audits
    → weight_sum audits b ≡ tx_weight txs b
weight_sum-eq-tx txs audits [] l = refl
weight_sum-eq-tx txs audits (m ∷ b) l =
    omega (arith, (l.alike m).weight, weight_sum-eq-tx txs audits b l)

all_weight-eq-tx :
    (txs : List GbtTx) (audits : List Audit)
    → length audits ≡ length txs
    → ((u : ℕ) → (audit_of audits u).weight ≡ (tx_of txs u).weight)
    → all_weight audits ≡ tx_total txs
all_weight-eq-tx [] [] e h = refl
all_weight-eq-tx [] (a ∷ audits) e h = absurd (omega arith)
all_weight-eq-tx (tx ∷ txs) [] e h = absurd (omega arith)
all_weight-eq-tx (tx ∷ txs) (a ∷ audits) e h =
    omega (arith, h 0, all_weight-eq-tx txs audits (omega arith) (λ u. h (suc u)))

-- The first `k` blocks, of which those that are closed and the open one are known.
take_blocks :
    (P : List ℕ → Type 0) (k : ℕ) (bs : List (List ℕ)) (b : List ℕ)
    → All P bs
    → (length bs < k → P b)
    → All P (take k (bs ++ b ∷ []))
take_blocks P zero bs b h hb = tt
take_blocks P (suc k) [] b h hb = (hb (omega arith), take-nil k)
  where
    take-nil : (k : ℕ) → All P (take k [])
    take-nil zero = tt
    take-nil (suc k) = tt
take_blocks P (suc k) (c ∷ bs) b h hb = (h.0, take_blocks P k bs b h.1 (λ l. hb (omega arith)))

take-All : (P : List ℕ → Type 0) (k : ℕ) (bs : List (List ℕ)) → All P bs → All P (take k bs)
take-All P zero bs h = tt
take-All P (suc k) [] h = tt
take-All P (suc k) (c ∷ bs) h = (h.0, take-All P k bs h.1)

-- The bounded blocks of what the loop left.
close_blocks :
    {F : Type 0} ⦃f : Float F⦄ (P : List ℕ → Type 0) (k : ℕ) (s : State F)
    → All P s.blocks
    → (length s.blocks < k → (s.cur_block ≡ []) ⊎ P s.cur_block)
    → length s.blocks ≤ k
    → All P (take k (close s).blocks) × (length (close s).blocks ≤ suc k)
unfolding close
close_blocks P k s h hb few = elim (List-cases s.cur_block) [
  | inl e ↦ rw e (take-All P k s.blocks h, omega arith)
  | inr (x, rest, e) ↦ (
    rw e (
        take_blocks P k s.blocks (x ∷ rest) h
          (λ l. elim (hb l) [ inl none_open ↦ absurd (ground arith) | inr known ↦ rw e at known ])),
    rw e (omega (arith, length-append s.blocks ((x ∷ rest) ∷ []))),
  )
]

-- A package, in terms of the transactions.
package-IsBlock :
    (txs : List GbtTx) (audits : List Audit) (max_block_weight reserved : ℕ) (used : List Bool)
    (uid : ℕ)
    → ((u a : ℕ) → Has (audit_of audits u).ancestors a → Ancestor txs u a)
    → IsBlock txs max_block_weight reserved (package_of audits used uid)
package-IsBlock txs audits max_block_weight reserved used uid sound =
    single uid
      (ground
        (arith, count-package audits used uid uid, contains-count (package_of audits used uid) uid))
      (λ a h. elim (Bool-cases (uid == a)) [
        | inl e ↦ inl (let same : uid ≡ a = (==_iff uid a).0 e in rw same)
        | inr e ↦ inr (
            sound uid a (
              ground (
                arith,
                count-package audits used uid a,
                count-contains (package_of audits used uid) a,
                contains-count (audit_of audits uid).ancestors a,
              )))
      ])

Fits-IsBlock :
    (txs : List GbtTx) (audits : List Audit) (lim : Limits)
    → ((u a : ℕ) → Has (audit_of audits u).ancestors a → Ancestor txs u a)
    → IsLinked txs audits
    → (b : List ℕ) → Fits audits lim b
    → IsBlock txs lim.max_block_weight lim.reserved b
Fits-IsBlock txs audits lim sound l b (within h) =
    small (omega (arith, h, weight_sum-eq-tx txs audits b l))
Fits-IsBlock txs audits lim sound l b (alone used uid e) =
    rw e (package-IsBlock txs audits lim.max_block_weight lim.reserved used uid sound)

input_words :
    (txs : List GbtTx) (audits : List Audit) (lim : Limits)
    → IsU32Input txs lim.max_block_weight lim.reserved
    → IsLinked txs audits
    → IsU32 audits lim
input_words txs audits lim u l = record {
  weights = λ v. omega (
    arith,
    (l.alike v).weight,
    All-get_or (λ tx. tx.weight < u32_mod) txs v no_tx u.weights (omega arith),
  );
  size = omega (arith, u.size, l.size);
  reserve = u.reserve;
  max_weight = u.max_weight;
}

nothing_there :
    {F : Type 0} (v : ℕ) (heap : List (HeapItem F))
    → heap ≡ []
    → 0 < total (λ i. if i.uid == v then 1 else 0) heap
    → ⊥
nothing_there v [] e h = omega arith
nothing_there v (i ∷ heap) e h = cc

module _ (F : Type 0) ⦃f : Float F⦄ (txs : List GbtTx) (rank : ℕ → ℕ) (ok : IsProjectable txs rank)
    (max_blocks max_block_weight reserved : ℕ) (p : Projection F)
    (result : project_with txs max_blocks max_block_weight reserved ≡ done p) where
  -- No transaction stands twice in the blocks, and it stands there exactly if it has a rate.
  pub project_with_once :
      (v : ℕ)
      → (occurrences v p.blocks ≤ 1)
        × ((occurrences v p.blocks ≡ 1) ↔ (rated v p.effective_rates ≡ true))
  project_with_once =
      project_with_rule F txs rank ok max_blocks max_block_weight reserved
        (λ q.
          (v : ℕ)
          → (occurrences v q.blocks ≤ 1)
            × ((occurrences v q.blocks ≡ 1) ↔ (rated v q.effective_rates ≡ true)))
        (λ _ v. ground arith)
        (λ audits prep t ends v.
          let valid = valid_of F txs rank ok max_blocks max_block_weight reserved audits prep in
          let lim = limits max_blocks max_block_weight reserved in
          let (inv, _) =
            loop_rule audits lim (IsRated valid lim) (Rated-Keeps valid lim) _ _ t
              (start-IsRated valid lim) ends in
          ground (arith, occurrences-close v t, inv.once.once v, inv.rates v, close_rates t))
        p result

  -- The first `max_blocks - 1` blocks are each within the limit, with the reserve, or one transaction
  -- with ancestors of its own only; and there are no more than `max_blocks` blocks.
  pub project_with_weights :
      IsU32Input txs max_block_weight reserved
      → All (IsBlock txs max_block_weight reserved) (take (max_blocks - 1) p.blocks)
        × (length p.blocks ≤ suc (max_blocks - 1))
  project_with_weights u32 =
      project_with_rule F txs rank ok max_blocks max_block_weight reserved
        (λ q.
          All (IsBlock txs max_block_weight reserved) (take (max_blocks - 1) q.blocks)
          × (length q.blocks ≤ suc (max_blocks - 1)))
        (λ _.
          (take-All (IsBlock txs max_block_weight reserved) (max_blocks - 1) [] tt, omega arith))
        (λ audits prep t ends.
          let valid = valid_of F txs rank ok max_blocks max_block_weight reserved audits prep in
          let lim = limits max_blocks max_block_weight reserved in
          let words = input_words txs audits lim u32 prep.filled.linked in
          let (inv, _) =
            loop_rule audits lim (IsPacked valid lim) (Packed-Keeps valid lim words) _ _ t
              (start-IsPacked valid lim) ends in
          let known =
            Fits-IsBlock txs audits lim (ancestors_sound txs rank ok audits prep.filled)
              prep.filled.linked in
          close_blocks (IsBlock txs max_block_weight reserved) (max_blocks - 1) t
            (All-map (Fits audits lim) (IsBlock txs max_block_weight reserved) t.blocks known
              inv.closed)
            (λ l. elim (inv.current l) [ inl e ↦ inl e | inr k ↦ inr (known t.cur_block k) ])
            inv.few)
        p result

  -- If all fits one block, every transaction stands in the blocks, once.
  pub project_with_complete :
      IsU32Input txs max_block_weight reserved
      → reserved + tx_total txs ≤ max_block_weight
      → (v : ℕ) → v < length txs
      → occurrences v p.blocks ≡ 1
  project_with_complete u32 fits =
      project_with_rule F txs rank ok max_blocks max_block_weight reserved
        (λ q. (v : ℕ) → v < length txs → occurrences v q.blocks ≡ 1)
        (λ none_given v near. absurd (ground arith))
        (λ audits prep t ends v near.
          let valid = valid_of F txs rank ok max_blocks max_block_weight reserved audits prep in
          let lim = limits max_blocks max_block_weight reserved in
          let linked = prep.filled.linked in
          let words = input_words txs audits lim u32 linked in
          let whole = all_weight-eq-tx txs audits linked.size (λ u. (linked.alike u).weight) in
          let (inv, drained) =
            loop_rule audits lim (IsComplete valid lim)
              (Complete-Keeps valid lim words (omega (arith, whole, fits))) _ _ t
              (start-IsComplete valid lim) ends in
          let used : is_used t.used v ≡ true =
            elim (inv.cover v (omega (arith, near, linked.size))) [
              | inl known ↦ known
              | inr there ↦ absurd (nothing_there v t.heap drained there)
            ] in
          ground (arith, occurrences-close v t, inv.packed.once.once v, used))
        p result
