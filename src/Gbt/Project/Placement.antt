-- ===== src/Gbt/Project/Placement.antt =====
-- src/gbt.rs, `project_with`, as a whole: it returns, and where it puts the transactions.
use satya_btc.Common.{
  ℕ, ◌+◌, ◌≡◌, refl, true, inl, inr, List, [], ◌∷◌, arith, if◌then◌else◌, ◌==◌, Bool-cases,
  List-cases, length, count,
}
use satya_btc.Float.{Float, IsFloat}
use satya_btc.Gbt.Audit.{GbtTx, Audit, Projection, audit_of}
use satya_btc.Gbt.Ancestors.Closure.{Has, Ancestor, IsAcyclic}
use satya_btc.Gbt.Pack.{Limits, State, done, loop}
use satya_btc.Gbt.Pack.Valid.{IsAudited}
use satya_btc.Gbt.Pack.Once.{occurrences, occurrences-concat}
use satya_btc.Gbt.Project.{start, close, rounds, run_loop, project_with}
use satya_btc.Gbt.Project.Audits.{IsDense, IsLinked-returns}
use satya_btc.Gbt.Project.Filled.{IsFilled, IsFilled-returns, filled-IsAudited, filled_sound}
use satya_btc.Gbt.Project.Start.{run_loop_ends, run_loop_done}

-- The uids and the parents are indices, and `rank` puts each parent below its child.
pub record IsProjectable (txs : List GbtTx) (rank : ℕ → ℕ) : Type 0 where
  pub dense : IsDense txs
  pub acyclic : IsAcyclic txs rank

pub ancestors_sound :
    (txs : List GbtTx) (rank : ℕ → ℕ)
    → IsProjectable txs rank
    → (audits : List Audit) → IsFilled txs (length txs) audits
    → (u a : ℕ) → Has (audit_of audits u).ancestors a
    → Ancestor txs u a
ancestors_sound txs rank ok audits filled = filled_sound txs rank ok.acyclic audits filled

abbrev pub limits : ℕ → ℕ → ℕ → Limits
limits max_blocks max_block_weight reserved = record {
  max_blocks = max_blocks;
  max_block_weight = max_block_weight;
  reserved = reserved;
}

module _ {F : Type 0} ⦃f : Float F⦄ where
  -- How often a transaction stands in what the loop left, with the block that is still open.
  pub occurrences-close :
      (v : ℕ) (s : State F)
      → occurrences v (close s).blocks ≡ occurrences v s.blocks + count v s.cur_block
  unfolding close
  occurrences-close v s = elim (List-cases s.cur_block) [
    | inl e ↦ rw e (omega arith)
    | inr (x, rest, e) ↦ rw e (occurrences-concat v s.blocks (x ∷ rest))
  ]

  pub close_rates : (s : State F) → (close s).effective_rates ≡ s.effective_rates
  unfolding close
  close_rates s = refl

module _ (F : Type 0) ⦃f : Float F⦄ (txs : List GbtTx) (rank : ℕ → ℕ) (ok : IsProjectable txs rank)
    (max_blocks max_block_weight reserved : ℕ) where
  abbrev pub lim : Limits
  lim = limits max_blocks max_block_weight reserved

  -- What the loop is given, and that the function is the loop on it, or nothing on no input.
  pub record IsPrepared (audits : List Audit) : Type 0 where
    pub filled : IsFilled txs (length txs) audits
    runs : project_with {F = F} txs max_blocks max_block_weight reserved ≡ (
        if length txs == 0
        then done (record { blocks = []; effective_rates = [] })
        else run_loop lim audits)

  prepared : (audits : List Audit) × IsPrepared audits
  unfolding project_with
  prepared =
      let (linked, e1, l) = IsLinked-returns txs ok.dense in
      let (audits, e2, filled) = IsFilled-returns txs rank ok.acyclic linked l in
      (audits, record { filled = filled; runs = ground arith })

  pub valid_of : (audits : List Audit) → IsPrepared audits → IsAudited audits
  valid_of audits p = filled-IsAudited txs rank ok.acyclic audits p.filled

  -- On a dense input with no cycle the projection returns: no panic, and the rounds are enough.
  pub project_with_returns :
      IsFloat F
      → (p : Projection F) × (project_with txs max_blocks max_block_weight reserved ≡ done p)
  project_with_returns laws =
      let (audits, prep) = prepared in
      let (p, e) = run_loop_ends (valid_of audits prep) lim laws in
      elim (Bool-cases (length txs == 0)) [
        | inl none_given ↦ (record { blocks = []; effective_rates = [] }, ground (arith, prep.runs))
        | inr given ↦ (p, ground (arith, prep.runs))
      ]

  -- A property of projections that holds of nothing and of what the loop leaves.
  pub project_with_rule :
      (Q : Projection F → Type 0)
      → ((length txs == 0) ≡ true → Q (record { blocks = []; effective_rates = [] }))
      → ((audits : List Audit)
          → IsPrepared audits
          → (t : State F) → loop audits lim (rounds lim (length audits)) (start lim audits) ≡ done t
          → Q (close t))
      → (p : Projection F) → project_with txs max_blocks max_block_weight reserved ≡ done p
      → Q p
  project_with_rule Q empty_case loop_case p e =
      let (audits, prep) = prepared in
      elim (Bool-cases (length txs == 0)) [
        | inl none_given ↦
            let same : record { blocks = []; effective_rates = [] } ≡ p =
              ground (arith, prep.runs) in
            rw same at (empty_case none_given)
        | inr given ↦
            let (t, ends, same) =
              run_loop_done (valid_of audits prep) lim p (ground (arith, prep.runs)) in
            rw same (loop_case audits prep t ends)
      ]
