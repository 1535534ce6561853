-- ===== src/Gbt/Project.antt =====
-- src/gbt.rs, `project_with` and `project`.
pub mod Audits
pub mod Filled
pub mod Closures
pub mod Start
pub mod Placement
pub mod Blocks
pub mod Order
use satya_btc.Common.{
  ℕ, zero, suc, ◌+◌, ◌*◌, Bool, false, Option, none, some, List, [], ◌∷◌, ◌++◌, if◌then◌else◌,
  is_empty, ltb, ◌==◌, length, set, replicate,
}
use satya_btc.Float.{Float}
use satya_btc.Gbt.Audit.{
  GbtTx, Audit, Projection, audit_of, max_blocks, max_block_weight, block_reserved_weight,
}
use satya_btc.Gbt.Ancestors.{Memo, build_ancestors}
use satya_btc.Gbt.Heap.{HeapItem}
use satya_btc.Gbt.Pack.{Limits, State, Outcome, done, panicked, out_of_fuel, item_of, loop}

abbrev pub blank_audits : List GbtTx → List Audit
blank_audits [] = []
blank_audits (tx ∷ rest) =
    record { order = tx.order; fee = tx.fee; weight = tx.weight; ancestors = []; children = [] }
    ∷ blank_audits rest

-- The children of one transaction; `none` is the panic of an index that is out of bounds.
unfoldable pub link_parents : ℕ → List ℕ → List Audit → Option (List Audit)
link_parents uid [] audits = some audits
link_parents uid (p ∷ rest) audits =
    let a = audit_of audits p in
    let linked =
      link_parents uid rest (set audits p (record a { children = a.children ++ uid ∷ [] })) in
    if ltb p (length audits) then linked else none

unfoldable pub link_children : List GbtTx → List Audit → Option (List Audit)
unfolding link_parents
link_children [] audits = some audits
link_children (tx ∷ rest) audits = elim (link_parents tx.uid tx.parents audits) [
  | none ↦ none
  | some audits' ↦ link_children rest audits'
]

-- The loop that fills in the closures, for `left` uids from `uid` on. A call inside a call marks a
-- uid that was not marked, so `n + 1` is fuel enough.
unfoldable pub fill_ancestors : List GbtTx → ℕ → ℕ → Memo → List Audit → Option (List Audit)
unfolding build_ancestors
fill_ancestors txs zero uid st audits = some audits
fill_ancestors txs (suc left) uid st audits = elim (build_ancestors txs (suc (length txs)) uid st) [
  | none ↦ none
  | some (anc, st') ↦
      fill_ancestors txs left (uid + 1) st'
        (set audits uid (record (audit_of audits uid) { ancestors = anc }))
]

abbrev pub no_memo : ℕ → Memo
no_memo n = record { memo = replicate n none; visiting = replicate n false }

-- The rounds: fewer than this, by `Gbt.Pack.Rounds`.
unfoldable pub rounds : Limits → ℕ → ℕ
rounds lim n = suc ((lim.max_blocks * suc n + n) * suc (2 * (n + n * n)) + 2 * (n + n * n))

module _ {F : Type 0} ⦃f : Float F⦄ where
  -- One item for each of `left` uids from `uid` on.
  unfoldable pub first_items : List Audit → List Bool → ℕ → ℕ → List (HeapItem F)
  unfolding item_of
  first_items audits used zero uid = []
  first_items audits used (suc left) uid =
      item_of audits used uid ∷ first_items audits used left (uid + 1)

  unfoldable pub start : Limits → List Audit → State F
  unfolding first_items
  start lim audits =
      let used = replicate (length audits) false in
      record {
        used = used;
        heap = first_items audits used (length audits) 0;
        blocks = [];
        effective_rates = [];
        cur_block = [];
        block_weight = lim.reserved;
        overflow = [];
        failures = 0;
      }

  -- The last block is pushed after the loop.
  unfoldable pub close : State F → Projection F
  close s = record {
    blocks = if is_empty s.cur_block then s.blocks else s.blocks ++ s.cur_block ∷ [];
    effective_rates = s.effective_rates;
  }

  unfoldable pub run_loop : Limits → List Audit → Outcome (Projection F)
  unfolding start close rounds loop
  run_loop lim audits = elim (loop audits lim (rounds lim (length audits)) (start lim audits)) [
    | done s ↦ done (close s)
    | panicked ↦ panicked
    | out_of_fuel ↦ out_of_fuel
  ]

  unfoldable pub project_with : List GbtTx → ℕ → ℕ → ℕ → Outcome (Projection F)
  unfolding link_children fill_ancestors run_loop
  project_with txs max_blocks max_block_weight reserved =
      let n = length txs in
      let lim : Limits = record {
        max_blocks = max_blocks;
        max_block_weight = max_block_weight;
        reserved = reserved;
      } in
      let packed : Outcome (Projection F) = elim (link_children txs (blank_audits txs)) [
        | none ↦ panicked
        | some linked ↦ elim (fill_ancestors txs n 0 (no_memo n) linked) [
          | none ↦ out_of_fuel
          | some audits ↦ run_loop lim audits
        ]
      ] in
      if n == 0 then done (record { blocks = []; effective_rates = [] }) else packed

  unfoldable pub project : List GbtTx → Outcome (Projection F)
  unfolding project_with
  project txs = project_with txs max_blocks max_block_weight block_reserved_weight
