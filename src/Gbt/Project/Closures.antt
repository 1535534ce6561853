-- ===== src/Gbt/Project/Closures.antt =====
-- src/gbt.rs, `build_ancestors` as `project_with` runs it, for one transaction after the other.
use satya_btc.Common.{ℕ, ◌≤◌, ◌<◌, ◌≡◌, ◌↔◌, some, List, arith, length, count}
use satya_btc.Gbt.Audit.{GbtTx, Audit, audit_of}
use satya_btc.Gbt.Ancestors.Closure.{Has, Ancestor, IsClosure-complete}
use satya_btc.Gbt.Project.{blank_audits, link_children, fill_ancestors, no_memo}
use satya_btc.Gbt.Project.Audits.{IsLinked-returns}
use satya_btc.Gbt.Project.Filled.{IsFilled-returns}
use satya_btc.Gbt.Project.Placement.{IsProjectable}

-- On a dense input with no cycle the closures are computed within the fuel, from the audits that are
-- linked to their children, and the list of each transaction holds exactly its ancestors by the
-- transitive closure of the parents, each once.
pub fill_ancestors_exact :
    (txs : List GbtTx) (rank : ℕ → ℕ)
    → IsProjectable txs rank
    → (linked : List Audit) → link_children txs (blank_audits txs) ≡ some linked
    → (audits : List Audit) × (fill_ancestors txs (length txs) 0 (no_memo (length txs)) linked
        ≡ some audits)
      × ((u a : ℕ)
          → u < length txs
          → (Has (audit_of audits u).ancestors a ↔ Ancestor txs u a)
            × (count a (audit_of audits u).ancestors ≤ 1))
fill_ancestors_exact txs rank ok linked e =
    let (known, e1, l) = IsLinked-returns txs ok.dense in
    let same : known ≡ linked = ground arith in
    let (audits, returns, filled) = IsFilled-returns txs rank ok.acyclic linked (rw same at l) in
    (
      audits,
      returns,
      λ u a h.
          let c = filled.closure u h in
          ((c.part.sound a, IsClosure-complete txs c), c.part.distinct a),
    )
