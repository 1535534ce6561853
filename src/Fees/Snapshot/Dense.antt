-- ===== src/Fees/Snapshot/Dense.antt =====
-- src/fees.rs: what `snapshot_to_gbt` gives the projector, and that the pipeline returns.
use satya_btc.Common.{
  ℕ, zero, suc, u32_mod, ◌%◌, ◌+◌, ◌≤◌, ◌<◌, ◌≡◌, refl, ap, inl, inr, some, List, [], ◌∷◌, arith,
  Option-cases, length, All,
}
use satya_btc.Float.{Float, IsFloat}
use satya_btc.Gbt.Audit.{max_blocks, max_block_weight, block_reserved_weight}
use satya_btc.Gbt.Pack.{done}
use satya_btc.Gbt.Ancestors.Closure.{IsAcyclic}
use satya_btc.Gbt.Project.{project}
use satya_btc.Gbt.Project.Audits.{IsDense, tx_of}
use satya_btc.Gbt.Project.Placement.{project_with_returns}
use satya_btc.Fees.Tiers.{FeeEstimate, recommended_tiers}
use satya_btc.Fees.Snapshot.{
  Entry, Uids, index_uids, get, resolve, entries_to_gbt, snapshot_to_gbt, join_rates,
  compute_estimate,
}

-- The map holds uids below `n` only.
abbrev IsNear : ℕ → Uids → Type 0
IsNear n uid_of = (d p : ℕ) → get d uid_of ≡ some p → p < n

add-IsNear : (n d p : ℕ) (uid_of : Uids) → p < n → IsNear n uid_of → IsNear n ((d, p) ∷ uid_of)
unfolding get
add-IsNear n d p uid_of l h e q k = ground (arith, h e q)

index_uids-IsNear :
    (n : ℕ) (es : List Entry) (i : ℕ) (uid_of : Uids)
    → i + length es ≤ n
    → IsNear n uid_of
    → IsNear n (index_uids es i uid_of)
unfolding index_uids
index_uids-IsNear n [] i uid_of l h = h
index_uids-IsNear n (e ∷ rest) i uid_of l h =
    index_uids-IsNear n rest (i + 1) _ (omega arith)
      (add-IsNear n e.txid (i % u32_mod) uid_of (omega arith) h)

All-resolve :
    (n : ℕ) (uid_of : Uids) (ds : List ℕ) → IsNear n uid_of → All (λ p. p < n) (resolve uid_of ds)
unfolding resolve
All-resolve n uid_of [] h = tt
All-resolve n uid_of (d ∷ rest) h = elim (Option-cases (get d uid_of)) [
  | inl e ↦ rw (resolve, e) (All-resolve n uid_of rest h)
  | inr (p, e) ↦ rw (resolve, e) (h d p e, All-resolve n uid_of rest h)
]

length-entries_to_gbt :
    (uid_of : Uids) (es : List Entry) (i : ℕ) → length (entries_to_gbt uid_of es i) ≡ length es
unfolding entries_to_gbt
length-entries_to_gbt uid_of [] i = refl
length-entries_to_gbt uid_of (e ∷ rest) i = ap suc (length-entries_to_gbt uid_of rest (i + 1))

uids_below :
    (n : ℕ) (uid_of : Uids) (es : List Entry) (i : ℕ)
    → i + length es ≤ n
    → All (λ tx. tx.uid < n) (entries_to_gbt uid_of es i)
unfolding entries_to_gbt
uids_below n uid_of [] i l = tt
uids_below n uid_of (e ∷ rest) i l = (omega arith, uids_below n uid_of rest (i + 1) (omega arith))

parents_below :
    (n : ℕ) (uid_of : Uids) (es : List Entry) (i : ℕ)
    → IsNear n uid_of
    → All (λ tx. All (λ p. p < n) tx.parents) (entries_to_gbt uid_of es i)
unfolding entries_to_gbt
parents_below n uid_of [] i h = tt
parents_below n uid_of (e ∷ rest) i h =
    (All-resolve n uid_of e.depends h, parents_below n uid_of rest (i + 1) h)

uid_at :
    (uid_of : Uids) (es : List Entry) (i u : ℕ)
    → u < length es
    → (tx_of (entries_to_gbt uid_of es i) u).uid ≡ (i + u) % u32_mod
unfolding entries_to_gbt
uid_at uid_of [] i u l = absurd (omega arith)
uid_at uid_of (e ∷ rest) i zero l = omega arith
uid_at uid_of (e ∷ rest) i (suc u) l = omega (arith, uid_at uid_of rest (i + 1) u (omega arith))

pub snapshot-IsDense : (snapshot : List Entry) → IsDense (snapshot_to_gbt snapshot)
unfolding snapshot_to_gbt
snapshot-IsDense snapshot =
    let uid_of = index_uids snapshot 0 [] in
    let size = length-entries_to_gbt uid_of snapshot 0 in
    let near = index_uids-IsNear (length snapshot) snapshot 0 [] (omega arith) nothing_near in
    record {
      uids = rw size (uids_below (length snapshot) uid_of snapshot 0 (omega arith));
      parents = rw size (parents_below (length snapshot) uid_of snapshot 0 near);
    }
  where
    nothing_near : IsNear (length snapshot) []
    nothing_near d p e = absurd (ground arith)

-- Of a snapshot whose indices fit a u32 the projector gets one transaction for each entry, whose uid is
-- its index, and the parents are indices too: what is not in the snapshot is left out.
pub snapshot_to_gbt-IsDense :
    (snapshot : List Entry)
    → length snapshot ≤ u32_mod
    → IsDense (snapshot_to_gbt snapshot)
      × (length (snapshot_to_gbt snapshot) ≡ length snapshot)
      × ((u : ℕ) → u < length snapshot → (tx_of (snapshot_to_gbt snapshot) u).uid ≡ u)
unfolding snapshot_to_gbt
snapshot_to_gbt-IsDense snapshot fits =
    let uid_of = index_uids snapshot 0 [] in
    (
      snapshot-IsDense snapshot,
      length-entries_to_gbt uid_of snapshot 0,
      λ u l. omega (arith, fits, uid_at uid_of snapshot 0 u l),
    )

module _ {F : Type 0} ⦃f : Float F⦄ where
  -- If the parents of a snapshot have no cycle, the estimate is computed, with floats that keep the
  -- IEEE facts.
  pub compute_estimate_returns :
      (laws : IsFloat F) (snapshot : List Entry) (rank : ℕ → ℕ) (min_fee_sat_vb : F) (now : ℕ)
      → IsAcyclic (snapshot_to_gbt snapshot) rank
      → (e : FeeEstimate F) × (compute_estimate snapshot min_fee_sat_vb now ≡ done e)
  unfolding compute_estimate project
  compute_estimate_returns laws snapshot rank min_fee_sat_vb now acyclic =
      let (p, e) =
        project_with_returns F (snapshot_to_gbt snapshot) rank
          (record { dense = snapshot-IsDense snapshot; acyclic = acyclic }) max_blocks
          max_block_weight block_reserved_weight laws in
      (
        recommended_tiers (join_rates p.effective_rates snapshot 0) min_fee_sat_vb now,
        ground (arith, e),
      )
