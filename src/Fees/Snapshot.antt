-- ===== src/Fees/Snapshot.antt =====
-- src/fees.rs, `snapshot_to_gbt` and `compute_estimate`. A `Txid` of the bitcoin crate is the number
-- whose 32 bytes, big-endian, are `to_byte_array()`.
pub mod Dense
use satya_btc.Common.{
  ℕ, ◌+◌, ◌/◌, ◌%◌, ◌^◌, u32_mod, Option, none, some, List, [], ◌∷◌, ◌==◌, if◌then◌else◌,
}
use satya_btc.Float.{Float}
use satya_btc.Gbt.Audit.{GbtTx}
use satya_btc.Gbt.Pack.{Outcome, done, panicked, out_of_fuel}
use satya_btc.Gbt.Project.{project}
use satya_btc.Fees.Tiers.{FeeEstimate, recommended_tiers}

-- `(Txid, u64, u32, Vec<Txid>)`
pub record Entry : Type 0 where
  pub txid : ℕ
  pub fee : ℕ
  pub weight : ℕ
  pub depends : List ℕ

-- The `HashMap` of the uids, the newest entry first.
abbrev pub Uids : Type 0
Uids = List (ℕ × ℕ)

unfoldable pub index_uids : List Entry → ℕ → Uids → Uids
index_uids [] i uid_of = uid_of
index_uids (e ∷ rest) i uid_of = index_uids rest (i + 1) ((e.txid, i % u32_mod) ∷ uid_of)

unfoldable pub get : {A : Type 0} → ℕ → List (ℕ × A) → Option A
get k [] = none
get k ((j, v) ∷ rest) = if j == k then some v else get k rest

unfoldable pub resolve : Uids → List ℕ → List ℕ
unfolding get
resolve uid_of [] = []
resolve uid_of (d ∷ rest) = elim (get d uid_of) [
  | none ↦ resolve uid_of rest
  | some p ↦ p ∷ resolve uid_of rest
]

unfoldable pub entries_to_gbt : Uids → List Entry → ℕ → List GbtTx
unfolding resolve
entries_to_gbt uid_of [] i = []
entries_to_gbt uid_of (e ∷ rest) i =
    record {
      uid = i % u32_mod;
      order = e.txid / 2 ^ 224;
      fee = e.fee;
      weight = e.weight;
      parents = resolve uid_of e.depends;
    }
    ∷ entries_to_gbt uid_of rest (i + 1)

unfoldable pub snapshot_to_gbt : List Entry → List GbtTx
unfolding index_uids entries_to_gbt
snapshot_to_gbt snapshot = entries_to_gbt (index_uids snapshot 0 []) snapshot 0

module _ {F : Type 0} ⦃f : Float F⦄ where
  -- The rate of each entry that has one, with its weight.
  unfoldable pub join_rates : List (ℕ × F) → List Entry → ℕ → List (F × ℕ)
  unfolding get
  join_rates rates [] uid = []
  join_rates rates (e ∷ rest) uid = elim (get (uid % u32_mod) rates) [
    | none ↦ join_rates rates rest (uid + 1)
    | some rate ↦ (rate, e.weight) ∷ join_rates rates rest (uid + 1)
  ]

  -- `now` is what `now_unix()` gives.
  unfoldable pub compute_estimate : List Entry → F → ℕ → Outcome (FeeEstimate F)
  unfolding snapshot_to_gbt join_rates recommended_tiers project
  compute_estimate snapshot min_fee_sat_vb now = elim (project {F = F} (snapshot_to_gbt snapshot)) [
    | done proj ↦
        done (recommended_tiers (join_rates proj.effective_rates snapshot 0) min_fee_sat_vb now)
    | panicked ↦ panicked
    | out_of_fuel ↦ out_of_fuel
  ]
