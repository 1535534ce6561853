-- ===== src/Mempool.antt =====
-- src/mempool.rs: the cached transaction, the shared state, and the diff with the node. A `HashMap` is
-- an association list whose keys stand once, a `HashSet` a list without duplicates; the order of either
-- is one that the hash could give.
pub mod Reconcile
use satya_btc.Common.{
  ℕ, Bool, true, false, not, Option, none, some, List, [], ◌∷◌, ◌==◌, ltb, if◌then◌else◌, contains,
  u32_mod, u32_max, saturating_mul32,
}
use satya_btc.Float.{Float}
use satya_btc.Rpc.{MempoolInfo, MempoolEntry}
use satya_btc.Fees.Tiers.{FeeEstimate}

pub record MempoolTx : Type 0 where
  pub vsize : ℕ
  pub weight : ℕ
  pub fee : ℕ
  pub depends : List ℕ
  pub ancestor_fee : ℕ
  pub ancestor_vsize : ℕ
  pub descendant_fee : ℕ
  pub descendant_vsize : ℕ
  pub first_seen : ℕ

-- `u32::try_from(n).unwrap_or(u32::MAX)`
abbrev pub clamp_u32 : ℕ → ℕ
clamp_u32 n = if ltb n u32_mod then n else u32_max

abbrev pub weight_or : Option ℕ → ℕ → ℕ
weight_or none vsize = saturating_mul32 vsize 4
weight_or (some w) vsize = clamp_u32 w

abbrev pub time_or_zero : Option ℕ → ℕ
time_or_zero none = 0
time_or_zero (some t) = t

unfoldable pub from_entry : MempoolEntry → MempoolTx
from_entry entry = record {
  vsize = clamp_u32 entry.vsize;
  weight = weight_or entry.weight (clamp_u32 entry.vsize);
  fee = entry.fees.base;
  depends = entry.depends;
  ancestor_fee = entry.fees.ancestor;
  ancestor_vsize = clamp_u32 entry.ancestorsize;
  descendant_fee = entry.fees.descendant;
  descendant_vsize = clamp_u32 entry.descendantsize;
  first_seen = time_or_zero entry.time;
}

-- `Network` is a name of the bitcoin crate: it is only carried.
pub record MempoolState (F : Type 0) : Type 0 where
  pub txs : List (ℕ × MempoolTx)
  pub mempool_min_fee_sat_vb : F
  pub tip_height : ℕ
  pub network : ℕ
  pub caught_up : Bool
  pub last_sync_ok : Option ℕ
  pub fee_estimate : Option (FeeEstimate F)

module _ {F : Type 0} ⦃f : Float F⦄ where
  unfoldable pub min_fee_sat_vb : MempoolInfo → F
  min_fee_sat_vb info = f.div (f.of_u64 info.mempoolminfee) (f.of_u64 1000)

  -- `MempoolState::new`
  unfoldable pub new_state : ℕ → MempoolState F
  new_state network = record {
    txs = [];
    mempool_min_fee_sat_vb = f.of_u64 0;
    tip_height = 0;
    network = network;
    caught_up = false;
    last_sync_ok = none;
    fee_estimate = none;
  }

-- `HashMap::keys`, `remove` and `insert`
abbrev pub keys : {A : Type 0} → List (ℕ × A) → List ℕ
keys [] = []
keys ((k, v) ∷ rest) = k ∷ keys rest

abbrev pub map_remove : {A : Type 0} → ℕ → List (ℕ × A) → List (ℕ × A)
map_remove k [] = []
map_remove k ((j, v) ∷ rest) = if j == k then map_remove k rest else (j, v) ∷ map_remove k rest

abbrev pub map_insert : {A : Type 0} → ℕ → A → List (ℕ × A) → List (ℕ × A)
map_insert k v m = (k, v) ∷ map_remove k m

-- The removal of each key, and the insertion of each pair, in turn.
unfoldable pub remove_all : {A : Type 0} → List ℕ → List (ℕ × A) → List (ℕ × A)
remove_all [] m = m
remove_all (k ∷ rest) m = remove_all rest (map_remove k m)

unfoldable pub insert_pairs : {A : Type 0} → List (ℕ × A) → List (ℕ × A) → List (ℕ × A)
insert_pairs [] m = m
insert_pairs ((k, v) ∷ rest) m = insert_pairs rest (map_insert k v m)

pub record Diff : Type 0 where
  pub new : List ℕ
  pub gone : List ℕ

-- `HashSet::difference`
unfoldable pub difference : List ℕ → List ℕ → List ℕ
difference [] other = []
difference (a ∷ rest) other =
    if contains other a then difference rest other else a ∷ difference rest other

unfoldable pub compute_diff : List ℕ → List ℕ → Diff
unfolding difference
compute_diff cache_keys node_txids = record {
  new = difference node_txids cache_keys;
  gone = difference cache_keys node_txids;
}
