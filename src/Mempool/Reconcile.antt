-- ===== src/Mempool/Reconcile.antt =====
-- src/mempool.rs: the conversion of an entry stays within `u32`, and the diff, applied to the cache,
-- gives the node's set.
use satya_btc.Common.{
  ℕ, ◌*◌, ◌<◌, ◌≡◌, refl, not, ◌&&◌, ◌||◌, inl, inr, none, some, List, [], ◌∷◌, arith, ◌==◌, ==_iff,
  Option-cases, contains, u32_mod,
}
use satya_btc.Rpc.{MempoolEntry}
use satya_btc.Mempool.{
  from_entry, keys, map_remove, map_insert, remove_all, insert_pairs, difference, compute_diff,
}

-- Whatever the node sends, the sizes and the weight of the cached transaction fit a `u32`; a weight
-- that fits is kept, and without one it is four times the size where that fits.
pub from_entry_bounds :
    (entry : MempoolEntry)
    → ((from_entry entry).vsize < u32_mod)
      × ((from_entry entry).weight < u32_mod)
      × ((from_entry entry).ancestor_vsize < u32_mod)
      × ((from_entry entry).descendant_vsize < u32_mod)
      × ((w : ℕ) → entry.weight ≡ some w → w < u32_mod → (from_entry entry).weight ≡ w)
      × (entry.weight ≡ none
          → entry.vsize * 4 < u32_mod
          → (from_entry entry).weight ≡ entry.vsize * 4)
unfolding from_entry
from_entry_bounds entry = elim (Option-cases entry.weight) [
  | inl e ↦ (
    ground arith,
    rw e (ground arith),
    ground arith,
    ground arith,
    λ w h k. cc,
    λ h k. rw e (ground arith),
  )
  | inr (v, e) ↦ (
    ground arith,
    rw e (ground arith),
    ground arith,
    ground arith,
    λ w h k. rw e (ground arith),
    λ h k. cc,
  )
]

pub contains-difference :
    (xs ys : List ℕ) (v : ℕ)
    → contains (difference xs ys) v ≡ (contains xs v && not (contains ys v))
unfolding difference
contains-difference [] ys v = refl
contains-difference (a ∷ rest) ys v = ground (arith, contains-difference rest ys v, ==_iff a v)

keys-map_remove :
    {A : Type 0} (k : ℕ) (m : List (ℕ × A)) (v : ℕ)
    → contains (keys (map_remove k m)) v ≡ (not (k == v) && contains (keys m) v)
keys-map_remove k [] v = ground arith
keys-map_remove k ((j, x) ∷ rest) v =
    ground (arith, keys-map_remove k rest v, ==_iff j k, ==_iff j v, ==_iff k v)

pub keys-remove_all :
    {A : Type 0} (ks : List ℕ) (m : List (ℕ × A)) (v : ℕ)
    → contains (keys (remove_all ks m)) v ≡ (not (contains ks v) && contains (keys m) v)
unfolding remove_all
keys-remove_all [] m v = ground arith
keys-remove_all (k ∷ rest) m v =
    ground (arith, keys-remove_all rest (map_remove k m) v, keys-map_remove k m v)

pub keys-insert_pairs :
    {A : Type 0} (ps m : List (ℕ × A)) (v : ℕ)
    → contains (keys (insert_pairs ps m)) v ≡ (contains (keys ps) v || contains (keys m) v)
unfolding insert_pairs
keys-insert_pairs [] m v = ground arith
keys-insert_pairs ((k, x) ∷ rest) m v =
    ground (arith, keys-insert_pairs rest (map_insert k x m) v, keys-map_remove k m v)

-- The cache without what is gone and with any details for exactly what is new has the node's keys.
pub compute_diff_reconciles :
    {A : Type 0} (m fetched : List (ℕ × A)) (node_txids : List ℕ) (v : ℕ)
    → contains (keys fetched) v ≡ contains (compute_diff (keys m) node_txids).new v
    → contains
        (keys (insert_pairs fetched (remove_all (compute_diff (keys m) node_txids).gone m)))
        v
      ≡ contains node_txids v
unfolding compute_diff
compute_diff_reconciles m fetched node_txids v h = ground (
  arith,
  keys-insert_pairs fetched (remove_all (difference (keys m) node_txids) m) v,
  keys-remove_all (difference (keys m) node_txids) m v,
  contains-difference node_txids (keys m) v,
  contains-difference (keys m) node_txids v,
)

pub contains-compute_diff :
    (cache_keys node_txids : List ℕ) (v : ℕ)
    → (contains (compute_diff cache_keys node_txids).new v
        ≡ (contains node_txids v && not (contains cache_keys v)))
      × (contains (compute_diff cache_keys node_txids).gone v
          ≡ (contains cache_keys v && not (contains node_txids v)))
unfolding compute_diff
contains-compute_diff cache_keys node_txids v =
    (contains-difference node_txids cache_keys v, contains-difference cache_keys node_txids v)
