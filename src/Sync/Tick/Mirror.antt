-- ===== src/Sync/Tick/Mirror.antt =====
-- src/sync/mod.rs: the cache after a whole batch or a bulk download, against what the node reported.
use satya_btc.Common.{
  ℕ, zero, suc, ◌≤◌, ◌≡◌, refl, Bool, true, false, ◌||◌, List, [], ◌∷◌, arith, length, take,
  contains,
}
use satya_btc.Gbt.Ancestors.{insert_all}
use satya_btc.Gbt.Ancestors.Closure.{contains-insert_all}
use satya_btc.Rpc.{MempoolEntry}
use satya_btc.Mempool.{MempoolTx, keys, remove_all, insert_pairs, compute_diff}
use satya_btc.Mempool.Reconcile.{keys-remove_all, keys-insert_pairs, contains-compute_diff}
use satya_btc.Sync.Decision.{is_backlog}
use satya_btc.Sync.Fetch.{Arrival, fetch_new_entries}
use satya_btc.Sync.Fetch.Resolved.{IsStream, vanished, fetch_new_entries_resolves}
use satya_btc.Sync.Tick.{from_entries, max_new_fetch_per_tick}

pub take_whole : (k : ℕ) (xs : List ℕ) → length xs ≤ k → take k xs ≡ xs
take_whole zero [] h = refl
take_whole (suc k) [] h = refl
take_whole zero (x ∷ xs) h = absurd (omega arith)
take_whole (suc k) (x ∷ xs) h = ground (arith, take_whole k xs (omega arith))

keys-from_entries :
    (es : List (ℕ × MempoolEntry)) (v : ℕ)
    → contains (keys (from_entries es)) v ≡ contains (keys es) v
keys-from_entries [] v = refl
keys-from_entries ((id, e) ∷ rest) v = ground (arith, keys-from_entries rest v)

-- The cache has the keys `m` and the node listed `node`: nothing is there that was not listed, and
-- what was listed is there, or the node said in the tick that it had vanished.
pub record IsMirror (m node : List ℕ) (arrivals : List Arrival) : Type 0 where
  pub listed : (v : ℕ) → contains m v ≡ true → contains node v ≡ true
  pub covered : (v : ℕ) → contains node v ≡ true → (contains m v || vanished v arrivals) ≡ true

-- A whole batch, with the removals, makes the cache a mirror.
pub batch-IsMirror :
    (results : List ℕ → List Arrival) (m : List (ℕ × MempoolTx)) (node : List ℕ) (tick_budget : ℕ)
    → IsStream results
    → length (compute_diff (keys m) node).new ≤ max_new_fetch_per_tick
    → (fetch_new_entries results
        (compute_diff (keys m) node).new
        tick_budget
        max_new_fetch_per_tick).fetch_errors
      ≡ 0
    → (fetch_new_entries results
        (compute_diff (keys m) node).new
        tick_budget
        max_new_fetch_per_tick).incomplete
      ≡ false
    → IsMirror
        (keys (
          insert_pairs
            (fetch_new_entries results
              (compute_diff (keys m) node).new
              tick_budget
              max_new_fetch_per_tick).fetched
            (remove_all (compute_diff (keys m) node).gone m)))
        node
        (results (compute_diff (keys m) node).new)
batch-IsMirror results m node tick_budget stream few no_errors whole =
    let diff = compute_diff (keys m) node in
    let res = fetch_new_entries results diff.new tick_budget max_new_fetch_per_tick in
    let all_new = take_whole max_new_fetch_per_tick diff.new few in
    let (only, each) =
      fetch_new_entries_resolves results diff.new tick_budget max_new_fetch_per_tick stream in
    let only_new : (v : ℕ) → contains (keys res.fetched) v ≡ true → contains diff.new v ≡ true =
      rw all_new at only in
    let each_new : (v : ℕ)
        → contains diff.new v ≡ true
        → (contains (keys res.fetched) v || vanished v (results diff.new)) ≡ true =
      rw all_new at (each no_errors whole) in
    record {
      listed = λ v k. ground (
        arith,
        keys-insert_pairs res.fetched (remove_all diff.gone m) v,
        keys-remove_all diff.gone m v,
        contains-compute_diff (keys m) node v,
        only_new v,
      );
      covered = λ v k. ground (
        arith,
        keys-insert_pairs res.fetched (remove_all diff.gone m) v,
        keys-remove_all diff.gone m v,
        contains-compute_diff (keys m) node v,
        each_new v,
      );
    }

pub node_set-IsMirror :
    (m txids : List ℕ) (arrivals : List Arrival)
    → IsMirror m (insert_all txids []) arrivals
    → IsMirror m txids arrivals
node_set-IsMirror m txids arrivals h = record {
  listed = λ v k. ground (arith, h.listed v, contains-insert_all txids [] v);
  covered = λ v k. ground (arith, h.covered v, contains-insert_all txids [] v);
}

pub not_backlog :
    (new_count max_per_tick fetch_errors : ℕ) (incomplete : Bool)
    → is_backlog new_count max_per_tick fetch_errors incomplete ≡ false
    → (new_count ≤ max_per_tick) × (fetch_errors ≡ 0) × (incomplete ≡ false)
unfolding is_backlog
not_backlog new_count max_per_tick fetch_errors incomplete h =
    (ground arith, ground arith, ground arith)

pub loaded-IsMirror :
    (entries : List (ℕ × MempoolEntry)) (m : List (ℕ × MempoolTx))
    → m ≡ insert_pairs (from_entries entries) []
    → IsMirror (keys m) (keys entries) []
loaded-IsMirror entries m e =
    let same = λ (v : ℕ). keys-insert_pairs (from_entries entries) [] v in
    rw e (record {
      listed = λ v k. ground (arith, same v, keys-from_entries entries v);
      covered = λ v k. ground (arith, same v, keys-from_entries entries v);
    })
