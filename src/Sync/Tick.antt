-- ===== src/Sync/Tick.antt =====
-- src/sync/mod.rs, `bulk_resync` and `steady_tick`. What the node answers in the tick is an argument.
pub mod Edges
pub mod Mirror
pub mod Honest
pub mod Failed
use satya_btc.Common.{
  ℕ, suc, ◌+◌, ◌-◌, Bool, true, false, Option, none, some, List, [], ◌∷◌, length, contains,
  if◌then◌else◌,
}
use satya_btc.Float.{Float}
use satya_btc.Gbt.Ancestors.{insert_all}
use satya_btc.Rpc.{RpcError, Result, ok, err, MempoolInfo, MempoolEntry}
use satya_btc.Mempool.{
  MempoolTx, MempoolState, from_entry, min_fee_sat_vb, keys, remove_all, insert_pairs, compute_diff,
}
use satya_btc.Sync.Decision.{
  DesyncAction, wait_cooldown, bulk_resync, decide_desync, resync_cooling_down, is_backlog,
}
use satya_btc.Sync.State.{
  Loop, SyncConfig, FeeClock, reconnect_on_error, set_synced, set_last_sync_ok, apply_bulk_success,
  maybe_recompute_fees,
}
use satya_btc.Sync.Fetch.{Arrival, fetch_new_entries}

abbrev pub max_new_fetch_per_tick : ℕ
max_new_fetch_per_tick = 2000

-- The answers to the calls of `bulk_resync`.
pub record BulkAnswers : Type 0 where
  pub verbose : Result (List (ℕ × MempoolEntry))
  pub info : Result MempoolInfo
  pub tip : Result ℕ

-- The answers and the readings of the clocks of one tick.
pub record TickInput : Type 0 where
  pub info : Result MempoolInfo
  pub txids : Result (List ℕ)
  pub bulk : BulkAnswers
  pub results : List ℕ → List Arrival
  pub tip : Result ℕ
  pub decide_at : ℕ
  pub stamp : ℕ
  pub wall : ℕ
  pub fees : FeeClock

abbrev pub from_entries : List (ℕ × MempoolEntry) → List (ℕ × MempoolTx)
from_entries [] = []
from_entries ((id, e) ∷ rest) = (id, from_entry e) ∷ from_entries rest

abbrev pub is_loaded : MempoolInfo → Bool
is_loaded info = elim info.loaded [ none ↦ true | some b ↦ b ]

module _ {F : Type 0} ⦃f : Float F⦄ where
  -- The new data under the write lock.
  unfoldable pub load : List (ℕ × MempoolEntry) → MempoolInfo → ℕ → Loop F → Loop F
  unfolding insert_pairs min_fee_sat_vb
  load entries info tip_height s = record s {
    state = record s.state {
      txs = insert_pairs (from_entries entries) [];
      mempool_min_fee_sat_vb = min_fee_sat_vb info;
      tip_height = tip_height;
    };
  }

  unfoldable pub resync : BulkAnswers → Loop F → Option ℕ × Loop F
  unfolding reconnect_on_error load
  resync a s = elim a.verbose [
    | err e ↦ (none, reconnect_on_error e s)
    | ok entries ↦ elim a.info [
      | err e ↦ (none, reconnect_on_error e s)
      | ok info ↦ elim a.tip [
        | err e ↦ (none, reconnect_on_error e s)
        | ok h ↦ (some (length entries), load entries info h s)
      ]
    ]
  ]

  -- The arm of `DesyncAction::BulkResync`.
  unfoldable pub resync_tick : SyncConfig → TickInput → Loop F → Loop F
  unfolding resync apply_bulk_success maybe_recompute_fees set_synced
  resync_tick cfg i s =
      let (loaded, s') = resync i.bulk (record s { last_bulk_resync = i.stamp }) in
      elim loaded [
        | none ↦ set_synced false s'
        | some count ↦
            maybe_recompute_fees i.fees cfg.fee_recompute_min_interval true
              (apply_bulk_success i.wall s')
      ]

  -- The removals, and then the insertions with the minimum and the height.
  unfoldable pub remove_gone : List ℕ → Loop F → Loop F
  unfolding remove_all
  remove_gone gone s = record s { state = record s.state { txs = remove_all gone s.state.txs } }

  unfoldable pub apply_fetched : List (ℕ × MempoolTx) → F → Result ℕ → Loop F → Loop F
  unfolding insert_pairs
  apply_fetched fetched min_fee tip s = record s {
    state = record s.state {
      txs = insert_pairs fetched s.state.txs;
      mempool_min_fee_sat_vb = min_fee;
      tip_height = elim tip [ ok h ↦ h | err e ↦ s.state.tip_height ];
    };
  }

  -- The diff, the fetch and the update.
  unfoldable pub diff_tick : SyncConfig → TickInput → MempoolInfo → List ℕ → Loop F → Loop F
  unfolding compute_diff fetch_new_entries is_backlog remove_gone apply_fetched set_synced
      set_last_sync_ok maybe_recompute_fees min_fee_sat_vb
  diff_tick cfg i info node_txids s =
      let diff = compute_diff (keys s.state.txs) node_txids in
      let res = fetch_new_entries i.results diff.new cfg.tick_budget max_new_fetch_per_tick in
      let backlog =
        is_backlog (length diff.new) max_new_fetch_per_tick res.fetch_errors res.incomplete in
      let s' = apply_fetched res.fetched (min_fee_sat_vb info) i.tip (remove_gone diff.gone s) in
      if backlog
      then set_synced false s'
      else maybe_recompute_fees i.fees cfg.fee_recompute_min_interval false
          (set_last_sync_ok i.wall (set_synced true s'))

  -- The match on the decision.
  unfoldable pub act_on :
      Option DesyncAction → SyncConfig → TickInput → MempoolInfo → List ℕ → Loop F → Loop F
  unfolding set_synced resync_tick diff_tick
  act_on (some (wait_cooldown reason)) cfg i info node_txids s = set_synced false s
  act_on (some (bulk_resync reason)) cfg i info node_txids s = resync_tick cfg i s
  act_on none cfg i info node_txids s = diff_tick cfg i info node_txids s

  -- The decision of a tick, on the node's set.
  unfoldable pub decision : TickInput → MempoolInfo → List ℕ → Loop F → Option DesyncAction
  unfolding decide_desync resync_cooling_down
  decision i info node_txids s =
      decide_desync (is_loaded info) (length (keys s.state.txs)) (length node_txids)
        (resync_cooling_down (some s.last_bulk_resync) i.decide_at)

  unfoldable pub steady_tick : SyncConfig → TickInput → Loop F → Loop F
  unfolding reconnect_on_error set_synced act_on decision
  steady_tick cfg i s = elim i.info [
    | err e ↦ set_synced false (reconnect_on_error e s)
    | ok info ↦ elim i.txids [
      | err e ↦ set_synced false (reconnect_on_error e s)
      | ok txids ↦
          let node_txids = insert_all txids [] in
          act_on (decision i info node_txids s) cfg i info node_txids s
    ]
  ]
