-- ===== src/Sync/State.antt =====
-- src/sync/mod.rs: what the loop keeps from tick to tick, and the steps on it that need no node. The
-- readings of the clocks are arguments. Log lines are left out but for those of the transitions.
use satya_btc.Common.{
  ℕ, suc, ◌-◌, Bool, true, false, not, ◌&&◌, some, List, [], ◌∷◌, ltb, leb, if◌then◌else◌,
}
use satya_btc.Float.{Float}
use satya_btc.Gbt.Pack.{done, panicked, out_of_fuel}
use satya_btc.Fees.Snapshot.{Entry, compute_estimate}
use satya_btc.Rpc.{RpcError, is_reconnectable}
use satya_btc.Mempool.{MempoolTx, MempoolState}

-- The shared state with the variables of `run`; `transitions` holds the transitions that were logged,
-- the newest first, and `reconnects` counts the calls of `rpc.reconnect()`.
pub record Loop (F : Type 0) : Type 0 where
  pub state : MempoolState F
  pub caught_up_prev : Bool
  pub last_bulk_resync : ℕ
  pub last_fee_recompute : ℕ
  pub transitions : List Bool
  pub reconnects : ℕ

pub record SyncConfig : Type 0 where
  pub fetch_concurrency : ℕ
  pub tick_budget : ℕ
  pub fee_recompute_min_interval : ℕ

-- The readings for one recompute: at `elapsed()`, at `now_unix()` and after the task.
pub record FeeClock : Type 0 where
  pub at : ℕ
  pub unix : ℕ
  pub after : ℕ

abbrev pub same_bool : Bool → Bool → Bool
same_bool true b = b
same_bool false b = not b

-- `sort_by_key(|a| a.0)`
abbrev pub insert_entry : Entry → List Entry → List Entry
insert_entry e [] = e ∷ []
insert_entry e (d ∷ rest) = if leb e.txid d.txid then e ∷ d ∷ rest else d ∷ insert_entry e rest

abbrev pub sort_entries : List Entry → List Entry
sort_entries [] = []
sort_entries (e ∷ rest) = insert_entry e (sort_entries rest)

abbrev pub entries_of : List (ℕ × MempoolTx) → List Entry
entries_of [] = []
entries_of ((id, tx) ∷ rest) =
    record { txid = id; fee = tx.fee; weight = tx.weight; depends = tx.depends } ∷ entries_of rest

module _ {F : Type 0} ⦃f : Float F⦄ where
  unfoldable pub reconnect_on_error : RpcError → Loop F → Loop F
  reconnect_on_error e s =
      if is_reconnectable e then record s { reconnects = suc s.reconnects } else s

  -- `set_synced_locked`; the reason and the size are for the log only.
  unfoldable pub set_synced : Bool → Loop F → Loop F
  set_synced synced s =
      let s' = record s { state = record s.state { caught_up = synced } } in
      if same_bool synced s.caught_up_prev
      then s'
      else record s' { transitions = synced ∷ s.transitions; caught_up_prev = synced }

  unfoldable pub set_last_sync_ok : ℕ → Loop F → Loop F
  set_last_sync_ok wall s = record s { state = record s.state { last_sync_ok = some wall } }

  unfoldable pub apply_bulk_success : ℕ → Loop F → Loop F
  unfolding set_synced set_last_sync_ok
  apply_bulk_success wall s = set_last_sync_ok wall (set_synced true s)

  unfoldable pub snapshot_of : MempoolState F → List Entry
  snapshot_of g = sort_entries (entries_of g.txs)

  -- A task that panics leaves the estimate that was there.
  unfoldable pub store_estimate : FeeClock → Loop F → Loop F
  unfolding compute_estimate snapshot_of
  store_estimate clock s =
      elim (compute_estimate (snapshot_of s.state) s.state.mempool_min_fee_sat_vb clock.unix) [
        | done e ↦ record s { state = record s.state { fee_estimate = some e } }
        | panicked ↦ s
        | out_of_fuel ↦ s
      ]

  unfoldable pub maybe_recompute_fees : FeeClock → ℕ → Bool → Loop F → Loop F
  unfolding store_estimate
  maybe_recompute_fees clock min_interval force s =
      if not force && ltb (clock.at - s.last_fee_recompute) min_interval
      then s
      else record (store_estimate clock s) { last_fee_recompute = clock.after }
