-- ===== src/Sync/Run/Recovers.antt =====
-- src/sync/mod.rs: when a tick catches up.
use satya_btc.Common.{
  ℕ, ◌+◌, ◌≤◌, ◌≡◌, refl, ◌∙◌, true, false, Option, none, some, List, [], ◌∷◌, All, arith, length,
}
use satya_btc.Float.{Float}
use satya_btc.Gbt.Ancestors.{insert_all}
use satya_btc.Rpc.{ok, MempoolInfo, MempoolEntry}
use satya_btc.Mempool.{keys, compute_diff, min_fee_sat_vb}
use satya_btc.Sync.Decision.{is_mass_drop, decide_desync, is_backlog}
use satya_btc.Sync.State.{Loop, SyncConfig, set_synced, set_last_sync_ok}
use satya_btc.Sync.Fetch.{Arrival, Batch, process, consume, fetch_new_entries}
use satya_btc.Sync.Fetch.Resolved.{IsStream}
use satya_btc.Sync.Tick.{
  TickInput, max_new_fetch_per_tick, is_loaded, decision, diff_tick, act_on, remove_gone,
  apply_fetched, steady_tick,
}
use satya_btc.Sync.Tick.Edges.{set_synced_lem, fees-IsQuiet}
use satya_btc.Sync.Tick.Mirror.{take_whole}

-- The node answered within the budget.
abbrev pub IsPrompt : ℕ → Arrival → Type 0
IsPrompt tick_budget a = (a.elapsed ≤ tick_budget) × ((r : Option MempoolEntry) × (a.answer ≡ ok r))

consume_all :
    (tick_budget : ℕ) (arrivals : List Arrival) (b : Batch)
    → All (IsPrompt tick_budget) arrivals
    → ((consume tick_budget arrivals b).resolved ≡ b.resolved + length arrivals)
      × ((consume tick_budget arrivals b).fetch_errors ≡ b.fetch_errors)
unfolding consume process
consume_all tick_budget [] b h = (omega arith, refl)
consume_all tick_budget (a ∷ rest) b ((soon, (none, e)), h) =
    let k = consume_all tick_budget rest (process a b) h in (ground (arith, k), ground (arith, k))
consume_all tick_budget (a ∷ rest) b ((soon, (some x, e)), h) =
    let k = consume_all tick_budget rest (process a b) h in (ground (arith, k), ground (arith, k))

-- A batch that fits a tick and whose calls are all answered in time is whole.
pub prompt_whole :
    (results : List ℕ → List Arrival) (new_txids : List ℕ) (tick_budget max_per_tick : ℕ)
    → IsStream results
    → length new_txids ≤ max_per_tick
    → All (IsPrompt tick_budget) (results new_txids)
    → is_backlog
        (length new_txids)
        max_per_tick
        (fetch_new_entries results new_txids tick_budget max_per_tick).fetch_errors
        (fetch_new_entries results new_txids tick_budget max_per_tick).incomplete
      ≡ false
unfolding is_backlog fetch_new_entries
prompt_whole results new_txids tick_budget max_per_tick stream few prompt =
    let k =
      consume_all tick_budget (results new_txids)
        (record { fetched = []; fetch_errors = 0; resolved = 0 }) prompt in
    ground (arith, k, stream.size new_txids, take_whole max_per_tick new_txids few)

module _ {F : Type 0} ⦃f : Float F⦄ where
  prompt_tick :
      (cfg : SyncConfig) (i : TickInput) (info : MempoolInfo) (node : List ℕ) (s : Loop F)
      (height : ℕ)
      → i.tip ≡ ok height
      → IsStream i.results
      → length (compute_diff (keys s.state.txs) node).new ≤ max_new_fetch_per_tick
      → All (IsPrompt cfg.tick_budget) (i.results (compute_diff (keys s.state.txs) node).new)
      → ((diff_tick cfg i info node s).state.caught_up ≡ true)
        × ((diff_tick cfg i info node s).state.last_sync_ok ≡ some i.wall)
        × ((diff_tick cfg i info node s).state.tip_height ≡ height)
  unfolding diff_tick set_last_sync_ok apply_fetched
  prompt_tick cfg i info node s height tip stream few prompt =
      let diff = compute_diff (keys s.state.txs) node in
      let whole =
        prompt_whole i.results diff.new cfg.tick_budget max_new_fetch_per_tick stream few prompt in
      let res = fetch_new_entries i.results diff.new cfg.tick_budget max_new_fetch_per_tick in
      let applied : Loop F =
        apply_fetched res.fetched (min_fee_sat_vb info) i.tip (remove_gone diff.gone s) in
      let q =
        fees-IsQuiet i.fees cfg.fee_recompute_min_interval false
          (set_last_sync_ok i.wall (set_synced true applied)) in
      let w = set_synced_lem true applied in
      let told : applied.state.tip_height ≡ height = rw (apply_fetched, tip) refl in
      rw whole (q.caught_up ∙ w.caught_up, q.same_sync_ok, q.same_tip ∙ w.same_tip ∙ told)

  -- From any state, also one that is marked as out of sync: if the node is loaded, lists its transactions
  -- and answers for its height, there is no mass drop, no more are new than a tick may fetch, the stream
  -- gives one result for each of them, and each is answered without an error within the budget, then the
  -- tick ends in sync, at the time of the tick and with that height.
  pub steady_tick_recovers :
      (cfg : SyncConfig) (i : TickInput) (s : Loop F) (info : MempoolInfo) (txids : List ℕ)
      (height : ℕ)
      → i.info ≡ ok info
      → i.txids ≡ ok txids
      → i.tip ≡ ok height
      → is_loaded info ≡ true
      → is_mass_drop (length (keys s.state.txs)) (length (insert_all txids [])) ≡ false
      → IsStream i.results
      → length (compute_diff (keys s.state.txs) (insert_all txids [])).new ≤ max_new_fetch_per_tick
      → All
          (IsPrompt cfg.tick_budget)
          (i.results (compute_diff (keys s.state.txs) (insert_all txids [])).new)
      → ((steady_tick cfg i s).state.caught_up ≡ true)
        × ((steady_tick cfg i s).state.last_sync_ok ≡ some i.wall)
        × ((steady_tick cfg i s).state.tip_height ≡ height)
  unfolding steady_tick act_on decision decide_desync
  steady_tick_recovers cfg i s info txids height e1 e2 tip loaded kept stream few prompt =
      rw (steady_tick, e1, e2, decision, decide_desync, loaded, kept)
        (prompt_tick cfg i info (insert_all txids []) s height tip stream few prompt)
