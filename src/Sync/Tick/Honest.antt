-- ===== src/Sync/Tick/Honest.antt =====
-- src/sync/mod.rs: what the cache holds after a tick that says it is caught up.
use satya_btc.Common.{
  ℕ, ◌≡◌, refl, sym, ◌∙◌, Bool, true, false, Option, none, some, List, [], arith, if◌then◌else◌,
  length,
}
use satya_btc.Float.{Float}
use satya_btc.Gbt.Ancestors.{insert_all}
use satya_btc.Rpc.{Result, ok, err, MempoolInfo, MempoolEntry}
use satya_btc.Mempool.{MempoolTx, keys, insert_pairs, compute_diff, min_fee_sat_vb}
use satya_btc.Sync.Decision.{DesyncAction, wait_cooldown, bulk_resync, is_backlog}
use satya_btc.Sync.State.{
  Loop, SyncConfig, reconnect_on_error, set_synced, set_last_sync_ok, apply_bulk_success,
  maybe_recompute_fees,
}
use satya_btc.Sync.Fetch.{Arrival, fetch_new_entries}
use satya_btc.Sync.Fetch.Resolved.{IsStream}
use satya_btc.Sync.Tick.{
  TickInput, BulkAnswers, from_entries, max_new_fetch_per_tick, load, resync, resync_tick,
  remove_gone, apply_fetched, diff_tick, act_on, decision, steady_tick,
}
use satya_btc.Sync.Tick.Edges.{set_synced_lem, fees-IsQuiet}
use satya_btc.Sync.Tick.Mirror.{
  IsMirror, batch-IsMirror, node_set-IsMirror, not_backlog, loaded-IsMirror,
}

module _ {F : Type 0} ⦃f : Float F⦄ where
  -- The two ways in which a tick ends in sync, given what the node answered to the bulk download and
  -- to the listing, and the stream of the fetches.
  pub data IsHonest (verbose : Result (List (ℕ × MempoolEntry))) (listing : Result (List ℕ))
      (results : List ℕ → List Arrival) (t : Loop F) : Type 0 where
    reloaded :
        (entries : List (ℕ × MempoolEntry))
        → verbose ≡ ok entries
        → IsMirror (keys t.state.txs) (keys entries) []
        → IsHonest verbose listing results t
    reconciled :
        (txids new_txids : List ℕ)
        → listing ≡ ok txids
        → IsMirror (keys t.state.txs) txids (results new_txids)
        → IsHonest verbose listing results t

  -- A state that is marked as out of sync claims nothing.
  stale :
      (verbose : Result (List (ℕ × MempoolEntry))) (listing : Result (List ℕ))
      (results : List ℕ → List Arrival) (s : Loop F)
      → (set_synced false s).state.caught_up ≡ true
      → IsHonest verbose listing results (set_synced false s)
  stale verbose listing results s h =
      let w = set_synced_lem false s in let bad : false ≡ true = sym w.caught_up ∙ h in cc

  -- The cache at the end of a tick in sync is the one before the flags were set.
  pub fresh_txs :
      (cfg : SyncConfig) (i : TickInput) (force : Bool) (s : Loop F)
      → (maybe_recompute_fees i.fees cfg.fee_recompute_min_interval force
          (set_last_sync_ok i.wall (set_synced true s))).state.txs
        ≡ s.state.txs
  unfolding set_last_sync_ok
  fresh_txs cfg i force s =
      (fees-IsQuiet i.fees cfg.fee_recompute_min_interval force _).same_txs
      ∙ (set_synced_lem true s).same_txs

  branch-IsHonest :
      (b : Bool) (verbose : Result (List (ℕ × MempoolEntry))) (listing : Result (List ℕ))
      (results : List ℕ → List Arrival) (t u : Loop F)
      → (b ≡ false → IsHonest verbose listing results u)
      → (if b then set_synced false t else u).state.caught_up ≡ true
      → IsHonest verbose listing results (if b then set_synced false t else u)
  branch-IsHonest true verbose listing results t u k h = stale verbose listing results t h
  branch-IsHonest false verbose listing results t u k h = k refl

  reconciled_from :
      (verbose : Result (List (ℕ × MempoolEntry))) (results : List ℕ → List Arrival)
      (txids new_txids : List ℕ) (m : List (ℕ × MempoolTx)) (u : Loop F)
      → u.state.txs ≡ m
      → IsMirror (keys m) (insert_all txids []) (results new_txids)
      → IsHonest verbose (ok txids) results u
  reconciled_from verbose results txids new_txids m u same h =
      reconciled txids new_txids refl (rw same (node_set-IsMirror (keys m) txids _ h))

  diff_tick-IsHonest :
      (cfg : SyncConfig) (i : TickInput) (info : MempoolInfo) (txids : List ℕ) (s : Loop F)
      → IsStream i.results
      → (diff_tick cfg i info (insert_all txids []) s).state.caught_up ≡ true
      → IsHonest i.bulk.verbose (ok txids) i.results (diff_tick cfg i info (insert_all txids []) s)
  unfolding diff_tick remove_gone apply_fetched
  diff_tick-IsHonest cfg i info txids s stream =
      let diff = compute_diff (keys s.state.txs) (insert_all txids []) in
      let res = fetch_new_entries i.results diff.new cfg.tick_budget max_new_fetch_per_tick in
      let applied : Loop F =
        apply_fetched res.fetched (min_fee_sat_vb info) i.tip (remove_gone diff.gone s) in
      let fresh : Loop F =
        maybe_recompute_fees i.fees cfg.fee_recompute_min_interval false
          (set_last_sync_ok i.wall (set_synced true applied)) in
      branch-IsHonest
        (is_backlog (length diff.new) max_new_fetch_per_tick res.fetch_errors res.incomplete)
        i.bulk.verbose (ok txids) i.results applied fresh
        (λ none_left.
          let (few, no_errors, whole) =
            not_backlog (length diff.new) max_new_fetch_per_tick res.fetch_errors res.incomplete
              none_left in
          reconciled_from i.bulk.verbose i.results txids diff.new _ fresh
            (fresh_txs cfg i false applied)
            (batch-IsMirror i.results s.state.txs (insert_all txids []) cfg.tick_budget stream few
              no_errors whole))

  -- A bulk download that succeeds replaces the cache.
  pub resync_loads :
      (a : BulkAnswers) (s : Loop F) (count : ℕ)
      → (resync a s).0 ≡ some count
      → (entries : List (ℕ × MempoolEntry)) × (a.verbose ≡ ok entries)
        × ((resync a s).1.state.txs ≡ insert_pairs (from_entries entries) [])
  unfolding resync load
  resync_loads a s count = go a.verbose a.info a.tip refl refl refl
    where
      go :
          (r1 : Result (List (ℕ × MempoolEntry))) (r2 : Result MempoolInfo) (r3 : Result ℕ)
          → a.verbose ≡ r1
          → a.info ≡ r2
          → a.tip ≡ r3
          → (resync a s).0 ≡ some count
          → (entries : List (ℕ × MempoolEntry)) × (a.verbose ≡ ok entries)
            × ((resync a s).1.state.txs ≡ insert_pairs (from_entries entries) [])
      go (err e) r2 r3 e1 e2 e3 h = absurd (ground arith)
      go (ok entries) (err e) r3 e1 e2 e3 h = absurd (ground arith)
      go (ok entries) (ok info) (err e) e1 e2 e3 h = absurd (ground arith)
      go (ok entries) (ok info) (ok height) e1 e2 e3 h = (entries, e1, ground arith)

  resync_tick-IsHonest :
      (cfg : SyncConfig) (i : TickInput) (listing : Result (List ℕ)) (s : Loop F)
      → (resync_tick cfg i s).state.caught_up ≡ true
      → IsHonest i.bulk.verbose listing i.results (resync_tick cfg i s)
  unfolding resync_tick apply_bulk_success
  resync_tick-IsHonest cfg i listing s =
      go (resync i.bulk (record s { last_bulk_resync = i.stamp })).0 refl
    where
      go :
          (r : Option ℕ)
          → (resync i.bulk (record s { last_bulk_resync = i.stamp })).0 ≡ r
          → (resync_tick cfg i s).state.caught_up ≡ true
          → IsHonest i.bulk.verbose listing i.results (resync_tick cfg i s)
      go none e =
          rw (resync_tick, e)
            (stale _ listing i.results (resync i.bulk (record s { last_bulk_resync = i.stamp })).1)
      go (some count) e =
          let after = (resync i.bulk (record s { last_bulk_resync = i.stamp })).1 in
          let (entries, e1, same) = resync_loads i.bulk _ count e in
          rw (resync_tick, e)
            (λ h.
              reloaded entries e1 (loaded-IsMirror entries _ (fresh_txs cfg i true after ∙ same)))

  act_on-IsHonest :
      (d : Option DesyncAction) (cfg : SyncConfig) (i : TickInput) (info : MempoolInfo)
      (txids : List ℕ) (s : Loop F)
      → IsStream i.results
      → (act_on d cfg i info (insert_all txids []) s).state.caught_up ≡ true
      → IsHonest i.bulk.verbose (ok txids) i.results (act_on d cfg i info (insert_all txids []) s)
  unfolding act_on
  act_on-IsHonest (some (wait_cooldown reason)) cfg i info txids s stream =
      stale i.bulk.verbose (ok txids) i.results s
  act_on-IsHonest (some (bulk_resync reason)) cfg i info txids s stream =
      resync_tick-IsHonest cfg i (ok txids) s
  act_on-IsHonest none cfg i info txids s stream = diff_tick-IsHonest cfg i info txids s stream

  -- If a tick leaves `caught_up` set, the cache has just what the node reported in that tick: either
  -- the transactions of a bulk download, or those of the list, of which only some are missing that
  -- the node answered to have vanished. No failed call, cooldown, backlog or budget passes for that.
  pub steady_tick_honest :
      (cfg : SyncConfig) (i : TickInput) (s : Loop F)
      → IsStream i.results
      → (steady_tick cfg i s).state.caught_up ≡ true
      → IsHonest i.bulk.verbose i.txids i.results (steady_tick cfg i s)
  unfolding steady_tick
  steady_tick_honest cfg i s stream = go i.info i.txids refl refl
    where
      go :
          (r1 : Result MempoolInfo) (r2 : Result (List ℕ))
          → i.info ≡ r1
          → i.txids ≡ r2
          → (steady_tick cfg i s).state.caught_up ≡ true
          → IsHonest i.bulk.verbose i.txids i.results (steady_tick cfg i s)
      go (err e) r2 e1 e2 = rw (steady_tick, e1) (stale _ _ i.results (reconnect_on_error e s))
      go (ok info) (err e) e1 e2 =
          rw (steady_tick, e1, e2) (stale _ _ i.results (reconnect_on_error e s))
      go (ok info) (ok txids) e1 e2 =
          rw (steady_tick, e1, e2)
            (act_on-IsHonest (decision i info (insert_all txids []) s) cfg i info txids s stream)
