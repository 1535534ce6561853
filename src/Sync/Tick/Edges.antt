-- ===== src/Sync/Tick/Edges.antt =====
-- src/sync/mod.rs: the transitions that the loop logs, for each of its steps.
use satya_btc.Common.{
  ℕ, ◌≡◌, refl, sym, ◌∙◌, Bool, true, false, not, Option, none, some, List, [], ◌∷◌, arith,
  if◌then◌else◌,
}
use satya_btc.Float.{Float}
use satya_btc.Gbt.Pack.{Outcome, done, panicked, out_of_fuel}
use satya_btc.Fees.Snapshot.{compute_estimate}
use satya_btc.Gbt.Ancestors.{insert_all}
use satya_btc.Rpc.{RpcError, Result, ok, err, MempoolInfo, MempoolEntry}
use satya_btc.Fees.Tiers.{FeeEstimate}
use satya_btc.Sync.Decision.{DesyncAction, wait_cooldown, bulk_resync}
use satya_btc.Sync.State.{
  Loop, SyncConfig, FeeClock, same_bool, reconnect_on_error, set_synced, set_last_sync_ok,
  apply_bulk_success, snapshot_of, store_estimate, maybe_recompute_fees,
}
use satya_btc.Sync.Tick.{
  TickInput, BulkAnswers, load, resync, resync_tick, remove_gone, apply_fetched, diff_tick, act_on,
  decision, steady_tick,
}

-- The transitions, the newest first, end in `b` and alternate; before the first the flag is false.
abbrev pub IsAlternating : Bool → List Bool → Type 0
IsAlternating b [] = b ≡ false
IsAlternating b (t ∷ rest) = (t ≡ b) × IsAlternating (not b) rest

extend_log :
    (b p : Bool) (log : List Bool)
    → IsAlternating p log
    → IsAlternating b (if same_bool b p then log else b ∷ log)
extend_log true true log h = h
extend_log true false log h = (refl, h)
extend_log false true log h = (refl, h)
extend_log false false log h = h

module _ {F : Type 0} ⦃f : Float F⦄ where
  -- The loop's copy of the flag is the flag, and each transition was logged once.
  pub record IsTracked (s : Loop F) : Type 0 where
    pub flag : s.caught_up_prev ≡ s.state.caught_up
    pub alternating : IsAlternating s.state.caught_up s.transitions

  -- The parts that the fee recompute and a reconnect leave alone.
  pub record IsQuiet (s t : Loop F) : Type 0 where
    pub caught_up : t.state.caught_up ≡ s.state.caught_up
    pub prev : t.caught_up_prev ≡ s.caught_up_prev
    pub logged : t.transitions ≡ s.transitions
    pub same_txs : t.state.txs ≡ s.state.txs
    pub same_tip : t.state.tip_height ≡ s.state.tip_height
    pub same_sync_ok : t.state.last_sync_ok ≡ s.state.last_sync_ok

  pub quiet-IsTracked : (s t : Loop F) → IsQuiet s t → IsTracked s → IsTracked t
  quiet-IsTracked s t q h = record {
    flag = q.prev ∙ h.flag ∙ sym q.caught_up;
    alternating = rw (q.logged, q.caught_up) h.alternating;
  }

  -- What `set_synced` writes.
  pub record IsWritten (b : Bool) (s t : Loop F) : Type 0 where
    pub caught_up : t.state.caught_up ≡ b
    pub prev : t.caught_up_prev ≡ b
    pub logged :
        t.transitions ≡ (if same_bool b s.caught_up_prev then s.transitions else b ∷ s.transitions)
    pub same_txs : t.state.txs ≡ s.state.txs
    pub same_tip : t.state.tip_height ≡ s.state.tip_height

  pub set_synced_lem : (b : Bool) (s : Loop F) → IsWritten b s (set_synced b s)
  unfolding set_synced
  set_synced_lem b s = record {
    caught_up = ground arith;
    prev = ground arith;
    logged = ground arith;
    same_txs = ground arith;
    same_tip = ground arith;
  }

  pub set_synced-IsTracked : (b : Bool) (s : Loop F) → IsTracked s → IsTracked (set_synced b s)
  set_synced-IsTracked b s h =
      let w = set_synced_lem b s in
      record {
        flag = w.prev ∙ sym w.caught_up;
        alternating =
            rw (w.logged, w.caught_up)
              (extend_log b s.caught_up_prev s.transitions (rw h.flag h.alternating));
      }

  pub reconnect-IsQuiet : (e : RpcError) (s : Loop F) → IsQuiet s (reconnect_on_error e s)
  unfolding reconnect_on_error
  reconnect-IsQuiet e s = record {
    caught_up = ground arith;
    prev = ground arith;
    logged = ground arith;
    same_txs = ground arith;
    same_tip = ground arith;
    same_sync_ok = ground arith;
  }

  store-IsQuiet : (clock : FeeClock) (s : Loop F) → IsQuiet s (store_estimate clock s)
  unfolding store_estimate
  store-IsQuiet clock s =
      go (compute_estimate (snapshot_of s.state) s.state.mempool_min_fee_sat_vb clock.unix) refl
    where
      go :
          (r : Outcome (FeeEstimate F))
          → compute_estimate (snapshot_of s.state) s.state.mempool_min_fee_sat_vb clock.unix ≡ r
          → IsQuiet s (store_estimate clock s)
      go (done x) e =
          rw (store_estimate, e)
            (record {
              caught_up = refl;
              prev = refl;
              logged = refl;
              same_txs = refl;
              same_tip = refl;
              same_sync_ok = refl;
            })
      go panicked e =
          rw (store_estimate, e)
            (record {
              caught_up = refl;
              prev = refl;
              logged = refl;
              same_txs = refl;
              same_tip = refl;
              same_sync_ok = refl;
            })
      go out_of_fuel e =
          rw (store_estimate, e)
            (record {
              caught_up = refl;
              prev = refl;
              logged = refl;
              same_txs = refl;
              same_tip = refl;
              same_sync_ok = refl;
            })

  pub fees-IsQuiet :
      (clock : FeeClock) (min_interval : ℕ) (force : Bool) (s : Loop F)
      → IsQuiet s (maybe_recompute_fees clock min_interval force s)
  unfolding maybe_recompute_fees
  fees-IsQuiet clock min_interval force s =
      let q = store-IsQuiet clock s in
      record {
        caught_up = ground (arith, q.caught_up);
        prev = ground (arith, q.prev);
        logged = ground (arith, q.logged);
        same_txs = ground (arith, q.same_txs);
        same_tip = ground (arith, q.same_tip);
        same_sync_ok = ground (arith, q.same_sync_ok);
      }

  set_last_sync_ok-IsTracked :
      (wall : ℕ) (s : Loop F) → IsTracked s → IsTracked (set_last_sync_ok wall s)
  unfolding set_last_sync_ok
  set_last_sync_ok-IsTracked wall s h = record { flag = h.flag; alternating = h.alternating }

  -- The end of a tick that is in sync.
  fresh-IsTracked :
      (clock : FeeClock) (min_interval : ℕ) (force : Bool) (wall : ℕ) (s : Loop F)
      → IsTracked s
      → IsTracked (
          maybe_recompute_fees clock min_interval force (set_last_sync_ok wall (set_synced true s)))
  fresh-IsTracked clock min_interval force wall s h =
      quiet-IsTracked _ _ (fees-IsQuiet clock min_interval force _)
        (set_last_sync_ok-IsTracked wall _ (set_synced-IsTracked true s h))

  -- A failed call: a reconnect, perhaps, and the flag is cleared.
  failed-IsTracked :
      (e : RpcError) (s : Loop F)
      → IsTracked s
      → IsTracked (set_synced false (reconnect_on_error e s))
  failed-IsTracked e s h =
      set_synced-IsTracked false _ (quiet-IsTracked s _ (reconnect-IsQuiet e s) h)

  pub resync-IsTracked : (a : BulkAnswers) (s : Loop F) → IsTracked s → IsTracked (resync a s).1
  unfolding resync load
  resync-IsTracked a s h = go a.verbose a.info a.tip refl refl refl
    where
      go :
          (r1 : Result (List (ℕ × MempoolEntry))) (r2 : Result MempoolInfo) (r3 : Result ℕ)
          → a.verbose ≡ r1
          → a.info ≡ r2
          → a.tip ≡ r3
          → IsTracked (resync a s).1
      go (err e) r2 r3 e1 e2 e3 = rw (resync, e1) (quiet-IsTracked s _ (reconnect-IsQuiet e s) h)
      go (ok entries) (err e) r3 e1 e2 e3 =
          rw (resync, e1, e2) (quiet-IsTracked s _ (reconnect-IsQuiet e s) h)
      go (ok entries) (ok info) (err e) e1 e2 e3 =
          rw (resync, e1, e2, e3) (quiet-IsTracked s _ (reconnect-IsQuiet e s) h)
      go (ok entries) (ok info) (ok height) e1 e2 e3 =
          rw (resync, e1, e2, e3) (record { flag = h.flag; alternating = h.alternating })

  resync_tick-IsTracked :
      (cfg : SyncConfig) (i : TickInput) (s : Loop F)
      → IsTracked s
      → IsTracked (resync_tick cfg i s)
  unfolding resync_tick apply_bulk_success
  resync_tick-IsTracked cfg i s h =
      let begun : Loop F = record s { last_bulk_resync = i.stamp } in
      let known =
        resync-IsTracked i.bulk begun (record { flag = h.flag; alternating = h.alternating }) in
      go (resync i.bulk begun).0 refl known
    where
      go :
          (r : Option ℕ)
          → (resync i.bulk (record s { last_bulk_resync = i.stamp })).0 ≡ r
          → IsTracked (resync i.bulk (record s { last_bulk_resync = i.stamp })).1
          → IsTracked (resync_tick cfg i s)
      go none e known = rw (resync_tick, e) (set_synced-IsTracked false _ known)
      go (some count) e known =
          rw (resync_tick, e)
            (fresh-IsTracked i.fees cfg.fee_recompute_min_interval true i.wall _ known)

  diff_tick-IsTracked :
      (cfg : SyncConfig) (i : TickInput) (info : MempoolInfo) (txids : List ℕ) (s : Loop F)
      → IsTracked s
      → IsTracked (diff_tick cfg i info txids s)
  unfolding diff_tick remove_gone apply_fetched
  diff_tick-IsTracked cfg i info txids s h =
      either_tick _ _ _
        (set_synced-IsTracked false _ (record { flag = h.flag; alternating = h.alternating }))
        (fresh-IsTracked i.fees cfg.fee_recompute_min_interval false i.wall _
          (record { flag = h.flag; alternating = h.alternating }))
    where
      either_tick :
          (test : Bool) (t u : Loop F)
          → IsTracked t
          → IsTracked u
          → IsTracked (if test then t else u)
      either_tick true t u h k = h
      either_tick false t u h k = k

  act_on-IsTracked :
      (d : Option DesyncAction) (cfg : SyncConfig) (i : TickInput) (info : MempoolInfo)
      (txids : List ℕ) (s : Loop F)
      → IsTracked s
      → IsTracked (act_on d cfg i info txids s)
  unfolding act_on
  act_on-IsTracked (some (wait_cooldown reason)) cfg i info txids s h =
      set_synced-IsTracked false s h
  act_on-IsTracked (some (bulk_resync reason)) cfg i info txids s h =
      resync_tick-IsTracked cfg i s h
  act_on-IsTracked none cfg i info txids s h = diff_tick-IsTracked cfg i info txids s h

  -- Each tick, whatever the node answers, keeps the loop's copy of the flag equal to the flag, and
  -- logs exactly the changes of the flag.
  pub steady_tick-IsTracked :
      (cfg : SyncConfig) (i : TickInput) (s : Loop F)
      → IsTracked s
      → IsTracked (steady_tick cfg i s)
  unfolding steady_tick
  steady_tick-IsTracked cfg i s h = go i.info i.txids refl refl
    where
      go :
          (r1 : Result MempoolInfo) (r2 : Result (List ℕ))
          → i.info ≡ r1
          → i.txids ≡ r2
          → IsTracked (steady_tick cfg i s)
      go (err e) r2 e1 e2 = rw (steady_tick, e1) (failed-IsTracked e s h)
      go (ok info) (err e) e1 e2 = rw (steady_tick, e1, e2) (failed-IsTracked e s h)
      go (ok info) (ok txids) e1 e2 =
          rw (steady_tick, e1, e2)
            (act_on-IsTracked (decision i info (insert_all txids []) s) cfg i info
              (insert_all txids []) s h)
