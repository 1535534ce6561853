-- ===== src/Sync/Run.antt =====
-- src/sync/mod.rs, `run`: the startup, and the ticks after it. The answers of the node come one for
-- each turn of a loop; where they end, the loop still waits. The sleeps between the turns and the wake
-- of the ZMQ listener only choose when a tick begins.
pub mod Startup
pub mod Backed
pub mod Recovers
mod Tests
use satya_btc.Common.{ℕ, ◌-◌, Bool, true, Option, none, some, List, [], ◌∷◌, ltb, if◌then◌else◌}
use satya_btc.Float.{Float}
use satya_btc.Rpc.{Result, ok, err, MempoolInfo}
use satya_btc.Sync.State.{
  Loop, SyncConfig, FeeClock, reconnect_on_error, apply_bulk_success, maybe_recompute_fees,
}
use satya_btc.Sync.Tick.{BulkAnswers, TickInput, is_loaded, resync, steady_tick}

-- One turn of `initial_bulk_load`, with the readings that it takes if the load succeeds.
pub record LoadTurn : Type 0 where
  pub bulk : BulkAnswers
  pub now : ℕ
  pub wall : ℕ

-- `Instant::now().checked_sub(interval).unwrap_or_else(Instant::now)`
abbrev pub backdated : ℕ → ℕ → ℕ
backdated now interval = if ltb now interval then now else now - interval

module _ {F : Type 0} ⦃f : Float F⦄ where
  -- `none` where the node has not reported that it is loaded.
  unfoldable pub wait_until_mempool_loaded : List (Result MempoolInfo) → Loop F → Option (Loop F)
  unfolding reconnect_on_error
  wait_until_mempool_loaded [] s = none
  wait_until_mempool_loaded (ok info ∷ rest) s =
      let again = wait_until_mempool_loaded rest s in if is_loaded info then some s else again
  wait_until_mempool_loaded (err e ∷ rest) s =
      wait_until_mempool_loaded rest (reconnect_on_error e s)

  unfoldable pub initial_bulk_load : List LoadTurn → Loop F → Option (Loop F)
  unfolding resync apply_bulk_success
  initial_bulk_load [] s = none
  initial_bulk_load (t ∷ rest) s =
      let (loaded, s') = resync t.bulk s in
      let again = initial_bulk_load rest s' in
      elim loaded [
        | none ↦ again
        | some count ↦ some (apply_bulk_success t.wall (record s' { last_bulk_resync = t.now }))
      ]

  -- What `run` does before its loop.
  unfoldable pub startup :
      SyncConfig
      → List (Result MempoolInfo)
      → List LoadTurn
      → ℕ
      → FeeClock
      → Loop F
      → Option (Loop F)
  unfolding wait_until_mempool_loaded initial_bulk_load maybe_recompute_fees
  startup cfg polls turns now clock s = elim (wait_until_mempool_loaded polls s) [
    | none ↦ none
    | some s1 ↦ elim (initial_bulk_load turns s1) [
      | none ↦ none
      | some s2 ↦ some (
          maybe_recompute_fees clock cfg.fee_recompute_min_interval true
            (record s2 { last_fee_recompute = backdated now cfg.fee_recompute_min_interval }))
    ]
  ]

  -- The loop of `run`, for the ticks that happen.
  unfoldable pub ticks : SyncConfig → List TickInput → Loop F → Loop F
  unfolding steady_tick
  ticks cfg [] s = s
  ticks cfg (i ∷ rest) s = ticks cfg rest (steady_tick cfg i s)
