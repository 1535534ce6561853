-- ===== src/Sync/Tick/Failed.antt =====
-- src/sync/mod.rs: what is left of a tick whose first calls or whose bulk resync fail.
use satya_btc.Common.{
  ℕ, ◌+◌, ◌≡◌, ◌⊎◌, inl, inr, refl, false, Option, none, some, List, [], arith, if◌then◌else◌,
}
use satya_btc.Float.{Float}
use satya_btc.Gbt.Ancestors.{insert_all}
use satya_btc.Rpc.{RpcError, Result, ok, err, MempoolInfo, MempoolEntry, is_reconnectable}
use satya_btc.Sync.Decision.{bulk_resync}
use satya_btc.Sync.State.{Loop, SyncConfig, reconnect_on_error, set_synced}
use satya_btc.Sync.Tick.{TickInput, BulkAnswers, resync, resync_tick, decision, act_on, steady_tick}

-- The first call of a bulk resync that fails.
abbrev pub resync_error : BulkAnswers → Option RpcError
resync_error a = elim a.verbose [
  | err e ↦ some e
  | ok entries ↦ elim a.info [
    | err e ↦ some e
    | ok info ↦ elim a.tip [ err e ↦ some e | ok h ↦ none ]
  ]
]

module _ {F : Type 0} ⦃f : Float F⦄ where
  -- The call of a tick that fails with `e`: the first one, the listing, or one of a bulk resync.
  abbrev pub FailsWith : RpcError → TickInput → Loop F → Type 0
  FailsWith e i s =
      (i.info ≡ err e)
      ⊎ ((info : MempoolInfo) × (i.info ≡ ok info) × (i.txids ≡ err e))
      ⊎ ((info : MempoolInfo) × (txids : List ℕ) × (reason : _) × (i.info ≡ ok info)
          × (i.txids ≡ ok txids)
          × (decision i info (insert_all txids []) s ≡ some (bulk_resync reason))
          × (resync_error i.bulk ≡ some e))

  -- The cache and the estimate stand as they were, but are marked as out of sync.
  pub record IsFailed (e : RpcError) (s t : Loop F) : Type 0 where
    pub caught_up : t.state.caught_up ≡ false
    pub same_txs : t.state.txs ≡ s.state.txs
    pub same_estimate : t.state.fee_estimate ≡ s.state.fee_estimate
    pub same_sync_ok : t.state.last_sync_ok ≡ s.state.last_sync_ok
    pub reconnects : t.reconnects ≡ s.reconnects + (if is_reconnectable e then 1 else 0)

  reconnect-IsFailed :
      (e : RpcError) (s : Loop F) → IsFailed e s (set_synced false (reconnect_on_error e s))
  unfolding set_synced reconnect_on_error
  reconnect-IsFailed e s = record {
    caught_up = ground arith;
    same_txs = ground arith;
    same_estimate = ground arith;
    same_sync_ok = ground arith;
    reconnects = ground arith;
  }

  failed_resync :
      (a : BulkAnswers) (s : Loop F) (e : RpcError)
      → resync_error a ≡ some e
      → ((resync a s).0 ≡ none) × ((resync a s).1 ≡ reconnect_on_error e s)
  unfolding resync
  failed_resync a s e = go a.verbose a.info a.tip refl refl refl
    where
      go :
          (r1 : Result (List (ℕ × MempoolEntry))) (r2 : Result MempoolInfo) (r3 : Result ℕ)
          → a.verbose ≡ r1
          → a.info ≡ r2
          → a.tip ≡ r3
          → resync_error a ≡ some e
          → ((resync a s).0 ≡ none) × ((resync a s).1 ≡ reconnect_on_error e s)
      go (err x) r2 r3 e1 e2 e3 h = (ground arith, ground arith)
      go (ok entries) (err x) r3 e1 e2 e3 h = (ground arith, ground arith)
      go (ok entries) (ok info) (err x) e1 e2 e3 h = (ground arith, ground arith)
      go (ok entries) (ok info) (ok height) e1 e2 e3 h = absurd (ground arith)

  resync_tick-IsFailed :
      (cfg : SyncConfig) (i : TickInput) (s : Loop F) (e : RpcError)
      → resync_error i.bulk ≡ some e
      → IsFailed e s (resync_tick cfg i s)
  unfolding resync_tick
  resync_tick-IsFailed cfg i s e h =
      let begun : Loop F = record s { last_bulk_resync = i.stamp } in
      let (nothing, left) = failed_resync i.bulk begun e h in
      let k = reconnect-IsFailed e begun in
      rw (resync_tick, nothing, left)
        (record {
          caught_up = k.caught_up;
          same_txs = k.same_txs;
          same_estimate = k.same_estimate;
          same_sync_ok = k.same_sync_ok;
          reconnects = k.reconnects;
        })

  -- A tick that fails at the mempool info, at the listing or, where it resyncs, at a call of the bulk
  -- resync, clears the flag, keeps the cache, the estimate and the time of the last sync, and reconnects
  -- once if the error is one that a reconnect can mend, and otherwise not.
  pub steady_tick-IsFailed :
      (cfg : SyncConfig) (i : TickInput) (s : Loop F) (e : RpcError)
      → FailsWith e i s
      → IsFailed e s (steady_tick cfg i s)
  unfolding steady_tick act_on
  steady_tick-IsFailed cfg i s e (inl h) = rw (steady_tick, h) (reconnect-IsFailed e s)
  steady_tick-IsFailed cfg i s e (inr (inl (info, h1, h2))) =
      rw (steady_tick, h1, h2) (reconnect-IsFailed e s)
  steady_tick-IsFailed cfg i s e (inr (inr (info, txids, reason, h1, h2, h3, h4))) =
      rw (steady_tick, h1, h2, act_on, h3) (resync_tick-IsFailed cfg i s e h4)
