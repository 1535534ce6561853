-- ===== src/Sync/Run/Startup.antt =====
-- src/sync/mod.rs, `run`: when the startup ends, and what the cache holds from then on.
use satya_btc.Common.{
  ℕ, ◌≡◌, refl, ◌∙◌, subst, Bool, true, false, ◌&&◌, ◌||◌, ◌⊎◌, inl, inr, Option, none, some, List,
  [], ◌∷◌, arith, Bool-cases, Option-cases,
}
use satya_btc.Float.{Float}
use satya_btc.Rpc.{Result, ok, err, MempoolInfo, MempoolEntry}
use satya_btc.Mempool.{keys}
use satya_btc.Sync.State.{
  Loop, SyncConfig, FeeClock, reconnect_on_error, set_last_sync_ok, apply_bulk_success,
  maybe_recompute_fees,
}
use satya_btc.Sync.Tick.{BulkAnswers, is_loaded, resync}
use satya_btc.Sync.Tick.Edges.{
  IsTracked, set_synced_lem, set_synced-IsTracked, reconnect-IsQuiet, quiet-IsTracked,
  resync-IsTracked, fees-IsQuiet,
}
use satya_btc.Sync.Tick.Mirror.{IsMirror, loaded-IsMirror}
use satya_btc.Sync.Tick.Honest.{resync_loads}
use satya_btc.Sync.Run.{LoadTurn, wait_until_mempool_loaded, initial_bulk_load, backdated, startup}

abbrev pub is_some : {A : Type 0} → Option A → Bool
is_some none = false
is_some (some a) = true

-- Some poll reports a loaded mempool.
abbrev pub any_loaded : List (Result MempoolInfo) → Bool
any_loaded [] = false
any_loaded (ok info ∷ rest) = is_loaded info || any_loaded rest
any_loaded (err e ∷ rest) = any_loaded rest

abbrev is_ok : {A : Type 0} → Result A → Bool
is_ok (ok a) = true
is_ok (err e) = false

-- Some turn has all three of its calls answered.
abbrev pub any_whole : List LoadTurn → Bool
any_whole [] = false
any_whole (t ∷ rest) =
    (is_ok t.bulk.verbose && (is_ok t.bulk.info && is_ok t.bulk.tip)) || any_whole rest

-- The download of a turn is what the keys mirror.
abbrev pub ServedBy : LoadTurn → List ℕ → Type 0
ServedBy t m =
    (entries : List (ℕ × MempoolEntry)) × (t.bulk.verbose ≡ ok entries)
    × IsMirror m (keys entries) []

-- One of the downloads is.
abbrev pub Served : List LoadTurn → List ℕ → Type 0
Served [] m = ⊥
Served (t ∷ rest) m = ServedBy t m ⊎ Served rest m

module _ {F : Type 0} ⦃f : Float F⦄ where
  wait_iff :
      (polls : List (Result MempoolInfo)) (s : Loop F)
      → is_some (wait_until_mempool_loaded polls s) ≡ any_loaded polls
  unfolding wait_until_mempool_loaded
  wait_iff [] s = refl
  wait_iff (ok info ∷ rest) s = ground (arith, wait_iff rest s)
  wait_iff (err e ∷ rest) s = wait_iff rest (reconnect_on_error e s)

  resync_iff :
      (a : BulkAnswers) (s : Loop F)
      → is_some (resync a s).0 ≡ (is_ok a.verbose && (is_ok a.info && is_ok a.tip))
  unfolding resync
  resync_iff a s = go a.verbose a.info a.tip refl refl refl
    where
      go :
          (r1 : Result (List (ℕ × MempoolEntry))) (r2 : Result MempoolInfo) (r3 : Result ℕ)
          → a.verbose ≡ r1
          → a.info ≡ r2
          → a.tip ≡ r3
          → is_some (resync a s).0 ≡ (is_ok a.verbose && (is_ok a.info && is_ok a.tip))
      go (err e) r2 r3 e1 e2 e3 = ground arith
      go (ok entries) (err e) r3 e1 e2 e3 = ground arith
      go (ok entries) (ok info) (err e) e1 e2 e3 = ground arith
      go (ok entries) (ok info) (ok height) e1 e2 e3 = ground arith

  load_iff :
      (turns : List LoadTurn) (s : Loop F) → is_some (initial_bulk_load turns s) ≡ any_whole turns
  unfolding initial_bulk_load
  load_iff [] s = refl
  load_iff (t ∷ rest) s = ground (arith, resync_iff t.bulk s, load_iff rest (resync t.bulk s).1)

  -- The startup ends exactly if some poll reports a loaded mempool, and some turn of the load has all
  -- of its calls answered.
  pub startup_completes :
      (cfg : SyncConfig) (polls : List (Result MempoolInfo)) (turns : List LoadTurn) (now : ℕ)
      (clock : FeeClock) (s : Loop F)
      → is_some (startup cfg polls turns now clock s) ≡ (any_loaded polls && any_whole turns)
  unfolding startup
  startup_completes cfg polls turns now clock s =
      elim (Option-cases (wait_until_mempool_loaded polls s)) [
        | inl e ↦ ground (arith, wait_iff polls s)
        | inr (s1, e) ↦ ground (arith, wait_iff polls s, load_iff turns s1)
      ]

  -- What a load leaves behind.
  pub record IsServed (S : List ℕ → Type 0) (t : Loop F) : Type 0 where
    pub tracked : IsTracked t
    pub synced : t.state.caught_up ≡ true
    pub served : S (keys t.state.txs)

  loaded-IsServed :
      (turn : LoadTurn) (s : Loop F) (count : ℕ)
      → (resync turn.bulk s).0 ≡ some count
      → IsTracked s
      → IsServed (ServedBy turn) (
          apply_bulk_success turn.wall
            (record (resync turn.bulk s).1 { last_bulk_resync = turn.now }))
  unfolding apply_bulk_success set_last_sync_ok
  loaded-IsServed turn s count e h =
      let after : Loop F = record (resync turn.bulk s).1 { last_bulk_resync = turn.now } in
      let k = resync-IsTracked turn.bulk s h in
      let flags =
        set_synced-IsTracked true after (record { flag = k.flag; alternating = k.alternating }) in
      let w = set_synced_lem true after in
      let (entries, e1, same) = resync_loads turn.bulk s count e in
      record {
        tracked = record { flag = flags.flag; alternating = flags.alternating };
        synced = w.caught_up;
        served = (entries, e1, loaded-IsMirror entries _ (w.same_txs ∙ same));
      }

  load-IsServed :
      (turns : List LoadTurn) (s t : Loop F)
      → IsTracked s
      → initial_bulk_load turns s ≡ some t
      → IsServed (Served turns) t
  unfolding initial_bulk_load
  load-IsServed [] s t h e = absurd (ground arith)
  load-IsServed (turn ∷ rest) s t h e =
      go (resync turn.bulk s).0 refl
        (load-IsServed rest (resync turn.bulk s).1 t (resync-IsTracked turn.bulk s h))
    where
      go :
          (r : Option ℕ)
          → (resync turn.bulk s).0 ≡ r
          → (initial_bulk_load rest (resync turn.bulk s).1 ≡ some t → IsServed (Served rest) t)
          → IsServed (Served (turn ∷ rest)) t
      go none e1 again =
          let k = again (ground arith) in
          record { tracked = k.tracked; synced = k.synced; served = inr k.served }
      go (some count) e1 again =
          let here : apply_bulk_success turn.wall
                (record (resync turn.bulk s).1 { last_bulk_resync = turn.now })
              ≡ t =
            ground arith in
          let k = loaded-IsServed turn s count e1 h in
          subst (IsServed (Served (turn ∷ rest))) here
            (record { tracked = k.tracked; synced = k.synced; served = inl k.served })

  wait-IsTracked :
      (polls : List (Result MempoolInfo)) (s t : Loop F)
      → IsTracked s
      → wait_until_mempool_loaded polls s ≡ some t
      → IsTracked t
  unfolding wait_until_mempool_loaded
  wait-IsTracked [] s t h e = absurd (ground arith)
  wait-IsTracked (ok info ∷ rest) s t h e = elim (Bool-cases (is_loaded info)) [
    | inl e1 ↦ let same : s ≡ t = ground arith in subst IsTracked same h
    | inr e1 ↦ wait-IsTracked rest s t h (ground arith)
  ]
  wait-IsTracked (err x ∷ rest) s t h e =
      wait-IsTracked rest _ t (quiet-IsTracked s _ (reconnect-IsQuiet x s) h) e

  pub startup-IsServed :
      (cfg : SyncConfig) (polls : List (Result MempoolInfo)) (turns : List LoadTurn) (now : ℕ)
      (clock : FeeClock) (s t : Loop F)
      → IsTracked s
      → startup cfg polls turns now clock s ≡ some t
      → IsServed (Served turns) t
  unfolding startup
  startup-IsServed cfg polls turns now clock s t h e =
      elim (Option-cases (wait_until_mempool_loaded polls s)) [
        | inl e1 ↦ absurd (ground arith)
        | inr (s1, e1) ↦ elim (Option-cases (initial_bulk_load turns s1)) [
          | inl e2 ↦ absurd (ground arith)
          | inr (s2, e2) ↦
              let k = load-IsServed turns s1 s2 (wait-IsTracked polls s s1 h e1) e2 in
              let begun : Loop F = record s2 {
                last_fee_recompute = backdated now cfg.fee_recompute_min_interval;
              } in
              let q = fees-IsQuiet clock cfg.fee_recompute_min_interval true begun in
              let here : maybe_recompute_fees clock cfg.fee_recompute_min_interval true begun ≡ t =
                ground arith in
              subst (IsServed (Served turns)) here (record {
                tracked =
                    quiet-IsTracked begun _ q
                      (record { flag = k.tracked.flag; alternating = k.tracked.alternating });
                synced = q.caught_up ∙ k.synced;
                served = rw q.same_txs k.served;
              })
        ]
      ]
