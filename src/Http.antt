-- ===== src/Http.antt =====
-- src/http.rs: the two handlers. Times are seconds since the epoch, and `none` is the 503 answer.
use satya_btc.Common.{
  ℕ, ◌-◌, ◌≡◌, Bool, true, Option, none, some, arith, leb, if◌then◌else◌, length, Option-cases, inl,
  inr,
}
use satya_btc.Float.{Float}
use satya_btc.Fees.Tiers.{FeeEstimate}
use satya_btc.Mempool.{MempoolState, keys}
use satya_btc.Sync.State.{Loop, SyncConfig}
use satya_btc.Sync.Tick.{TickInput, steady_tick}
use satya_btc.Sync.Fetch.Resolved.{IsStream}
use satya_btc.Sync.Tick.Honest.{IsHonest, steady_tick_honest}

pub record Health (F : Type 0) : Type 0 where
  caught_up : Bool
  mempool_size : ℕ
  tip_height : ℕ
  mempool_min_fee_sat_vb : F
  network : ℕ
  last_sync_ok : Option ℕ
  pub age_secs : Option ℕ

module _ {F : Type 0} where
  -- `duration_since` fails if the clock went back.
  unfoldable pub health : ℕ → MempoolState F → Health F
  health now s = record {
    caught_up = s.caught_up;
    mempool_size = length (keys s.txs);
    tip_height = s.tip_height;
    mempool_min_fee_sat_vb = s.mempool_min_fee_sat_vb;
    network = s.network;
    last_sync_ok = s.last_sync_ok;
    age_secs = elim s.last_sync_ok [
      | none ↦ none
      | some t ↦ if leb t now then some (now - t) else none
    ];
  }

  unfoldable pub fees : MempoolState F → Option (FeeEstimate F)
  fees s = elim s.fee_estimate [ none ↦ none | some est ↦ if s.caught_up then some est else none ]

module _ {F : Type 0} ⦃f : Float F⦄ where
  fees_vouched :
      (s : MempoolState F) (est : FeeEstimate F)
      → fees s ≡ some est
      → (s.caught_up ≡ true) × (s.fee_estimate ≡ some est)
  unfolding fees
  fees_vouched s est h = elim (Option-cases s.fee_estimate) [
    | inl e ↦ absurd (ground arith)
    | inr (known, e) ↦ (ground arith, ground arith)
  ]

  -- An estimate that `/fees` serves after a tick is the stored one, and the cache it is served for has
  -- just what the node reported in that tick.
  pub fees_served_honest :
      (cfg : SyncConfig) (i : TickInput) (s : Loop F) (est : FeeEstimate F)
      → IsStream i.results
      → fees (steady_tick cfg i s).state ≡ some est
      → ((steady_tick cfg i s).state.fee_estimate ≡ some est)
        × IsHonest i.bulk.verbose i.txids i.results (steady_tick cfg i s)
  fees_served_honest cfg i s est stream served =
      let (up, known) = fees_vouched (steady_tick cfg i s).state est served in
      (known, steady_tick_honest cfg i s stream up)
