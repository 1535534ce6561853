-- ===== src/Sync/Run/Backed.antt =====
-- src/sync/mod.rs, `run`: what the cache holds after the startup and any number of ticks.
use satya_btc.Common.{ℕ, ◌≡◌, true, some, List, [], ◌∷◌, All}
use satya_btc.Float.{Float}
use satya_btc.Rpc.{Result, MempoolInfo}
use satya_btc.Mempool.{keys}
use satya_btc.Sync.State.{Loop, SyncConfig, FeeClock}
use satya_btc.Sync.Fetch.Resolved.{IsStream}
use satya_btc.Sync.Tick.{TickInput, steady_tick}
use satya_btc.Sync.Tick.Edges.{IsTracked, steady_tick-IsTracked}
use satya_btc.Sync.Tick.Honest.{IsHonest, steady_tick_honest}
use satya_btc.Sync.Run.{LoadTurn, startup, ticks}
use satya_btc.Sync.Run.Startup.{Served, startup-IsServed}

-- Each tick's stream gives one result for each candidate.
abbrev pub AreStreams : List TickInput → Type 0
AreStreams inputs = All (λ (i : TickInput). IsStream i.results) inputs

module _ {F : Type 0} ⦃f : Float F⦄ where
  -- `B` is what the cache holds before the ticks; after them it is what the last tick reported.
  abbrev pub Backed : (Loop F → Type 0) → List TickInput → Loop F → Type 0
  Backed B [] t = B t
  Backed B (i ∷ rest) t = Backed (IsHonest i.bulk.verbose i.txids i.results) rest t

  ticks-IsTracked :
      (cfg : SyncConfig) (inputs : List TickInput) (s : Loop F)
      → IsTracked s
      → IsTracked (ticks cfg inputs s)
  unfolding ticks
  ticks-IsTracked cfg [] s h = h
  ticks-IsTracked cfg (i ∷ rest) s h =
      ticks-IsTracked cfg rest (steady_tick cfg i s) (steady_tick-IsTracked cfg i s h)

  ticks-Backed :
      (B : Loop F → Type 0) (cfg : SyncConfig) (inputs : List TickInput) (s : Loop F)
      → AreStreams inputs
      → (s.state.caught_up ≡ true → B s)
      → (ticks cfg inputs s).state.caught_up ≡ true
      → Backed B inputs (ticks cfg inputs s)
  unfolding ticks
  ticks-Backed B cfg [] s streams base h = base h
  ticks-Backed B cfg (i ∷ rest) s (stream, streams) base h =
      ticks-Backed (IsHonest i.bulk.verbose i.txids i.results) cfg rest (steady_tick cfg i s)
        streams (steady_tick_honest cfg i s stream) h

  -- From a tracked state, if the startup ends and each stream gives one result for each candidate,
  -- then after any ticks the flag is tracked, with each of its changes logged once; and if it is set,
  -- the cache has what the node reported in the last tick, or in the startup if there was no tick.
  pub run_honest :
      (cfg : SyncConfig) (polls : List (Result MempoolInfo)) (turns : List LoadTurn) (now : ℕ)
      (clock : FeeClock) (inputs : List TickInput) (s t : Loop F)
      → IsTracked s
      → startup cfg polls turns now clock s ≡ some t
      → AreStreams inputs
      → IsTracked (ticks cfg inputs t)
        × ((ticks cfg inputs t).state.caught_up ≡ true
            → Backed (λ u. Served turns (keys u.state.txs)) inputs (ticks cfg inputs t))
  run_honest cfg polls turns now clock inputs s t h e streams =
      let k = startup-IsServed cfg polls turns now clock s t h e in
      (ticks-IsTracked cfg inputs t k.tracked, ticks-Backed _ cfg inputs t streams (λ b. k.served))
