-- ===== src/Sync/Run/Tests.antt =====
-- The startup and the ticks of src/sync/mod.rs against a node with one transaction, and the theorems
-- about them at such inputs.
use satya_btc.Common.{ℕ, ◌≡◌, refl, true, false, inl, inr, none, some, List, [], ◌∷◌}
use satya_btc.Common.{◌≤◌, arith, length, All}
use satya_btc.Float.{Scaled, scaled_float}
use satya_btc.Gbt.Audit.{score_of}
use satya_btc.Gbt.Heap.{pop}
use satya_btc.Gbt.Pack.{refresh_descendants, include}
use satya_btc.Rpc.{Result, ok, err, auth, MempoolInfo, is_reconnectable}
use satya_btc.Mempool.{from_entry, keys, compute_diff}
use satya_btc.Gbt.Ancestors.{insert_all}
use satya_btc.Sync.Decision.{is_mass_drop}
use satya_btc.Sync.State.{Loop, FeeClock}
use satya_btc.Sync.Tick.{TickInput, max_new_fetch_per_tick, steady_tick}
use satya_btc.Sync.Tick.Edges.{IsTracked}
use satya_btc.Sync.Tick.Failed.{IsFailed, steady_tick-IsFailed}
use satya_btc.Sync.Run.{LoadTurn, startup, ticks}
use satya_btc.Sync.Run.Startup.{is_some, Served, startup_completes}
use satya_btc.Sync.Run.Backed.{Backed, run_honest}
use satya_btc.Sync.Run.Recovers.{IsPrompt, steady_tick_recovers}
use satya_btc.Sync.Tests.{entry, config, good_tick, first_loop, answer_all-IsStream}

program : Unit {0}
unfolding startup ticks steady_tick pop refresh_descendants score_of include from_entry
    is_reconnectable
program = tt

abbrev clock : FeeClock
clock = record { at = 10; unix = 11; after = 12 }

-- The first turn loses the node, the second loads everything.
abbrev turns : List LoadTurn
turns =
    record {
      bulk = record { verbose = err auth; info = err auth; tip = err auth };
      now = 1;
      wall = 2;
    }
    ∷ record { bulk = good_tick.bulk; now = 3; wall = 4 }
    ∷ []

abbrev polls : List (Result MempoolInfo)
polls =
    ok (record { loaded = some false; mempoolminfee = 1000 })
    ∷ ok (record { loaded = some true; mempoolminfee = 1000 })
    ∷ []

startup_completes_example : is_some (startup config polls turns 20 clock first_loop) ≡ true
startup_completes_example = startup_completes config polls turns 20 clock first_loop

abbrev loaded_loop : Loop Scaled
loaded_loop = record first_loop {
  state = record {
    txs = (7, from_entry entry) ∷ [];
    mempool_min_fee_sat_vb = 1_000_000;
    tip_height = 5;
    network = 0;
    caught_up = true;
    last_sync_ok = some 4;
    fee_estimate = some (record {
      next_block = 1_000_000;
      within_3_blocks = 1_000_000;
      within_6_blocks = 1_000_000;
      horizon = 1_000_000;
      relay_floor = 1_000_000;
      computed_at = 11;
    });
  };
  caught_up_prev = true;
  last_bulk_resync = 3;
  last_fee_recompute = 12;
  transitions = true ∷ [];
  reconnects = 1;
}

startup_run : startup config polls turns 20 clock first_loop ≡ some loaded_loop
unfolding program
startup_run = refl

run_honest_example :
    IsTracked (ticks config (good_tick ∷ []) loaded_loop)
    × ((ticks config (good_tick ∷ []) loaded_loop).state.caught_up ≡ true
        → Backed
            (λ u. Served turns (keys u.state.txs))
            (good_tick ∷ [])
            (ticks config (good_tick ∷ []) loaded_loop))
run_honest_example =
    run_honest config polls turns 20 clock (good_tick ∷ []) first_loop loaded_loop
      (record { flag = refl; alternating = refl }) startup_run (answer_all-IsStream, tt)

abbrev listed : List ℕ
listed = insert_all (7 ∷ []) []

no_drop : is_mass_drop (length (keys first_loop.state.txs)) (length listed) ≡ false
unfolding is_mass_drop
no_drop = refl

few_new : length (compute_diff (keys first_loop.state.txs) listed).new ≤ max_new_fetch_per_tick
unfolding compute_diff
few_new = omega arith

answers-IsPrompt :
    All
      (IsPrompt config.tick_budget)
      (good_tick.results (compute_diff (keys first_loop.state.txs) listed).new)
unfolding compute_diff
answers-IsPrompt = ((omega arith, (some entry, refl)), tt)

steady_tick_recovers_example :
    ((steady_tick config good_tick first_loop).state.caught_up ≡ true)
    × ((steady_tick config good_tick first_loop).state.last_sync_ok ≡ some 3)
    × ((steady_tick config good_tick first_loop).state.tip_height ≡ 5)
steady_tick_recovers_example =
    steady_tick_recovers config good_tick first_loop
      (record { loaded = none; mempoolminfee = 1000 }) (7 ∷ []) 5 refl refl refl refl no_drop
      answer_all-IsStream few_new answers-IsPrompt

abbrev refused_tick : TickInput
refused_tick = record good_tick { txids = err auth }

steady_tick-IsFailed_example : IsFailed auth first_loop (steady_tick config refused_tick first_loop)
steady_tick-IsFailed_example =
    steady_tick-IsFailed config refused_tick first_loop auth
      (inr (inl (record { loaded = none; mempoolminfee = 1000 }, refl, refl)))
