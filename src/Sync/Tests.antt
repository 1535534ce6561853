-- ===== src/Sync/Tests.antt =====
-- Ticks of the loop of src/sync/mod.rs against a node with one transaction, and the theorems about the
-- loop, the cache and the handler at such inputs.
use satya_btc.Common.{
  ℕ, suc, ◌*◌, ◌≤◌, ◌<◌, ◌≡◌, ◌↔◌, refl, ap, true, false, ◌||◌, none, some, List, [], ◌∷◌, arith,
  length, take, contains, u32_mod,
}
use satya_btc.Float.{Scaled, scaled_float}
use satya_btc.Gbt.Audit.{score_of}
use satya_btc.Gbt.Heap.{pop}
use satya_btc.Gbt.Pack.{refresh_descendants, include}
use satya_btc.Fees.Tiers.{FeeEstimate}
use satya_btc.Rpc.{ok, err, auth, MempoolEntry, is_reconnectable}
use satya_btc.Mempool.{from_entry, new_state, keys, insert_pairs, remove_all, compute_diff}
use satya_btc.Mempool.Reconcile.{from_entry_bounds, compute_diff_reconciles}
use satya_btc.Sync.Decision.{is_mass_drop, is_mass_drop_iff}
use satya_btc.Sync.State.{Loop, SyncConfig}
use satya_btc.Sync.Fetch.{Arrival, fetch_new_entries}
use satya_btc.Sync.Fetch.Resolved.{IsStream, txids_of, vanished, fetch_new_entries_resolves}
use satya_btc.Sync.Tick.{TickInput, steady_tick}
use satya_btc.Sync.Tick.Edges.{IsTracked, steady_tick-IsTracked}
use satya_btc.Sync.Tick.Honest.{IsHonest, steady_tick_honest}
use satya_btc.Http.{fees, fees_served_honest}

program : Unit {0}
unfolding steady_tick fees new_state pop refresh_descendants score_of include from_entry
    is_reconnectable
program = tt

abbrev pub entry : MempoolEntry
entry = record {
  vsize = 140;
  weight = some 560;
  depends = [];
  fees = record { base = 1400; ancestor = 1400; descendant = 1400 };
  ancestorsize = 140;
  descendantsize = 140;
  time = none;
}

-- Every fetch succeeds, in order.
abbrev pub answer_all : List ℕ → List Arrival
answer_all [] = []
answer_all (c ∷ rest) =
    record { txid = c; answer = ok (some entry); elapsed = 1; ready = true } ∷ answer_all rest

length-answer_all : (cs : List ℕ) → length (answer_all cs) ≡ length cs
length-answer_all [] = refl
length-answer_all (c ∷ rest) = ap suc (length-answer_all rest)

txids_of-answer_all : (cs : List ℕ) (v : ℕ) → contains (txids_of (answer_all cs)) v ≡ contains cs v
txids_of-answer_all [] v = refl
txids_of-answer_all (c ∷ rest) v = ground (arith, txids_of-answer_all rest v)

pub answer_all-IsStream : IsStream answer_all
answer_all-IsStream = record { size = length-answer_all; each = txids_of-answer_all }

abbrev pub config : SyncConfig
config = record { fetch_concurrency = 10; tick_budget = 100; fee_recompute_min_interval = 5 }

abbrev pub good_tick : TickInput
good_tick = record {
  info = ok (record { loaded = none; mempoolminfee = 1000 });
  txids = ok (7 ∷ []);
  bulk = record {
    verbose = ok ((7, entry) ∷ []);
    info = ok (record { loaded = some true; mempoolminfee = 1000 });
    tip = ok 5;
  };
  results = answer_all;
  tip = ok 5;
  decide_at = 1;
  stamp = 2;
  wall = 3;
  fees = record { at = 10; unix = 11; after = 12 };
}

abbrev pub first_loop : Loop Scaled
first_loop = record {
  state = record {
    txs = [];
    mempool_min_fee_sat_vb = 0;
    tip_height = 0;
    network = 0;
    caught_up = false;
    last_sync_ok = none;
    fee_estimate = none;
  };
  caught_up_prev = false;
  last_bulk_resync = 0;
  last_fee_recompute = 0;
  transitions = [];
  reconnects = 0;
}

abbrev floor_estimate : FeeEstimate Scaled
floor_estimate = record {
  next_block = 1_000_000;
  within_3_blocks = 1_000_000;
  within_6_blocks = 1_000_000;
  horizon = 1_000_000;
  relay_floor = 1_000_000;
  computed_at = 11;
}

good_tick_run : (steady_tick config good_tick first_loop).state.caught_up ≡ true
unfolding program
good_tick_run = refl

good_tick_logs : (steady_tick config good_tick first_loop).transitions ≡ true ∷ []
unfolding program
good_tick_logs = refl

good_tick_serves : fees (steady_tick config good_tick first_loop).state ≡ some floor_estimate
unfolding program
good_tick_serves = refl

-- An authentication error reconnects and logs the loss of the node once.
failed_tick_run :
    (steady_tick config
      (record good_tick { info = err auth })
      (steady_tick config good_tick first_loop)).reconnects
    ≡ 1
unfolding program
failed_tick_run = refl

steady_tick_honest_example :
    IsHonest good_tick.bulk.verbose good_tick.txids answer_all
      (steady_tick config good_tick first_loop)
steady_tick_honest_example =
    steady_tick_honest config good_tick first_loop answer_all-IsStream good_tick_run

fees_served_honest_example :
    ((steady_tick config good_tick first_loop).state.fee_estimate ≡ some floor_estimate)
    × IsHonest good_tick.bulk.verbose good_tick.txids answer_all
        (steady_tick config good_tick first_loop)
fees_served_honest_example =
    fees_served_honest config good_tick first_loop floor_estimate answer_all-IsStream
      good_tick_serves

steady_tick-IsTracked_example : IsTracked (steady_tick config good_tick first_loop)
steady_tick-IsTracked_example =
    steady_tick-IsTracked config good_tick first_loop (record { flag = refl; alternating = refl })

fetch_new_entries_resolves_example :
    ((v : ℕ)
      → contains (keys (fetch_new_entries answer_all (7 ∷ 8 ∷ []) 100 1).fetched) v ≡ true
      → contains (take 1 (7 ∷ 8 ∷ [])) v ≡ true)
    × ((fetch_new_entries answer_all (7 ∷ 8 ∷ []) 100 1).fetch_errors ≡ 0
        → (fetch_new_entries answer_all (7 ∷ 8 ∷ []) 100 1).incomplete ≡ false
        → (v : ℕ) → contains (take 1 (7 ∷ 8 ∷ [])) v ≡ true
        → (contains (keys (fetch_new_entries answer_all (7 ∷ 8 ∷ []) 100 1).fetched) v
            || vanished v (answer_all (take 1 (7 ∷ 8 ∷ []))))
          ≡ true)
fetch_new_entries_resolves_example =
    fetch_new_entries_resolves answer_all (7 ∷ 8 ∷ []) 100 1 answer_all-IsStream

abbrev fetched_pairs : List (ℕ × ℕ)
fetched_pairs = (2, 20) ∷ []

abbrev cached_pairs : List (ℕ × ℕ)
cached_pairs = (1, 10) ∷ []

diff_agrees :
    contains (keys fetched_pairs) 2 ≡ contains (compute_diff (keys cached_pairs) (2 ∷ [])).new 2
unfolding compute_diff
diff_agrees = refl

compute_diff_reconciles_example :
    contains
      (keys (
        insert_pairs fetched_pairs
          (remove_all (compute_diff (keys cached_pairs) (2 ∷ [])).gone cached_pairs)))
      2
    ≡ contains (2 ∷ []) 2
compute_diff_reconciles_example =
    compute_diff_reconciles cached_pairs fetched_pairs (2 ∷ []) 2 diff_agrees

from_entry_bounds_example :
    ((from_entry entry).vsize < u32_mod)
    × ((from_entry entry).weight < u32_mod)
    × ((from_entry entry).ancestor_vsize < u32_mod)
    × ((from_entry entry).descendant_vsize < u32_mod)
    × ((w : ℕ) → entry.weight ≡ some w → w < u32_mod → (from_entry entry).weight ≡ w)
    × (entry.weight ≡ none
        → entry.vsize * 4 < u32_mod
        → (from_entry entry).weight ≡ entry.vsize * 4)
from_entry_bounds_example = from_entry_bounds entry

is_mass_drop_iff_example : (is_mass_drop 1000 50 ≡ true) ↔ ((100 ≤ 1000) × (50 * 5 < 1000))
is_mass_drop_iff_example = is_mass_drop_iff 1000 50 (omega arith)
