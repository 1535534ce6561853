-- ===== src/Sim/Server/Tests.antt =====
-- The client of src/rpc.rs before the server of src/sim/server.rs, at a node with one transaction. The
-- bytes of an envelope are a number for its kind, and the parser gives the envelope of that number.
use satya_btc.Common.{ℕ, ◌≡◌, refl, true, false, Option, none, some, List, [], ◌∷◌, arith}
use satya_btc.Common.{◌==◌, if◌then◌else◌}
use satya_btc.Float.{Scaled, scaled_float, scaled_laws, Ge}
use satya_btc.Rpc.{negsuc, ok, MempoolInfo, MempoolEntry}
use satya_btc.Rpc.Call.{RpcResponse}
use satya_btc.Rpc.Client.{
  Rpc, no_auth, Parsers, BlockchainInfo, tip_height, mempool_info, raw_mempool_txids,
  raw_mempool_verbose, fetch_entry,
}
use satya_btc.Sim.Server.{
  ServerState, Value, null, blockchain_info, info, entries, txids, entry, text_codes,
  ticks_per_block,
}
use satya_btc.Sim.Node.Truthful.Steps.{IsTruthful}
use satya_btc.Sim.Node.{MockNode}
use satya_btc.Sim.Server.Flags.{SimServeArgs, default_args}
use satya_btc.Sim.Server.Serves.{served, run_cli_serves}
use satya_btc.Sim.Node.Tests.{count-IsFresh, count_ranges, count_draws, plain_casts}
use satya_btc.Sim.Server.Blocks.{turns, churn_mines_on_time}
use satya_btc.Common.{suc, ◌+◌, ◌≤◌, ◌<◌, ◌*◌}
use satya_btc.Sim.Server.Client.{sent, success, failure, IsJson, AreSent, client_reads_node}

-- `ticks_per_block_maps_interval_to_churn_ticks`
every_15 : ticks_per_block 30 2 ≡ 15
unfolding ticks_per_block
every_15 = refl

abbrev held : MempoolEntry
held = record {
  vsize = 140;
  weight = some 560;
  depends = [];
  fees = record { base = 1400; ancestor = 1400; descendant = 1400 };
  ancestorsize = 140;
  descendantsize = 140;
  time = some 5;
}

abbrev shown : MempoolEntry
shown = record held { time = none }

abbrev server : ServerState ℕ Scaled
server = record {
  node = record {
    txs = (7, held) ∷ [];
    children = [];
    tip_height = 800_000;
    min_fee = 1000;
    reloading = false;
    rng = 0;
    cfg = record {
      arrivals_per_tick = 1;
      evictions_per_tick = 1;
      fee = record { min_sat_vb = 1; max_sat_vb = 2; skew = 1_000_000 };
      cpfp_fraction = 0;
      max_chain = 1;
    };
    hash = λ ks. 0;
    panicked = false;
  };
  limiter = record { window_start = 0; count = 0 };
  profile = record { latency = 0; req_per_sec = none; body_cap = none; drop_rate = 0 };
}

abbrev tag_of : Value → ℕ
tag_of null = 0
tag_of (blockchain_info h) = 1
tag_of (info loaded fee) = 2
tag_of (txids ids) = 3
tag_of (entries es) = 4
tag_of (entry e) = 5

abbrev tagged : RpcResponse Value → List ℕ
tagged env = tag_of env.result ∷ []

abbrev by_tag : ℕ → RpcResponse Value
by_tag tag =
    if tag == 1
    then success (blockchain_info 800_000)
    else if tag == 2
    then success (info true 1000)
    else if tag == 3
    then success (txids (7 ∷ []))
    else if tag == 4
    then success (entries ((7, shown) ∷ []))
    else failure (negsuc 4) (text_codes "Transaction not in mempool")

abbrev untagged : List ℕ → Option (RpcResponse Value)
untagged [] = none
untagged (tag ∷ rest) = some (by_tag tag)

abbrev as_chain : Value → Option (BlockchainInfo ℕ)
as_chain (blockchain_info h) = some (record { chain = 0; blocks = h })
as_chain _ = none

abbrev as_info : Value → Option MempoolInfo
as_info (info loaded fee) = some (record { loaded = some loaded; mempoolminfee = fee })
as_info _ = none

abbrev as_txids : Value → Option (List ℕ)
as_txids (txids ids) = some ids
as_txids _ = none

abbrev as_entries : Value → Option (List (ℕ × MempoolEntry))
as_entries (entries es) = some es
as_entries _ = none

abbrev as_entry : Value → Option MempoolEntry
as_entry (entry e) = some e
as_entry _ = none

abbrev readers : Parsers Value ℕ
readers = record {
  from_slice = untagged;
  lossy = λ bytes. bytes;
  blockchain_info = as_chain;
  info = as_info;
  txids = as_txids;
  entries = as_entries;
  entry = as_entry;
}

readers-IsJson : IsJson readers 0
readers-IsJson = record {
  chain = λ h. refl;
  info = λ loaded fee. refl;
  txids = λ ids. refl;
  entries = λ es. refl;
  entry = λ e. refl;
}

abbrev client : Rpc ℕ
client = record {
  http = 0;
  url = [];
  auth = no_auth;
  cfg = record { url = []; auth = none; timeout = 30 };
}

all_sent : AreSent readers 0 tagged readers-IsJson client 1 server 9
all_sent = record {
  tip = record { parsed = refl; fits = omega arith };
  info = record { parsed = refl; fits = omega arith };
  ids = record { parsed = refl; fits = omega arith };
  all = record { parsed = refl; fits = omega arith };
  one = record { parsed = refl; fits = omega arith };
}

client_reads_node_example :
    (tip_height readers (sent tagged 1 server) client ≡ ok 800_000)
    × (mempool_info readers (sent tagged 1 server) client
        ≡ ok (record { loaded = some true; mempoolminfee = 1000 }))
    × (raw_mempool_txids readers (sent tagged 1 server) client ≡ ok (7 ∷ []))
    × (raw_mempool_verbose readers (sent tagged 1 server) client ≡ ok ((7, shown) ∷ []))
    × (fetch_entry readers (sent tagged 1 server) client 9 ≡ ok none)
client_reads_node_example =
    client_reads_node readers 0 tagged readers-IsJson client 1 server 9 refl all_sent

abbrev after_seven : MockNode ℕ Scaled
after_seven = (turns 7 (ticks_per_block 6 2) 2 (record { tick = 0; blocks = 0 }, server.node)).1

churn_mines_on_time_example :
    (mined : ℕ) × (after_seven.tip_height ≡ server.node.tip_height + mined)
    × (mined * ticks_per_block 6 2 ≤ 7)
    × (7 < suc mined * ticks_per_block 6 2)
churn_mines_on_time_example =
    churn_mines_on_time 6 2 2 7 server.node (omega arith) (omega arith) (omega arith)

-- The flags by default, but for a small mempool, blocks every six seconds and values out of range.
abbrev odd_flags : SimServeArgs Scaled
odd_flags = record default_args {
  size = 2;
  arrivals = 1;
  evictions = 1;
  block_secs = 6;
  reload_every = 1;
  cpfp_fraction = 2_000_000;
  max_chain = 0;
  fee_skew = 0;
}

abbrev served_odd : MockNode ℕ Scaled
served_odd = served 0 (λ ks. 1) 0 odd_flags 3

run_cli_serves_example :
    IsTruthful count-IsFresh 500 5 (served_odd)
    × ((served_odd).cfg.max_chain ≡ 1)
    × Ge {F = Scaled} (served_odd).cfg.cpfp_fraction 0
    × Ge {F = Scaled} 1_000_000 (served_odd).cfg.cpfp_fraction
    × Ge {F = Scaled} (served_odd).cfg.fee.skew 100_000
run_cli_serves_example =
    run_cli_serves count-IsFresh scaled_laws 0 (λ ks. 1) 0 odd_flags 3 (omega arith, omega arith)
