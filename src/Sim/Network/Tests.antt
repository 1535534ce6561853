-- ===== src/Sim/Network/Tests.antt =====
-- The network of src/sim/network.rs before a node that counts its transactions, with a generator that
-- counts its draws, and the theorems about it at such inputs.
use satya_btc.Common.{ℕ, suc, ◌*◌, ◌≤◌, ◌≡◌, refl, true, none, some, List, [], ◌∷◌, arith}
use satya_btc.Float.{Scaled, scaled_float, scaled_laws}
use satya_btc.Rpc.{MempoolRpc, ok}
use satya_btc.Sim.Random.{Draw}
use satya_btc.Sim.Network.{
  SimulatedRpc, new_limiter, local_node, getblock_remote, check_rate_limit, mempool_info,
  raw_mempool_txids, raw_mempool_verbose, mempool_entry, tip_height,
}
use satya_btc.Sim.Network.Budget.{admitted, in_second, check_rate_limit_bound}
use satya_btc.Sim.Network.Answers.{IsFaithful, simulated-IsFaithful, local_node_transparent}

instance abbrev counter : Draw ℕ Scaled
counter = record { gen = λ r. (r, suc r) }

instance abbrev height_node : MempoolRpc ℕ
height_node = record {
  mempool_info = λ n. ok (record { loaded = some true; mempoolminfee = 1000 });
  raw_mempool_txids = λ n. ok (1 ∷ []);
  raw_mempool_verbose = λ n. ok [];
  mempool_entry = λ n txid. ok none;
  tip_height = λ n. ok n;
  reconnect = λ n. (true, n);
}

-- Four calls in the first second, of which two are let through, and one in the next.
abbrev calls : List ℕ
calls = 1 ∷ 2 ∷ 3 ∷ 4 ∷ 1_000_000_001 ∷ []

first_calls : admitted 2 (new_limiter 0) calls ≡ 1 ∷ 2 ∷ 1_000_000_001 ∷ []
unfolding admitted check_rate_limit
first_calls = refl

check_rate_limit_bound_example : in_second 2 (admitted 2 (new_limiter 0) calls) ≤ 2 * 2
check_rate_limit_bound_example =
    check_rate_limit_bound 2 0 2 calls
      (omega arith, (omega arith, (omega arith, (omega arith, (omega arith, tt)))))

abbrev remote : SimulatedRpc ℕ ℕ Scaled
remote = record {
  inner = 800_000;
  profile = getblock_remote;
  shared = record { limiter = new_limiter 0; rng = 0 };
}

simulated-IsFaithful_example : IsFaithful 5 remote
simulated-IsFaithful_example = simulated-IsFaithful 5 remote

abbrev near : SimulatedRpc ℕ ℕ Scaled
near = record remote { profile = local_node }

local_node_transparent_example :
    ((mempool_info 5 near).0 ≡ height_node.mempool_info 800_000)
    × ((raw_mempool_txids 5 near).0 ≡ height_node.raw_mempool_txids 800_000)
    × ((raw_mempool_verbose 5 near).0 ≡ height_node.raw_mempool_verbose 800_000)
    × ((mempool_entry 9 5 near).0 ≡ height_node.mempool_entry 800_000 9)
    × ((tip_height 5 near).0 ≡ height_node.tip_height 800_000)
local_node_transparent_example = local_node_transparent 5 9 near scaled_laws refl
