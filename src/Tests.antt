-- ===== src/Tests.antt =====
-- The theorems about src/rpc.rs, src/config.rs and src/main.rs at concrete inputs.
use satya_btc.Common.{ℕ, ◌≤◌, ◌<◌, ◌≡◌, none, some, [], ◌∷◌, ltb, if◌then◌else◌}
use satya_btc.Rpc.{Result, ok, err, auth}
use satya_btc.Rpc.Call.{Response, read_body_bounded}
use satya_btc.Rpc.Call.Bounded.{joined, read_body_bounded_exact}
use satya_btc.Main.{Probe, IsEnd, probe_network, probe_network_ends}
use satya_btc.Config.{Cli, from_cli, from_cli_floors}

abbrev two_chunks : Response
two_chunks = record {
  status = 200;
  content_length = some 3;
  chunks = some (1 ∷ 2 ∷ []) ∷ some (3 ∷ []) ∷ [];
}

read_body_bounded_exact_example :
    (read_body_bounded two_chunks 3 ≡ ok (1 ∷ 2 ∷ 3 ∷ [])
      → (3 ≤ 3) × (joined two_chunks.chunks ≡ some (1 ∷ 2 ∷ 3 ∷ [])))
    × (joined two_chunks.chunks ≡ some (1 ∷ 2 ∷ 3 ∷ [])
        → 3 ≤ 3
        → ((len : ℕ) → two_chunks.content_length ≡ some len → len ≤ 3)
        → read_body_bounded two_chunks 3 ≡ ok (1 ∷ 2 ∷ 3 ∷ []))
read_body_bounded_exact_example = read_body_bounded_exact two_chunks 3 (1 ∷ 2 ∷ 3 ∷ [])

abbrev no_budget : Cli
no_budget = record {
  rpc_url = [];
  rpc_cookie_file = none;
  rpc_user = none;
  rpc_pass = none;
  rpc_timeout_secs = 30;
  http_bind = [];
  poll_interval_ms = 2000;
  fetch_concurrency = 0;
  zmq_block = none;
  tick_budget_ms = some 0;
  fee_recompute_min_interval_ms = none;
}

from_cli_floors_example :
    ((from_cli no_budget).poll_interval ≤ (from_cli no_budget).tick_budget)
    × ((from_cli no_budget).poll_interval ≤ (from_cli no_budget).fee_recompute_min_interval)
    × (0 < (from_cli no_budget).fetch_concurrency)
    × ((ms : ℕ)
        → no_budget.tick_budget_ms ≡ some ms
        → no_budget.poll_interval_ms ≤ ms
        → (from_cli no_budget).tick_budget ≡ ms)
from_cli_floors_example = from_cli_floors no_budget

-- The node refuses the first two attempts.
abbrev late_node : ℕ → Result ℕ
late_node n = if ltb n 3 then err auth else ok 7

probe_network_ends_example :
    (p : Probe ℕ) × (probe_network late_node ≡ some p) × IsEnd late_node 1 p
probe_network_ends_example = probe_network_ends late_node
