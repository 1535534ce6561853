-- ===== src/Config.antt =====
-- src/config.rs: the configuration from the parsed flags, which the clap crate gives. A path, an
-- address and a text are a list of characters, and a `Duration` is its milliseconds (its seconds for
-- the timeout).
use satya_btc.Common.{ℕ, ◌≤◌, ◌<◌, ◌≡◌, Option, none, some, List, arith, max, saturating_mul64}

pub data RpcAuth : Type 0 where
  cookie : List ℕ → RpcAuth
  user_pass : List ℕ → List ℕ → RpcAuth

pub record RpcConfig : Type 0 where
  pub url : List ℕ
  pub auth : Option RpcAuth
  pub timeout : ℕ

pub record Config : Type 0 where
  rpc : RpcConfig
  http_bind : List ℕ
  pub poll_interval : ℕ
  pub fetch_concurrency : ℕ
  zmq_block : Option (List ℕ)
  pub tick_budget : ℕ
  pub fee_recompute_min_interval : ℕ

pub record Cli : Type 0 where
  pub rpc_url : List ℕ
  pub rpc_cookie_file : Option (List ℕ)
  pub rpc_user : Option (List ℕ)
  pub rpc_pass : Option (List ℕ)
  pub rpc_timeout_secs : ℕ
  pub http_bind : List ℕ
  pub poll_interval_ms : ℕ
  pub fetch_concurrency : ℕ
  pub zmq_block : Option (List ℕ)
  pub tick_budget_ms : Option ℕ
  pub fee_recompute_min_interval_ms : Option ℕ

abbrev unwrap_or : Option ℕ → ℕ → ℕ
unwrap_or none d = d
unwrap_or (some n) d = n

unfoldable pub fee_recompute_interval : Option ℕ → ℕ → ℕ
fee_recompute_interval requested_ms poll_ms = max (unwrap_or requested_ms 5000) poll_ms

-- The match on the three flags.
unfoldable pub resolve_credentials :
    Option (List ℕ) → Option (List ℕ) → Option (List ℕ) → Option RpcAuth
resolve_credentials (some path) user pass = some (cookie path)
resolve_credentials none (some u) (some p) = some (user_pass u p)
resolve_credentials none (some u) none = none
resolve_credentials none none pass = none

-- `Config::from_env`, after the flags are parsed.
unfoldable pub from_cli : Cli → Config
unfolding fee_recompute_interval resolve_credentials
from_cli cli = record {
  rpc = record {
    url = cli.rpc_url;
    auth = resolve_credentials cli.rpc_cookie_file cli.rpc_user cli.rpc_pass;
    timeout = cli.rpc_timeout_secs;
  };
  http_bind = cli.http_bind;
  poll_interval = cli.poll_interval_ms;
  fetch_concurrency = max cli.fetch_concurrency 1;
  zmq_block = cli.zmq_block;
  tick_budget =
      max (unwrap_or cli.tick_budget_ms (saturating_mul64 cli.poll_interval_ms 2))
        cli.poll_interval_ms;
  fee_recompute_min_interval =
      fee_recompute_interval cli.fee_recompute_min_interval_ms cli.poll_interval_ms;
}

-- Whatever the flags, the budget of a tick and the interval of the recomputes are at least the poll
-- interval, and some call may be in flight; a larger budget that is asked for is kept.
pub from_cli_floors :
    (cli : Cli)
    → ((from_cli cli).poll_interval ≤ (from_cli cli).tick_budget)
      × ((from_cli cli).poll_interval ≤ (from_cli cli).fee_recompute_min_interval)
      × (0 < (from_cli cli).fetch_concurrency)
      × ((ms : ℕ)
          → cli.tick_budget_ms ≡ some ms
          → cli.poll_interval_ms ≤ ms
          → (from_cli cli).tick_budget ≡ ms)
unfolding from_cli
from_cli_floors cli =
    (ground arith, ground arith, ground arith, λ ms e l. rw (from_cli, e) (omega arith))
