-- ===== src/Lib.antt =====
-- Verification of satya-btc: the fee projection of src/gbt.rs and src/fees.rs, the mempool cache of
-- src/mempool.rs, the loop of src/sync that keeps the cache equal to a node's mempool, the client of
-- src/rpc.rs, the listener of src/zmq.rs, the handlers of src/http.rs that serve the result, and the
-- simulated node and network of src/sim.
--
-- How the program works. The loop asks the node for its list of transactions on each tick, removes what
-- is gone, fetches what is new, and marks the cache as caught up where nothing is left over; when the
-- node reloads or drops most of its mempool it downloads everything. From the cache the fee recompute
-- makes a snapshot, `snapshot_to_gbt` numbers it, `project` packs the transactions into blocks by the
-- rates of their packages, and `recommended_tiers` reads the tiers off the rates. `/fees` serves them
-- while the cache is caught up.
--
-- The modules:
--   Common: shared names; Boolean tests, lists over the native numbers, `u32` and `u64` arithmetic.
--   Float: `f64` as an interface with the IEEE facts used; `scaled_float` is an instance of it.
--   Gbt.Audit: src/gbt.rs, `GbtTx`, `Projection`, `Audit`, `rate`, `score_of`, the constants.
--   Gbt.Ancestors: `build_ancestors`; Closure says what it should give, Walk that it does.
--   Gbt.Heap: `HeapItem::cmp` and the pop of the `BinaryHeap`, as the greatest of a list.
--   Gbt.Pack: the loop of `project_with`: `place` is the body of a round after the refresh, `include`
--     its else branch, `finalize` its end, `refresh_descendants` the function of that name. Its
--     children hold a rule for the loop and the invariants: marks, blocks, rates, rounds.
--   Gbt.Project: `project_with` and `project`, the audits before the loop and the end after it.
--   Fees.Tiers, Fees.Snapshot: src/fees.rs, the tiers and the pipeline `compute_estimate`.
--   The modules named Tests hold runs on small inputs.
--   Rpc: src/rpc.rs, the data of the node's answers, the errors, `is_reconnectable`. Rpc.Call: a call from
--     the response on, `read_body_bounded`, `truncate`, `mempool_entry`.
--   Config: src/config.rs, `Config::from_env` after the flags are parsed.
--   Mempool: src/mempool.rs, `MempoolTx::from`, `MempoolState`, `compute_diff`.
--   Sync.Decision: src/sync/decision.rs. Sync.State: the flags and the fee recompute of src/sync/mod.rs.
--   Sync.Fetch: `fetch_new_entries`. Sync.Tick: `bulk_resync` (here `resync`) and `steady_tick`, with
--     the match on the decision as `act_on` and the rest of the tick as `diff_tick`.
--   Sync.Run: `run`, its startup and its ticks.
--   Http: src/http.rs, `health` and `fees`.
--   Rpc.Client: the credentials, `connect`, `reconnect` and the methods of src/rpc.rs.
--   Zmq: src/zmq.rs, the listener for blocks. Main: the probe for the network of src/main.rs.
--   Sim.Random: the generator of the simulation. Sim.Network: src/sim/network.rs, with the trait
--     `MempoolRpc` (in Rpc) as the interface to the node behind it.
--   Sim.Node: src/sim/mock_node.rs, its maps and evictions; Arrival: its arrivals; Block: its mined blocks;
--     Surface: its answers. Truthful and its children are about the invariant of the node: Descendants
--     about the descendant totals, Chains about the lengths, Amounts about the sums of the fees,
--     Block.Repair and Block.Confirm about `confirm_set`, Block.Weight about what a block takes,
--     Settings about the settings of the churn.
--   Sim.Server: src/sim/server.rs, the requests and a turn of the churn task; Client: the client of
--     src/rpc.rs before it; Blocks: the turns one after another; Flags: `run_cli`; Serves: the node that
--     it serves, through the turns.
--
-- Choices. Integers are natural numbers, and sums of machine words wrap or saturate where the source's
-- do. A `HashSet` is a list without duplicates, a `HashMap` an association list: the order that they
-- leave open is the order of the lists, over which the statements range; which key of the node's map in
-- the simulation comes first is any function of the keys, a parameter. A sum of `Amount`s in the
-- simulation is exact, and one that does not fit a `u64` marks the node as panicked. A `Txid` is a number.
-- The calls of the node, the clocks and the stream of the futures crate are inputs of a tick. Outcomes
-- of `project_with` are `done`, `panicked` (a bad index, or scores that do not compare) and `out_of_fuel`.
--
-- Fuel. `build_ancestors` has one more than the number of transactions: each nested call marks one
-- more. `refresh_descendants` has that number: each uid is pushed once. The loop has `rounds`, from a
-- measure on the unused transactions, the heap and the held packages that each round lowers.
--
-- `ancestors_of` and the descents to a leaf in src/sim/mock_node.rs have the ancestor sizes, which
-- fall or grow with each step, and so do the walks of `confirm_set`. The probe of src/main.rs has its
-- five attempts.
--
-- Not modelled: the sending of requests and the sockets, which are the crates'; the startup of the tasks
-- in src/main.rs; the HTTP server of src/sim/server.rs and the parsing of its flags; the locks (a
-- critical section is one step); the sleeps; and log lines but for the transitions of the flag.
pub mod Common
pub mod Float
pub mod Gbt
pub mod Fees
pub mod Rpc
pub mod Mempool
pub mod Sync
pub mod Http
pub mod Config
pub mod Zmq
pub mod Main
pub mod Sim
mod Tests
