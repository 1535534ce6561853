-- ===== src/Sim/Server.antt =====
-- src/sim/server.rs: the simulated node behind an endpoint. The HTTP server and its JSON are the crates':
-- a reply is the value that is sent, an amount its number of satoshi.
pub mod Client
pub mod Blocks
pub mod Flags
pub mod Corrected
pub mod Serves
mod Tests
use Prim.Native.String.{String}
use Prim.Native.Char.{code}
use text.Mathlib.Text.{◌==◌ as same_text}
use satya_btc.Common.{
  ℕ, zero, suc, ◌+◌, ◌-◌, ◌*◌, ◌/◌, ◌%◌, Bool, true, false, not, ◌&&◌, ◌||◌, Option, none, some,
  List, [], ◌∷◌, ◌++◌, add32, add64, ltb, leb, ◌==◌, if◌then◌else◌, max,
}
use satya_btc.Float.{Float}
use satya_btc.Mempool.{keys}
use satya_btc.Rpc.{ℤ, pos, negsuc, MempoolEntry}
use satya_btc.Rpc.Call.{RpcResponse}
use satya_btc.Rpc.Client.{Params, no_params, verbose, txid}
use satya_btc.Sim.Random.{Rng, Draw, Casts, less}
use satya_btc.Sim.Network.{NetworkProfile, Limiter, check_rate_limit}
use satya_btc.Sim.Node.{MockNode}
use satya_btc.Sim.Node.Arrival.{advance, mass_drop, reload}
use satya_btc.Sim.Node.Block.{mine_block}
use satya_btc.Sim.Node.Surface.{loaded_sync, entry_by_txid}

pub record ServerState (R F : Type 0) : Type 0 where
  pub node : MockNode R F
  pub limiter : Limiter
  pub profile : NetworkProfile F

-- The values of the results.
pub data Value : Type 0 where
  null : Value
  blockchain_info : ℕ → Value
  info : Bool → ℕ → Value
  entries : List (ℕ × MempoolEntry) → Value
  txids : List ℕ → Value
  entry : MempoolEntry → Value

-- A status of 429 with no body, or 200 with an envelope.
pub data Reply : Type 0 where
  too_many_requests : Reply
  envelope : RpcResponse Value → Reply

abbrev pub ok_response : Value → Reply
ok_response v = envelope (record { result = v; error = none })

-- The characters of a text.
abbrev pub text_codes : String → List ℕ
text_codes String.[] = []
text_codes (String.◌∷◌ c rest) = code c ∷ text_codes rest

abbrev error_response : ℤ → List ℕ → Reply
error_response code message = envelope (record { result = null; error = some (code, message) })

-- The time is not sent.
abbrev pub verbose_entry_json : MempoolEntry → MempoolEntry
verbose_entry_json e = record e { time = none }

abbrev pub verbose_entries : List (ℕ × MempoolEntry) → List (ℕ × MempoolEntry)
verbose_entries [] = []
verbose_entries ((id, e) ∷ rest) = (id, verbose_entry_json e) ∷ verbose_entries rest

-- `params.first()`, read as a Boolean and as a txid.
abbrev is_verbose : Params → Bool
is_verbose (verbose b) = b
is_verbose _ = false

abbrev asked_txid : Params → Option ℕ
asked_txid (txid id) = some id
asked_txid _ = none

module _ {R F : Type 0} where
  abbrev raw_mempool : Bool → MockNode R F → Value
  raw_mempool true n = entries (verbose_entries n.txs)
  raw_mempool false n = txids (keys n.txs)

  abbrev asked_entry : Option ℕ → MockNode R F → Option MempoolEntry
  asked_entry none n = none
  asked_entry (some id) n = entry_by_txid n id

  -- The minimum fee is 0.00001 BTC.
  unfoldable pub dispatch : MockNode R F → String → Params → Reply
  dispatch n method params =
      if same_text method "getblockchaininfo"
      then ok_response (blockchain_info n.tip_height)
      else if same_text method "getmempoolinfo"
      then ok_response (info (loaded_sync n) 1000)
      else if same_text method "getrawmempool"
      then ok_response (raw_mempool (is_verbose params) n)
      else if same_text method "getmempoolentry"
      then elim (asked_entry (asked_txid params) n) [
        | some e ↦ ok_response (entry (verbose_entry_json e))
        | none ↦ error_response (negsuc 4) (text_codes "Transaction not in mempool")
      ]
      else error_response (negsuc 32600) (text_codes "Method not found: " ++ text_codes method)

  -- The gate, at the time of the request, and then the reply.
  unfoldable pub handle_rpc : ℕ → String → Params → ServerState R F → Reply × ServerState R F
  unfolding check_rate_limit dispatch
  handle_rpc now method params s = elim s.profile.req_per_sec [
    | none ↦ (dispatch s.node method params, s)
    | some limit ↦
        let (within, l) = check_rate_limit s.limiter limit now in
        (
          if within then dispatch s.node method params else too_many_requests,
          record s { limiter = l },
        )
  ]

unfoldable pub ticks_per_block : ℕ → ℕ → ℕ
ticks_per_block zero churn_secs = 0
ticks_per_block (suc block_secs) churn_secs = max (suc block_secs / max churn_secs 1) 1

abbrev pub is_multiple_of : ℕ → ℕ → Bool
is_multiple_of n zero = n == 0
is_multiple_of n (suc d) = n % suc d == 0

-- The counters of the churn task.
pub record ChurnClock : Type 0 where
  pub tick : ℕ
  pub blocks : ℕ

module _ {R F : Type 0} ⦃f : Float F⦄ ⦃casts : Casts F⦄ ⦃rng : Rng R⦄ ⦃draw : Draw R F⦄ where
  -- The block of a tick that has one, and the restart after it where one is due.
  unfoldable pub block_step : ℕ → ChurnClock → MockNode R F → ChurnClock × MockNode R F
  unfolding mine_block mass_drop reload
  block_step reload_every c n =
      let blocks = add32 c.blocks 1 in
      let mined = mine_block n in
      (
        record c { blocks = blocks },
        if not (reload_every == 0) && is_multiple_of blocks reload_every
            then reload (mass_drop (f.div (f.of_u64 8) (f.of_u64 10)) mined)
            else mined,
      )

  -- One turn of the task, for the number of ticks between blocks.
  unfoldable pub churn_step : ℕ → ℕ → ChurnClock × MockNode R F → ChurnClock × MockNode R F
  unfolding advance block_step
  churn_step tpb reload_every (c, n) =
      let c' = record c { tick = add64 c.tick 1 } in
      if not (tpb == 0) && is_multiple_of c'.tick tpb
      then block_step reload_every c' (advance n)
      else (c', advance n)
