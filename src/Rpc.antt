-- ===== src/Rpc.antt =====
-- src/rpc.rs: the data of the node's answers and the errors of a call. The transport is the trait
-- `MempoolRpc`, whose calls are inputs of the model: an answer is a `Result`. An `Amount` is its number
-- of satoshi, a `Txid` a number, and a text the list of its characters.
pub mod Call
pub mod Client
use satya_btc.Common.{ℕ, Bool, true, false, Option, List}

pub data ℤ : Type 0 where
  pos : ℕ → ℤ
  negsuc : ℕ → ℤ

pub data RpcError : Type 0 where
  http : RpcError
  auth : RpcError
  http_status : (status : ℕ) → (body : List ℕ) → RpcError
  rpc : (code : ℤ) → (message : List ℕ) → RpcError
  body_too_large : (limit : ℕ) → RpcError
  decode : RpcError

pub data Result (A : Type 0) : Type 0 where
  ok : A → Result A
  err : RpcError → Result A

unfoldable pub is_reconnectable : RpcError → Bool
is_reconnectable auth = true
is_reconnectable http = true
is_reconnectable (http_status status body) = true
is_reconnectable _ = false

pub record MempoolInfo : Type 0 where
  pub loaded : Option Bool
  pub mempoolminfee : ℕ

pub record MempoolEntryFees : Type 0 where
  pub base : ℕ
  pub ancestor : ℕ
  pub descendant : ℕ

pub record MempoolEntry : Type 0 where
  pub vsize : ℕ
  pub weight : Option ℕ
  pub depends : List ℕ
  pub fees : MempoolEntryFees
  pub ancestorsize : ℕ
  pub descendantsize : ℕ
  pub time : Option ℕ

-- The trait: the calls that read a node, and the reconnect, with whether it succeeded.
pub record MempoolRpc (N : Type 0) : Type 0 where
  pub mempool_info : N → Result MempoolInfo
  pub raw_mempool_txids : N → Result (List ℕ)
  pub raw_mempool_verbose : N → Result (List (ℕ × MempoolEntry))
  pub mempool_entry : N → ℕ → Result (Option MempoolEntry)
  pub tip_height : N → Result ℕ
  pub reconnect : N → Bool × N
