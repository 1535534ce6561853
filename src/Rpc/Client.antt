-- ===== src/Rpc/Client.antt =====
-- src/rpc.rs: the credentials, the client and its methods. The file system, the client of the reqwest
-- crate with its `send`, and the parsers of serde_json are parameters. A text is a list of characters.
pub mod Cookie
pub mod Errors
mod Tests
use Prim.Native.String.{String}
use satya_btc.Common.{
  ℕ, ◌*◌, Bool, true, false, ◌&&◌, ◌||◌, Option, none, some, List, [], ◌∷◌, ◌==◌, if◌then◌else◌,
}
use satya_btc.Config.{RpcAuth, cookie, user_pass, RpcConfig}
use satya_btc.Rpc.{Result, ok, err, MempoolInfo, MempoolEntry, MempoolRpc}
use satya_btc.Rpc.Call.{Response, RpcResponse, call, mempool_entry, max_body_control}

abbrev pub max_body_txids : ℕ
max_body_txids = 64 * 1024 * 1024

abbrev pub max_body_verbose : ℕ
max_body_verbose = 512 * 1024 * 1024

pub data Auth : Type 0 where
  basic : List ℕ → List ℕ → Auth
  no_auth : Auth

-- The characters `\n`, `\r` and `:`.
abbrev pub newline : ℕ
newline = 10

abbrev pub carriage_return : ℕ
carriage_return = 13

abbrev pub colon : ℕ
colon = 58

abbrev starts_line : List ℕ → Bool
starts_line [] = false
starts_line (c ∷ rest) = c == newline

-- `lines().next()`: up to a line feed, without a carriage return right before it.
unfoldable pub first_line : List ℕ → List ℕ
first_line [] = []
first_line (c ∷ rest) =
    let line = first_line rest in
    if (c == newline) || ((c == carriage_return) && starts_line rest) then [] else c ∷ line

abbrev pub next_line : List ℕ → Option (List ℕ)
next_line [] = none
next_line (c ∷ rest) = some (first_line (c ∷ rest))

abbrev before : ℕ → Option (List ℕ × List ℕ) → Option (List ℕ × List ℕ)
before c none = none
before c (some (user, pass)) = some (c ∷ user, pass)

-- `line.find(':')` with the two slices.
unfoldable pub split_colon : List ℕ → Option (List ℕ × List ℕ)
split_colon [] = none
split_colon (c ∷ rest) =
    let parts = split_colon rest in if c == colon then some ([], rest) else before c parts

-- The cookie's line, as credentials.
unfoldable pub parse_cookie : List ℕ → Option Auth
unfolding first_line split_colon
parse_cookie contents = elim (next_line contents) [
  | none ↦ none
  | some line ↦ elim (split_colon line) [ none ↦ none | some (user, pass) ↦ some (basic user pass) ]
]

-- `none` is an error; `read_to_string` gives what the file holds now.
unfoldable pub resolve_auth : (List ℕ → Option (List ℕ)) → RpcConfig → Option Auth
unfolding parse_cookie
resolve_auth read_to_string cfg = elim cfg.auth [
  | none ↦ some no_auth
  | some (cookie path) ↦ elim (read_to_string path) [
    | none ↦ none
    | some contents ↦ parse_cookie contents
  ]
  | some (user_pass user pass) ↦ some (basic user pass)
]

pub record Rpc (H : Type 0) : Type 0 where
  pub http : H
  pub url : List ℕ
  pub auth : Auth
  pub cfg : RpcConfig

module _ {H : Type 0} (build : ℕ → Option H) (read_to_string : List ℕ → Option (List ℕ)) where
  unfoldable pub connect : RpcConfig → Option (Rpc H)
  unfolding resolve_auth
  connect cfg = elim (build cfg.timeout) [
    | none ↦ none
    | some client ↦ elim (resolve_auth read_to_string cfg) [
      | none ↦ none
      | some a ↦ some (record { http = client; url = cfg.url; auth = a; cfg = cfg })
    ]
  ]

  -- Whether it succeeded, and the client after it.
  unfoldable pub reconnect : Rpc H → Bool × Rpc H
  unfolding resolve_auth
  reconnect r = elim (resolve_auth read_to_string r.cfg) [
    | none ↦ (false, r)
    | some a ↦ elim (build r.cfg.timeout) [
      | none ↦ (false, r)
      | some client ↦ (true, record r { http = client; auth = a })
    ]
  ]

pub data Params : Type 0 where
  no_params : Params
  verbose : Bool → Params
  txid : ℕ → Params

pub record Request : Type 0 where
  pub url : List ℕ
  pub auth : Auth
  pub method : String
  pub params : Params

-- `chain` and `blocks`
pub record BlockchainInfo (N : Type 0) : Type 0 where
  pub chain : N
  pub blocks : ℕ

abbrev map_ok : {A B : Type 0} → (A → B) → Result A → Result B
map_ok g (ok a) = ok (g a)
map_ok g (err e) = err e

-- The parsers of a result, one for each type that is asked for.
pub record Parsers (V N : Type 0) : Type 0 where
  pub from_slice : List ℕ → Option (RpcResponse V)
  pub lossy : List ℕ → List ℕ
  pub blockchain_info : V → Option (BlockchainInfo N)
  pub info : V → Option MempoolInfo
  pub txids : V → Option (List ℕ)
  pub entries : V → Option (List (ℕ × MempoolEntry))
  pub entry : V → Option MempoolEntry

module _ {H V N : Type 0} (parsers : Parsers V N) (send : H → Request → Option Response) where
  unfoldable pub request : {T : Type 0} → (V → Option T) → Rpc H → String → Params → ℕ → Result T
  unfolding call
  request from_value r method params max_body =
      call parsers.from_slice from_value parsers.lossy
        (send r.http (record { url = r.url; auth = r.auth; method = method; params = params }))
        max_body

  unfoldable pub network : Rpc H → Result N
  unfolding request
  network r =
      map_ok (λ i. i.chain)
        (request parsers.blockchain_info r "getblockchaininfo" no_params max_body_control)

  unfoldable pub tip_height : Rpc H → Result ℕ
  unfolding request
  tip_height r =
      map_ok (λ i. i.blocks)
        (request parsers.blockchain_info r "getblockchaininfo" no_params max_body_control)

  unfoldable pub mempool_info : Rpc H → Result MempoolInfo
  unfolding request
  mempool_info r = request parsers.info r "getmempoolinfo" no_params max_body_control

  unfoldable pub raw_mempool_txids : Rpc H → Result (List ℕ)
  unfolding request
  raw_mempool_txids r = request parsers.txids r "getrawmempool" (verbose false) max_body_txids

  unfoldable pub raw_mempool_verbose : Rpc H → Result (List (ℕ × MempoolEntry))
  unfolding request
  raw_mempool_verbose r = request parsers.entries r "getrawmempool" (verbose true) max_body_verbose

  unfoldable pub fetch_entry : Rpc H → ℕ → Result (Option MempoolEntry)
  unfolding request mempool_entry
  fetch_entry r id =
      mempool_entry (request parsers.entry r "getmempoolentry" (txid id) max_body_control)

  -- The implementation of the trait.
  unfoldable pub rpc_surface : (ℕ → Option H) → (List ℕ → Option (List ℕ)) → MempoolRpc (Rpc H)
  unfolding reconnect tip_height mempool_info raw_mempool_txids raw_mempool_verbose fetch_entry
  rpc_surface build read_to_string = record {
    mempool_info = mempool_info;
    raw_mempool_txids = raw_mempool_txids;
    raw_mempool_verbose = raw_mempool_verbose;
    mempool_entry = fetch_entry;
    tip_height = tip_height;
    reconnect = reconnect build read_to_string;
  }
