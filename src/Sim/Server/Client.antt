-- ===== src/Sim/Server/Client.antt =====
-- src/sim/server.rs with src/rpc.rs: what the real client reads from the simulated node.
use Prim.Native.String.{String}
use satya_btc.Common.{
  ℕ, ◌≤◌, ◌≡◌, refl, ltb, ◌+◌, subst, sym, Bool, true, false, Option, none, some, List, [], ◌∷◌,
  arith, length,
}
use satya_btc.Rpc.{ℤ, negsuc, ok, MempoolEntry}
use satya_btc.Mempool.{keys}
use satya_btc.Rpc.Call.{
  Response, RpcResponse, max_body_control, read_chunks, read_body_bounded, parse_body,
  open_envelope, call, mempool_entry,
}
use satya_btc.Rpc.Client.{
  max_body_txids, max_body_verbose, Rpc, Request, Params, no_params, verbose, txid, Parsers,
  request, tip_height, mempool_info, raw_mempool_txids, raw_mempool_verbose, fetch_entry,
}
use satya_btc.Sim.Node.Surface.{loaded_sync, entry_by_txid}
use satya_btc.Sim.Server.{
  ServerState, Value, null, blockchain_info, info, entries, txids, entry, Reply, too_many_requests,
  envelope, verbose_entry_json, verbose_entries, text_codes, dispatch, handle_rpc,
}

-- The response to a reply, with the bytes of an envelope in one chunk.
abbrev pub to_response : (RpcResponse Value → List ℕ) → Reply → Response
to_response to_bytes too_many_requests = record {
  status = 429;
  content_length = some 0;
  chunks = [];
}
to_response to_bytes (envelope env) = record {
  status = 200;
  content_length = none;
  chunks = some (to_bytes env) ∷ [];
}

abbrev pub sent :
    {R F : Type 0}
    → (RpcResponse Value → List ℕ)
    → ℕ
    → ServerState R F
    → {H : Type 0} → H
    → Request
    → Option Response
sent to_bytes now s h req = some (to_response to_bytes (handle_rpc now req.method req.params s).0)

module _ {N : Type 0} (parsers : Parsers Value N) (to_bytes : RpcResponse Value → List ℕ) where
  -- The bytes of the envelope are parsed back, and fit the cap of the call.
  pub record IsSent (max_body : ℕ) (env : RpcResponse Value) : Type 0 where
    pub parsed : parsers.from_slice (to_bytes env) ≡ some env
    pub fits : length (to_bytes env) ≤ max_body

  call_whole :
      {T : Type 0} (from_value : Value → Option T) (env : RpcResponse Value) (max_body : ℕ)
      → IsSent max_body env
      → call parsers.from_slice from_value parsers.lossy
          (some (to_response to_bytes (envelope env)))
          max_body
        ≡ open_envelope parsers.from_slice from_value parsers.lossy env
  unfolding call parse_body read_body_bounded read_chunks
  call_whole from_value env max_body h =
      let fits : ltb max_body (0 + length (to_bytes env)) ≡ false = ground (arith, h.fits) in
      rw (call, parse_body, read_body_bounded, read_chunks, fits, h.parsed) refl

  request_served :
      {R F H T : Type 0} (from_value : Value → Option T) (r : Rpc H) (now : ℕ) (s : ServerState R F)
      (method : String) (params : Params) (max_body : ℕ) (env : RpcResponse Value)
      → s.profile.req_per_sec ≡ none
      → dispatch s.node method params ≡ envelope env
      → IsSent max_body env
      → request parsers (sent to_bytes now s) from_value r method params max_body
        ≡ open_envelope parsers.from_slice from_value parsers.lossy env
  unfolding request handle_rpc
  request_served from_value r now s method params max_body env free is h =
      let replied : (handle_rpc now method params s).0 ≡ envelope env = rw (handle_rpc, free) is in
      subst
        (λ (reply : Reply).
          call parsers.from_slice from_value parsers.lossy (some (to_response to_bytes reply))
            max_body
          ≡ open_envelope parsers.from_slice from_value parsers.lossy env)
        (sym replied) (call_whole from_value env max_body h)

abbrev pub success : Value → RpcResponse Value
success v = record { result = v; error = none }

abbrev pub failure : ℤ → List ℕ → RpcResponse Value
failure code message = record { result = null; error = some (code, message) }

abbrev pub sent_entry : Option MempoolEntry → Option MempoolEntry
sent_entry none = none
sent_entry (some e) = some (verbose_entry_json e)

-- What the envelope of an entry is.
abbrev pub entry_envelope : Option MempoolEntry → RpcResponse Value
entry_envelope none = failure (negsuc 4) (text_codes "Transaction not in mempool")
entry_envelope (some e) = success (entry (verbose_entry_json e))

-- The values of the server are read back, each by the parser of its type.
pub record IsJson {N : Type 0} (parsers : Parsers Value N) (main_chain : N) : Type 0 where
  pub chain :
      (h : ℕ)
      → parsers.blockchain_info (blockchain_info h)
        ≡ some (record { chain = main_chain; blocks = h })
  pub info :
      (loaded : Bool) (fee : ℕ)
      → parsers.info (info loaded fee) ≡ some (record { loaded = some loaded; mempoolminfee = fee })
  pub txids : (ids : List ℕ) → parsers.txids (txids ids) ≡ some ids
  pub entries : (es : List (ℕ × MempoolEntry)) → parsers.entries (entries es) ≡ some es
  pub entry : (e : MempoolEntry) → parsers.entry (entry e) ≡ some e

module _ {N R F H : Type 0} (parsers : Parsers Value N) (main_chain : N)
    (to_bytes : RpcResponse Value → List ℕ) (json : IsJson parsers main_chain) (r : Rpc H) (now : ℕ)
    (s : ServerState R F) (id : ℕ) where
  -- The envelopes of the five answers arrive.
  pub record AreSent : Type 0 where
    pub tip : IsSent parsers to_bytes max_body_control (success (blockchain_info s.node.tip_height))
    pub info : IsSent parsers to_bytes max_body_control (success (info (loaded_sync s.node) 1000))
    pub ids : IsSent parsers to_bytes max_body_txids (success (txids (keys s.node.txs)))
    pub all :
        IsSent parsers to_bytes max_body_verbose (success (entries (verbose_entries s.node.txs)))
    pub one : IsSent parsers to_bytes max_body_control (entry_envelope (entry_by_txid s.node id))

  entry_read :
      (o : Option MempoolEntry)
      → mempool_entry
          (open_envelope parsers.from_slice parsers.entry parsers.lossy (entry_envelope o))
        ≡ ok (sent_entry o)
  unfolding mempool_entry open_envelope
  entry_read none = refl
  entry_read (some e) = rw (mempool_entry, open_envelope, json.entry (verbose_entry_json e)) refl

  entry_reply :
      (o : Option MempoolEntry)
      → entry_by_txid s.node id ≡ o
      → dispatch s.node "getmempoolentry" (txid id) ≡ envelope (entry_envelope o)
  unfolding dispatch
  entry_reply none e = rw (dispatch, e) refl
  entry_reply (some x) e = rw (dispatch, e) refl

  -- Without a limit on the rate, and where the JSON of the server is read back and each answer fits the
  -- cap of its call, the client reads the state of the node: its height, whether it is loaded, its txids and
  -- its entries, of which only the times are missing; a txid that is not there is no error.
  pub client_reads_node :
      s.profile.req_per_sec ≡ none
      → AreSent
      → (tip_height parsers (sent to_bytes now s) r ≡ ok s.node.tip_height)
        × (mempool_info parsers (sent to_bytes now s) r
            ≡ ok (record { loaded = some (loaded_sync s.node); mempoolminfee = 1000 }))
        × (raw_mempool_txids parsers (sent to_bytes now s) r ≡ ok (keys s.node.txs))
        × (raw_mempool_verbose parsers (sent to_bytes now s) r ≡ ok (verbose_entries s.node.txs))
        × (fetch_entry parsers (sent to_bytes now s) r id
            ≡ ok (sent_entry (entry_by_txid s.node id)))
  unfolding tip_height mempool_info raw_mempool_txids raw_mempool_verbose fetch_entry dispatch
      open_envelope
  client_reads_node free h =
      let tip =
        request_served parsers to_bytes parsers.blockchain_info r now s "getblockchaininfo"
          no_params max_body_control (success (blockchain_info s.node.tip_height)) free refl
          h.tip in
      let about =
        request_served parsers to_bytes parsers.info r now s "getmempoolinfo" no_params
          max_body_control (success (info (loaded_sync s.node) 1000)) free refl h.info in
      let ids =
        request_served parsers to_bytes parsers.txids r now s "getrawmempool" (verbose false)
          max_body_txids (success (txids (keys s.node.txs))) free refl h.ids in
      let all =
        request_served parsers to_bytes parsers.entries r now s "getrawmempool" (verbose true)
          max_body_verbose (success (entries (verbose_entries s.node.txs))) free refl h.all in
      let one =
        request_served parsers to_bytes parsers.entry r now s "getmempoolentry" (txid id)
          max_body_control (entry_envelope (entry_by_txid s.node id)) free
          (entry_reply (entry_by_txid s.node id) refl) h.one in
      (
        rw (tip_height, tip, open_envelope, json.chain s.node.tip_height) refl,
        rw (mempool_info, about, open_envelope, json.info (loaded_sync s.node) 1000) refl,
        rw (raw_mempool_txids, ids, open_envelope, json.txids (keys s.node.txs)) refl,
        rw (raw_mempool_verbose, all, open_envelope, json.entries (verbose_entries s.node.txs))
            refl,
        rw (fetch_entry, one) (entry_read (entry_by_txid s.node id)),
      )
