-- ===== src/Rpc/Call.antt =====
-- src/rpc.rs: a call, from the response to its result. The response is an input; the parser of the
-- serde_json crate is a parameter: `from_slice` reads an envelope, `from_value` a result, and `lossy`
-- is `String::from_utf8_lossy`.
pub mod Bounded
use satya_btc.Common.{
  ℕ, ◌+◌, ◌*◌, Bool, true, false, ◌&&◌, ◌||◌, Option, none, some, List, [], ◌∷◌, ◌++◌, ltb, leb,
  ◌==◌, if◌then◌else◌, length, take,
}
use satya_btc.Rpc.{
  ℤ, pos, negsuc, RpcError, http, auth, http_status, rpc, body_too_large, decode, Result, ok, err,
  MempoolEntry,
}

abbrev pub max_body_control : ℕ
max_body_control = 16 * 1024 * 1024

abbrev pub max_err_body_len : ℕ
max_err_body_len = 512

-- A chunk is `none` where the transport fails.
pub record Response : Type 0 where
  pub status : ℕ
  pub content_length : Option ℕ
  pub chunks : List (Option (List ℕ))

-- The loop, with the bytes so far.
unfoldable pub read_chunks : ℕ → List (Option (List ℕ)) → List ℕ → Result (List ℕ)
read_chunks max_body [] buf = ok buf
read_chunks max_body (none ∷ rest) buf = err http
read_chunks max_body (some chunk ∷ rest) buf =
    let more = read_chunks max_body rest (buf ++ chunk) in
    if ltb max_body (length buf + length chunk) then err (body_too_large max_body) else more

unfoldable pub read_body_bounded : Response → ℕ → Result (List ℕ)
unfolding read_chunks
read_body_bounded resp max_body =
    let body = read_chunks max_body resp.chunks [] in
    elim resp.content_length [
      | none ↦ body
      | some len ↦ if ltb max_body len then err (body_too_large max_body) else body
    ]

-- `s` up to `max_len` characters, with an ellipsis where it is longer.
unfoldable pub truncate : List ℕ → ℕ → List ℕ
truncate s max_len = if ltb max_len (length s) then take max_len s ++ 8230 ∷ [] else s

pub record RpcResponse (V : Type 0) : Type 0 where
  pub result : V
  pub error : Option (ℤ × List ℕ)

abbrev pub is_success : ℕ → Bool
is_success status = leb 200 status && ltb status 300

abbrev pub is_refused : ℕ → Bool
is_refused status = (status == 401) || (status == 403)

-- The code `RPC_INVALID_ADDRESS_OR_KEY`, -5.
abbrev pub is_missing : RpcError → Bool
is_missing (rpc (negsuc n) message) = n == 4
is_missing _ = false

-- `mempool_entry`, given what the call returned.
unfoldable pub mempool_entry : Result MempoolEntry → Result (Option MempoolEntry)
mempool_entry (ok entry) = ok (some entry)
mempool_entry (err e) = if is_missing e then ok none else err e

module _ {V T : Type 0} (from_slice : List ℕ → Option (RpcResponse V)) (from_value : V → Option T)
    (lossy : List ℕ → List ℕ) where
  -- The envelope: a non-null error, or a result to be read.
  unfoldable pub open_envelope : RpcResponse V → Result T
  open_envelope env = elim env.error [
    | some (code, message) ↦ err (rpc code message)
    | none ↦ elim (from_value env.result) [ none ↦ err decode | some v ↦ ok v ]
  ]

  unfoldable pub parse_body : ℕ → List ℕ → Result T
  unfolding open_envelope truncate
  parse_body status bytes = elim (from_slice bytes) [
    | some env ↦ open_envelope env
    | none ↦
        if is_success status
        then err decode
        else err (http_status status (truncate (lossy bytes) max_err_body_len))
  ]

  -- `call` after the request; `none` is a failure to send.
  unfoldable pub call : Option Response → ℕ → Result T
  unfolding parse_body read_body_bounded
  call none max_body = err http
  call (some resp) max_body =
      let parsed : Result T = elim (read_body_bounded resp max_body) [
        | err e ↦ err e
        | ok bytes ↦ parse_body resp.status bytes
      ] in
      if is_refused resp.status then err auth else parsed
