-- ===== src/Rpc/Client/Errors.antt =====
-- src/rpc.rs: the errors of a call that a reconnect may mend.
use satya_btc.Common.{
  ℕ, ◌+◌, ◌≡◌, refl, subst, Bool, true, false, not, ◌||◌, inl, inr, Option, none, some, List, [],
  ◌∷◌, ◌++◌, arith, ltb, length, Bool-cases, Option-cases,
}
use satya_btc.Rpc.{RpcError, http, body_too_large, Result, ok, err, is_reconnectable}
use satya_btc.Rpc.Call.{
  Response, RpcResponse, read_chunks, read_body_bounded, call, parse_body, open_envelope,
  is_success, is_refused,
}

-- The result is an error for which the loop rebuilds the client.
abbrev pub asks_reconnect : {T : Type 0} → Result T → Bool
asks_reconnect (ok a) = false
asks_reconnect (err e) = is_reconnectable e

-- The transport failed.
abbrev pub is_transport : RpcError → Bool
is_transport http = true
is_transport _ = false

-- The reads of a body fail for the transport or for the bound.
read_chunks_errors :
    (max_body : ℕ) (chunks : List (Option (List ℕ))) (buf : List ℕ) (e : RpcError)
    → read_chunks max_body chunks buf ≡ err e
    → is_reconnectable e ≡ is_transport e
unfolding read_chunks is_reconnectable
read_chunks_errors max_body [] buf e h = absurd (ground arith)
read_chunks_errors max_body (none ∷ rest) buf e h =
    let same : http ≡ e = ground arith in subst (λ x. is_reconnectable x ≡ is_transport x) same refl
read_chunks_errors max_body (some chunk ∷ rest) buf e h =
    elim (Bool-cases (ltb max_body (length buf + length chunk))) [
      | inl over ↦
          let same : body_too_large max_body ≡ e = ground arith in
          subst (λ x. is_reconnectable x ≡ is_transport x) same refl
      | inr within ↦ read_chunks_errors max_body rest (buf ++ chunk) e (ground arith)
    ]

read_body_errors :
    (resp : Response) (max_body : ℕ) (e : RpcError)
    → read_body_bounded resp max_body ≡ err e
    → is_reconnectable e ≡ is_transport e
unfolding read_body_bounded is_reconnectable
read_body_errors resp max_body e h = elim (Option-cases resp.content_length) [
  | inl none_given ↦ read_chunks_errors max_body resp.chunks [] e (ground arith)
  | inr (len, given) ↦ elim (Bool-cases (ltb max_body len)) [
    | inl over ↦
        let same : body_too_large max_body ≡ e = ground arith in
        subst (λ x. is_reconnectable x ≡ is_transport x) same refl
    | inr within ↦ read_chunks_errors max_body resp.chunks [] e (ground arith)
  ]
]

module _ {V T : Type 0} (from_slice : List ℕ → Option (RpcResponse V)) (from_value : V → Option T)
    (lossy : List ℕ → List ℕ) where
  -- No response, a refusal, a body that breaks off, or a failure with no envelope in its body.
  abbrev pub is_stale : Option Response → ℕ → Bool
  is_stale none max_body = true
  is_stale (some resp) max_body = is_refused resp.status || elim (read_body_bounded resp max_body) [
    | err e ↦ is_transport e
    | ok bytes ↦ elim (from_slice bytes) [ some env ↦ false | none ↦ not (is_success resp.status) ]
  ]

  -- A call asks for a reconnect exactly if there is no response, it refuses the credentials, its body
  -- breaks off, or it is a failure whose body is no envelope. So no error that the node reports in an
  -- envelope does, whatever the status, and no body that is too large or does not parse.
  pub call_reconnects :
      (resp : Option Response) (max_body : ℕ)
      → asks_reconnect (call from_slice from_value lossy resp max_body) ≡ is_stale resp max_body
  unfolding call parse_body open_envelope is_reconnectable
  call_reconnects none max_body = refl
  call_reconnects (some resp) max_body = go (read_body_bounded resp max_body) refl
    where
      go :
          (r : Result (List ℕ))
          → read_body_bounded resp max_body ≡ r
          → asks_reconnect (call from_slice from_value lossy (some resp) max_body)
            ≡ is_stale (some resp) max_body
      go (err e) k = let kind = read_body_errors resp max_body e k in ground arith
      go (ok bytes) k = ground arith
