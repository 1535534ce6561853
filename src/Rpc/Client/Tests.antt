-- ===== src/Rpc/Client/Tests.antt =====
-- The client of src/rpc.rs at concrete inputs.
use satya_btc.Common.{ℕ, ◌≡◌, refl, true, false, inr, Option, none, some, List, [], ◌∷◌}
use satya_btc.Config.{RpcConfig, cookie}
use satya_btc.Rpc.{pos}
use satya_btc.Rpc.Call.{Response, RpcResponse, read_body_bounded, call}
use satya_btc.Rpc.Client.{basic, no_auth, newline, colon, Rpc, connect, reconnect}
use satya_btc.Rpc.Client.Cookie.{reconnect_anew, reconnect_rotated}
use satya_btc.Rpc.Client.Errors.{asks_reconnect, call_reconnects}

abbrev settings : RpcConfig
settings = record { url = 1 ∷ []; auth = some (cookie (2 ∷ [])); timeout = 30 }

abbrev new_client : ℕ → Option ℕ
new_client timeout = some timeout

-- Every file holds a user, a password and one more line.
abbrev rotated_file : List ℕ → Option (List ℕ)
rotated_file path = some (97 ∷ colon ∷ 98 ∷ 58 ∷ newline ∷ 99 ∷ [])

abbrev stale_client : Rpc ℕ
stale_client = record { http = 0; url = 1 ∷ []; auth = no_auth; cfg = settings }

reconnect_anew_example :
    reconnect new_client rotated_file stale_client
    ≡ elim (connect new_client rotated_file settings) [
      | none ↦ (false, stale_client)
      | some s ↦ (true, s)
    ]
reconnect_anew_example = reconnect_anew new_client rotated_file stale_client refl

reconnect_rotated_example : reconnect new_client rotated_file stale_client ≡ (
  true,
  record { http = 30; url = 1 ∷ []; auth = basic (97 ∷ []) (98 ∷ 58 ∷ []); cfg = settings },
)
reconnect_rotated_example =
    reconnect_rotated new_client rotated_file stale_client (2 ∷ []) (97 ∷ []) (98 ∷ 58 ∷ [])
      (newline ∷ 99 ∷ []) 30 refl refl refl (refl, refl) (refl, refl) (inr (99 ∷ [], refl)) refl

-- An error in an envelope, with the status 500.
abbrev vanished_tx : Response
vanished_tx = record { status = 500; content_length = none; chunks = some (1 ∷ []) ∷ [] }

abbrev parse_error : List ℕ → Option (RpcResponse ℕ)
parse_error bytes = some (record { result = 0; error = some (pos 1, []) })

abbrev parse_value : ℕ → Option ℕ
parse_value v = some v

abbrev as_text : List ℕ → List ℕ
as_text bytes = bytes

call_reconnects_example :
    asks_reconnect (call parse_error parse_value as_text (some vanished_tx) 10) ≡ false
unfolding read_body_bounded
call_reconnects_example = call_reconnects parse_error parse_value as_text (some vanished_tx) 10
