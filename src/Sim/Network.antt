-- ===== src/Sim/Network.antt =====
-- src/sim/network.rs. The time of a call is an argument,
-- in nanoseconds since the start. The delay only takes time.
pub mod Budget
pub mod Answers
mod Tests
use satya_btc.Common.{
  ℕ, suc, ◌+◌, ◌-◌, ◌*◌, Bool, true, false, ◌&&◌, Option, none, some, List, [], ◌∷◌, Ordering, ltb,
  leb, if◌then◌else◌, length, saturating_mul64,
}
use satya_btc.Float.{Float}
use satya_btc.Sim.Random.{Draw, less}
use satya_btc.Rpc.{
  Result, ok, err, RpcError, http_status, body_too_large, MempoolInfo, MempoolEntry, MempoolRpc,
}

abbrev pub one_second : ℕ
one_second = 1_000_000_000

pub record NetworkProfile (F : Type 0) : Type 0 where
  pub latency : ℕ
  pub req_per_sec : Option ℕ
  pub body_cap : Option ℕ
  pub drop_rate : F

pub record Limiter : Type 0 where
  pub window_start : ℕ
  pub count : ℕ

abbrev pub new_limiter : ℕ → Limiter
new_limiter now = record { window_start = now; count = 0 }

-- The window, started again if it is over.
unfoldable pub roll : Limiter → ℕ → Limiter
roll l now =
    if leb one_second (now - l.window_start) then record { window_start = now; count = 0 } else l

unfoldable pub check_rate_limit : Limiter → ℕ → ℕ → Bool × Limiter
unfolding roll
check_rate_limit l limit now =
    let l' = roll l now in
    if leb limit l'.count then (false, l') else (true, record l' { count = suc l'.count })

pub record Shared (R : Type 0) : Type 0 where
  pub limiter : Limiter
  pub rng : R

pub record SimulatedRpc (N R F : Type 0) : Type 0 where
  pub inner : N
  pub profile : NetworkProfile F
  pub shared : Shared R

-- The body of a dropped call: `simulated transport drop`.
abbrev pub drop_body : List ℕ
drop_body =
    115 ∷ 105 ∷ 109 ∷ 117 ∷ 108 ∷ 97 ∷ 116 ∷ 101 ∷ 100 ∷ 32 ∷ 116 ∷ 114 ∷ 97 ∷ 110 ∷ 115 ∷ 112 ∷ 111
    ∷ 114 ∷ 116 ∷ 32 ∷ 100 ∷ 114 ∷ 111 ∷ 112 ∷ []

-- The body of a verbose answer is held against the cap, at 180 bytes for each entry.
unfoldable pub cap_body :
    Option ℕ → Result (List (ℕ × MempoolEntry)) → Result (List (ℕ × MempoolEntry))
cap_body none a = a
cap_body (some limit) (err e) = err e
cap_body (some limit) (ok entries) =
    if ltb limit (saturating_mul64 (length entries) 180)
    then err (body_too_large limit)
    else ok entries

module _ {F : Type 0} ⦃f : Float F⦄ where
  unfoldable pub local_node : NetworkProfile F
  local_node = record { latency = 0; req_per_sec = none; body_cap = none; drop_rate = f.of_u64 0 }

  unfoldable pub getblock_remote : NetworkProfile F
  getblock_remote = record {
    latency = 150_000_000;
    req_per_sec = some 20;
    body_cap = some (512 * 1024 * 1024);
    drop_rate = f.of_u64 0;
  }

  module _ {R : Type 0} ⦃draw : Draw R F⦄ where
    -- The draw is taken only where there is a rate.
    unfoldable pub dropped : NetworkProfile F → R → Bool × R
    dropped p r =
        let (u, r') = draw.gen r in
        if less (f.of_u64 0) p.drop_rate then (less u p.drop_rate, r') else (false, r)

    -- `none` lets the call through.
    unfoldable pub gate : NetworkProfile F → ℕ → Shared R → Option RpcError × Shared R
    unfolding dropped check_rate_limit
    gate p now s =
        let (drop, rng') = dropped p s.rng in
        let s' = record s { rng = rng' } in
        elim drop [
          | true ↦ (some (http_status 503 drop_body), s')
          | false ↦ elim p.req_per_sec [
            | none ↦ (none, s')
            | some limit ↦
                let (within, l) = check_rate_limit s.limiter limit now in
                (if within then none else some (http_status 429 []), record s' { limiter = l })
          ]
        ]

  module _ {N R : Type 0} ⦃draw : Draw R F⦄ where
    -- A call through the gate to the node, whose answer is then passed on by `after`.
    unfoldable pub through :
        {A : Type 0}
        → (Result A → Result A)
        → (N → Result A)
        → ℕ
        → SimulatedRpc N R F
        → Result A × SimulatedRpc N R F
    unfolding gate
    through after ask now sim =
        let (refused, s') = gate sim.profile now sim.shared in
        (elim refused [ some e ↦ err e | none ↦ after (ask sim.inner) ], record sim { shared = s' })

  module _ {N R : Type 0} ⦃rpc : MempoolRpc N⦄ ⦃draw : Draw R F⦄ where
    unfoldable pub mempool_info : ℕ → SimulatedRpc N R F → Result MempoolInfo × SimulatedRpc N R F
    unfolding through
    mempool_info = through (λ a. a) rpc.mempool_info

    unfoldable pub raw_mempool_txids : ℕ → SimulatedRpc N R F → Result (List ℕ) × SimulatedRpc N R F
    unfolding through
    raw_mempool_txids = through (λ a. a) rpc.raw_mempool_txids

    unfoldable pub raw_mempool_verbose :
        ℕ → SimulatedRpc N R F → Result (List (ℕ × MempoolEntry)) × SimulatedRpc N R F
    unfolding through cap_body
    raw_mempool_verbose now sim =
        through (cap_body sim.profile.body_cap) rpc.raw_mempool_verbose now sim

    unfoldable pub mempool_entry :
        ℕ → ℕ → SimulatedRpc N R F → Result (Option MempoolEntry) × SimulatedRpc N R F
    unfolding through
    mempool_entry txid = through (λ a. a) (λ n. rpc.mempool_entry n txid)

    unfoldable pub tip_height : ℕ → SimulatedRpc N R F → Result ℕ × SimulatedRpc N R F
    unfolding through
    tip_height = through (λ a. a) rpc.tip_height

    unfoldable pub reconnect : SimulatedRpc N R F → Bool × SimulatedRpc N R F
    reconnect sim = let (done, n) = rpc.reconnect sim.inner in (done, record sim { inner = n })
