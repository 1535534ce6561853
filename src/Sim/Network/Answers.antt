-- ===== src/Sim/Network/Answers.antt =====
-- src/sim/network.rs: what a caller sees of the node behind the network.
use satya_btc.Common.{
  ℕ, ◌<◌, ◌≡◌, refl, subst, true, ◌⊎◌, inl, inr, some, List, [], arith, length, ltb,
  saturating_mul64, Option-cases, Bool-cases,
}
use satya_btc.Float.{Float, IsFloat}
use satya_btc.Rpc.{Result, ok, err, RpcError, http_status, body_too_large, MempoolEntry, MempoolRpc}
use satya_btc.Sim.Random.{Draw, less}
use satya_btc.Sim.Network.{
  NetworkProfile, Shared, SimulatedRpc, drop_body, local_node, dropped, gate, through, cap_body,
  mempool_info, raw_mempool_txids, raw_mempool_verbose, mempool_entry, tip_height,
}

-- The answer of the node, or a refusal of the network that the profile allows.
pub data IsServed {F A : Type 0} ⦃f : Float F⦄ (p : NetworkProfile F) (node answer : Result A)
    : Type 0 where
  passed : answer ≡ node → IsServed p node answer
  drops :
      less (f.of_u64 0) p.drop_rate ≡ true
      → answer ≡ err (http_status 503 drop_body)
      → IsServed p node answer
  limits :
      (limit : ℕ)
      → p.req_per_sec ≡ some limit
      → answer ≡ err (http_status 429 [])
      → IsServed p node answer

-- A list of entries that is over the cap of the profile.
pub record IsTooLarge {F : Type 0} (p : NetworkProfile F)
    (node answer : Result (List (ℕ × MempoolEntry))) : Type 0 where
  pub limit : ℕ
  pub entries : List (ℕ × MempoolEntry)
  pub capped : p.body_cap ≡ some limit
  pub listed : node ≡ ok entries
  pub over : limit < saturating_mul64 (length entries) 180
  pub refused : answer ≡ err (body_too_large limit)

module _ {F R : Type 0} ⦃f : Float F⦄ ⦃draw : Draw R F⦄ where
  gate_refuses :
      (p : NetworkProfile F) (now : ℕ) (s : Shared R) (e : RpcError)
      → (gate p now s).0 ≡ some e
      → ((less (f.of_u64 0) p.drop_rate ≡ true) × (e ≡ http_status 503 drop_body))
        ⊎ ((limit : ℕ) × (p.req_per_sec ≡ some limit) × (e ≡ http_status 429 []))
  unfolding gate dropped
  gate_refuses p now s e h = elim (Bool-cases (less (f.of_u64 0) p.drop_rate)) [
    | inl rate ↦ elim (Bool-cases (less (draw.gen s.rng).0 p.drop_rate)) [
      | inl drop ↦ inl (rate, ground arith)
      | inr keep ↦ elim (Option-cases p.req_per_sec) [
        | inl free ↦ absurd (ground arith)
        | inr (limit, is) ↦ inr (limit, is, ground arith)
      ]
    ]
    | inr none_dropped ↦ elim (Option-cases p.req_per_sec) [
      | inl free ↦ absurd (ground arith)
      | inr (limit, is) ↦ inr (limit, is, ground arith)
    ]
  ]

module _ {F N R A : Type 0} ⦃f : Float F⦄ ⦃draw : Draw R F⦄ (after : Result A → Result A)
    (ask : N → Result A) (now : ℕ) (sim : SimulatedRpc N R F) where
  through-IsServed : IsServed sim.profile (after (ask sim.inner)) (through after ask now sim).0
  unfolding through
  through-IsServed = elim (Option-cases (gate sim.profile now sim.shared).0) [
    | inl lets ↦ passed (rw (through, lets) refl)
    | inr (e, closed) ↦ elim (gate_refuses sim.profile now sim.shared e closed) [
      | inl (rate, is) ↦ drops rate (rw (through, closed, is) refl)
      | inr (limit, given, is) ↦ limits limit given (rw (through, closed, is) refl)
    ]
  ]

cap_body-IsTooLarge :
    {F : Type 0} (p : NetworkProfile F) (node : Result (List (ℕ × MempoolEntry)))
    → (cap_body p.body_cap node ≡ node) ⊎ IsTooLarge p node (cap_body p.body_cap node)
unfolding cap_body
cap_body-IsTooLarge p (err e) = elim (Option-cases p.body_cap) [
  | inl is ↦ inl (ground arith)
  | inr (limit, is) ↦ inl (ground arith)
]
cap_body-IsTooLarge p (ok entries) = elim (Option-cases p.body_cap) [
  | inl is ↦ inl (ground arith)
  | inr (limit, is) ↦ elim (Bool-cases (ltb limit (saturating_mul64 (length entries) 180))) [
    | inr fits ↦ inl (ground arith)
    | inl over ↦ inr (record {
      limit = limit;
      entries = entries;
      capped = is;
      listed = refl;
      over = ground arith;
      refused = ground arith;
    })
  ]
]

module _ {F : Type 0} ⦃f : Float F⦄ where
  served_locally :
      {A : Type 0} (p : NetworkProfile F) (node answer : Result A)
      → IsFloat F
      → p ≡ local_node
      → IsServed p node answer
      → answer ≡ node
  unfolding local_node
  served_locally p node answer laws same (passed e) = e
  served_locally p node answer laws same (drops rate e) =
      let k = laws.of_u64_num 0 in
      let zero_rate : less (f.of_u64 0) (f.of_u64 0) ≡ true =
        subst (λ (q : NetworkProfile F). less (f.of_u64 0) q.drop_rate ≡ true) same rate in
      absurd (ground arith)
  served_locally p node answer laws same (limits limit given e) = absurd (ground arith)

  verbose_locally :
      (p : NetworkProfile F) (node answer : Result (List (ℕ × MempoolEntry)))
      → IsFloat F
      → p ≡ local_node
      → IsServed p node answer ⊎ IsTooLarge p node answer
      → answer ≡ node
  unfolding local_node
  verbose_locally p node answer laws same (inl h) = served_locally p node answer laws same h
  verbose_locally p node answer laws same (inr big) =
      let capped = big.capped in absurd (ground arith)

module _ {F N R : Type 0} ⦃f : Float F⦄ ⦃rpc : MempoolRpc N⦄ ⦃draw : Draw R F⦄ where
  -- Each answer is the node's own or a refusal of the profile; a verbose answer may be too large.
  pub record IsFaithful (now : ℕ) (sim : SimulatedRpc N R F) : Type 0 where
    pub info : IsServed sim.profile (rpc.mempool_info sim.inner) (mempool_info now sim).0
    pub txids : IsServed sim.profile (rpc.raw_mempool_txids sim.inner) (raw_mempool_txids now sim).0
    pub verbose :
        IsServed sim.profile (rpc.raw_mempool_verbose sim.inner) (raw_mempool_verbose now sim).0
        ⊎ IsTooLarge sim.profile (rpc.raw_mempool_verbose sim.inner) (raw_mempool_verbose now sim).0
    pub entry :
        (txid : ℕ)
        → IsServed sim.profile (rpc.mempool_entry sim.inner txid) (mempool_entry txid now sim).0
    pub tip : IsServed sim.profile (rpc.tip_height sim.inner) (tip_height now sim).0

  verbose-cases :
      (now : ℕ) (sim : SimulatedRpc N R F)
      → IsServed sim.profile (rpc.raw_mempool_verbose sim.inner) (raw_mempool_verbose now sim).0
        ⊎ IsTooLarge sim.profile (rpc.raw_mempool_verbose sim.inner) (raw_mempool_verbose now sim).0
  unfolding raw_mempool_verbose
  verbose-cases now sim =
      go _ _ (cap_body-IsTooLarge sim.profile (rpc.raw_mempool_verbose sim.inner))
        (through-IsServed (cap_body sim.profile.body_cap) rpc.raw_mempool_verbose now sim)
    where
      go :
          (capped answer : Result (List (ℕ × MempoolEntry)))
          → (capped ≡ rpc.raw_mempool_verbose sim.inner)
            ⊎ IsTooLarge sim.profile (rpc.raw_mempool_verbose sim.inner) capped
          → IsServed sim.profile capped answer
          → IsServed sim.profile (rpc.raw_mempool_verbose sim.inner) answer
            ⊎ IsTooLarge sim.profile (rpc.raw_mempool_verbose sim.inner) answer
      go capped answer (inl e) h = inl (subst (λ n. IsServed sim.profile n answer) e h)
      go capped answer (inr big) (passed e) = inr (rw e big)
      go capped answer (inr big) (drops rate e) = inl (drops rate e)
      go capped answer (inr big) (limits limit given e) = inl (limits limit given e)

  -- Whatever the generator draws and whenever the call comes, a caller sees the answer of the node
  -- behind the network, or 503 if the profile has a rate of drops, or 429 if it has a limit, or for
  -- the verbose list, that it is over the cap of the profile.
  pub simulated-IsFaithful : (now : ℕ) (sim : SimulatedRpc N R F) → IsFaithful now sim
  unfolding mempool_info raw_mempool_txids mempool_entry tip_height
  simulated-IsFaithful now sim = record {
    info = through-IsServed (λ a. a) rpc.mempool_info now sim;
    txids = through-IsServed (λ a. a) rpc.raw_mempool_txids now sim;
    verbose = verbose-cases now sim;
    entry = λ txid. through-IsServed (λ a. a) (λ n. rpc.mempool_entry n txid) now sim;
    tip = through-IsServed (λ a. a) rpc.tip_height now sim;
  }

  -- Behind the profile of a local node each call gets the node's own answer.
  pub local_node_transparent :
      (now txid : ℕ) (sim : SimulatedRpc N R F)
      → IsFloat F
      → sim.profile ≡ local_node
      → ((mempool_info now sim).0 ≡ rpc.mempool_info sim.inner)
        × ((raw_mempool_txids now sim).0 ≡ rpc.raw_mempool_txids sim.inner)
        × ((raw_mempool_verbose now sim).0 ≡ rpc.raw_mempool_verbose sim.inner)
        × ((mempool_entry txid now sim).0 ≡ rpc.mempool_entry sim.inner txid)
        × ((tip_height now sim).0 ≡ rpc.tip_height sim.inner)
  local_node_transparent now txid sim laws e =
      let k = simulated-IsFaithful now sim in
      (
        served_locally sim.profile _ _ laws e k.info,
        served_locally sim.profile _ _ laws e k.txids,
        verbose_locally sim.profile _ _ laws e k.verbose,
        served_locally sim.profile _ _ laws e (k.entry txid),
        served_locally sim.profile _ _ laws e k.tip,
      )
