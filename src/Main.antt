-- ===== src/Main.antt =====
-- src/main.rs: the probe for the network at the start. The answers of the node are an input, by the
-- number of the attempt. The rest of `main` only starts the tasks.
use satya_btc.Common.{
  ℕ, zero, suc, ◌+◌, ◌≤◌, ◌<◌, ◌≡◌, refl, true, false, ◌&&◌, ◌⊎◌, inl, inr, Option, none, some,
  arith, ltb, if◌then◌else◌, Bool-cases,
}
use satya_btc.Rpc.{Result, ok, err, is_reconnectable}
use satya_btc.Rpc.Client.Errors.{asks_reconnect}

abbrev pub max_attempts : ℕ
max_attempts = 5

-- How the loop ends: the last answer, its attempt, and the reconnects.
pub record Probe (N : Type 0) : Type 0 where
  pub answer : Result N
  pub attempt : ℕ
  pub reconnects : ℕ

module _ {N : Type 0} (network : ℕ → Result N) where
  -- The loop on fuel, from an attempt on; `none` is out of fuel.
  unfoldable pub probe_from : ℕ → ℕ → ℕ → Option (Probe N)
  unfolding is_reconnectable
  probe_from zero attempt reconnects = none
  probe_from (suc fuel) attempt reconnects =
      let more = probe_from fuel (suc attempt) (suc reconnects) in
      let stop =
        some (record { answer = network attempt; attempt = attempt; reconnects = reconnects }) in
      elim (network attempt) [
        | ok n ↦ stop
        | err e ↦ if is_reconnectable e && ltb attempt max_attempts then more else stop
      ]

  unfoldable pub probe_network : Option (Probe N)
  unfolding probe_from
  probe_network = probe_from max_attempts 1 0

  -- An end of the loop that began at the attempt `first`.
  pub record IsEnd (first : ℕ) (p : Probe N) : Type 0 where
    pub bounds : (first ≤ p.attempt) × (p.attempt ≤ max_attempts)
    pub last : p.answer ≡ network p.attempt
    pub between : suc p.reconnects ≡ p.attempt
    pub retried : (k : ℕ) → first ≤ k → k < p.attempt → asks_reconnect (network k) ≡ true
    pub last_one : (p.attempt ≡ max_attempts) ⊎ (asks_reconnect (network p.attempt) ≡ false)

  earlier :
      (first : ℕ) (p : Probe N)
      → asks_reconnect (network first) ≡ true
      → IsEnd (suc first) p
      → IsEnd first p
  earlier first p h k = record {
    bounds = (omega (arith, k.bounds), k.bounds.1);
    last = k.last;
    between = k.between;
    retried =
        λ j l r. elim (compare_cases first j l) [ inl e ↦ rw e h | inr more ↦ k.retried j more r ];
    last_one = k.last_one;
  }
    where
      compare_cases : (a b : ℕ) → a ≤ b → (b ≡ a) ⊎ (suc a ≤ b)
      compare_cases a b l = elim (Bool-cases (ltb a b)) [
        | inl e ↦ inr (ground arith)
        | inr e ↦ inl (ground arith)
      ]

  stop-IsEnd :
      (attempt reconnects : ℕ)
      → suc reconnects ≡ attempt
      → attempt ≤ max_attempts
      → (attempt ≡ max_attempts) ⊎ (asks_reconnect (network attempt) ≡ false)
      → IsEnd attempt
          (record { answer = network attempt; attempt = attempt; reconnects = reconnects })
  stop-IsEnd attempt reconnects e l final = record {
    bounds = (omega arith, l);
    last = refl;
    between = e;
    retried = λ k h j. absurd (omega (arith, h, j));
    last_one = final;
  }

  probe_step :
      (fuel attempt reconnects : ℕ)
      → probe_from (suc fuel) attempt reconnects ≡ (
          if asks_reconnect (network attempt) && ltb attempt max_attempts
          then probe_from fuel (suc attempt) (suc reconnects)
          else some
              (record { answer = network attempt; attempt = attempt; reconnects = reconnects }))
  unfolding probe_from
  probe_step fuel attempt reconnects = go (network attempt) refl
    where
      go :
          (r : Result N)
          → network attempt ≡ r
          → probe_from (suc fuel) attempt reconnects ≡ (
              if asks_reconnect (network attempt) && ltb attempt max_attempts
              then probe_from fuel (suc attempt) (suc reconnects)
              else some
                  (record { answer = network attempt; attempt = attempt; reconnects = reconnects }))
      go (ok n) h = ground arith
      go (err e) h = ground arith

  abbrev Ends : ℕ → ℕ → ℕ → Type 0
  Ends fuel attempt reconnects =
      (p : Probe N) × (probe_from fuel attempt reconnects ≡ some p) × IsEnd attempt p

  probe_from-IsEnd :
      (fuel attempt reconnects : ℕ)
      → suc reconnects ≡ attempt
      → fuel + attempt ≡ suc max_attempts
      → 0 < fuel
      → Ends fuel attempt reconnects
  probe_from-IsEnd zero attempt reconnects e l pos = absurd (omega arith)
  probe_from-IsEnd (suc fuel) attempt reconnects e l pos =
      let step = probe_step fuel attempt reconnects in
      let here = stop-IsEnd attempt reconnects e (omega arith) in
      elim (Bool-cases (asks_reconnect (network attempt))) [
        | inr off ↦ (_, ground (arith, step), here (inr off))
        | inl on ↦ elim (Bool-cases (ltb attempt max_attempts)) [
          | inr off ↦ (_, ground (arith, step), here (inl (ground arith)))
          | inl more ↦
              let (p, run, end) =
                probe_from-IsEnd fuel (suc attempt) (suc reconnects) (omega (arith, e))
                  (omega arith) (ground arith) in
              (p, ground (arith, step), earlier attempt p on end)
        ]
      ]

  -- Whatever the node answers, the probe ends, after at most five attempts, with the answer of the
  -- last: each earlier one failed with an error that asks for a reconnect, one reconnect followed each
  -- of them, and the last did not fail so, or it was the last_one.
  pub probe_network_ends : (p : Probe N) × (probe_network ≡ some p) × IsEnd 1 p
  unfolding probe_network
  probe_network_ends = probe_from-IsEnd max_attempts 1 0 refl refl (omega arith)
