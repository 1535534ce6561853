-- ===== src/Sim/Node/Truthful/Churn.antt =====
-- src/sim/mock_node.rs: arrivals and ticks of churn keep the chains.
use satya_btc.Common.{
  ℕ, zero, suc, ◌+◌, ◌≡◌, ◌≤◌, refl, List, sym, subst, false, inl, inr, some, [], arith, max,
  Option-cases, Bool-cases, leb, length,
}
use satya_btc.Float.{Float}
use satya_btc.Rpc.{MempoolEntry}
use satya_btc.Sim.Random.{Rng, Draw, Casts, IsFresh, less}
use satya_btc.Sim.Node.{lookup, MockNode, ChurnConfig, FeeDistribution}
use satya_btc.Sim.Node.Arrival.{
  pick_parent, add_arrival, arrive_alone, arrive_times, draw_attach, sample_fee_rate, new_node,
  advance, mass_drop,
}
use satya_btc.Sim.Node.Truthful.{IsForest}
use satya_btc.Sim.Node.Chains.{IsShallow}
use satya_btc.Sim.Node.Descendants.{IsDescended}
use satya_btc.Sim.Node.Truthful.Pick.{pick_parent-IsOpen}
use satya_btc.Sim.Node.Truthful.Evict.{evict_times-IsTruthful}
use satya_btc.Sim.Node.Truthful.Steps.{
  IsRoomy, fewer-IsRoomy, top_rate, IsTruthful, insert_alone-IsTruthful, attach_child-IsTruthful,
}

empty-IsForest : IsForest 0 [] []
empty-IsForest = record {
  linked = λ id e l. absurd (ground arith);
  sized = λ id e l. absurd (ground arith);
  bound = λ id e l. absurd (ground arith);
  index = λ p c l. absurd (ground arith);
}

empty-IsDescended : IsDescended 0 [] []
empty-IsDescended = record {
  whole = λ id e l. absurd (ground arith);
  low = λ id e l. absurd (ground arith);
}

empty-IsShallow : (bound : ℕ) → IsShallow bound []
empty-IsShallow bound = record { short = λ fuel v e l. absurd (ground arith) }

no_entry_found : (id : ℕ) (e : MempoolEntry) → lookup id [] ≡ some e → ⊥
no_entry_found id e l = absurd (ground arith)

module _ {R F : Type 0} ⦃f : Float F⦄ ⦃casts : Casts F⦄ ⦃rng : Rng R⦄ ⦃draw : Draw R F⦄
    (fresh : IsFresh R F) (u : ℕ) where
  -- Draws keep the chains.
  drawn-IsTruthful :
      (born : ℕ) (n : MockNode R F) (r : R)
      → ((id : ℕ) → fresh.Used n.rng id → fresh.Used r id)
      → IsTruthful fresh u born n
      → IsTruthful fresh u born (record n { rng = r })
  drawn-IsTruthful born n r keeps h = record {
    forest = h.forest;
    descended = h.descended;
    shallow = h.shallow;
    used = λ id e l. keeps id (h.used id e l);
    price = h.price;
    priced = h.priced;
    calm = h.calm;
  }

  draw_attach-Used :
      (cfg : ChurnConfig F) (r : R) (id : ℕ) → fresh.Used r id → fresh.Used (draw_attach cfg r).1 id
  unfolding draw_attach
  draw_attach-Used cfg r id u = elim (Bool-cases (less (f.of_u64 0) cfg.cpfp_fraction)) [
    | inl e ↦ rw (draw_attach, e) (fresh.gen_keeps r id u)
    | inr e ↦ rw (draw_attach, e) u
  ]

  sample_fee_rate-Used :
      (fee : FeeDistribution F) (r : R) (id : ℕ)
      → fresh.Used r id
      → fresh.Used (sample_fee_rate fee r).1 id
  unfolding sample_fee_rate
  sample_fee_rate-Used fee r id u = elim (Bool-cases (leb fee.max_sat_vb fee.min_sat_vb)) [
    | inl e ↦ rw (sample_fee_rate, e) u
    | inr e ↦ rw (sample_fee_rate, e) (fresh.gen_keeps r id u)
  ]

  -- A sampled rate is at most the greater bound of the distribution.
  sample_fee_rate_low :
      (fee : FeeDistribution F) (r : R)
      → (sample_fee_rate fee r).0 ≤ max fee.min_sat_vb fee.max_sat_vb
  unfolding sample_fee_rate
  sample_fee_rate_low fee r = elim (Bool-cases (leb fee.max_sat_vb fee.min_sat_vb)) [
    | inl e ↦ rw (sample_fee_rate, e) (omega arith)
    | inr e ↦ rw (sample_fee_rate, e) (omega arith)
  ]

  arrive_alone-IsTruthful :
      (born : ℕ) (n : MockNode R F)
      → IsTruthful fresh u born n
      → IsTruthful fresh u (suc born) (arrive_alone n)
  unfolding arrive_alone
  arrive_alone-IsTruthful born n h =
      insert_alone-IsTruthful fresh u born (sample_fee_rate n.cfg.fee n.rng).0
        (record n { rng = (sample_fee_rate n.cfg.fee n.rng).1 })
        (omega (arith, sample_fee_rate_low n.cfg.fee n.rng, h.price))
        (drawn-IsTruthful born n (sample_fee_rate n.cfg.fee n.rng).1
          (sample_fee_rate-Used n.cfg.fee n.rng) h)

  -- One arrival.
  add_arrival-IsTruthful :
      (born : ℕ) (n : MockNode R F)
      → IsRoomy u (suc born)
      → IsTruthful fresh u born n
      → IsTruthful fresh u (suc born) (add_arrival n)
  unfolding add_arrival
  add_arrival-IsTruthful born n room h =
      let r = (draw_attach n.cfg n.rng).1 in
      let n1 : MockNode R F = record n { rng = r } in
      let h1 = drawn-IsTruthful born n r (draw_attach-Used n.cfg n.rng) h in
      let (opens, kept) = pick_parent-IsOpen fresh n1 in
      let n2 : MockNode R F = record n { rng = (pick_parent n1).1 } in
      let h2 : IsTruthful fresh u born n2 = drawn-IsTruthful born n1 (pick_parent n1).1 kept h1 in
      elim (Bool-cases (draw_attach n.cfg n.rng).0) [
        | inr e ↦ rw (add_arrival, e) (arrive_alone-IsTruthful born n1 h1)
        | inl e ↦ elim (Option-cases (pick_parent n1).0) [
          | inl e1 ↦ rw (add_arrival, e, e1) (arrive_alone-IsTruthful born n2 h2)
          | inr (p, e1) ↦
              rw (add_arrival, e, e1)
                (attach_child-IsTruthful fresh u born p n2 room (opens p e1) h2)
        ]
      ]

  arrive_times-IsTruthful :
      (k born : ℕ) (n : MockNode R F)
      → IsRoomy u (k + born)
      → IsTruthful fresh u born n
      → IsTruthful fresh u (k + born) (arrive_times k n)
  unfolding arrive_times
  arrive_times-IsTruthful zero born n room h =
      let same : born ≡ 0 + born = omega arith in subst (λ b. IsTruthful fresh u b n) same h
  arrive_times-IsTruthful (suc k) born n room h =
      let same : k + suc born ≡ suc k + born = omega arith in
      let later =
        arrive_times-IsTruthful k (suc born) (add_arrival n) (subst (IsRoomy u) (sym same) room) (
          add_arrival-IsTruthful born n
            (fewer-IsRoomy u (suc born) (suc k + born) (omega arith) room) h) in
      subst (λ b. IsTruthful fresh u b (arrive_times k (add_arrival n))) same later

  awake-IsTruthful :
      (born : ℕ) (n : MockNode R F)
      → IsTruthful fresh u born n
      → IsTruthful fresh u born (record n { reloading = false })
  awake-IsTruthful born n h = record {
    forest = h.forest;
    descended = h.descended;
    shallow = h.shallow;
    used = h.used;
    price = h.price;
    priced = h.priced;
    calm = h.calm;
  }

  pub advance-IsTruthful :
      (born : ℕ) (n : MockNode R F)
      → IsRoomy u (n.cfg.arrivals_per_tick + born)
      → IsTruthful fresh u born n
      → IsTruthful fresh u (n.cfg.arrivals_per_tick + born) (advance n)
  unfolding advance
  advance-IsTruthful born n room h = arrive_times-IsTruthful n.cfg.arrivals_per_tick born _ room (
      evict_times-IsTruthful fresh u n.cfg.evictions_per_tick born (record n { reloading = false })
        (awake-IsTruthful born n h))

  pub mass_drop-IsTruthful :
      (fraction : F) (born : ℕ) (n : MockNode R F)
      → IsTruthful fresh u born n
      → IsTruthful fresh u born (mass_drop fraction n)
  unfolding mass_drop
  mass_drop-IsTruthful fraction born n h =
      evict_times-IsTruthful fresh u (casts.trunc_u64 (f.mul (f.of_u64 (length n.txs)) fraction))
        born n h

  pub new_node-IsTruthful :
      (hash : List ℕ → ℕ) (seeded : R) (initial_size : ℕ) (cfg : ChurnConfig F)
      → top_rate cfg ≤ u
      → IsRoomy u initial_size
      → IsTruthful fresh u initial_size (new_node hash seeded initial_size cfg)
  unfolding new_node
  new_node-IsTruthful hash seeded initial_size cfg price room =
      let same : initial_size + 0 ≡ initial_size = omega arith in
      let bare : MockNode R F = record {
        txs = [];
        children = [];
        tip_height = 800_000;
        min_fee = 1000;
        reloading = false;
        rng = seeded;
        cfg = cfg;
        hash = hash;
        panicked = false;
      } in
      let first =
        arrive_times-IsTruthful initial_size 0 bare (subst (IsRoomy u) (sym same) room) (record {
          forest = empty-IsForest;
          descended = empty-IsDescended;
          shallow = empty-IsShallow (max cfg.max_chain 1);
          used = λ id e l. absurd (no_entry_found id e l);
          price = price;
          priced = λ id e l. absurd (no_entry_found id e l);
          calm = refl;
        }) in
      subst (λ b. IsTruthful fresh u b (new_node hash seeded initial_size cfg)) same first
