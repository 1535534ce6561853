-- ===== src/Sim/Node/Arrival.antt =====
-- src/sim/mock_node.rs: a new transaction, on its own or as the child of another, and a tick of churn.
use satya_btc.Common.{
  not, ℕ, zero, suc, ◌+◌, ◌-◌, ◌*◌, ◌%◌, Bool, true, false, ◌&&◌, ◌||◌, Option, none, some, List,
  [], ◌∷◌, add64, saturating_mul64, u64_mod, ltb, leb, ◌==◌, if◌then◌else◌, length, get_or,
  is_empty, min,
}
use satya_btc.Float.{Float}
use satya_btc.Rpc.{MempoolEntry}
use satya_btc.Mempool.{keys, map_insert}
use satya_btc.Sim.Random.{Rng, Draw, Casts, less}
use satya_btc.Sim.Node.{
  amounts_fit, lookup, FeeDistribution, ChurnConfig, MockNode, entry_at, own_rate_sat_vb,
  ancestors_of, adjust_descendant_totals, evict_times,
}

-- `best` after the candidate `t` with the rate `r`.
abbrev pub better : Option (ℕ × ℕ) → ℕ → ℕ → Option (ℕ × ℕ)
better none r t = some (r, t)
better (some (br, bt)) r t =
    if ltb br r || ((br == r) && leb bt t) then some (br, bt) else some (r, t)

-- The childless ones whose chain is shorter than `max_chain`.
abbrev pub eligible : List (ℕ × MempoolEntry) → List (ℕ × ℕ) → ℕ → List ℕ → List ℕ
eligible txs children max_chain [] = []
eligible txs children max_chain (t ∷ rest) =
    let more = eligible txs children max_chain rest in
    elim (lookup t children) [
      | some c ↦ more
      | none ↦ if ltb (length (ancestors_of txs t) + 1) max_chain then t ∷ more else more
    ]

module _ {F : Type 0} ⦃f : Float F⦄ ⦃casts : Casts F⦄ where
  unfoldable pub uniform : ℕ → ℕ → FeeDistribution F
  uniform min_sat_vb max_sat_vb = record {
    min_sat_vb = min_sat_vb;
    max_sat_vb = max_sat_vb;
    skew = f.of_u64 1;
  }

  unfoldable pub skewed : ℕ → ℕ → F → FeeDistribution F
  skewed min_sat_vb max_sat_vb skew = record {
    min_sat_vb = min_sat_vb;
    max_sat_vb = max_sat_vb;
    skew = if casts.is_finite skew && less (f.of_u64 0) skew then skew else f.of_u64 1;
  }

module _ {R : Type 0} ⦃rng : Rng R⦄ where
  unfoldable pub gen_standalone_entry : ℕ → R → (ℕ × MempoolEntry) × R
  gen_standalone_entry sat_vb r =
      let (txid, r1) = rng.fill r in
      let (vsize, r2) = rng.gen_range 110 100_000 r1 in
      let base = saturating_mul64 sat_vb vsize in
      (
        (
          txid,
          record {
            vsize = vsize;
            weight = some (vsize * 4 % u64_mod);
            depends = [];
            fees = record { base = base; ancestor = base; descendant = base };
            ancestorsize = vsize;
            descendantsize = vsize;
            time = some 1_700_000_000;
          },
        ),
        r2,
      )

  -- The samples of `pick_parent`.
  unfoldable pub sample_best :
      List (ℕ × MempoolEntry) → List ℕ → ℕ → Option (ℕ × ℕ) → R → Option (ℕ × ℕ) × R
  sample_best txs candidates zero best r = (best, r)
  sample_best txs candidates (suc samples) best r =
      let (idx, r') = rng.gen_range 0 (length candidates - 1) r in
      let t = get_or candidates idx 0 in
      sample_best txs candidates samples (better best (own_rate_sat_vb (entry_at txs t)) t) r'

module _ {R F : Type 0} ⦃rng : Rng R⦄ where
  unfoldable pub pick_parent : MockNode R F → Option ℕ × R
  unfolding sample_best
  pick_parent n =
      let candidates = eligible n.txs n.children n.cfg.max_chain (keys n.txs) in
      let (best, r) = sample_best n.txs candidates (min (length candidates) 8) none n.rng in
      if ltb n.cfg.max_chain 2 || is_empty candidates
      then (none, n.rng)
      else (elim best [ none ↦ none | some (_, t) ↦ some t ], r)

  unfoldable pub attach_child : ℕ → MockNode R F → MockNode R F
  unfolding gen_standalone_entry adjust_descendant_totals
  attach_child parent n =
      let ((txid, alone), r) = gen_standalone_entry n.cfg.fee.max_sat_vb n.rng in
      let p = entry_at n.txs parent in
      let entry = record alone {
        depends = parent ∷ [];
        ancestorsize = add64 alone.vsize p.ancestorsize;
        fees = record alone.fees { ancestor = alone.fees.base + p.fees.ancestor };
      } in
      let added =
        adjust_descendant_totals parent entry.vsize entry.fees.base true
          (map_insert txid entry n.txs) in
      record n {
        rng = r;
        txs = added;
        children = map_insert parent txid n.children;
        panicked = n.panicked || not (amounts_fit added (keys added));
      }

  unfoldable pub insert_alone : ℕ → MockNode R F → MockNode R F
  unfolding gen_standalone_entry
  insert_alone sat_vb n =
      let ((txid, entry), r) = gen_standalone_entry sat_vb n.rng in
      record n { rng = r; txs = map_insert txid entry n.txs }

module _ {R F : Type 0} ⦃f : Float F⦄ ⦃casts : Casts F⦄ ⦃rng : Rng R⦄ ⦃draw : Draw R F⦄ where
  unfoldable pub sample_fee_rate : FeeDistribution F → R → ℕ × R
  sample_fee_rate fee r =
      let (u, r') = draw.gen r in
      let span = f.of_u64 (fee.max_sat_vb - fee.min_sat_vb) in
      let rate = add64 fee.min_sat_vb (casts.round_u64 (f.mul span (casts.powf u fee.skew))) in
      if leb fee.max_sat_vb fee.min_sat_vb
      then (fee.min_sat_vb, r)
      else (min rate fee.max_sat_vb, r')

  -- Whether to attach; the draw is taken only where the fraction is positive.
  unfoldable pub draw_attach : ChurnConfig F → R → Bool × R
  draw_attach cfg r =
      let (u, r') = draw.gen r in
      if less (f.of_u64 0) cfg.cpfp_fraction then (less u cfg.cpfp_fraction, r') else (false, r)

  -- An arrival that does not attach.
  unfoldable pub arrive_alone : MockNode R F → MockNode R F
  unfolding sample_fee_rate insert_alone
  arrive_alone n =
      let (sat_vb, r) = sample_fee_rate n.cfg.fee n.rng in
      insert_alone sat_vb (record n { rng = r })

  unfoldable pub add_arrival : MockNode R F → MockNode R F
  unfolding draw_attach pick_parent attach_child arrive_alone
  add_arrival n =
      let (attach, r) = draw_attach n.cfg n.rng in
      let (parent, r') = pick_parent (record n { rng = r }) in
      elim attach [
        | false ↦ arrive_alone (record n { rng = r })
        | true ↦ elim parent [
          | none ↦ arrive_alone (record n { rng = r' })
          | some p ↦ attach_child p (record n { rng = r' })
        ]
      ]

  unfoldable pub arrive_times : ℕ → MockNode R F → MockNode R F
  unfolding add_arrival
  arrive_times zero n = n
  arrive_times (suc k) n = arrive_times k (add_arrival n)

  -- `MockNode::new`, from a seeded generator and the random state of its map.
  unfoldable pub new_node : (List ℕ → ℕ) → R → ℕ → ChurnConfig F → MockNode R F
  unfolding arrive_times
  new_node hash seeded initial_size cfg = arrive_times initial_size (record {
    txs = [];
    children = [];
    tip_height = 800_000;
    min_fee = 1000;
    reloading = false;
    rng = seeded;
    cfg = cfg;
    hash = hash;
    panicked = false;
  })

  unfoldable pub advance : MockNode R F → MockNode R F
  unfolding arrive_times evict_times
  advance n =
      arrive_times n.cfg.arrivals_per_tick
        (evict_times n.cfg.evictions_per_tick (record n { reloading = false }))

  unfoldable pub reload : MockNode R F → MockNode R F
  reload n = record n { reloading = true }

  unfoldable pub mass_drop : F → MockNode R F → MockNode R F
  unfolding evict_times
  mass_drop fraction n = evict_times (casts.trunc_u64 (f.mul (f.of_u64 (length n.txs)) fraction)) n
