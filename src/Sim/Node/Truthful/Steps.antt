-- ===== src/Sim/Node/Truthful/Steps.antt =====
-- src/sim/mock_node.rs: an entry that is generated, and inserted on its own or as a child.
use satya_btc.Common.{
  ℕ, suc, ◌+◌, ◌*◌, ◌≤◌, ◌<◌, ◌≡◌, refl, sym, subst, true, false, inl, inr, none, some, [], ◌∷◌,
  arith, max, Option-cases, add64, u64_mod,
}
use satya_btc.Rpc.{MempoolEntry}
use satya_btc.Mempool.{map_insert}
use satya_btc.Sim.Random.{Rng, Draw, IsFresh}
use native.Mathlib.Nat.{mul-le-mul_left, mul-le-mul_right}
use satya_btc.Sim.Node.{lookup, entry_at, MockNode, ChurnConfig}
use satya_btc.Sim.Node.Truthful.Amounts.{all_amounts_fit}
use satya_btc.Sim.Node.Arrival.{gen_standalone_entry, attach_child, insert_alone}
use satya_btc.Sim.Node.Truthful.{IsForest}
use satya_btc.Sim.Node.Truthful.Shape.{adjust-IsShape, shape-IsForest}
use satya_btc.Sim.Node.Truthful.Arrive.{found_after, alone-IsForest, attached-IsForest}
use satya_btc.Sim.Node.Chains.{IsShallow, fewer-IsShallow, alone-IsShallow, attached-IsShallow}
use satya_btc.Sim.Node.Descendants.{IsDescended}
use satya_btc.Sim.Node.Descendants.Arrive.{alone-IsDescended, attached-IsDescended}
use satya_btc.Sim.Node.Truthful.Pick.{IsOpen}

-- The greatest rate of a fee.
abbrev pub top_rate : {F : Type 0} → ChurnConfig F → ℕ
top_rate cfg = max cfg.fee.min_sat_vb cfg.fee.max_sat_vb

-- The sizes of `born` transactions, and their fees at `u` sat/vB, fit a `u64`.
abbrev pub IsRoomy : ℕ → ℕ → Type 0
IsRoomy u born = (100_000 * born < u64_mod) × (u * (100_000 * born) < u64_mod)

pub fewer-IsRoomy : (u a b : ℕ) → a ≤ b → IsRoomy u b → IsRoomy u a
fewer-IsRoomy u a b h room =
    let less : 100_000 * a ≤ 100_000 * b = omega (arith, h) in
    (omega (arith, less, room.0), omega (arith, mul-le-mul_left u less, room.1))

module _ {R F : Type 0} ⦃rng : Rng R⦄ ⦃draw : Draw R F⦄ (fresh : IsFresh R F) (u : ℕ) where
  -- The chains and the totals are kept, and each txid was drawn before.
  pub record IsTruthful (born : ℕ) (n : MockNode R F) : Type 0 where
    pub forest : IsForest born n.txs n.children
    pub descended : IsDescended (100_000 * born) n.txs n.children
    pub shallow : IsShallow (max n.cfg.max_chain 1) n.txs
    pub used : (id : ℕ) (e : MempoolEntry) → lookup id n.txs ≡ some e → fresh.Used n.rng id
    pub price : top_rate n.cfg ≤ u
    pub priced : (id : ℕ) (e : MempoolEntry) → lookup id n.txs ≡ some e → e.fees.base ≤ u * e.vsize
    pub calm : n.panicked ≡ false

  -- What a generated entry keeps to.
  record IsGenerated (r r' : R) (id : ℕ) (e : MempoolEntry) : Type 0 where
    positive : 0 < e.vsize
    small : e.vsize ≤ 100_000
    new : fresh.Used r id → ⊥
    own : fresh.Used r' id
    keeps : (v : ℕ) → fresh.Used r v → fresh.Used r' v

  generated :
      (sat_vb : ℕ) (r : R)
      → IsGenerated r
          (gen_standalone_entry sat_vb r).1
          (gen_standalone_entry sat_vb r).0.0
          (gen_standalone_entry sat_vb r).0.1
  unfolding gen_standalone_entry
  generated sat_vb r =
      let after = (rng.fill r).1 in
      let range = fresh.in_range 110 100_000 after (omega arith) in
      record {
        positive = omega (arith, range);
        small = range.1;
        new = fresh.new r;
        own = fresh.range_keeps 110 100_000 after (rng.fill r).0 (fresh.drawn r);
        keeps = λ v u. fresh.range_keeps 110 100_000 after v (fresh.fill_keeps r v u);
      }

  generated_base :
      (sat_vb : ℕ) (r : R)
      → sat_vb ≤ u
      → (gen_standalone_entry sat_vb r).0.1.fees.base
        ≤ u * (gen_standalone_entry sat_vb r).0.1.vsize
  unfolding gen_standalone_entry
  generated_base sat_vb r low =
      let vsize = (gen_standalone_entry sat_vb r).0.1.vsize in
      omega (arith, mul-le-mul_right vsize low)

  priced_after :
      (id : ℕ) (x : MempoolEntry) (n : MockNode R F) (born : ℕ)
      → IsTruthful born n
      → x.fees.base ≤ u * x.vsize
      → (v : ℕ) (y : MempoolEntry) → lookup v (map_insert id x n.txs) ≡ some y
      → y.fees.base ≤ u * y.vsize
  priced_after id x n born h own v y l = elim (found_after id x n.txs v y l) [
    | inl (at, is) ↦ rw is own
    | inr old ↦ h.priced v y old
  ]

  -- A txid that was never drawn is no key.
  no_key :
      (born id : ℕ) (n : MockNode R F)
      → IsTruthful born n
      → (fresh.Used n.rng id → ⊥)
      → lookup id n.txs ≡ none
  no_key born id n h new = elim (Option-cases (lookup id n.txs)) [
    | inl e ↦ e
    | inr (e, is) ↦ absurd (new (h.used id e is))
  ]

  used_after :
      (born id : ℕ) (e : MempoolEntry) (n : MockNode R F) (r' : R)
      → IsTruthful born n
      → IsGenerated n.rng r' id e
      → (x : MempoolEntry) (v : ℕ) (y : MempoolEntry) → lookup v (map_insert id x n.txs) ≡ some y
      → fresh.Used r' v
  used_after born id e n r' h g x v y l = elim (found_after id x n.txs v y l) [
    | inl (at, is) ↦ subst (fresh.Used r') (sym at) g.own
    | inr old ↦ g.keeps v (h.used v y old)
  ]

  pub insert_alone-IsTruthful :
      (born sat_vb : ℕ) (n : MockNode R F)
      → sat_vb ≤ u
      → IsTruthful born n
      → IsTruthful (suc born) (insert_alone sat_vb n)
  unfolding insert_alone gen_standalone_entry
  insert_alone-IsTruthful born sat_vb n low h =
      let g = generated sat_vb n.rng in
      let id = (gen_standalone_entry sat_vb n.rng).0.0 in
      let e = (gen_standalone_entry sat_vb n.rng).0.1 in
      record {
        forest =
            alone-IsForest born n.txs n.children h.forest id e (no_key born id n h g.new) g.positive
              g.small refl refl refl;
        descended =
            alone-IsDescended born n.txs n.children h.forest h.descended id e
              (no_key born id n h g.new) g.small refl refl;
        shallow =
            alone-IsShallow born n.txs n.children h.forest id e (no_key born id n h g.new)
              (max n.cfg.max_chain 1) (omega arith) refl h.shallow;
        used = used_after born id e n _ h g e;
        price = h.price;
        priced = priced_after id e n born h (generated_base sat_vb n.rng low);
        calm = h.calm;
      }

  pub attach_child-IsTruthful :
      (born parent : ℕ) (n : MockNode R F)
      → IsRoomy u (suc born)
      → IsOpen n.txs n.children n.cfg.max_chain parent
      → IsTruthful born n
      → IsTruthful (suc born) (attach_child parent n)
  unfolding attach_child
  attach_child-IsTruthful born parent n room (childless, short, (pe, there)) h =
      let g = generated n.cfg.fee.max_sat_vb n.rng in
      let id = (gen_standalone_entry n.cfg.fee.max_sat_vb n.rng).0.0 in
      let alone = (gen_standalone_entry n.cfg.fee.max_sat_vb n.rng).0.1 in
      let p = entry_at n.txs parent in
      let same : p ≡ pe = ground arith in
      let entry : MempoolEntry = record alone {
        depends = parent ∷ [];
        ancestorsize = add64 alone.vsize p.ancestorsize;
        fees = record alone.fees { ancestor = alone.fees.base + p.fees.ancestor };
      } in
      let low = h.forest.bound parent pe there in
      let fits : add64 alone.vsize p.ancestorsize ≡ alone.vsize + pe.ancestorsize =
        rw same (omega (arith, g.small, low, room.0)) in
      let shape =
        adjust-IsShape parent alone.vsize alone.fees.base true (map_insert id entry n.txs) in
      let forest =
        shape-IsForest (suc born) (map_insert id entry n.txs) _ (map_insert parent id n.children)
          shape
          (attached-IsForest born n.txs n.children h.forest id entry (no_key born id n h g.new)
            g.positive g.small parent pe there childless refl fits (rw same refl)) in
      let descended =
        attached-IsDescended born n.txs n.children h.forest h.descended id entry
          (no_key born id n h g.new) g.small refl refl g.positive parent pe there childless refl
          fits (rw same refl) room.0 in
      let own : entry.fees.base ≤ u * entry.vsize =
        generated_base n.cfg.fee.max_sat_vb n.rng (omega (arith, h.price)) in
      let priced : (v : ℕ) (y : MempoolEntry)
          → lookup v (attach_child parent n).txs ≡ some y
          → y.fees.base ≤ u * y.vsize =
        λ v y l.
          let (x, before, s) = shape.back v y l in
          rw (s.base, s.vsize) (priced_after id entry n born h own v x before) in
      let fit =
        all_amounts_fit u (suc born) (attach_child parent n).txs (attach_child parent n).children
          forest descended priced room.1 in
      record {
        forest = forest;
        descended = descended;
        shallow =
            fewer-IsShallow (max n.cfg.max_chain 1) (map_insert id entry n.txs) _
              (λ v y l. let (x, k, s) = shape.back v y l in (x, k, inr s.depends))
              (attached-IsShallow born n.txs n.children h.forest id entry (no_key born id n h g.new)
                (max n.cfg.max_chain 1) parent pe there refl (omega (arith, short)) h.shallow);
        used = λ v y l.
            let (x, before, same_y) = shape.back v y l in
            used_after born id alone n _ h g entry v x before;
        price = h.price;
        priced = priced;
        calm = rw (h.calm, fit) refl;
      }
