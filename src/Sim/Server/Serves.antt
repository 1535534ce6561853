-- ===== src/Sim/Server/Serves.antt =====
-- src/sim/server.rs: the node that `run_cli` serves, through the turns of the churn task.
use satya_btc.Common.{
  ℕ, zero, suc, ◌+◌, ◌*◌, ◌≡◌, List, refl, ap, ◌∙◌, sym, subst, not, ◌&&◌, inl, inr, arith,
  Bool-cases, add64, add32, ◌==◌, max,
}
use satya_btc.Float.{Float, IsFloat, Ge}
use satya_btc.Sim.Random.{Rng, Draw, Casts, IsFresh}
use satya_btc.Sim.Node.{MockNode, ChurnConfig}
use satya_btc.Sim.Node.Arrival.{advance, mass_drop, reload}
use satya_btc.Sim.Node.Block.{mine_block}
use satya_btc.Sim.Node.Settings.{mine_block-cfg, new_node-cfg, advance-cfg, mass_drop-cfg}
use satya_btc.Sim.Node.Truthful.Steps.{IsRoomy, fewer-IsRoomy, IsTruthful}
use satya_btc.Sim.Node.Truthful.Churn.{
  new_node-IsTruthful, advance-IsTruthful, mass_drop-IsTruthful,
}
use satya_btc.Sim.Node.Truthful.Mine.{mine_block-IsTruthful}
use satya_btc.Sim.Node.Truthful.History.{restart, perform-IsTruthful}
use satya_btc.Sim.Server.{ChurnClock, is_multiple_of, ticks_per_block, block_step, churn_step}
use satya_btc.Sim.Server.Blocks.{turns}
use satya_btc.Sim.Server.Flags.{SimServeArgs, churn_config, run_cli, least_skew}
use satya_btc.Sim.Server.Corrected.{churn_config_corrected, chain_flag}

module _ {R F : Type 0} ⦃f : Float F⦄ ⦃casts : Casts F⦄ ⦃rng : Rng R⦄ ⦃draw : Draw R F⦄ where
  -- The node after `k` turns of the churn task, which comes every two seconds.
  abbrev pub served : ℕ → (List ℕ → ℕ) → R → SimServeArgs F → ℕ → MockNode R F
  served now hash seeded args k =
      (turns k (ticks_per_block args.block_secs 2) args.reload_every
        (record { tick = 0; blocks = 0 }, (run_cli now hash seeded args).node)).1

module _ {R F : Type 0} ⦃f : Float F⦄ ⦃casts : Casts F⦄ ⦃rng : Rng R⦄ ⦃draw : Draw R F⦄
    (fresh : IsFresh R F) where
  block_step-IsTruthful :
      (reload_every born : ℕ) (c : ChurnClock) (n : MockNode R F)
      → IsRoomy 500 born
      → IsTruthful fresh 500 born n
      → IsTruthful fresh 500 born (block_step reload_every c n).1
        × ((block_step reload_every c n).1.cfg ≡ n.cfg)
  unfolding block_step reload
  block_step-IsTruthful reload_every born c n room h =
      let mined = mine_block-IsTruthful fresh 500 born n room h in
      let part = f.div (f.of_u64 8) (f.of_u64 10) in
      let due = not (reload_every == 0) && is_multiple_of (add32 c.blocks 1) reload_every in
      elim (Bool-cases due) [
        | inr e ↦ rw (block_step, e) (mined, mine_block-cfg n)
        | inl e ↦
            let dropped = mass_drop-IsTruthful fresh 500 part born (mine_block n) mined in
            rw (block_step, e)
              (
                perform-IsTruthful fresh 500 born restart (mass_drop part (mine_block n)) room
                    dropped,
                (mass_drop-cfg part (mine_block n)).0 ∙ mine_block-cfg n,
              )
      ]

  churn_step-IsTruthful :
      (tpb reload_every born : ℕ) (c : ChurnClock) (n : MockNode R F)
      → IsRoomy 500 (n.cfg.arrivals_per_tick + born)
      → IsTruthful fresh 500 born n
      → IsTruthful fresh 500 (n.cfg.arrivals_per_tick + born) (churn_step tpb reload_every (c, n)).1
        × ((churn_step tpb reload_every (c, n)).1.cfg ≡ n.cfg)
  unfolding churn_step
  churn_step-IsTruthful tpb reload_every born c n room h =
      let moved = advance-IsTruthful fresh 500 born n room h in
      let c' : ChurnClock = record c { tick = add64 c.tick 1 } in
      elim (Bool-cases (not (tpb == 0) && is_multiple_of (add64 c.tick 1) tpb)) [
        | inr e ↦ rw (churn_step, e) (moved, (advance-cfg n).0)
        | inl e ↦
            let (kept, same) =
              block_step-IsTruthful reload_every (n.cfg.arrivals_per_tick + born) c' (advance n)
                room moved in
            rw (churn_step, e) (kept, same ∙ (advance-cfg n).0)
      ]

  -- A turn of a node whose arrivals in a tick are known.
  next_turn :
      (tpb reload_every born a : ℕ) (s : ChurnClock × MockNode R F)
      → s.1.cfg.arrivals_per_tick ≡ a
      → IsRoomy 500 (a + born)
      → IsTruthful fresh 500 born s.1
      → IsTruthful fresh 500 (a + born) (churn_step tpb reload_every s).1
        × ((churn_step tpb reload_every s).1.cfg ≡ s.1.cfg)
  next_turn tpb reload_every born a (c, n) known room h =
      let (kept, same) =
        churn_step-IsTruthful tpb reload_every born c n
          (subst (λ b. IsRoomy 500 (b + born)) (sym known) room) h in
      (
        subst (λ b. IsTruthful fresh 500 (b + born) (churn_step tpb reload_every (c, n)).1) known
            kept,
        same,
      )

  turns-IsTruthful :
      (tpb reload_every born k a : ℕ) (c : ChurnClock) (n : MockNode R F)
      → n.cfg.arrivals_per_tick ≡ a
      → IsRoomy 500 (k * a + born)
      → IsTruthful fresh 500 born n
      → IsTruthful fresh 500 (k * a + born) (turns k tpb reload_every (c, n)).1
        × ((turns k tpb reload_every (c, n)).1.cfg ≡ n.cfg)
  turns-IsTruthful tpb reload_every born zero a c n known room h =
      let same : born ≡ 0 * a + born = omega arith in
      (subst (λ b. IsTruthful fresh 500 b n) same h, refl)
  turns-IsTruthful tpb reload_every born (suc k) a c n known room h =
      let s = turns k tpb reload_every (c, n) in
      let total : a + (k * a + born) ≡ suc k * a + born = grind arith in
      let (kept, same) =
        turns-IsTruthful tpb reload_every born k a c n known
          (fewer-IsRoomy 500 (k * a + born) (suc k * a + born) (omega (arith, total)) room) h in
      let arrivals : s.1.cfg.arrivals_per_tick ≡ a =
        ap (λ (g : ChurnConfig F). g.arrivals_per_tick) same ∙ known in
      let (kept', same') =
        next_turn tpb reload_every (k * a + born) a s arrivals
          (subst (IsRoomy 500) (sym total) room) kept in
      (
        subst (λ b. IsTruthful fresh 500 b (churn_step tpb reload_every s).1) total kept',
        same' ∙ same,
      )

  run_cli-IsTruthful :
      (now : ℕ) (hash : List ℕ → ℕ) (seeded : R) (args : SimServeArgs F) (k : ℕ)
      → IsRoomy 500 (k * args.arrivals + args.size)
      → IsTruthful fresh 500 (k * args.arrivals + args.size) (served now hash seeded args k)
        × ((served now hash seeded args k).cfg ≡ churn_config args)
  unfolding run_cli churn_config
  run_cli-IsTruthful now hash seeded args k room =
      let n = (run_cli now hash seeded args).node in
      let own = new_node-cfg hash seeded args.size (churn_config args) in
      let first =
        new_node-IsTruthful fresh 500 hash seeded args.size (churn_config args) (omega arith)
          (fewer-IsRoomy 500 args.size (k * args.arrivals + args.size) (omega arith) room) in
      let (kept, same) =
        turns-IsTruthful (ticks_per_block args.block_secs 2) args.reload_every args.size k
          args.arrivals (record { tick = 0; blocks = 0 }) n
          (ap (λ (g : ChurnConfig F). g.arrivals_per_tick) own) room first in
      (kept, same ∙ own)

  -- Whatever the flags and the order of the node's map, after any turns of the churn task, with floats
  -- that keep the IEEE facts, if no txid is drawn twice, the ranges of the draws are kept, and the sizes
  -- of all that arrived, also times the greatest fee rate 500, fit a u64: no sum of amounts ever
  -- overflowed, and no fee is above 500 sat/vB;
  -- each transaction of the served node stands alone with its own ancestor totals, or on a parent in
  -- the mempool whose totals it adds to its own; its descendant totals are its own, with those of its
  -- child if it has one; no chain has more transactions than the flag allows, or than one where that is
  -- 0; the chance of a child is between 0 and 1, and the skew of the fees is at least a tenth.
  pub run_cli_serves :
      IsFloat F
      → (now : ℕ) (hash : List ℕ → ℕ) (seeded : R) (args : SimServeArgs F) (k : ℕ)
      → IsRoomy 500 (k * args.arrivals + args.size)
      → IsTruthful fresh 500 (k * args.arrivals + args.size) (served now hash seeded args k)
        × ((served now hash seeded args k).cfg.max_chain ≡ max args.max_chain 1)
        × Ge (served now hash seeded args k).cfg.cpfp_fraction (f.of_u64 0)
        × Ge (f.of_u64 1) (served now hash seeded args k).cfg.cpfp_fraction
        × Ge (served now hash seeded args k).cfg.fee.skew (least_skew {F = F})
  run_cli_serves laws now hash seeded args k room =
      let (kept, same) = run_cli-IsTruthful now hash seeded args k room in
      let (low, high, skew, some_chain, in_range) = churn_config_corrected laws args in
      (
        kept,
        ap (λ (g : ChurnConfig F). g.max_chain) same ∙ chain_flag laws args,
        subst (λ (g : ChurnConfig F). Ge g.cpfp_fraction (f.of_u64 0)) (sym same) low,
        subst (λ (g : ChurnConfig F). Ge (f.of_u64 1) g.cpfp_fraction) (sym same) high,
        subst (λ (g : ChurnConfig F). Ge g.fee.skew (least_skew {F = F})) (sym same) skew,
      )
