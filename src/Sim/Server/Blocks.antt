-- ===== src/Sim/Server/Blocks.antt =====
-- src/sim/server.rs: how often the churn task mines a block.
use native.Mathlib.Nat.{add-mul-mod_self_right, mod-eq_of_lt, mod_self}
use satya_btc.Common.{
  ℕ, zero, suc, ◌+◌, ◌*◌, ◌%◌, ◌≤◌, ◌<◌, ◌≡◌, refl, ap, ◌∙◌, u64_mod, false, not, ◌&&◌, inl, inr,
  arith, add32, add64, u32_mod, ◌==◌, ==_iff, if◌then◌else◌, Bool-cases,
}
use satya_btc.Float.{Float}
use satya_btc.Sim.Random.{Rng, Draw, Casts}
use satya_btc.Sim.Node.{MockNode}
use satya_btc.Sim.Node.Arrival.{advance, reload}
use satya_btc.Sim.Node.Block.{mine_block}
use satya_btc.Sim.Node.Settings.{mine_block-tip, advance-cfg, mass_drop-cfg}
use satya_btc.Sim.Server.{ChurnClock, is_multiple_of, ticks_per_block, block_step, churn_step}

-- The clock after `k` turns: one block for each whole `tpb` of them.
record IsDue (tpb k : ℕ) (c : ChurnClock) : Type 0 where
  ticks : c.tick ≡ k
  rest : ℕ
  below : rest < tpb
  split : k ≡ rest + c.blocks * tpb

multiple_lem :
    (tpb rest q : ℕ) → rest < tpb → is_multiple_of (suc rest + q * tpb) tpb ≡ (suc rest == tpb)
multiple_lem zero rest q l = absurd (omega arith)
multiple_lem (suc d) rest q l =
    let same = add-mul-mod_self_right (suc rest) q (suc d) in
    elim (Bool-cases (suc rest == suc d)) [
      | inl at ↦
          let full : suc rest ≡ suc d = (==_iff (suc rest) (suc d)).0 at in
          let none_left : suc rest % suc d ≡ 0 = rw full (mod_self (suc d)) in
          rw (same, none_left, at) refl
      | inr off ↦
          let less : suc rest < suc d = ground (arith, l, off) in
          let kept : suc rest % suc d ≡ suc rest = mod-eq_of_lt less in
          rw (same, kept, off) (ground arith)
    ]

every_tick :
    (block_secs churn_secs : ℕ) → 0 < block_secs → 0 < ticks_per_block block_secs churn_secs
unfolding ticks_per_block
every_tick zero churn_secs mined = absurd (omega arith)
every_tick (suc b) churn_secs mined = omega arith

module _ {R F : Type 0} ⦃f : Float F⦄ ⦃casts : Casts F⦄ ⦃rng : Rng R⦄ ⦃draw : Draw R F⦄ where
  abbrev pub turns : ℕ → ℕ → ℕ → ChurnClock × MockNode R F → ChurnClock × MockNode R F
  turns zero tpb reload_every s = s
  turns (suc k) tpb reload_every s = churn_step tpb reload_every (turns k tpb reload_every s)

  -- The clock of a turn.
  churn_step_clock :
      (tpb reload_every : ℕ) (c : ChurnClock) (n : MockNode R F)
      → (churn_step tpb reload_every (c, n)).0 ≡ record {
        tick = add64 c.tick 1;
        blocks =
            if not (tpb == 0) && is_multiple_of (add64 c.tick 1) tpb
            then add32 c.blocks 1
            else c.blocks;
      }
  unfolding churn_step block_step
  churn_step_clock tpb reload_every c n =
      elim (Bool-cases (not (tpb == 0) && is_multiple_of (add64 c.tick 1) tpb)) [
        | inl e ↦ rw (churn_step, e) refl
        | inr e ↦ rw (churn_step, e) refl
      ]

  step-IsDue :
      (d reload_every k : ℕ) (c : ChurnClock) (n : MockNode R F)
      → suc k < u32_mod
      → IsDue (suc d) k c
      → IsDue (suc d) (suc k) (churn_step (suc d) reload_every (c, n)).0
  step-IsDue d reload_every k c n small h =
      let clock = churn_step_clock (suc d) reload_every c n in
      let split : suc k ≡ suc h.rest + c.blocks * suc d = omega (arith, h.split) in
      let now : add64 c.tick 1 ≡ suc k = omega (arith, h.ticks, small) in
      let due : is_multiple_of (add64 c.tick 1) (suc d) ≡ (suc h.rest == suc d) =
        rw (now, split) (multiple_lem (suc d) h.rest c.blocks h.below) in
      let positive : (suc d == 0) ≡ false = ground arith in
      let few : c.blocks ≤ k = omega (arith, h.split) in
      elim (Bool-cases (suc h.rest == suc d)) [
        | inl at ↦
            let full : h.rest ≡ d = ground (arith, ==_iff (suc h.rest) (suc d)) in
            let blocks : add32 c.blocks 1 ≡ suc c.blocks = omega (arith, few, small) in
            rw (clock, due, at, positive)
              (record {
                ticks = now;
                rest = 0;
                below = omega arith;
                split = rw blocks (omega (arith, h.split, full));
              })
        | inr off ↦
            let less : suc h.rest < suc d = ground (arith, h.below, off) in
            rw (clock, due, off, positive)
              (record {
                ticks = now;
                rest = suc h.rest;
                below = less;
                split = omega (arith, h.split);
              })
      ]

  turns-IsDue :
      (d reload_every k : ℕ) (n : MockNode R F)
      → k < u32_mod
      → IsDue (suc d) k (turns k (suc d) reload_every (record { tick = 0; blocks = 0 }, n)).0
  turns-IsDue d reload_every zero n small = record {
    ticks = refl;
    rest = 0;
    below = omega arith;
    split = omega arith;
  }
  turns-IsDue d reload_every (suc k) n small =
      let before = turns k (suc d) reload_every (record { tick = 0; blocks = 0 }, n) in
      step-IsDue d reload_every k before.0 before.1 small
        (turns-IsDue d reload_every k n (omega arith))

  block_step_tip :
      (reload_every : ℕ) (c : ChurnClock) (n : MockNode R F)
      → (block_step reload_every c n).1.tip_height ≡ add64 n.tip_height 1
  unfolding block_step reload
  block_step_tip reload_every c n =
      let part = f.div (f.of_u64 8) (f.of_u64 10) in
      elim (Bool-cases
        (not (reload_every == 0) && is_multiple_of (add32 c.blocks 1) reload_every)) [
          | inl e ↦ rw (block_step, e) ((mass_drop-cfg part (mine_block n)).1 ∙ mine_block-tip n)
          | inr e ↦ rw (block_step, e) (mine_block-tip n)
        ]

  -- The height of the node after a turn.
  churn_step_tip :
      (tpb reload_every : ℕ) (c : ChurnClock) (n : MockNode R F)
      → (churn_step tpb reload_every (c, n)).1.tip_height ≡ (
          if not (tpb == 0) && is_multiple_of (add64 c.tick 1) tpb
          then add64 n.tip_height 1
          else n.tip_height)
  unfolding churn_step
  churn_step_tip tpb reload_every c n =
      let moved = (advance-cfg n).1 in
      elim (Bool-cases (not (tpb == 0) && is_multiple_of (add64 c.tick 1) tpb)) [
        | inl e ↦
            rw (churn_step, e)
              (block_step_tip reload_every (record c { tick = add64 c.tick 1 }) (advance n)
                ∙ ap (λ (h : ℕ). add64 h 1) moved)
        | inr e ↦ rw (churn_step, e) moved
      ]

  -- The node has the blocks of the clock above those that it had.
  step_tip :
      (d reload_every k start : ℕ) (s : ChurnClock × MockNode R F)
      → suc k < u32_mod
      → start + suc k < u64_mod
      → IsDue (suc d) k s.0
      → s.1.tip_height ≡ start + s.0.blocks
      → (churn_step (suc d) reload_every s).1.tip_height
        ≡ start + (churn_step (suc d) reload_every s).0.blocks
  step_tip d reload_every k start (c, n) small room h height =
      let few : c.blocks ≤ k = omega (arith, h.split) in
      let clock = churn_step_clock (suc d) reload_every c n in
      let tip = churn_step_tip (suc d) reload_every c n in
      let blocks : (churn_step (suc d) reload_every (c, n)).0.blocks ≡ (
          if not (suc d == 0) && is_multiple_of (add64 c.tick 1) (suc d)
          then add32 c.blocks 1
          else c.blocks) =
        ap (λ (t : ChurnClock). t.blocks) clock in
      elim (Bool-cases (not (suc d == 0) && is_multiple_of (add64 c.tick 1) (suc d))) [
        | inl e ↦
            let one : add64 n.tip_height 1 ≡ start + add32 c.blocks 1 =
              omega (arith, height, few, small, room) in
            rw (tip, blocks, e) one
        | inr e ↦ rw (tip, blocks, e) height
      ]

  turns_tip :
      (d reload_every k : ℕ) (n : MockNode R F)
      → k < u32_mod
      → n.tip_height + k < u64_mod
      → (turns k (suc d) reload_every (record { tick = 0; blocks = 0 }, n)).1.tip_height
        ≡ n.tip_height
          + (turns k (suc d) reload_every (record { tick = 0; blocks = 0 }, n)).0.blocks
  turns_tip d reload_every zero n small room = omega arith
  turns_tip d reload_every (suc k) n small room =
      step_tip d reload_every k n.tip_height
        (turns k (suc d) reload_every (record { tick = 0; blocks = 0 }, n)) small room
        (turns-IsDue d reload_every k n (omega arith))
        (turns_tip d reload_every k n (omega arith) (omega arith))

  on_time :
      (tpb reload_every k : ℕ) (n : MockNode R F)
      → 0 < tpb
      → k < u32_mod
      → n.tip_height + k < u64_mod
      → (let m = (turns k tpb reload_every (record { tick = 0; blocks = 0 }, n)).1 in
          (mined : ℕ) × (m.tip_height ≡ n.tip_height + mined)
          × (mined * tpb ≤ k)
          × (k < suc mined * tpb))
  on_time zero reload_every k n positive small room = absurd (omega arith)
  on_time (suc d) reload_every k n positive small room =
      let due = turns-IsDue d reload_every k n small in
      (
        (turns k (suc d) reload_every (record { tick = 0; blocks = 0 }, n)).0.blocks,
        turns_tip d reload_every k n small room,
        omega (arith, due.split, due.below),
        omega (arith, due.split, due.below),
      )

  -- After `k` turns of the churn task, from its start, with `k` a u32, a height that does not wrap and
  -- blocks that are mined at all, the height of the node is greater by one for each whole number of ticks
  -- that `ticks_per_block` gives, whatever the restarts, and by no more.
  pub churn_mines_on_time :
      (block_secs churn_secs reload_every k : ℕ) (n : MockNode R F)
      → 0 < block_secs
      → k < u32_mod
      → n.tip_height + k < u64_mod
      → (let tpb = ticks_per_block block_secs churn_secs in
          let m = (turns k tpb reload_every (record { tick = 0; blocks = 0 }, n)).1 in
          (mined : ℕ) × (m.tip_height ≡ n.tip_height + mined)
          × (mined * tpb ≤ k)
          × (k < suc mined * tpb))
  churn_mines_on_time block_secs churn_secs reload_every k n mined small room =
      on_time (ticks_per_block block_secs churn_secs) reload_every k n
        (every_tick block_secs churn_secs mined) small room
