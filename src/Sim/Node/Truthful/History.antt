-- ===== src/Sim/Node/Truthful/History.antt =====
-- src/sim/mock_node.rs: the node after any history of ticks, drops, reloads and blocks.
use satya_btc.Common.{ℕ, ◌+◌, ◌≤◌, List, [], ◌∷◌, arith}
use satya_btc.Float.{Float}
use satya_btc.Sim.Random.{Rng, Draw, Casts, IsFresh}
use satya_btc.Sim.Node.{MockNode, ChurnConfig}
use satya_btc.Sim.Node.Arrival.{new_node, advance, mass_drop, reload}
use satya_btc.Sim.Node.Block.{mine_block}
use satya_btc.Sim.Node.Truthful.Mine.{mine_block-IsTruthful}
use satya_btc.Sim.Node.Truthful.Steps.{IsRoomy, fewer-IsRoomy, top_rate, IsTruthful}
use satya_btc.Sim.Node.Truthful.Churn.{
  advance-IsTruthful, mass_drop-IsTruthful, new_node-IsTruthful,
}

pub data Operation (F : Type 0) : Type 0 where
  churn : Operation F
  drop_part : F → Operation F
  restart : Operation F
  mine : Operation F

module _ {R F : Type 0} ⦃f : Float F⦄ ⦃casts : Casts F⦄ ⦃rng : Rng R⦄ ⦃draw : Draw R F⦄ where
  abbrev pub perform : Operation F → MockNode R F → MockNode R F
  perform churn n = advance n
  perform (drop_part fraction) n = mass_drop fraction n
  perform restart n = reload n
  perform mine n = mine_block n

  abbrev pub perform_all : List (Operation F) → MockNode R F → MockNode R F
  perform_all [] n = n
  perform_all (o ∷ rest) n = perform_all rest (perform o n)

  -- How many transactions have arrived.
  abbrev pub born_in : ℕ → Operation F → MockNode R F → ℕ
  born_in born churn n = n.cfg.arrivals_per_tick + born
  born_in born (drop_part fraction) n = born
  born_in born restart n = born
  born_in born mine n = born

  abbrev pub born_after : ℕ → List (Operation F) → MockNode R F → ℕ
  born_after born [] n = born
  born_after born (o ∷ rest) n = born_after (born_in born o n) rest (perform o n)

  born_le : (born : ℕ) (ops : List (Operation F)) (n : MockNode R F) → born ≤ born_after born ops n
  born_le born [] n = omega arith
  born_le born (churn ∷ rest) n =
      omega (arith, born_le (n.cfg.arrivals_per_tick + born) rest (advance n))
  born_le born (drop_part fraction ∷ rest) n = born_le born rest (mass_drop fraction n)
  born_le born (restart ∷ rest) n = born_le born rest (reload n)
  born_le born (mine ∷ rest) n = born_le born rest (mine_block n)

  module _ (fresh : IsFresh R F) (u : ℕ) where
    pub perform-IsTruthful :
        (born : ℕ) (o : Operation F) (n : MockNode R F)
        → IsRoomy u (born_in born o n)
        → IsTruthful fresh u born n
        → IsTruthful fresh u (born_in born o n) (perform o n)
    unfolding reload
    perform-IsTruthful born churn n room h = advance-IsTruthful fresh u born n room h
    perform-IsTruthful born (drop_part fraction) n room h =
        mass_drop-IsTruthful fresh u fraction born n h
    perform-IsTruthful born restart n room h = record {
      forest = h.forest;
      descended = h.descended;
      shallow = h.shallow;
      used = h.used;
      price = h.price;
      priced = h.priced;
      calm = h.calm;
    }
    perform-IsTruthful born mine n room h = mine_block-IsTruthful fresh u born n room h

    history-IsTruthful :
        (born : ℕ) (ops : List (Operation F)) (n : MockNode R F)
        → IsRoomy u (born_after born ops n)
        → IsTruthful fresh u born n
        → IsTruthful fresh u (born_after born ops n) (perform_all ops n)
    history-IsTruthful born [] n room h = h
    history-IsTruthful born (o ∷ rest) n room h =
        let first = born_le (born_in born o n) rest (perform o n) in
        history-IsTruthful (born_in born o n) rest (perform o n) room (
          perform-IsTruthful born o n
            (fewer-IsRoomy u (born_in born o n) (born_after (born_in born o n) rest (perform o n))
              first room)
            h)

  -- A new node, after any history of ticks, drops, reloads and mined blocks, whatever the order of its
  -- map, if no txid is drawn twice, the ranges of the draws are kept, and the sizes of all that arrived,
  -- also times the greatest fee rate of the settings, fit a u64: each transaction stands alone with its
  -- own ancestor totals, or has a parent in the mempool, whose totals it adds to its own and whose child
  -- it is in the index; its descendant totals are its own, with those of its child if it has one; no
  -- chain has more than the greater of max_chain and 1 transactions; each txid was drawn before; no fee
  -- is above the greatest rate times the size; and no sum of amounts ever overflowed.
  pub perform_all-IsTruthful :
      (fresh : IsFresh R F) (hash : List ℕ → ℕ) (seeded : R) (initial_size : ℕ)
      (cfg : ChurnConfig F) (ops : List (Operation F))
      → IsRoomy (top_rate cfg) (born_after initial_size ops (new_node hash seeded initial_size cfg))
      → IsTruthful fresh
          (top_rate cfg)
          (born_after initial_size ops (new_node hash seeded initial_size cfg))
          (perform_all ops (new_node hash seeded initial_size cfg))
  perform_all-IsTruthful fresh hash seeded initial_size cfg ops room =
      let n = new_node hash seeded initial_size cfg in
      let u = top_rate cfg in
      let last = born_after initial_size ops n in
      history-IsTruthful fresh u initial_size ops n room (
        new_node-IsTruthful fresh u hash seeded initial_size cfg (omega arith)
          (fewer-IsRoomy u initial_size last (born_le initial_size ops n) room))
