-- ===== src/Sim/Node/Settings.antt =====
-- src/sim/mock_node.rs: the settings of the churn and the height, through the operations.
use satya_btc.Common.{
  ℕ, add64, zero, suc, ◌≡◌, ◌∷◌, List, subst, refl, ◌∙◌, false, inl, inr, Option-cases, Bool-cases,
  List-cases, length,
}
use satya_btc.Float.{Float}
use satya_btc.Sim.Random.{Rng, Draw, Casts}
use satya_btc.Mempool.{keys}
use satya_btc.Sim.Node.{
  remove_leaf, first_key, MockNode, ChurnConfig, evict, evict_times, walk_down, greatest,
}
use satya_btc.Sim.Node.Arrival.{
  pick_parent, add_arrival, arrive_alone, arrive_times, draw_attach, new_node, advance, mass_drop,
  attach_child, insert_alone,
}
use satya_btc.Sim.Node.Block.{mine_block, confirm_set}
use satya_btc.Sim.Node.Truthful.Pick.{evict_starts}
use satya_btc.Sim.Node.Truthful.Leave.{IsSettled, remove_leaf-keeps}

module _ {R F : Type 0} where
  IsSettled-trans : (a b c : MockNode R F) → IsSettled a b → IsSettled b c → IsSettled a c
  IsSettled-trans a b c h k = (k.0 ∙ h.0, k.1 ∙ h.1)

  evict-cfg : (n : MockNode R F) → IsSettled n (evict n)
  unfolding evict
  evict-cfg n = elim (List-cases n.txs) [
    | inl e ↦ rw (evict, e) (refl, refl)
    | inr ((k, x), rest, e) ↦
        let start = first_key n.hash (k ∷ keys rest) in
        let leaf = walk_down n.children (suc (greatest n.txs)) start in
        let same : remove_leaf leaf n ≡ evict n = evict_starts n k x rest e in
        let (drawn, same_cfg, tip, quiet, within) = remove_leaf-keeps leaf n in
        subst (IsSettled n) same (same_cfg, tip)
  ]

  pub evict_times-cfg : (k : ℕ) (n : MockNode R F) → IsSettled n (evict_times k n)
  unfolding evict_times
  evict_times-cfg zero n = (refl, refl)
  evict_times-cfg (suc k) n =
      IsSettled-trans n (evict n) (evict_times k (evict n)) (evict-cfg n)
        (evict_times-cfg k (evict n))

  pub mine_block-tip : (n : MockNode R F) → (mine_block n).tip_height ≡ add64 n.tip_height 1
  unfolding mine_block confirm_set
  mine_block-tip n = refl

  pub mine_block-cfg : (n : MockNode R F) → (mine_block n).cfg ≡ n.cfg
  unfolding mine_block confirm_set
  mine_block-cfg n = refl

module _ {R F : Type 0} ⦃f : Float F⦄ ⦃casts : Casts F⦄ ⦃rng : Rng R⦄ ⦃draw : Draw R F⦄ where
  arrive_alone-cfg : (n : MockNode R F) → IsSettled n (arrive_alone n)
  unfolding arrive_alone insert_alone
  arrive_alone-cfg n = (refl, refl)

  attach_child-cfg : (p : ℕ) (n : MockNode R F) → IsSettled n (attach_child p n)
  unfolding attach_child
  attach_child-cfg p n = (refl, refl)

  add_arrival-cfg : (n : MockNode R F) → IsSettled n (add_arrival n)
  unfolding add_arrival
  add_arrival-cfg n =
      let n1 : MockNode R F = record n { rng = (draw_attach n.cfg n.rng).1 } in
      let n2 : MockNode R F = record n { rng = (pick_parent n1).1 } in
      elim (Bool-cases (draw_attach n.cfg n.rng).0) [
        | inr e ↦ rw (add_arrival, e) (arrive_alone-cfg n1)
        | inl e ↦ elim (Option-cases (pick_parent n1).0) [
          | inl e1 ↦ rw (add_arrival, e, e1) (arrive_alone-cfg n2)
          | inr (p, e1) ↦ rw (add_arrival, e, e1) (attach_child-cfg p n2)
        ]
      ]

  arrive_times-cfg : (k : ℕ) (n : MockNode R F) → IsSettled n (arrive_times k n)
  unfolding arrive_times
  arrive_times-cfg zero n = (refl, refl)
  arrive_times-cfg (suc k) n =
      IsSettled-trans n (add_arrival n) (arrive_times k (add_arrival n)) (add_arrival-cfg n)
        (arrive_times-cfg k (add_arrival n))

  pub new_node-cfg :
      (hash : List ℕ → ℕ) (seeded : R) (initial_size : ℕ) (cfg : ChurnConfig F)
      → (new_node hash seeded initial_size cfg).cfg ≡ cfg
  unfolding new_node
  new_node-cfg hash seeded initial_size cfg = (arrive_times-cfg initial_size _).0

  pub advance-cfg : (n : MockNode R F) → IsSettled n (advance n)
  unfolding advance
  advance-cfg n =
      let woken : MockNode R F = record n { reloading = false } in
      let left = evict_times n.cfg.evictions_per_tick woken in
      let first : IsSettled n left = evict_times-cfg n.cfg.evictions_per_tick woken in
      IsSettled-trans n left (advance n) first (arrive_times-cfg n.cfg.arrivals_per_tick left)

  pub mass_drop-cfg : (fraction : F) (n : MockNode R F) → IsSettled n (mass_drop fraction n)
  unfolding mass_drop
  mass_drop-cfg fraction n =
      evict_times-cfg (casts.trunc_u64 (f.mul (f.of_u64 (length n.txs)) fraction)) n
