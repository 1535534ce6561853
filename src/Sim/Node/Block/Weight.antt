-- ===== src/Sim/Node/Block/Weight.antt =====
-- src/sim/mock_node.rs, `mine_block`: what a block confirms.
use satya_btc.Common.{
  ℕ, ◌+◌, ◌*◌, ◌≤◌, ◌<◌, ◌≡◌, refl, true, not, ◌&&◌, ◌||◌, inl, inr, none, some, List, [], ◌∷◌,
  arith, ==_iff, contains, Bool-cases, Option-cases, add64, u64_mod, ltb,
}
use satya_btc.Gbt.Ancestors.{insert_all, insert}
use satya_btc.Gbt.Ancestors.Closure.{contains-insert_all}
use satya_btc.Rpc.{MempoolEntry}
use satya_btc.Mempool.{keys}
use satya_btc.Sim.Node.{lookup, MockNode, entry_at, parent_in, walk_up, ancestors_of}
use satya_btc.Sim.Node.Totals.{total_size, ancestors_of_totals}
use satya_btc.Sim.Node.Truthful.{IsForest}
use satya_btc.Sim.Node.Block.{
  block_weight, weight_of, pkg_weight, unconfirmed, fill_block, ranked, confirm_set, mine_block,
}
use satya_btc.Sim.Node.Block.Closed.{fill_block-IsClosed, keys-confirm_set}

abbrev pub sum_weight : List (ℕ × MempoolEntry) → List ℕ → ℕ
sum_weight txs [] = 0
sum_weight txs (x ∷ rest) = weight_of (entry_at txs x) + sum_weight txs rest

-- No entry weighs more than four times its size.
abbrev pub IsWeighed : List (ℕ × MempoolEntry) → Type 0
IsWeighed txs = (id : ℕ) (e : MempoolEntry) → lookup id txs ≡ some e → weight_of e ≤ 4 * e.vsize

weight_at :
    (txs : List (ℕ × MempoolEntry)) (id : ℕ)
    → IsWeighed txs
    → weight_of (entry_at txs id) ≤ 4 * (entry_at txs id).vsize
weight_at txs id h = elim (Option-cases (lookup id txs)) [
  | inl gone ↦ rw (entry_at, gone) (omega arith)
  | inr (e, there) ↦ rw (entry_at, there) (h id e there)
]

sum_weight-total_size :
    (txs : List (ℕ × MempoolEntry)) (xs : List ℕ)
    → IsWeighed txs
    → sum_weight txs xs ≤ 4 * total_size txs xs
sum_weight-total_size txs [] h = omega arith
sum_weight-total_size txs (x ∷ rest) h =
    omega (arith, weight_at txs x h, sum_weight-total_size txs rest h)

sum_weight-unconfirmed :
    (txs : List (ℕ × MempoolEntry)) (confirmed xs : List ℕ)
    → sum_weight txs (unconfirmed confirmed xs) ≤ sum_weight txs xs
sum_weight-unconfirmed txs confirmed [] = omega arith
sum_weight-unconfirmed txs confirmed (a ∷ rest) =
    let later = sum_weight-unconfirmed txs confirmed rest in
    elim (Bool-cases (contains confirmed a)) [
      | inl e ↦ rw e (omega (arith, later))
      | inr e ↦ rw e (omega (arith, later))
    ]

pkg_weight_exact :
    (txs : List (ℕ × MempoolEntry)) (xs : List ℕ)
    → sum_weight txs xs < u64_mod
    → pkg_weight txs xs ≡ sum_weight txs xs
pkg_weight_exact txs [] fits = refl
pkg_weight_exact txs (x ∷ rest) fits =
    let later = pkg_weight_exact txs rest (omega (arith, fits)) in omega (arith, later, fits)

package_fits :
    (born : ℕ) (txs : List (ℕ × MempoolEntry)) (children : List (ℕ × ℕ)) (t : ℕ)
    → IsForest born txs children
    → IsWeighed txs
    → sum_weight txs (t ∷ ancestors_of txs t) ≤ 400_000 * born
unfolding ancestors_of walk_up
package_fits born txs children t h k = elim (Option-cases (lookup t txs)) [
  | inl gone ↦
      let own : parent_in txs t ≡ none = rw (parent_in, gone) refl in
      let top : ancestors_of txs t ≡ [] = rw (ancestors_of, walk_up, own) refl in
      rw (top, entry_at, gone) (omega arith)
  | inr (e, there) ↦
      let (size, fee) = ancestors_of_totals born txs children t e h there in
      omega (arith, size, h.bound t e there, sum_weight-total_size txs (t ∷ ancestors_of txs t) k)
]

sum_weight-insert_all :
    (txs : List (ℕ × MempoolEntry)) (xs set : List ℕ)
    → sum_weight txs (insert_all xs set) ≤ sum_weight txs xs + sum_weight txs set
sum_weight-insert_all txs [] set = omega arith
sum_weight-insert_all txs (a ∷ rest) set =
    let later = sum_weight-insert_all txs rest (insert a set) in
    let one : sum_weight txs (insert a set) ≤ weight_of (entry_at txs a) + sum_weight txs set =
      elim (Bool-cases (contains set a)) [
        | inl e ↦ rw e (omega arith)
        | inr e ↦ rw e (omega arith)
      ] in
    omega (arith, later, one)

fill_block_fits :
    (born : ℕ) (txs : List (ℕ × MempoolEntry)) (children : List (ℕ × ℕ)) (order : List (ℕ × ℕ))
    (used : ℕ) (confirmed : List ℕ)
    → IsForest born txs children
    → IsWeighed txs
    → 400_000 * born + block_weight < u64_mod
    → used ≤ block_weight
    → sum_weight txs confirmed ≤ used
    → sum_weight txs (fill_block txs order used confirmed).1 ≤ block_weight
unfolding fill_block
fill_block_fits born txs children [] used confirmed h k room l s = omega (arith, l, s)
fill_block_fits born txs children ((score, t) ∷ rest) used confirmed h k room l s =
    let others = unconfirmed confirmed (ancestors_of txs t) in
    let pkg = t ∷ others in
    let total = add64 used (pkg_weight txs pkg) in
    let whole = package_fits born txs children t h k in
    let less = sum_weight-unconfirmed txs confirmed (ancestors_of txs t) in
    let small : sum_weight txs pkg ≤ 400_000 * born = omega (arith, whole, less) in
    let exact = pkg_weight_exact txs pkg (omega (arith, small, room)) in
    let added : total ≡ used + sum_weight txs pkg = omega (arith, exact, small, room, l) in
    elim (Bool-cases (contains confirmed t || ltb block_weight total)) [
      | inl e ↦ rw e (fill_block_fits born txs children rest used confirmed h k room l s)
      | inr e ↦ rw e (
          fill_block_fits born txs children rest total (insert_all pkg confirmed) h k room
            (ground arith) (omega (arith, added, s, sum_weight-insert_all txs pkg confirmed)))
    ]

-- What is confirmed stays confirmed.
fill_block_grows :
    (txs : List (ℕ × MempoolEntry)) (order : List (ℕ × ℕ)) (used : ℕ) (confirmed : List ℕ) (v : ℕ)
    → contains confirmed v ≡ true
    → contains (fill_block txs order used confirmed).1 v ≡ true
unfolding fill_block
fill_block_grows txs [] used confirmed v h = h
fill_block_grows txs ((score, t) ∷ rest) used confirmed v h =
    let pkg = t ∷ unconfirmed confirmed (ancestors_of txs t) in
    let total = add64 used (pkg_weight txs pkg) in
    elim (Bool-cases (contains confirmed t || ltb block_weight total)) [
      | inl e ↦ rw e (fill_block_grows txs rest used confirmed v h)
      | inr e ↦ rw e (
          fill_block_grows txs rest total (insert_all pkg confirmed) v
            (ground (arith, contains-insert_all pkg confirmed v)))
    ]

-- The first of the order is confirmed, if its package fits.
fill_block_first :
    (txs : List (ℕ × MempoolEntry)) (score t : ℕ) (rest : List (ℕ × ℕ))
    → sum_weight txs (t ∷ ancestors_of txs t) ≤ block_weight
    → contains (fill_block txs ((score, t) ∷ rest) 0 []).1 t ≡ true
unfolding fill_block
fill_block_first txs score t rest fits =
    let pkg = t ∷ unconfirmed [] (ancestors_of txs t) in
    let total = add64 0 (pkg_weight txs pkg) in
    let less = sum_weight-unconfirmed txs [] (ancestors_of txs t) in
    let exact = pkg_weight_exact txs pkg (omega (arith, less, fits)) in
    let added : total ≤ block_weight = omega (arith, exact, less, fits) in
    elim (Bool-cases (ltb block_weight total)) [
      | inl e ↦ absurd (ground arith)
      | inr e ↦ rw e (
          fill_block_grows txs rest total (insert_all pkg []) t
            (ground (arith, contains-insert_all pkg [] t, ==_iff t t)))
    ]

module _ {R F : Type 0} where
  -- If the chains were kept, no entry weighs more than four times its size and the sums fit a u64: a
  -- block confirms a set whose weights sum to no more than that of a block, and which has the parent
  -- in the mempool of each that it has; the first of the ranking is in the set, if it and its ancestors
  -- weigh no more than a block; just the transactions of the set leave, and the height is one more.
  pub mine_block_confirms :
      (born : ℕ) (n : MockNode R F)
      → IsForest born n.txs n.children
      → IsWeighed n.txs
      → 400_000 * born + block_weight < u64_mod
      → (set : List ℕ) × (sum_weight n.txs set ≤ block_weight)
        × ((c p : ℕ) → contains set c ≡ true → parent_in n.txs c ≡ some p → contains set p ≡ true)
        × ((score t : ℕ) (rest : List (ℕ × ℕ))
            → ranked n.txs (keys n.txs) ≡ (score, t) ∷ rest
            → sum_weight n.txs (t ∷ ancestors_of n.txs t) ≤ block_weight
            → contains set t ≡ true)
        × ((v : ℕ)
            → contains (keys (mine_block n).txs) v
              ≡ (not (contains set v) && contains (keys n.txs) v))
        × ((mine_block n).tip_height ≡ add64 n.tip_height 1)
  unfolding mine_block confirm_set
  mine_block_confirms born n h k room =
      let order = ranked n.txs (keys n.txs) in
      let set = (fill_block n.txs order 0 []).1 in
      let next : MockNode R F = record n { tip_height = add64 n.tip_height 1 } in
      let (weight, closed) =
        fill_block-IsClosed born n.txs n.children order 0 [] h (omega arith)
          (λ c p here up. absurd (ground arith)) in
      (
        set,
        fill_block_fits born n.txs n.children order 0 [] h k room (omega arith) (omega arith),
        closed,
        λ score t rest first fits. rw first (fill_block_first n.txs score t rest fits),
        keys-confirm_set set next,
        refl,
      )
