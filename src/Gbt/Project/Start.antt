-- ===== src/Gbt/Project/Start.antt =====
-- src/gbt.rs, `project_with`: the state before the loop meets the invariants of the loop.
use satya_btc.Common.{
  ℕ, zero, suc, ◌+◌, ◌-◌, ◌*◌, ◌≤◌, ◌<◌, ◌≡◌, refl, ap, Bool, false, inl, inr, List, arith,
  if◌then◌else◌, ◌==◌, ==_iff, Bool-cases, length, All, replicate, length-replicate,
  unset-replicate, get_or-replicate,
}
use satya_btc.Float.{Float, IsFloat, IsNum}
use satya_btc.Gbt.Audit.{Audit, Projection}
use satya_btc.Gbt.Heap.Select.{total}
use satya_btc.Gbt.Pack.{Limits, State, Outcome, done, item_of, loop}
use satya_btc.Gbt.Pack.Valid.{IsAudited}
use satya_btc.Gbt.Pack.Once.{IsOnce}
use satya_btc.Gbt.Pack.Spent.{IsSpent, item-IsNum, left, busy_lt}
use satya_btc.Gbt.Pack.Rounds.{rank, loop_ends}
use satya_btc.Gbt.Pack.Blocks.{IsPacked}
use satya_btc.Gbt.Pack.Rated.{IsRated}
use satya_btc.Gbt.Pack.Complete.{IsComplete}
use satya_btc.Gbt.Project.{first_items, start, close, rounds, run_loop}

module _ (F : Type 0) ⦃f : Float F⦄ (audits : List Audit) (used : List Bool) where
  first_items-near :
      (left uid n : ℕ)
      → uid + left ≤ n
      → All (λ i. i.uid < n) (first_items {F = F} audits used left uid)
  unfolding first_items item_of
  first_items-near zero uid n h = tt
  first_items-near (suc left) uid n h =
      (omega arith, first_items-near left (uid + 1) n (omega arith))

  length-first_items : (left uid : ℕ) → length (first_items {F = F} audits used left uid) ≡ left
  unfolding first_items
  length-first_items zero uid = refl
  length-first_items (suc left) uid = ap suc (length-first_items left (uid + 1))

  first_items_cover :
      (left uid u : ℕ)
      → uid ≤ u
      → u < uid + left
      → 0 < total (λ i. if i.uid == u then 1 else 0) (first_items {F = F} audits used left uid)
  unfolding first_items item_of
  first_items_cover zero uid u low high = absurd (omega arith)
  first_items_cover (suc left) uid u low high = elim (Bool-cases (uid == u)) [
    | inl e ↦ rw e (omega arith)
    | inr e ↦ rw e (ground (arith, first_items_cover left (uid + 1) u, ==_iff uid u))
  ]

whole_left : (m n b u : ℕ) → b ≡ 0 → u ≡ n → (m - b) * suc n + u ≡ m * suc n + n
whole_left m n b u e h = rw (e, h) (ap (λ k. k * suc n + n) (omega arith))

module _ {F : Type 0} ⦃f : Float F⦄ {audits : List Audit} (valid : IsAudited audits)
    (lim : Limits) where
  pub start-IsOnce : IsOnce {F = F} valid lim (start lim audits)
  unfolding start
  start-IsOnce = record {
    size = length-replicate (length audits) false;
    heap_near = first_items-near F audits _ (length audits) 0 (length audits) (omega arith);
    held_near = tt;
    once = λ v. rw (get_or-replicate (length audits) v false);
    slots = omega (arith, unset-replicate (length audits));
  }

  pub start-IsRated : IsRated {F = F} valid lim (start lim audits)
  unfolding start
  start-IsRated = record {
    once = start-IsOnce;
    rates = λ v. rw (get_or-replicate (length audits) v false);
  }

  pub start-IsPacked : IsPacked {F = F} valid lim (start lim audits)
  unfolding start
  start-IsPacked = record {
    once = start-IsOnce;
    exact = omega arith;
    few = omega arith;
    closed = tt;
    current = λ _. inl refl;
  }

  pub start-IsComplete : IsComplete {F = F} valid lim (start lim audits)
  unfolding start
  start-IsComplete = record {
    packed = start-IsPacked;
    idle = refl;
    cover =
        λ u h. inr (first_items_cover F audits _ (length audits) 0 u (omega arith) (omega arith));
  }

  module _ (laws : IsFloat F) where
    first_items_nums :
        (used : List Bool) (k uid : ℕ)
        → All (λ i. IsNum i.score) (first_items {F = F} audits used k uid)
    unfolding first_items
    first_items_nums used zero uid = tt
    first_items_nums used (suc k) uid =
        (item-IsNum laws valid lim used uid, first_items_nums used k (uid + 1))

    pub start-IsSpent : IsSpent {F = F} laws valid lim (start lim audits)
    unfolding start
    start-IsSpent = record {
      once = start-IsOnce;
      crowd = omega (
        arith,
        length-first_items F audits (replicate (length audits) false) (length audits) 0,
        ap (λ k. k * length audits) (unset-replicate (length audits)),
      );
      nums = first_items_nums _ (length audits) 0;
    }

    start_left :
        left {F = F} laws valid lim (start lim audits)
        ≡ lim.max_blocks * suc (length audits) + length audits
    unfolding start
    start_left =
        whole_left lim.max_blocks (length audits) 0 _ refl (unset-replicate (length audits))

    -- The rounds are more than the rank of the first state.
    rank-start : rank {F = F} laws valid lim (start lim audits) < rounds lim (length audits)
    unfolding rounds
    rank-start = omega (
      arith,
      ap (λ k. k * suc (2 * (length audits + length audits * length audits))) start_left,
      busy_lt laws valid lim (start lim audits) start-IsSpent,
    )

    pub run_loop_ends : (p : Projection F) × (run_loop lim audits ≡ done p)
    unfolding run_loop
    run_loop_ends =
        let (t, e) =
          loop_ends laws valid lim (rounds lim (length audits)) (start lim audits) start-IsSpent
            rank-start in
        (close t, ground arith)

  pub run_loop_done :
      (p : Projection F)
      → run_loop lim audits ≡ done p
      → (t : State F) × (loop audits lim (rounds lim (length audits)) (start lim audits) ≡ done t)
        × (p ≡ close t)
  unfolding run_loop
  run_loop_done p h = go (loop audits lim (rounds lim (length audits)) (start lim audits)) refl
    where
      go :
          (r : Outcome (State F))
          → loop audits lim (rounds lim (length audits)) (start lim audits) ≡ r
          → (t : State F) × (loop audits lim (rounds lim (length audits)) (start lim audits)
              ≡ done t)
            × (p ≡ close t)
      go (done t) e = (t, e, ground arith)
      go _ e = absurd (ground arith)
