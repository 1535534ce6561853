-- ===== src/Gbt/Pack/Rounds.antt =====
-- src/gbt.rs, `project_with`: the loop ends. A round uses a transaction, closes a block, corrects a
-- stale entry of the heap or takes one off.
use satya_btc.Common.{
  ℕ, zero, suc, ◌+◌, ◌-◌, ◌*◌, ◌<◌, ◌≡◌, refl, ◌⊎◌, inl, inr, true, false, some, List, [], ◌∷◌,
  arith, Bool-cases, length, length-append, unset,
}
use satya_btc.Float.{Float, IsFloat}
use satya_btc.Gbt.Audit.{Audit, is_used, score_of}
use satya_btc.Gbt.Heap.{HeapItem, Pop, empty, top, unordered, pop}
use satya_btc.Gbt.Heap.Select.{pop-All, pop-total, pop-length, pop-unordered}
use satya_btc.Gbt.Pack.{
  Limits, State, next, stop, done, item_of, package_of, bounded, too_big, sum_weight, place,
  close_block, hold, finalize, visit, step, loop,
}
use satya_btc.Gbt.Pack.Rule.{
  Placed, Round, discarded, refreshed, placed, step_cases, finalize_cases, step-Keeps,
}
use satya_btc.Gbt.Pack.Valid.{IsAudited}
use satya_btc.Gbt.Pack.Included.{include_returns}
use satya_btc.Gbt.Pack.Once.{IsOnce}
use satya_btc.Gbt.Pack.Spent.{IsSpent, Spent-Keeps, is_stale, left, busy, busy_lt, put_unset, fresh}

-- Lexicographic descent as one number.
lex : (a b k x y : ℕ) → a < b → x < k → a * k + x < b * k + y
lex a b k x y h l = grind arith

fewer_blocks : (m b n u : ℕ) → b < m - 1 → (m - (b + 1)) * suc n + u < (m - b) * suc n + u
fewer_blocks m b n u h = lex_left (m - (b + 1)) (m - b) (omega arith)
  where
    lex_left : (p q : ℕ) → p < q → p * suc n + u < q * suc n + u
    lex_left p q l = grind arith

module _ {F : Type 0} ⦃f : Float F⦄ (laws : IsFloat F) {audits : List Audit}
    (valid : IsAudited audits) (lim : Limits) where
  abbrev width : ℕ
  width = suc (2 * (length audits + length audits * length audits))

  abbrev pub rank : State F → ℕ
  rank s = left laws valid lim s * width + busy laws valid lim s

  -- Closing a block leaves fewer to close, whatever it puts back into the heap.
  shut_left :
      (u : State F)
      → bounded audits lim u ≡ true
      → left laws valid lim (close_block audits lim u) < left laws valid lim u
  unfolding bounded close_block
  shut_left u b =
      rw (length-append u.blocks (u.cur_block ∷ [])) (
        fewer_blocks lim.max_blocks (length u.blocks) (length audits) (unset u.used) (ground arith))

  by_left :
      (s t : State F)
      → left laws valid lim t < left laws valid lim s
      → IsSpent laws valid lim t
      → rank t < rank s
  by_left s t h k =
      lex (left laws valid lim t) (left laws valid lim s) width (busy laws valid lim t)
        (busy laws valid lim s) h (busy_lt laws valid lim t k)

  fewer_unset :
      (s u : State F)
      → unset u.used < unset s.used
      → u.blocks ≡ s.blocks
      → left laws valid lim u < left laws valid lim s
  fewer_unset s u h e = rw e (omega arith)

  -- The left part falls, or it stays and the entry that was taken off is gone.
  Placed-descends :
      (s : State F) (item : HeapItem F) (rest : List (HeapItem F)) (u : State F)
      → pop s.heap ≡ top item rest
      → is_used s.used item.uid ≡ false
      → Placed audits lim (record s { heap = rest }) item u
      → IsSpent laws valid lim s
      → (left laws valid lim u < left laws valid lim s)
        ⊎ ((left laws valid lim u ≡ left laws valid lim s) × (rank u < rank s))
  Placed-descends s item rest u e new p h =
      let once = h.once in
      let (near, others) = pop-All (λ i. i.uid < length audits) s.heap item rest e once.heap_near in
      let rest_once : IsOnce valid lim (record s { heap = rest }) = record {
        size = once.size;
        heap_near = others;
        held_near = once.held_near;
        once = once.once;
        slots = once.slots;
      } in
      elim (put_unset laws valid lim (record s { heap = rest }) item u new near rest_once p) [
        | inl (used_is, heap_is, _, blocks_is) ↦ inr (
          rw (used_is, blocks_is),
          rw (used_is, heap_is, blocks_is)
              (omega (
                arith,
                pop-total (is_stale laws valid lim s.used) s.heap item rest e,
                pop-length s.heap item rest e,
              )),
        )
        | inr (fewer, _, _, blocks_is) ↦ inl (fewer_unset s u fewer blocks_is)
      ]

  Round-descends :
      (s t : State F)
      → Round audits lim s t
      → IsSpent laws valid lim s
      → IsSpent laws valid lim t
      → rank t < rank s
  Round-descends s t (discarded item rest e old eq) hs ht = rw eq (
      omega (
        arith,
        pop-total (is_stale laws valid lim s.used) s.heap item rest e,
        pop-length s.heap item rest e,
      ))
  Round-descends s t (refreshed item rest e new stale eq) hs ht =
      let counted : is_stale laws valid lim s.used item ≡ 1 = rw stale in
      rw eq (
        omega (
          arith,
          counted,
          fresh laws valid lim s.used item.uid,
          pop-total (is_stale laws valid lim s.used) s.heap item rest e,
          pop-length s.heap item rest e,
        ))
  Round-descends s t (placed item rest u e new p eq) hs ht = elim (finalize_cases audits lim u) [
    | inl same ↦
        let t_is : u ≡ t = ground arith in
        elim (Placed-descends s item rest u e new p hs) [
          | inl less ↦ by_left s t (rw t_is at less) ht
          | inr (_, less) ↦ rw t_is at less
        ]
    | inr (b, _, shut) ↦
        let t_is : close_block audits lim u ≡ t = ground arith in
        let less : left laws valid lim t < left laws valid lim u = rw t_is at (shut_left u b) in
        elim (Placed-descends s item rest u e new p hs) [
          | inl less' ↦ by_left s t (omega (arith, less, less')) ht
          | inr (same, _) ↦ by_left s t (omega (arith, less, same)) ht
        ]
  ]

  place_returns : (s : State F) (uid : ℕ) → (u : State F) × (place audits lim s uid ≡ some u)
  unfolding place
  place_returns s uid =
      let (u, e) = include_returns valid lim s (package_of audits s.used uid) in
      elim (Bool-cases (too_big audits lim s (sum_weight audits (package_of audits s.used uid)))) [
        | inl big ↦ (hold audits lim s uid, ground arith)
        | inr fits ↦ (u, ground arith)
      ]

  visit_returns :
      (s : State F) (item : HeapItem F) → (t : State F) × (visit audits lim s item ≡ next t)
  unfolding visit
  visit_returns s item =
      let (u, e) = place_returns s item.uid in
      elim (Bool-cases (is_used s.used item.uid)) [
        | inl old ↦ (s, ground arith)
        | inr new ↦ elim (Bool-cases (f.differs (score_of item.uid audits s.used) item.score)) [
          | inl stale ↦ (record s { heap = item_of audits s.used item.uid ∷ s.heap }, ground arith)
          | inr current ↦ (finalize audits lim u, ground arith)
        ]
      ]

  -- A round goes on, or stops on an empty heap: it neither panics nor runs out.
  step_returns :
      (s : State F)
      → IsSpent laws valid lim s
      → ((t : State F) × (step audits lim s ≡ next t)) ⊎ (step audits lim s ≡ stop s)
  unfolding step
  step_returns s h = go (pop s.heap) refl
    where
      go :
          (p : Pop F)
          → pop s.heap ≡ p
          → ((t : State F) × (step audits lim s ≡ next t)) ⊎ (step audits lim s ≡ stop s)
      go empty e = inr (ground arith)
      go (top item rest) e =
          let (t, q) = visit_returns (record s { heap = rest }) item in inl (t, ground arith)
      go unordered e = absurd (pop-unordered laws s.heap h.nums e)

  -- With fuel above the rank the loop ends.
  pub loop_ends :
      (fuel : ℕ) (s : State F)
      → IsSpent laws valid lim s
      → rank s < fuel
      → (t : State F) × (loop audits lim fuel s ≡ done t)
  unfolding loop
  loop_ends zero s h l = absurd (omega arith)
  loop_ends (suc fuel) s h l = elim (step_returns s h) [
    | inl (s', e) ↦
        let r = step_cases audits lim s s' e in
        let h' =
          step-Keeps audits lim (IsSpent laws valid lim) s s' (Spent-Keeps laws valid lim) r h in
        let (t, q) = loop_ends fuel s' h' (omega (arith, Round-descends s s' r h h')) in
        (t, ground arith)
    | inr e ↦ (s, ground arith)
  ]
