-- ===== src/Gbt/Pack/Rule.antt =====
-- src/gbt.rs, `project_with`: what one round of the loop does, case by case, and the rule for
-- an invariant of the loop.
use satya_btc.Common.{
  ℕ, zero, suc, ◌≡◌, ◌≢◌, refl, true, false, ◌⊎◌, inl, inr, some, List, [], ◌∷◌, arith, Bool-cases,
  Option-cases, is_empty,
}
use satya_btc.Float.{Float}
use satya_btc.Gbt.Audit.{Audit, is_used, score_of, rate}
use satya_btc.Gbt.Heap.{HeapItem, Pop, empty, top, unordered, pop}
use satya_btc.Gbt.Heap.Select.{pop-eq-empty}
use satya_btc.Gbt.Pack.{
  Limits, State, Step, next, stop, panic, out_of_steps, done, item_of, bounded, too_big, hold,
  include, refresh_descendants, take_all, sum_fee, package_of, sum_weight, place, close_block,
  finalize, visit, step, loop,
}

module _ {F : Type 0} ⦃f : Float F⦄ (audits : List Audit) (lim : Limits) where
  -- What a round leaves before the block may be closed.
  pub data Placed (s : State F) (item : HeapItem F) (t : State F) : Type 0 where
    held :
        too_big audits lim s (sum_weight audits (package_of audits s.used item.uid)) ≡ true
        → t ≡ hold audits lim s item.uid
        → Placed s item t
    included :
        too_big audits lim s (sum_weight audits (package_of audits s.used item.uid)) ≡ false
        → include audits lim s (package_of audits s.used item.uid) ≡ some t
        → Placed s item t

  -- The four ways of a round that goes on.
  pub data Round (s t : State F) : Type 0 where
    discarded :
        (item : HeapItem F) (rest : List (HeapItem F))
        → pop s.heap ≡ top item rest
        → is_used s.used item.uid ≡ true
        → t ≡ record s { heap = rest }
        → Round s t
    refreshed :
        (item : HeapItem F) (rest : List (HeapItem F))
        → pop s.heap ≡ top item rest
        → is_used s.used item.uid ≡ false
        → f.differs (score_of item.uid audits s.used) item.score ≡ true
        → t ≡ record s { heap = item_of audits s.used item.uid ∷ rest }
        → Round s t
    placed :
        (item : HeapItem F) (rest : List (HeapItem F)) (u : State F)
        → pop s.heap ≡ top item rest
        → is_used s.used item.uid ≡ false
        → Placed (record s { heap = rest }) item u
        → t ≡ finalize audits lim u
        → Round s t

  place_cases :
      (s : State F) (item : HeapItem F) (u : State F)
      → place audits lim s item.uid ≡ some u
      → Placed s item u
  unfolding place
  place_cases s item u e =
      elim (Bool-cases
        (too_big audits lim s (sum_weight audits (package_of audits s.used item.uid)))) [
          | inl big ↦ held big (ground arith)
          | inr fits ↦ included fits (ground arith)
        ]

  visit_cases :
      (s t : State F) (item : HeapItem F) (rest : List (HeapItem F))
      → pop s.heap ≡ top item rest
      → visit audits lim (record s { heap = rest }) item ≡ next t
      → Round s t
  unfolding visit
  visit_cases s t item rest e h = elim (Bool-cases (is_used s.used item.uid)) [
    | inl old ↦ discarded item rest e old (ground arith)
    | inr new ↦ elim (Bool-cases (f.differs (score_of item.uid audits s.used) item.score)) [
      | inl stale ↦ refreshed item rest e new stale (ground arith)
      | inr fresh ↦ elim (Option-cases (place audits lim (record s { heap = rest }) item.uid)) [
        | inl stuck ↦ absurd (ground arith)
        | inr (u, p) ↦ placed item rest u e new (place_cases _ item u p) (ground arith)
      ]
    ]
  ]

  pub step_cases : (s t : State F) → step audits lim s ≡ next t → Round s t
  unfolding step
  step_cases s t h = go (pop s.heap) refl
    where
      go : (p : Pop F) → pop s.heap ≡ p → Round s t
      go empty e = absurd (ground arith)
      go (top item rest) e = visit_cases s t item rest e (ground arith)
      go unordered e = absurd (ground arith)

  -- What to show of an invariant of the loop.
  pub record Keeps (P : State F → Type 0) : Type 0 where
    pub discard :
        (s : State F) (item : HeapItem F) (rest : List (HeapItem F))
        → pop s.heap ≡ top item rest
        → is_used s.used item.uid ≡ true
        → P s
        → P (record s { heap = rest })
    pub refresh :
        (s : State F) (item : HeapItem F) (rest : List (HeapItem F))
        → pop s.heap ≡ top item rest
        → is_used s.used item.uid ≡ false
        → P s
        → P (record s { heap = item_of audits s.used item.uid ∷ rest })
    pub put :
        (s : State F) (item : HeapItem F) (rest : List (HeapItem F)) (u : State F)
        → pop s.heap ≡ top item rest
        → is_used s.used item.uid ≡ false
        → Placed (record s { heap = rest }) item u
        → P s
        → P u
    pub shut :
        (u : State F)
        → bounded audits lim u ≡ true
        → is_empty u.cur_block ≡ false
        → P u
        → P (close_block audits lim u)

  pub finalize_cases :
      (u : State F)
      → (finalize audits lim u ≡ u)
        ⊎ ((bounded audits lim u ≡ true)
            × (is_empty u.cur_block ≡ false)
            × (finalize audits lim u ≡ close_block audits lim u))
  unfolding finalize
  finalize_cases u = ground arith

  pub step-Keeps : (P : State F → Type 0) (s t : State F) → Keeps P → Round s t → P s → P t
  step-Keeps P s t k (discarded item rest e old eq) h = rw eq (k.discard s item rest e old h)
  step-Keeps P s t k (refreshed item rest e new stale eq) h = rw eq (k.refresh s item rest e new h)
  step-Keeps P s t k (placed item rest u e new p eq) h =
      let hu : P u = k.put s item rest u e new p h in
      elim (finalize_cases u) [
        | inl same ↦ rw (eq, same) hu
        | inr (b, full, shut) ↦ rw (eq, shut) (k.shut u b full hu)
      ]

  visit-ne-stop : (s t : State F) (item : HeapItem F) → visit audits lim s item ≢ stop t
  unfolding visit
  visit-ne-stop s t item e = ground arith

  -- The loop stops on an empty heap.
  pub step_stop : (s t : State F) → step audits lim s ≡ stop t → (t ≡ s) × (s.heap ≡ [])
  unfolding step
  step_stop s t h = go (pop s.heap) refl
    where
      go : (p : Pop F) → pop s.heap ≡ p → (t ≡ s) × (s.heap ≡ [])
      go empty e = (ground arith, pop-eq-empty s.heap e)
      go (top item rest) e = absurd (visit-ne-stop (record s { heap = rest }) t item (ground arith))
      go unordered e = absurd (ground arith)

  -- An invariant holds when the loop ends, and then the heap is empty.
  pub loop_rule :
      (P : State F → Type 0)
      → Keeps P
      → (fuel : ℕ) (s t : State F) → P s
      → loop audits lim fuel s ≡ done t
      → P t × (t.heap ≡ [])
  unfolding loop
  loop_rule P k zero s t h e = cc
  loop_rule P k (suc fuel) s t h e =
      go (λ s' h' e'. loop_rule P k fuel s' t h' e') (step audits lim s) refl
    where
      go :
          ((s' : State F) → P s' → loop audits lim fuel s' ≡ done t → P t × (t.heap ≡ []))
          → (r : Step F) → step audits lim s ≡ r
          → P t × (t.heap ≡ [])
      go ih (next s') q = ih s' (step-Keeps P s s' k (step_cases s s' q) h) (ground arith)
      go ih (stop s') q =
          let (same, idle) = step_stop s s' q in
          let ended : t ≡ s = ground arith in rw ended (h, idle)
      go ih panic q = absurd (ground arith)
      go ih out_of_steps q = absurd (ground arith)

  -- The state after the loop over the package.
  abbrev pub taken : State F → List ℕ → State F
  taken s pkg = take_all audits (rate (sum_fee audits pkg) (sum_weight audits pkg)) pkg s

  -- Including a package, in its two parts.
  pub include_cases :
      (s t : State F) (pkg : List ℕ)
      → include audits lim s pkg ≡ some t
      → (heap : List (HeapItem F)) × (refresh_descendants audits pkg
            (taken s pkg).used
            (taken s pkg).heap
          ≡ some heap)
        × (t ≡ record (taken s pkg) { heap = heap; failures = 0 })
  unfolding include
  include_cases s t pkg e =
      elim (Option-cases (refresh_descendants audits pkg (taken s pkg).used (taken s pkg).heap)) [
        | inl stuck ↦ absurd (ground arith)
        | inr (heap, r) ↦ (heap, r, ground arith)
      ]
