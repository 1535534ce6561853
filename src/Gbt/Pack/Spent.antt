-- ===== src/Gbt/Pack/Spent.antt =====
-- src/gbt.rs, `project_with`: what the loop has left to do, the scores in the heap, and the room that
-- the heap needs.
use satya_btc.Common.{
  ℕ, suc, ◌+◌, ◌-◌, ◌*◌, ◌≤◌, ◌<◌, ◌≡◌, ap, ◌⊎◌, inl, inr, Bool, false, List, [], ◌∷◌, arith,
  if◌then◌else◌, ◌==◌, Bool-cases, length, length-append, unset, All,
}
use satya_btc.Float.{Float, IsFloat, IsNum}
use satya_btc.Gbt.Audit.{Audit, audit_of, is_used, rate, score_of}
use satya_btc.Gbt.Heap.{HeapItem, top, pop}
use satya_btc.Gbt.Heap.Select.{total, pop-All, pop-length}
use satya_btc.Gbt.Pack.{
  Limits, State, item_of, push_all, hold, package_of, sort_package, not_used, close_block,
}
use satya_btc.Gbt.Pack.Marks.{unset-mark_all}
use satya_btc.Gbt.Pack.Rule.{Placed, held, included, Keeps}
use satya_btc.Gbt.Pack.Valid.{IsAudited, package_near, package_distinct}
use satya_btc.Gbt.Pack.Included.{include-IsIncluded}
use satya_btc.Gbt.Pack.Once.{IsOnce, Once-Keeps}

module _ {F : Type 0} ⦃f : Float F⦄ (laws : IsFloat F) {audits : List Audit}
    (valid : IsAudited audits) (lim : Limits) where
  rate-IsNum : (fee weight : ℕ) → IsNum (rate {F = F} fee weight)
  unfolding rate
  rate-IsNum fee weight = elim (Bool-cases (weight == 0)) [
    | inl e ↦ rw e (laws.of_u64_num 0)
    | inr e ↦ rw e (laws.ratio_num fee weight (ground arith))
  ]

  score_of-IsNum : (uid : ℕ) (used : List Bool) → IsNum (score_of {F = F} uid audits used)
  unfolding score_of
  score_of-IsNum uid used = laws.fmin_num _ _ (rate-IsNum _ _) (rate-IsNum _ _)

  abbrev pub n : ℕ
  n = length audits

  abbrev pub is_stale : List Bool → HeapItem F → ℕ
  is_stale used i = if f.differs (score_of i.uid audits used) i.score then 1 else 0

  abbrev pub stale : State F → ℕ
  stale s = total (is_stale s.used) s.heap

  abbrev pub left : State F → ℕ
  left s = (lim.max_blocks - length s.blocks) * suc n + unset s.used

  abbrev pub busy : State F → ℕ
  busy s = stale s + length s.heap

  pub stale_le :
      (used : List Bool) (heap : List (HeapItem F)) → total (is_stale used) heap ≤ length heap
  stale_le used [] = omega arith
  stale_le used (i ∷ rest) = ground (arith, stale_le used rest)

  pub record IsSpent (s : State F) : Type 0 where
    pub once : IsOnce valid lim s
    pub crowd : length s.heap + length s.overflow + unset s.used * n ≤ n + n * n
    pub nums : All (λ i. IsNum i.score) s.heap

  pub busy_lt : (s : State F) → IsSpent s → busy s < suc (2 * (n + n * n))
  busy_lt s h = omega (arith, h.crowd, stale_le s.used s.heap)

  pub item-IsNum : (used : List Bool) (d : ℕ) → IsNum (item_of {F = F} audits used d).score
  unfolding item_of
  item-IsNum used d = score_of-IsNum d used

  push_all_nums :
      (used : List Bool) (os : List ℕ) (heap : List (HeapItem F))
      → All (λ i. IsNum i.score) heap
      → All (λ i. IsNum i.score) (push_all audits used os heap)
  unfolding push_all
  push_all_nums used [] heap h = h
  push_all_nums used (o ∷ rest) heap h = push_all_nums used rest _ (item-IsNum used o, h)

  length-push_all :
      (used : List Bool) (os : List ℕ) (heap : List (HeapItem F))
      → length (push_all audits used os heap) ≡ length heap + length os
  unfolding push_all
  length-push_all used [] heap = omega arith
  length-push_all used (o ∷ rest) heap =
      omega (arith, length-push_all used rest (item_of audits used o ∷ heap))

  package_pos : (used : List Bool) (uid : ℕ) → 0 < length (package_of audits used uid)
  unfolding package_of
  package_pos used uid = omega (
    arith,
    length-append (sort_package audits (not_used used (audit_of audits uid).ancestors)) (uid ∷ []),
  )

  -- Including a package leaves fewer to use, and room in the heap for what the walk pushed.
  pub put_unset :
      (s : State F) (item : HeapItem F) (u : State F)
      → is_used s.used item.uid ≡ false
      → item.uid < n
      → IsOnce valid lim s
      → Placed audits lim s item u
      → ((u.used ≡ s.used)
          × (u.heap ≡ s.heap)
          × (length u.overflow ≡ suc (length s.overflow))
          × (u.blocks ≡ s.blocks))
        ⊎ ((unset u.used < unset s.used)
            × (length u.heap ≤ length s.heap + n)
            × (u.overflow ≡ s.overflow)
            × (u.blocks ≡ s.blocks))
  unfolding hold
  put_unset s item u free near h (held big e) = inl (
    ground arith,
    ground arith,
    ground (arith, length-append s.overflow (item.uid ∷ [])),
    ground arith,
  )
  put_unset s item u free near h (included fits e) =
      let i = include-IsIncluded valid lim s u (package_of audits s.used item.uid) e in
      let here : All (λ m. m < length s.used) (package_of audits s.used item.uid) =
        rw h.size (package_near valid s.used item.uid near) in
      let fewer =
        unset-mark_all s.used (package_of audits s.used item.uid) here
          (package_distinct valid s.used item.uid free) in
      inr (
        rw i.used_is (omega (arith, fewer, package_pos s.used item.uid)),
        i.heap_few,
        i.overflow_is,
        i.blocks_is,
      )

  put_nums :
      (s : State F) (item : HeapItem F) (u : State F)
      → Placed audits lim s item u
      → All (λ i. IsNum i.score) s.heap
      → All (λ i. IsNum i.score) u.heap
  unfolding hold
  put_nums s item u (held big e) h = rw e h
  put_nums s item u (included fits e) h =
      (include-IsIncluded valid lim s u (package_of audits s.used item.uid) e).heap_keeps
        (λ j. IsNum j.score) (λ d _. item-IsNum u.used d) h

  -- An entry that was just made is not stale.
  pub fresh : (used : List Bool) (uid : ℕ) → is_stale used (item_of audits used uid) ≡ 0
  unfolding item_of
  fresh used uid = rw (laws.differs_self (score_of uid audits used))

  placed_crowd :
      (h o uu h' o' uu' : ℕ)
      → uu' < uu
      → h' ≤ h + n
      → o' ≡ o
      → suc h + o + uu * n ≤ n + n * n
      → h' + o' + uu' * n ≤ n + n * n
  placed_crowd h o uu h' o' uu' lt few same c = grind arith

  put_crowd :
      (s : State F) (item : HeapItem F) (rest : List (HeapItem F)) (u : State F)
      → pop s.heap ≡ top item rest
      → is_used s.used item.uid ≡ false
      → Placed audits lim (record s { heap = rest }) item u
      → IsOnce valid lim s
      → length s.heap + length s.overflow + unset s.used * n ≤ n + n * n
      → length u.heap + length u.overflow + unset u.used * n ≤ n + n * n
  put_crowd s item rest u e new p h c =
      let (near, others) = pop-All (λ i. i.uid < length audits) s.heap item rest e h.heap_near in
      let h' : IsOnce valid lim (record s { heap = rest }) = record {
        size = h.size;
        heap_near = others;
        held_near = h.held_near;
        once = h.once;
        slots = h.slots;
      } in
      let shorter = pop-length s.heap item rest e in
      elim (put_unset (record s { heap = rest }) item u new near h' p) [
        | inl (same, heap_is, longer, _) ↦ rw (same, heap_is, longer) (omega (arith, shorter))
        | inr (fewer, few, same, _) ↦
            placed_crowd (length rest) (length s.overflow) (unset s.used) (length u.heap)
              (length u.overflow) (unset u.used) fewer few (ap length same)
              (omega (arith, shorter, c))
      ]

  pub Spent-Keeps : Keeps audits lim IsSpent
  unfolding close_block
  Spent-Keeps = record {
    discard = λ s item rest e old h. record {
      once = (Once-Keeps valid lim).discard s item rest e old h.once;
      crowd = omega (arith, h.crowd, pop-length s.heap item rest e);
      nums = (pop-All (λ i. IsNum i.score) s.heap item rest e h.nums).1;
    };
    refresh = λ s item rest e new h. record {
      once = (Once-Keeps valid lim).refresh s item rest e new h.once;
      crowd = omega (arith, h.crowd, pop-length s.heap item rest e);
      nums =
          (item-IsNum s.used item.uid, (pop-All (λ i. IsNum i.score) s.heap item rest e h.nums).1);
    };
    put = λ s item rest u e new p h. record {
      once = (Once-Keeps valid lim).put s item rest u e new p h.once;
      crowd = put_crowd s item rest u e new p h.once h.crowd;
      nums =
          put_nums (record s { heap = rest }) item u p
            (pop-All (λ i. IsNum i.score) s.heap item rest e h.nums).1;
    };
    shut = λ u b full h. record {
      once = (Once-Keeps valid lim).shut u b full h.once;
      crowd = omega (arith, h.crowd, length-push_all u.used u.overflow u.heap);
      nums = push_all_nums u.used u.overflow u.heap h.nums;
    };
  }
