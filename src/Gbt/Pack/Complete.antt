-- ===== src/Gbt/Pack/Complete.antt =====
-- src/gbt.rs, `project_with`: when all that is given fits one block, nothing is held back, and every
-- transaction is included.
use satya_btc.Common.{
  ℕ, zero, suc, ◌+◌, ◌*◌, ◌≤◌, ◌<◌, ◌≡◌, refl, true, false, ◌⊎◌, inl, inr, List, [], ◌∷◌, ◌++◌,
  arith, if◌then◌else◌, ◌==◌, ==_iff, Bool-cases, length, count, count-append, contains-count, All,
}
use satya_btc.Float.{Float}
use satya_btc.Gbt.Audit.{Audit, is_used}
use satya_btc.Gbt.Heap.{HeapItem, top, pop}
use satya_btc.Gbt.Heap.Select.{total, pop-All, pop-total}
use satya_btc.Gbt.Pack.{
  Limits, State, package_of, sum_weight, item_of, push_all, too_big, close_block,
}
use satya_btc.Gbt.Pack.Marks.{mark_all, weight_sum, weight_sum-append, is_used-mark_all}
use satya_btc.Gbt.Pack.Rule.{Placed, held, included, Keeps}
use satya_btc.Gbt.Pack.Valid.{IsAudited, package_near, package_distinct, package_has}
use satya_btc.Gbt.Pack.Included.{include-IsIncluded}
use satya_btc.Gbt.Pack.Blocks.{IsU32, IsPacked, Packed-Keeps, sum_weight-eq}

-- The weight of all.
abbrev pub all_weight : List Audit → ℕ
all_weight [] = 0
all_weight (a ∷ rest) = a.weight + all_weight rest

-- The numbers below the successors in a list.
abbrev preds : List ℕ → List ℕ
preds [] = []
preds (zero ∷ b) = preds b
preds (suc m ∷ b) = m ∷ preds b

count-preds : (v : ℕ) (b : List ℕ) → count v (preds b) ≡ count (suc v) b
count-preds v [] = refl
count-preds v (zero ∷ b) = ground (arith, count-preds v b)
count-preds v (suc m ∷ b) = ground (arith, count-preds v b)

weight_sum-nil : (b : List ℕ) → weight_sum [] b ≡ 0
weight_sum-nil [] = refl
weight_sum-nil (m ∷ b) = omega (arith, weight_sum-nil b)

weight_sum-cons :
    (a : Audit) (rest : List Audit) (b : List ℕ)
    → weight_sum (a ∷ rest) b ≡ count 0 b * a.weight + weight_sum rest (preds b)
weight_sum-cons a rest [] = omega arith
weight_sum-cons a rest (zero ∷ b) = ground (arith, weight_sum-cons a rest b)
weight_sum-cons a rest (suc m ∷ b) = ground (arith, weight_sum-cons a rest b)

once_weight : (k w : ℕ) → k ≤ 1 → k * w ≤ w
once_weight zero w h = omega arith
once_weight (suc zero) w h = omega arith
once_weight (suc (suc k)) w h = absurd (omega arith)

-- A list without duplicates weighs no more than all.
weight_sum-le-all :
    (audits : List Audit) (b : List ℕ)
    → ((v : ℕ) → count v b ≤ 1)
    → weight_sum audits b ≤ all_weight audits
weight_sum-le-all [] b h = omega (arith, weight_sum-nil b)
weight_sum-le-all (a ∷ rest) b h = omega (
  arith,
  weight_sum-cons a rest b,
  once_weight (count 0 b) a.weight (h 0),
  weight_sum-le-all rest (preds b) (λ v. omega (arith, count-preds v b, h (suc v))),
)

module _ {F : Type 0} ⦃f : Float F⦄ {audits : List Audit} (valid : IsAudited audits)
    (lim : Limits) where
  abbrev pub in_heap : ℕ → List (HeapItem F) → ℕ
  in_heap u = total (λ i. if i.uid == u then 1 else 0)

  pub record IsComplete (s : State F) : Type 0 where
    pub packed : IsPacked valid lim s
    pub idle : s.overflow ≡ []
    pub cover : (u : ℕ) → u < length audits → (is_used s.used u ≡ true) ⊎ (0 < in_heap u s.heap)

  -- A package that comes next is not too big for the block.
  room :
      IsU32 audits lim
      → lim.reserved + all_weight audits ≤ lim.max_block_weight
      → (s : State F) (uid : ℕ) → IsPacked valid lim s
      → is_used s.used uid ≡ false
      → too_big audits lim s (sum_weight audits (package_of audits s.used uid)) ≡ false
  unfolding too_big
  room u32 fits s uid h free =
      let pkg = package_of audits s.used uid in
      let joined = weight_sum-le-all audits (s.cur_block ++ pkg) (λ v. ground (
        arith,
        count-append v s.cur_block pkg,
        package_distinct valid s.used uid free v,
        h.once.once v,
      )) in
      let all_is = weight_sum-append audits s.cur_block pkg in
      let small = u32.max_weight in
      let sum_is = sum_weight-eq audits pkg (omega (arith, joined, all_is, fits, small)) in
      let below : s.block_weight + sum_weight audits pkg ≤ lim.max_block_weight =
        omega (arith, sum_is, joined, all_is, fits, h.exact) in
      ground arith

  module _ (u32 : IsU32 audits lim)
      (fits : lim.reserved + all_weight audits ≤ lim.max_block_weight) where
    package_used :
        (s : State F) (uid v : ℕ)
        → length s.used ≡ length audits
        → uid < length audits
        → (is_used s.used v ≡ true) ⊎ (uid ≡ v)
        → is_used (mark_all s.used (package_of audits s.used uid)) v ≡ true
    package_used s uid v size near h =
        let pkg = package_of audits s.used uid in
        let here : All (λ m. m < length s.used) pkg =
          rw size (package_near valid s.used uid near) in
        ground (
          arith,
          is_used-mark_all s.used pkg v here,
          contains-count pkg v,
          package_has valid s.used uid,
        )

    -- After the pop an uncovered transaction is the one that was popped.
    rest_cover :
        (s : State F) (item : HeapItem F) (rest : List (HeapItem F))
        → pop s.heap ≡ top item rest
        → IsComplete s
        → (u : ℕ) → u < length audits
        → ((is_used s.used u ≡ true) ⊎ (item.uid ≡ u)) ⊎ (0 < in_heap u rest)
    rest_cover s item rest e h u near =
        let split = pop-total (λ i. if i.uid == u then 1 else 0) s.heap item rest e in
        elim (Bool-cases (item.uid == u)) [
          | inl at ↦ inl (inr ((==_iff item.uid u).0 at))
          | inr off ↦ elim (h.cover u near) [
            | inl old ↦ inl (inl old)
            | inr there ↦ inr (ground arith)
          ]
        ]

    put-IsComplete :
        (s : State F) (item : HeapItem F) (rest : List (HeapItem F)) (u : State F)
        → pop s.heap ≡ top item rest
        → is_used s.used item.uid ≡ false
        → Placed audits lim (record s { heap = rest }) item u
        → IsComplete s
        → IsPacked valid lim (record s { heap = rest })
        → IsPacked valid lim u
        → IsComplete u
    put-IsComplete s item rest u e new (held big eq) h before packed =
        absurd (ground (arith, room u32 fits (record s { heap = rest }) item.uid before new))
    put-IsComplete s item rest u e new (included ok eq) h before packed =
        let i =
          include-IsIncluded valid lim (record s { heap = rest }) u
            (package_of audits s.used item.uid) eq in
        let near =
          (pop-All (λ j. j.uid < length audits) s.heap item rest e h.packed.once.heap_near).0 in
        record {
          packed = packed;
          idle = rw (i.overflow_is, h.idle);
          cover = λ v low. elim (rest_cover s item rest e h v low) [
            | inl known ↦
                inl (rw i.used_is (package_used s item.uid v h.packed.once.size near known))
            | inr there ↦ inr (omega (arith, i.heap_more (λ j. if j.uid == v then 1 else 0), there))
          ];
        }

    shrink :
        (s : State F) (item : HeapItem F) (rest : List (HeapItem F))
        → pop s.heap ≡ top item rest
        → IsPacked valid lim s
        → IsPacked valid lim (record s { heap = rest })
    shrink s item rest e h = record {
      once = record {
        size = h.once.size;
        heap_near = (pop-All (λ i. i.uid < length audits) s.heap item rest e h.once.heap_near).1;
        held_near = h.once.held_near;
        once = h.once.once;
        slots = h.once.slots;
      };
      exact = h.exact;
      few = h.few;
      closed = h.closed;
      current = h.current;
    }

    pub Complete-Keeps : Keeps audits lim IsComplete
    unfolding close_block item_of push_all
    Complete-Keeps = record {
      discard = λ s item rest e old h. record {
        packed = (Packed-Keeps valid lim u32).discard s item rest e old h.packed;
        idle = h.idle;
        cover = λ v low. elim (rest_cover s item rest e h v low) [
          | inl (inl known) ↦ inl known
          | inl (inr at) ↦ inl (rw at at old)
          | inr there ↦ inr there
        ];
      };
      refresh = λ s item rest e new h. record {
        packed = (Packed-Keeps valid lim u32).refresh s item rest e new h.packed;
        idle = h.idle;
        cover = λ v low. elim (rest_cover s item rest e h v low) [
          | inl (inl known) ↦ inl known
          | inl (inr at) ↦ inr (ground (arith, ==_iff item.uid v))
          | inr there ↦ inr (ground arith)
        ];
      };
      put = λ s item rest u e new p h.
          put-IsComplete s item rest u e new p h (shrink s item rest e h.packed)
            ((Packed-Keeps valid lim u32).put s item rest u e new p h.packed);
      shut = λ u b full h. record {
        packed = (Packed-Keeps valid lim u32).shut u b full h.packed;
        idle = refl;
        cover = rw h.idle h.cover;
      };
    }
