-- ===== src/Gbt/Pack/Once.antt =====
-- src/gbt.rs, `project_with`: a transaction is placed at most once, and `used` says which were.
use satya_btc.Common.{
  ℕ, ◌+◌, ◌≤◌, ◌<◌, ◌≡◌, Bool, false, List, [], ◌∷◌, ◌++◌, arith, if◌then◌else◌, length,
  length-append, count, count-append, contains-count, count-contains, unset, All, All-append,
}
use satya_btc.Float.{Float}
use satya_btc.Gbt.Audit.{Audit, is_used}
use satya_btc.Gbt.Heap.{HeapItem}
use satya_btc.Gbt.Heap.Select.{pop-All}
use satya_btc.Gbt.Pack.{Limits, State, item_of, push_all, hold, package_of, close_block}
use satya_btc.Gbt.Pack.Marks.{mark_all, length-mark_all, is_used-mark_all, unset-mark_all}
use satya_btc.Gbt.Pack.Rule.{Placed, held, included, Keeps}
use satya_btc.Gbt.Pack.Valid.{IsAudited, package_near, package_distinct}
use satya_btc.Gbt.Pack.Included.{include-IsIncluded}

-- How often a uid stands in the blocks, and how many stand there.
abbrev pub occurrences : ℕ → List (List ℕ) → ℕ
occurrences v [] = 0
occurrences v (b ∷ bs) = count v b + occurrences v bs

abbrev pub placed_total : List (List ℕ) → ℕ
placed_total [] = 0
placed_total (b ∷ bs) = length b + placed_total bs

pub occurrences-concat :
    (v : ℕ) (bs : List (List ℕ)) (b : List ℕ)
    → occurrences v (bs ++ b ∷ []) ≡ occurrences v bs + count v b
occurrences-concat v [] b = omega arith
occurrences-concat v (c ∷ bs) b = omega (arith, occurrences-concat v bs b)

pub placed_total-concat :
    (bs : List (List ℕ)) (b : List ℕ) → placed_total (bs ++ b ∷ []) ≡ placed_total bs + length b
placed_total-concat [] b = omega arith
placed_total-concat (c ∷ bs) b = omega (arith, placed_total-concat bs b)

module _ {F : Type 0} ⦃f : Float F⦄ {audits : List Audit} (valid : IsAudited audits)
    (lim : Limits) where
  pub record IsOnce (s : State F) : Type 0 where
    pub size : length s.used ≡ length audits
    pub heap_near : All (λ i. i.uid < length audits) s.heap
    pub held_near : All (λ o. o < length audits) s.overflow
    pub once :
        (v : ℕ) → occurrences v s.blocks + count v s.cur_block ≡ (if is_used s.used v then 1 else 0)
    pub slots : placed_total s.blocks + length s.cur_block + unset s.used ≡ length audits

  item_near :
      (s : State F) (d : ℕ)
      → d < length audits
      → (item_of {F = F} audits s.used d).uid < length audits
  unfolding item_of
  item_near s d h = h

  push_all-near :
      (used : List Bool) (os : List ℕ) (heap : List (HeapItem F))
      → All (λ o. o < length audits) os
      → All (λ i. i.uid < length audits) heap
      → All (λ i. i.uid < length audits) (push_all audits used os heap)
  unfolding push_all item_of
  push_all-near used [] heap ho hh = hh
  push_all-near used (o ∷ rest) heap ho hh = push_all-near used rest _ ho.1 (ho.0, hh)

  -- Placing a package whose members are distinct and not used.
  module _ (s : State F) (pkg : List ℕ) (near : All (λ m. m < length s.used) pkg)
      (distinct : (v : ℕ) → count v pkg + (if is_used s.used v then 1 else 0) ≤ 1) where
    once-mark_all :
        (v : ℕ)
        → occurrences v s.blocks + count v s.cur_block ≡ (if is_used s.used v then 1 else 0)
        → occurrences v s.blocks + count v (s.cur_block ++ pkg)
          ≡ (if is_used (mark_all s.used pkg) v then 1 else 0)
    once-mark_all v h = ground (
      arith,
      count-append v s.cur_block pkg,
      is_used-mark_all s.used pkg v near,
      distinct v,
      contains-count pkg v,
      count-contains pkg v,
    )

    slots-mark_all :
        placed_total s.blocks + length s.cur_block + unset s.used ≡ length audits
        → placed_total s.blocks + length (s.cur_block ++ pkg) + unset (mark_all s.used pkg)
          ≡ length audits
    slots-mark_all h =
        omega (arith, length-append s.cur_block pkg, unset-mark_all s.used pkg near distinct)

  put-IsOnce :
      (s : State F) (item : HeapItem F) (u : State F)
      → item.uid < length audits
      → is_used s.used item.uid ≡ false
      → Placed audits lim s item u
      → IsOnce s
      → IsOnce u
  unfolding hold
  put-IsOnce s item u near free (held big e) h = rw e (record {
    size = h.size;
    heap_near = h.heap_near;
    held_near = All-append (λ o. o < length audits) s.overflow _ h.held_near (near, tt);
    once = h.once;
    slots = h.slots;
  })
  put-IsOnce s item u near free (included fits e) h =
      let pkg = package_of audits s.used item.uid in
      let i = include-IsIncluded valid lim s u pkg e in
      let here : All (λ m. m < length s.used) pkg =
        rw h.size (package_near valid s.used item.uid near) in
      let distinct = package_distinct valid s.used item.uid free in
      record {
        size = rw (i.used_is, length-mark_all, h.size);
        heap_near = i.heap_keeps (λ j. j.uid < length audits) (item_near u) h.heap_near;
        held_near = rw i.overflow_is h.held_near;
        once = λ v.
            rw (i.used_is, i.cur_block_is, i.blocks_is)
              (once-mark_all s pkg here distinct v (h.once v));
        slots =
            rw (i.used_is, i.cur_block_is, i.blocks_is)
              (slots-mark_all s pkg here distinct h.slots);
      }

  pub Once-Keeps : Keeps audits lim IsOnce
  unfolding close_block item_of
  Once-Keeps = record {
    discard = λ s item rest e old h. record {
      size = h.size;
      heap_near = (pop-All (λ i. i.uid < length audits) s.heap item rest e h.heap_near).1;
      held_near = h.held_near;
      once = h.once;
      slots = h.slots;
    };
    refresh = λ s item rest e new h. record {
      size = h.size;
      heap_near = pop-All (λ i. i.uid < length audits) s.heap item rest e h.heap_near;
      held_near = h.held_near;
      once = h.once;
      slots = h.slots;
    };
    put = λ s item rest u e new p h.
        let (near, others) = pop-All (λ i. i.uid < length audits) s.heap item rest e h.heap_near in
        put-IsOnce (record s { heap = rest }) item u near new p
          (record {
            size = h.size;
            heap_near = others;
            held_near = h.held_near;
            once = h.once;
            slots = h.slots;
          });
    shut = λ u b full h. record {
      size = h.size;
      heap_near = push_all-near u.used u.overflow u.heap h.held_near h.heap_near;
      held_near = tt;
      once = λ v. omega (arith, h.once v, occurrences-concat v u.blocks u.cur_block);
      slots = omega (arith, h.slots, placed_total-concat u.blocks u.cur_block);
    };
  }
