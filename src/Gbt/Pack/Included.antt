-- ===== src/Gbt/Pack/Included.antt =====
-- src/gbt.rs, `project_with`: the fields of the state after a package was included.
use satya_btc.Common.{ℕ, ◌+◌, ◌≤◌, ◌≡◌, Bool, some, List, ◌++◌, arith, length, All}
use satya_btc.Float.{Float}
use satya_btc.Gbt.Audit.{Audit}
use satya_btc.Gbt.Heap.{HeapItem}
use satya_btc.Gbt.Heap.Select.{total}
use satya_btc.Gbt.Pack.{Limits, State, include, refresh_descendants}
use satya_btc.Gbt.Pack.Marks.{mark_all, take_all-used, take_all-cur_block, take_all_rest}
use satya_btc.Gbt.Pack.Rule.{include_cases, taken}
use satya_btc.Gbt.Pack.Valid.{IsAudited}
use satya_btc.Gbt.Pack.Refresh.{Pushes, IsPushed, refresh_ends}

module _ {F : Type 0} ⦃f : Float F⦄ {audits : List Audit} (valid : IsAudited audits)
    (lim : Limits) where
  pub record IsIncluded (s : State F) (pkg : List ℕ) (u : State F) : Type 1 where
    pub used_is : u.used ≡ mark_all s.used pkg
    pub cur_block_is : u.cur_block ≡ s.cur_block ++ pkg
    pub blocks_is : u.blocks ≡ s.blocks
    pub overflow_is : u.overflow ≡ s.overflow
    pub heap_few : length u.heap ≤ length s.heap + length audits
    pub heap_more : (g : HeapItem F → ℕ) → total g s.heap ≤ total g u.heap
    pub heap_keeps : (Q : HeapItem F → Type 0) → Pushes valid u.used Q → All Q s.heap → All Q u.heap

  -- The walk over the descendants gives what `include` puts into the heap.
  refreshed_few :
      (used : List Bool) (pkg : List ℕ) (before heap : List (HeapItem F))
      → refresh_descendants audits pkg used before ≡ some heap
      → IsPushed valid used before (length audits) heap
  refreshed_few used pkg before heap r =
      let (heap', e, p) = refresh_ends valid pkg used before in
      let same : heap' ≡ heap = ground arith in rw same at p

  pub include-IsIncluded :
      (s u : State F) (pkg : List ℕ) → include audits lim s pkg ≡ some u → IsIncluded s pkg u
  include-IsIncluded s u pkg e =
      let (heap, r, eq) = include_cases audits lim s u pkg e in
      let p =
        refreshed_few (taken audits lim s pkg).used pkg (taken audits lim s pkg).heap heap r in
      let (same_heap, same_blocks, same_overflow) = take_all_rest audits _ pkg s in
      rw eq (record {
        used_is = take_all-used audits _ pkg s;
        cur_block_is = take_all-cur_block audits _ pkg s;
        blocks_is = same_blocks;
        overflow_is = same_overflow;
        heap_more = rw same_heap at p.more;
        heap_few = rw same_heap at p.few;
        heap_keeps = rw same_heap at p.keeps;
      })

  -- The walk never runs out.
  pub include_returns :
      (s : State F) (pkg : List ℕ) → (u : State F) × (include audits lim s pkg ≡ some u)
  unfolding include
  include_returns s pkg =
      let t = taken audits lim s pkg in
      let (heap, e, _) = refresh_ends valid pkg t.used t.heap in
      (record t { heap = heap; failures = 0 }, ground arith)
