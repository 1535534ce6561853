-- ===== src/Gbt/Pack/Ordered.antt =====
-- src/gbt.rs, `project_with`: over all the blocks, a transaction stands after its ancestors.
use satya_btc.Common.{
  ℕ, ◌≡◌, refl, sym, ◌∙◌, ap, true, false, List, [], ◌∷◌, ◌++◌, arith, append_assoc, append-nil,
  if◌then◌else◌, ◌==◌, contains, contains-count, count-contains,
}
use satya_btc.Float.{Float}
use satya_btc.Gbt.Audit.{Audit, is_used}
use satya_btc.Gbt.Heap.{HeapItem}
use satya_btc.Gbt.Pack.{Limits, State, hold, package_of, close_block}
use satya_btc.Gbt.Pack.Rule.{Placed, held, included, Keeps}
use satya_btc.Gbt.Pack.Valid.{IsAudited}
use satya_btc.Gbt.Pack.Included.{include-IsIncluded}
use satya_btc.Gbt.Pack.Once.{IsOnce, Once-Keeps, occurrences}
use satya_btc.Gbt.Pack.Sorted.{
  IsNested, AncestorsFirst, AncestorsFirst-append, contains-append, package-AncestorsFirst,
}

-- The blocks in a row.
abbrev pub flatten : List (List ℕ) → List ℕ
flatten [] = []
flatten (b ∷ bs) = b ++ flatten bs

pub flatten-concat : (bs : List (List ℕ)) (b : List ℕ) → flatten (bs ++ b ∷ []) ≡ flatten bs ++ b
flatten-concat [] b = append-nil b
flatten-concat (c ∷ bs) b =
    ap (λ t. c ++ t) (flatten-concat bs b) ∙ sym (append_assoc c (flatten bs) b)

contains-flatten :
    (v : ℕ) (bs : List (List ℕ))
    → contains (flatten bs) v ≡ (if occurrences v bs == 0 then false else true)
contains-flatten v [] = refl
contains-flatten v (b ∷ bs) = ground (
  arith,
  contains-append b (flatten bs) v,
  contains-flatten v bs,
  contains-count b v,
  count-contains b v,
)

module _ {F : Type 0} ⦃f : Float F⦄ {audits : List Audit} (valid : IsAudited audits)
    (nested : IsNested audits) (lim : Limits) where
  pub record IsOrdered (s : State F) : Type 0 where
    pub once : IsOnce valid lim s
    pub first : AncestorsFirst audits [] (flatten s.blocks ++ s.cur_block)

  -- What stands in the blocks is what is used.
  contains_placed :
      (s : State F) (v : ℕ)
      → IsOnce valid lim s
      → contains (flatten s.blocks ++ s.cur_block) v ≡ is_used s.used v
  contains_placed s v h = ground (
    arith,
    contains-append (flatten s.blocks) s.cur_block v,
    contains-flatten v s.blocks,
    contains-count s.cur_block v,
    count-contains s.cur_block v,
    h.once v,
  )

  put-first :
      (s : State F) (item : HeapItem F) (u : State F)
      → ((v : ℕ) → contains (flatten s.blocks ++ s.cur_block) v ≡ is_used s.used v)
      → Placed audits lim s item u
      → AncestorsFirst audits [] (flatten s.blocks ++ s.cur_block)
      → AncestorsFirst audits [] (flatten u.blocks ++ u.cur_block)
  unfolding hold
  put-first s item u same (held big e) h = rw e h
  put-first s item u same (included fits e) h =
      let pkg = package_of audits s.used item.uid in
      let i = include-IsIncluded valid lim s u pkg e in
      rw (i.cur_block_is, i.blocks_is, ← append_assoc (flatten s.blocks) s.cur_block pkg)
        (AncestorsFirst-append audits [] (flatten s.blocks ++ s.cur_block) pkg h
          (package-AncestorsFirst nested s.used item.uid _ same))

  pub Ordered-Keeps : Keeps audits lim IsOrdered
  unfolding close_block
  Ordered-Keeps = record {
    discard = λ s item rest e old h. record {
      once = (Once-Keeps valid lim).discard s item rest e old h.once;
      first = h.first;
    };
    refresh = λ s item rest e new h. record {
      once = (Once-Keeps valid lim).refresh s item rest e new h.once;
      first = h.first;
    };
    put = λ s item rest u e new p h. record {
      once = (Once-Keeps valid lim).put s item rest u e new p h.once;
      first =
          put-first (record s { heap = rest }) item u (λ v. contains_placed s v h.once) p h.first;
    };
    shut = λ u b full h. record {
      once = (Once-Keeps valid lim).shut u b full h.once;
      first =
          rw (flatten-concat u.blocks u.cur_block, append-nil (flatten u.blocks ++ u.cur_block))
            h.first;
    };
  }
