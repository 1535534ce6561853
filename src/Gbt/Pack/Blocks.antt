-- ===== src/Gbt/Pack/Blocks.antt =====
-- src/gbt.rs, `project_with`: the weight of the blocks. The sums are of `u64`; with the ranges of the
-- fields of `GbtTx` they do not wrap around.
use satya_btc.Common.{
  ℕ, ◌+◌, ◌-◌, ◌*◌, ◌≤◌, ◌<◌, ◌≡◌, refl, ◌∙◌, Bool, true, false, ◌⊎◌, inl, inr, List, [], ◌∷◌, ◌++◌,
  arith, add64, u64_mod, List-cases, is_empty, set, ap, length, length-append, All, All-append,
  u32_mod,
}
use satya_btc.Float.{Float}
use satya_btc.Gbt.Audit.{Audit, audit_of, rate}
use satya_btc.Gbt.Heap.{HeapItem}
use satya_btc.Gbt.Pack.{
  Limits, State, hold, package_of, sum_weight, sum_fee, take_all, bounded, too_big, close_block,
}
use satya_btc.Gbt.Heap.Select.{pop-All}
use satya_btc.Gbt.Pack.Marks.{weight_sum, weight_sum-append}
use satya_btc.Gbt.Pack.Rule.{Placed, held, included, Keeps, include_cases}
use satya_btc.Gbt.Pack.Valid.{IsAudited}
use satya_btc.Gbt.Pack.Included.{include-IsIncluded}
use satya_btc.Gbt.Pack.Once.{IsOnce, Once-Keeps}

-- The fields are of `u32`.
pub record IsU32 (audits : List Audit) (lim : Limits) : Type 0 where
  pub weights : (u : ℕ) → (audit_of audits u).weight < u32_mod
  pub size : length audits < u32_mod
  pub reserve : lim.reserved < u32_mod
  pub max_weight : lim.max_block_weight < u32_mod

small_sum :
    (n w r : ℕ)
    → n < 4_294_967_296
    → r < 4_294_967_296
    → w ≤ n * 4_294_967_295
    → r + w < 18_446_744_073_709_551_616
small_sum n w r hn hr hw = omega (arith, scaled n hn)
  where
    scaled : (n : ℕ) → n < 4_294_967_296 → n * 4_294_967_295 ≤ 4_294_967_295 * 4_294_967_295
    scaled n h = omega arith

module _ {audits : List Audit} {lim : Limits} (u32 : IsU32 audits lim) where
  weight_sum_le : (b : List ℕ) → weight_sum audits b ≤ length b * 4_294_967_295
  weight_sum_le [] = omega arith
  weight_sum_le (m ∷ rest) = omega (arith, u32.weights m, weight_sum_le rest)

  no_wrap : (b : List ℕ) → length b ≤ length audits → lim.reserved + weight_sum audits b < u64_mod
  no_wrap b h =
      small_sum (length b) (weight_sum audits b) lim.reserved (omega (arith, u32.size)) u32.reserve
        (weight_sum_le b)

pub sum_weight-eq :
    (audits : List Audit) (b : List ℕ)
    → weight_sum audits b < u64_mod
    → sum_weight audits b ≡ weight_sum audits b
unfolding sum_weight
sum_weight-eq audits [] h = refl
sum_weight-eq audits (m ∷ rest) h = omega (arith, sum_weight-eq audits rest (omega arith))

-- Within the limit, or one package on its own.
pub data Fits (audits : List Audit) (lim : Limits) (b : List ℕ) : Type 0 where
  within : lim.reserved + weight_sum audits b ≤ lim.max_block_weight → Fits audits lim b
  alone : (used : List Bool) (uid : ℕ) → b ≡ package_of audits used uid → Fits audits lim b

open-Fits :
    {audits : List Audit} {lim : Limits} (b : List ℕ)
    → is_empty b ≡ false
    → (b ≡ []) ⊎ Fits audits lim b
    → Fits audits lim b
open-Fits [] h k = cc
open-Fits (x ∷ b) h (inl e) = cc
open-Fits (x ∷ b) h (inr k) = k

-- The accumulated weight before the rest of a package.
add_exact : (a w r : ℕ) → a + (w + r) < u64_mod → add64 a w + r ≡ a + (w + r)
add_exact a w r h = omega arith

module _ {F : Type 0} ⦃f : Float F⦄ {audits : List Audit} (valid : IsAudited audits)
    (lim : Limits) where
  take_all-block_weight :
      (r : F) (pkg : List ℕ) (s : State F)
      → s.block_weight + weight_sum audits pkg < u64_mod
      → (take_all audits r pkg s).block_weight ≡ s.block_weight + weight_sum audits pkg
  unfolding take_all
  take_all-block_weight r [] s h = omega arith
  take_all-block_weight r (m ∷ rest) s h =
      let same = add_exact s.block_weight (audit_of audits m).weight (weight_sum audits rest) h in
      take_all-block_weight r rest
        (record s {
          used = set s.used m true;
          cur_block = s.cur_block ++ m ∷ [];
          block_weight = add64 s.block_weight (audit_of audits m).weight;
          effective_rates = (m, r) ∷ s.effective_rates;
        })
        (rw same h)
      ∙ same

  pub record IsPacked (s : State F) : Type 0 where
    pub once : IsOnce valid lim s
    pub exact : s.block_weight ≡ lim.reserved + weight_sum audits s.cur_block
    pub few : length s.blocks ≤ lim.max_blocks - 1
    pub closed : All (Fits audits lim) s.blocks
    pub current :
        length s.blocks < lim.max_blocks - 1 → (s.cur_block ≡ []) ⊎ Fits audits lim s.cur_block

  -- A package that is not too big for a block that may be closed.
  fits_cases :
      (s : State F) (pkg_weight : ℕ)
      → lim.max_block_weight < u32_mod
      → too_big audits lim s pkg_weight ≡ false
      → length s.blocks < lim.max_blocks - 1
      → (s.cur_block ≡ []) ⊎ (s.block_weight + pkg_weight ≤ lim.max_block_weight)
  unfolding too_big
  fits_cases s pkg_weight m h b = elim (List-cases s.cur_block) [
    | inl e ↦ inl e
    | inr (x, rest, e) ↦ inr (ground arith)
  ]

  block_short : (u : State F) → IsOnce valid lim u → length u.cur_block ≤ length audits
  block_short u once = omega (arith, once.slots)

  module _ (u32 : IsU32 audits lim) where
    pub put-IsPacked :
        (s : State F) (item : HeapItem F) (u : State F)
        → Placed audits lim s item u
        → IsPacked s
        → IsOnce valid lim u
        → IsPacked u
    unfolding hold
    put-IsPacked s item u (held big e) h once = record {
      once = once;
      exact = rw e h.exact;
      few = rw e h.few;
      closed = rw e h.closed;
      current = rw e h.current;
    }
    put-IsPacked s item u (included fits e) h once =
        let pkg = package_of audits s.used item.uid in
        let i = include-IsIncluded valid lim s u pkg e in
        let (heap, r, eq) = include_cases audits lim s u pkg e in
        let joined = weight_sum-append audits s.cur_block pkg in
        let short : length (s.cur_block ++ pkg) ≤ length audits =
          rw i.cur_block_is at (block_short u once) in
        let small = no_wrap u32 (s.cur_block ++ pkg) short in
        let sum_is = sum_weight-eq audits pkg (omega (arith, small, joined)) in
        let taken_is =
          take_all-block_weight (rate (sum_fee audits pkg) (sum_weight audits pkg)) pkg s
            (omega (arith, small, joined, h.exact)) in
        record {
          once = once;
          exact =
              rw i.cur_block_is (
                ap (λ (t : State F). t.block_weight) eq ∙ omega (arith, taken_is, joined, h.exact));
          few = rw i.blocks_is h.few;
          closed = rw i.blocks_is h.closed;
          current = λ b.
              inr
                (elim (fits_cases s (sum_weight audits pkg) u32.max_weight fits
                  (rw i.blocks_is at b)) [
                    | inl e' ↦ alone s.used item.uid (rw (i.cur_block_is, e'))
                    | inr le ↦
                        within (rw i.cur_block_is (omega (arith, le, sum_is, joined, h.exact)))
                  ]);
        }

    pub Packed-Keeps : Keeps audits lim IsPacked
    unfolding close_block bounded
    Packed-Keeps = record {
      discard = λ s item rest e old h. record {
        once = (Once-Keeps valid lim).discard s item rest e old h.once;
        exact = h.exact;
        few = h.few;
        closed = h.closed;
        current = h.current;
      };
      refresh = λ s item rest e new h. record {
        once = (Once-Keeps valid lim).refresh s item rest e new h.once;
        exact = h.exact;
        few = h.few;
        closed = h.closed;
        current = h.current;
      };
      put = λ s item rest u e new p h.
          let once_after = (Once-Keeps valid lim).put s item rest u e new p h.once in
          put-IsPacked (record s { heap = rest }) item u p
            (record {
              once = record {
                size = h.once.size;
                heap_near =
                    (pop-All (λ i. i.uid < length audits) s.heap item rest e h.once.heap_near).1;
                held_near = h.once.held_near;
                once = h.once.once;
                slots = h.once.slots;
              };
              exact = h.exact;
              few = h.few;
              closed = h.closed;
              current = h.current;
            })
            once_after;
      shut = λ u b full h.
          let room : length u.blocks < lim.max_blocks - 1 = ground arith in
          record {
            once = (Once-Keeps valid lim).shut u b full h.once;
            exact = omega arith;
            few = omega (arith, length-append u.blocks (u.cur_block ∷ []), room);
            closed =
                All-append (Fits audits lim) u.blocks _ h.closed
                  (open-Fits u.cur_block full (h.current room), tt);
            current = λ _. inl refl;
          };
    }
