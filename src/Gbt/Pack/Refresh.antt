-- ===== src/Gbt/Pack/Refresh.antt =====
-- src/gbt.rs, `refresh_descendants`: it ends, pushes an item for a uid at most once, and pushes
-- nothing out of range.
use satya_btc.Common.{
  ℕ, zero, suc, ◌+◌, ◌-◌, ◌≤◌, ◌<◌, ◌≡◌, refl, Bool, false, inl, inr, some, List, [], ◌∷◌, arith,
  if◌then◌else◌, ◌==◌, ==_iff, Bool-cases, length, contains, All,
}
use satya_btc.Float.{Float}
use satya_btc.Gbt.Audit.{Audit, audit_of, is_used}
use satya_btc.Gbt.Heap.{HeapItem}
use satya_btc.Gbt.Heap.Select.{total}
use satya_btc.Gbt.Pack.{offer, offer_all, item_of, descend, refresh_descendants}
use satya_btc.Gbt.Pack.Valid.{IsAudited}

-- How many of the first `n` uids were not seen.
abbrev missing : ℕ → List ℕ → ℕ
missing zero seen = 0
missing (suc k) seen = (if contains seen k then 0 else 1) + missing k seen

missing-cons_far : (n c : ℕ) (seen : List ℕ) → n ≤ c → missing n (c ∷ seen) ≡ missing n seen
missing-cons_far zero c seen h = refl
missing-cons_far (suc n) c seen h = ground (arith, missing-cons_far n c seen)

missing-cons :
    (n c : ℕ) (seen : List ℕ)
    → c < n
    → contains seen c ≡ false
    → missing n (c ∷ seen) + 1 ≡ missing n seen
missing-cons zero c seen h e = absurd (omega arith)
missing-cons (suc n) c seen h e = elim (Bool-cases (c == n)) [
  | inl at ↦ let same : c ≡ n = (==_iff c n).0 at in ground (arith, missing-cons_far n c seen)
  | inr off ↦ ground (arith, missing-cons n c seen)
]

missing-nil : (n : ℕ) → missing n [] ≡ n
missing-nil zero = refl
missing-nil (suc n) = omega (arith, missing-nil n)

-- The stack and what was not seen: a push moves one from these to that.
abbrev Near : ℕ → List ℕ → Type 0
Near n = All (λ c. c < n)

record IsStacked (n work : ℕ) (seen stack : List ℕ) : Type 0 where
  left : missing n seen + length stack ≡ work
  near : Near n stack

offer-IsStacked :
    (n work : ℕ) (cs seen stack : List ℕ)
    → Near n cs
    → IsStacked n work seen stack
    → IsStacked n work (offer cs seen stack).0 (offer cs seen stack).1
unfolding offer
offer-IsStacked n work [] seen stack h i = i
offer-IsStacked n work (c ∷ rest) seen stack h i = elim (Bool-cases (contains seen c)) [
  | inl old ↦ rw old (offer-IsStacked n work rest seen stack h.1 i)
  | inr new ↦ rw new (
      offer-IsStacked n work rest (c ∷ seen) (c ∷ stack) h.1 (record {
        left = omega (arith, i.left, missing-cons n c seen h.0 new);
        near = (h.0, i.near);
      }))
]

module _ {audits : List Audit} (valid : IsAudited audits) where
  offer_all-IsStacked :
      (pkg seen stack : List ℕ) (work : ℕ)
      → IsStacked (length audits) work seen stack
      → IsStacked
          (length audits)
          work
          (offer_all audits pkg seen stack).0
          (offer_all audits pkg seen stack).1
  unfolding offer_all
  offer_all-IsStacked [] seen stack work i = i
  offer_all-IsStacked (m ∷ rest) seen stack work i = offer_all-IsStacked rest _ _ work (
      offer-IsStacked (length audits) work (audit_of audits m).children seen stack (valid.kids m) i)

module _ {F : Type 0} ⦃f : Float F⦄ {audits : List Audit} (valid : IsAudited audits) where
  -- What an item that the walk pushes has.
  abbrev pub Pushes : List Bool → (HeapItem F → Type 0) → Type 0
  Pushes used Q = (d : ℕ) → d < length audits → Q (item_of audits used d)

  pushed_All :
      (Q : HeapItem F → Type 0) (used : List Bool) (d : ℕ) (heap : List (HeapItem F))
      → Q (item_of audits used d)
      → All Q heap
      → All Q (if is_used used d then heap else item_of audits used d ∷ heap)
  pushed_All Q used d heap h k = elim (Bool-cases (is_used used d)) [
    | inl e ↦ rw e k
    | inr e ↦ rw e (h, k)
  ]

  pushed_total :
      (g : HeapItem F → ℕ) (used : List Bool) (d : ℕ) (heap : List (HeapItem F))
      → total g heap ≤ total g (if is_used used d then heap else item_of audits used d ∷ heap)
  pushed_total g used d heap = elim (Bool-cases (is_used used d)) [
    | inl e ↦ rw e (omega arith)
    | inr e ↦ rw e (omega arith)
  ]

  -- The walk ends with fuel for what is stacked and not seen, and pushes no more than its fuel.
  pub record IsPushed (used : List Bool) (heap : List (HeapItem F)) (fuel : ℕ)
      (heap' : List (HeapItem F)) : Type 1 where
    pub few : length heap' ≤ length heap + fuel
    pub more : (g : HeapItem F → ℕ) → total g heap ≤ total g heap'
    pub keeps : (Q : HeapItem F → Type 0) → Pushes used Q → All Q heap → All Q heap'

  descend_ends :
      (used : List Bool) (fuel : ℕ) (seen stack : List ℕ) (heap : List (HeapItem F)) (work : ℕ)
      → IsStacked (length audits) work seen stack
      → work ≤ fuel
      → (heap' : List (HeapItem F)) × (descend audits used fuel seen stack heap ≡ some heap')
        × IsPushed used heap fuel heap'
  unfolding descend
  descend_ends used zero seen [] heap work i h =
      (heap, refl, record { few = omega arith; more = λ g. omega arith; keeps = λ Q p k. k })
  descend_ends used (suc fuel) seen [] heap work i h =
      (heap, refl, record { few = omega arith; more = λ g. omega arith; keeps = λ Q p k. k })
  descend_ends used zero seen (d ∷ stack) heap work i h = absurd (omega (arith, i.left))
  descend_ends used (suc fuel) seen (d ∷ stack) heap work i h =
      let heap1 : List (HeapItem F) =
        if is_used used d then heap else item_of audits used d ∷ heap in
      let grown : length heap1 ≤ length heap + 1 = ground arith in
      let rest : IsStacked (length audits) (work - 1) seen stack = record {
        left = omega (arith, i.left);
        near = i.near.1;
      } in
      let (heap', e, p) =
        descend_ends used fuel _ _ heap1 (work - 1)
          (offer-IsStacked (length audits) (work - 1) (audit_of audits d).children seen stack
            (valid.kids d) rest)
          (omega arith) in
      (
        heap',
        e,
        record {
          few = omega (arith, p.few);
          more = λ g. omega (arith, p.more g, pushed_total g used d heap);
          keeps = λ Q pushes k. p.keeps Q pushes (pushed_All Q used d heap (pushes d i.near.0) k);
        },
      )

  pub refresh_ends :
      (pkg : List ℕ) (used : List Bool) (heap : List (HeapItem F))
      → (heap' : List (HeapItem F)) × (refresh_descendants audits pkg used heap ≡ some heap')
        × IsPushed used heap (length audits) heap'
  unfolding refresh_descendants
  refresh_ends pkg used heap =
      descend_ends used (length audits) _ _ heap (length audits)
        (offer_all-IsStacked valid pkg [] [] (length audits)
          (record { left = omega (arith, missing-nil (length audits)); near = tt }))
        (omega arith)
