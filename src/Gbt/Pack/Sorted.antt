-- ===== src/Gbt/Pack/Sorted.antt =====
-- src/gbt.rs, `project_with`: the sort of a package puts ancestors before their descendants.
use satya_btc.Common.{
  ℕ, ◌≤◌, ◌<◌, ◌≡◌, refl, ap, Bool, true, not, ◌&&◌, ◌||◌, ◌⊎◌, inl, inr, List, [], ◌∷◌, ◌++◌,
  arith, append_assoc, append-nil, ◌==◌, ==_iff, Bool-cases, length, All, contains, contains-count,
  count-contains,
}
use satya_btc.Gbt.Audit.{Audit, audit_of, is_used}
use satya_btc.Gbt.Ancestors.Closure.{Has}
use satya_btc.Gbt.Pack.{sort_in, sort_package, not_used, package_of}
use satya_btc.Gbt.Pack.Marks.{count-sort_package, count-not_used}

abbrev pub rank_of : List Audit → ℕ → ℕ
rank_of audits m = length (audit_of audits m).ancestors

-- The closures are closed under ancestors, and an ancestor has fewer ancestors.
pub record IsNested (audits : List Audit) : Type 0 where
  pub inner :
      (u m a : ℕ)
      → Has (audit_of audits u).ancestors m
      → Has (audit_of audits m).ancestors a
      → Has (audit_of audits u).ancestors a
  pub fewer : (m a : ℕ) → Has (audit_of audits m).ancestors a → rank_of audits a < rank_of audits m

-- Each member of the list stands after its ancestors, of which some may have been seen before.
abbrev pub AncestorsFirst : List Audit → List ℕ → List ℕ → Type 0
AncestorsFirst audits seen [] = Unit {0}
AncestorsFirst audits seen (m ∷ rest) =
    ((a : ℕ) → Has (audit_of audits m).ancestors a → Has seen a)
    × AncestorsFirst audits (seen ++ m ∷ []) rest

pub contains-append :
    (xs ys : List ℕ) (v : ℕ) → contains (xs ++ ys) v ≡ (contains xs v || contains ys v)
contains-append [] ys v = refl
contains-append (x ∷ xs) ys v = ground (arith, contains-append xs ys v)

pub AncestorsFirst-append :
    (audits : List Audit) (seen xs ys : List ℕ)
    → AncestorsFirst audits seen xs
    → AncestorsFirst audits (seen ++ xs) ys
    → AncestorsFirst audits seen (xs ++ ys)
AncestorsFirst-append audits seen [] ys h k = rw (append-nil seen) at k
AncestorsFirst-append audits seen (m ∷ xs) ys h k = (
  h.0,
  AncestorsFirst-append audits (seen ++ m ∷ []) xs ys h.1 (rw (append_assoc seen (m ∷ []) xs) k),
)

abbrev IsRanked : List Audit → List ℕ → Type 0
IsRanked audits [] = Unit {0}
IsRanked audits (a ∷ rest) =
    All (λ b. rank_of audits a ≤ rank_of audits b) rest × IsRanked audits rest

All-above :
    (audits : List Audit) (k j : ℕ) (xs : List ℕ)
    → k ≤ j
    → All (λ b. j ≤ rank_of audits b) xs
    → All (λ b. k ≤ rank_of audits b) xs
All-above audits k j [] h l = tt
All-above audits k j (b ∷ rest) h l = (omega arith, All-above audits k j rest h l.1)

-- Where a member goes.
sort_cases :
    (audits : List Audit) (a b : ℕ) (rest : List ℕ)
    → ((sort_in audits a (b ∷ rest) ≡ b ∷ sort_in audits a rest)
        × (rank_of audits b ≤ rank_of audits a))
      ⊎ ((sort_in audits a (b ∷ rest) ≡ a ∷ b ∷ rest) × (rank_of audits a ≤ rank_of audits b))
unfolding sort_in
sort_cases audits a b rest = ground arith

All-sort_in :
    (audits : List Audit) (k a : ℕ) (xs : List ℕ)
    → k ≤ rank_of audits a
    → All (λ b. k ≤ rank_of audits b) xs
    → All (λ b. k ≤ rank_of audits b) (sort_in audits a xs)
unfolding sort_in
All-sort_in audits k a [] h l = (h, tt)
All-sort_in audits k a (b ∷ rest) h l = elim (sort_cases audits a b rest) [
  | inl (e, _) ↦ rw e (l.0, All-sort_in audits k a rest h l.1)
  | inr (e, _) ↦ rw e (h, (l.0, l.1))
]

sort_in-IsRanked :
    (audits : List Audit) (a : ℕ) (xs : List ℕ)
    → IsRanked audits xs
    → IsRanked audits (sort_in audits a xs)
unfolding sort_in
sort_in-IsRanked audits a [] h = (tt, tt)
sort_in-IsRanked audits a (b ∷ rest) h = elim (sort_cases audits a b rest) [
  | inl (e, l) ↦
      rw e (All-sort_in audits (rank_of audits b) a rest l h.0, sort_in-IsRanked audits a rest h.1)
  | inr (e, l) ↦ rw e ((l, All-above audits (rank_of audits a) (rank_of audits b) rest l h.0), h)
]

pub sort_package-IsRanked :
    (audits : List Audit) (xs : List ℕ) → IsRanked audits (sort_package audits xs)
unfolding sort_package
sort_package-IsRanked audits [] = tt
sort_package-IsRanked audits (a ∷ rest) =
    sort_in-IsRanked audits a (sort_package audits rest) (sort_package-IsRanked audits rest)

ranked_le :
    (audits : List Audit) (k : ℕ) (xs : List ℕ) (v : ℕ)
    → All (λ b. k ≤ rank_of audits b) xs
    → Has xs v
    → k ≤ rank_of audits v
ranked_le audits k [] v h l = cc
ranked_le audits k (b ∷ rest) v h l = elim (Bool-cases (b == v)) [
  | inl at ↦ omega (arith, h.0, ap (rank_of audits) ((==_iff b v).0 at))
  | inr off ↦ ranked_le audits k rest v h.1 (ground arith)
]

-- A ranked list whose members have their ancestors in it or before it.
IsRanked-AncestorsFirst :
    (audits : List Audit) (seen xs : List ℕ)
    → IsNested audits
    → IsRanked audits xs
    → ((m a : ℕ)
        → Has xs m
        → Has (audit_of audits m).ancestors a
        → (contains seen a || contains xs a) ≡ true)
    → AncestorsFirst audits seen xs
IsRanked-AncestorsFirst audits seen [] n r h = tt
IsRanked-AncestorsFirst audits seen (m ∷ rest) n r h = (
  λ a k.
      let placed = h m a (ground (arith, ==_iff m m)) k in
      let low = n.fewer m a k in
      elim (Bool-cases (contains seen a)) [
        | inl e ↦ e
        | inr e ↦ elim (Bool-cases (m == a)) [
          | inl at ↦ absurd (omega (arith, ap (rank_of audits) ((==_iff m a).0 at)))
          | inr off ↦
              absurd (omega (arith, ranked_le audits (rank_of audits m) rest a r.0 (ground arith)))
        ]
      ],
  IsRanked-AncestorsFirst audits (seen ++ m ∷ []) rest n r.1
      (λ v a l k. ground (arith, contains-append seen (m ∷ []) a, h v a)),
)

module _ {audits : List Audit} (nested : IsNested audits) (used : List Bool) (uid : ℕ) where
  sorted_part : List ℕ
  sorted_part = sort_package audits (not_used used (audit_of audits uid).ancestors)

  -- The ancestors that are left, in the sorted part of the package.
  contains-sorted_part :
      (v : ℕ)
      → contains sorted_part v
        ≡ (not (is_used used v) && contains (audit_of audits uid).ancestors v)
  unfolding sorted_part
  contains-sorted_part v =
      let left = not_used used (audit_of audits uid).ancestors in
      ground (
        arith,
        count-sort_package audits v left,
        count-not_used used v (audit_of audits uid).ancestors,
        contains-count (sort_package audits left) v,
        count-contains (sort_package audits left) v,
        contains-count (audit_of audits uid).ancestors v,
        count-contains (audit_of audits uid).ancestors v,
      )

  -- A package after all that was used.
  pub package-AncestorsFirst :
      (seen : List ℕ)
      → ((v : ℕ) → contains seen v ≡ is_used used v)
      → AncestorsFirst audits seen (package_of audits used uid)
  unfolding package_of sorted_part
  package-AncestorsFirst seen same =
      AncestorsFirst-append audits seen sorted_part (uid ∷ [])
        (IsRanked-AncestorsFirst audits seen sorted_part nested
          (sort_package-IsRanked audits (not_used used (audit_of audits uid).ancestors))
          (λ m a h k.
            ground (
              arith,
              same a,
              contains-sorted_part m,
              contains-sorted_part a,
              nested.inner uid m a,
            )))
        (
          λ a k. ground (arith, same a, contains-append seen sorted_part a, contains-sorted_part a),
          tt,
        )
