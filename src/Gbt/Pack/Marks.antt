-- ===== src/Gbt/Pack/Marks.antt =====
-- src/gbt.rs, `project_with`: what including a package does to the flags, the block and the rates.
use satya_btc.Common.{
  ℕ, ◌+◌, ◌≤◌, ◌<◌, ◌≡◌, refl, Bool, true, false, List, [], ◌∷◌, ◌++◌, arith, append_assoc,
  append-nil, sym, if◌then◌else◌, ◌==◌, ==_iff, Bool-cases, inl, inr, length, set, contains, count,
  count-append, unset, unset-set, unset-set_le, length-set, get_or-set_self, get_or-set_ne, All,
}
use satya_btc.Float.{Float}
use satya_btc.Gbt.Audit.{Audit, audit_of, is_used}
use satya_btc.Gbt.Pack.{State, sort_in, sort_package, not_used, package_of, take_all}

-- The flags after a package was used.
abbrev pub mark_all : List Bool → List ℕ → List Bool
mark_all used [] = used
mark_all used (m ∷ rest) = mark_all (set used m true) rest

pub length-mark_all : (used : List Bool) (pkg : List ℕ) → length (mark_all used pkg) ≡ length used
length-mark_all used [] = refl
length-mark_all used (m ∷ rest) =
    omega (arith, length-mark_all (set used m true) rest, length-set used m true)

set_used :
    (used : List Bool) (m v : ℕ)
    → m < length used
    → is_used (set used m true) v ≡ (if m == v then true else is_used used v)
set_used used m v h =
    ground (arith, get_or-set_self used m true false, get_or-set_ne used m v true false)

-- A uid is used if it was, or if the package has it.
pub is_used-mark_all :
    (used : List Bool) (pkg : List ℕ) (v : ℕ)
    → All (λ m. m < length used) pkg
    → is_used (mark_all used pkg) v ≡ (if contains pkg v then true else is_used used v)
is_used-mark_all used [] v h = refl
is_used-mark_all used (m ∷ rest) v h =
    ground (arith, is_used-mark_all (set used m true) rest v (rw length-set h.1), set_used used m v)

pub unset-mark_all_le : (used : List Bool) (pkg : List ℕ) → unset (mark_all used pkg) ≤ unset used
unset-mark_all_le used [] = omega arith
unset-mark_all_le used (m ∷ rest) =
    omega (arith, unset-mark_all_le (set used m true) rest, unset-set_le used m)

-- A package whose members are distinct and not yet used takes as many flags as it has members.
pub unset-mark_all :
    (used : List Bool) (pkg : List ℕ)
    → All (λ m. m < length used) pkg
    → ((m : ℕ) → count m pkg + (if is_used used m then 1 else 0) ≤ 1)
    → unset (mark_all used pkg) + length pkg ≡ unset used
unset-mark_all used [] h d = omega arith
unset-mark_all used (m ∷ rest) h d =
    let free : is_used used m ≡ false = ground (arith, d m) in
    let step =
      unset-mark_all (set used m true) rest (rw length-set h.1)
        (λ v. ground (arith, d v, set_used used m v)) in
    omega (arith, step, unset-set used m h.0 free)

-- Sorting keeps the members.
count-sort_in :
    (audits : List Audit) (v a : ℕ) (xs : List ℕ) → count v (sort_in audits a xs) ≡ count v (a ∷ xs)
unfolding sort_in
count-sort_in audits v a [] = refl
count-sort_in audits v a (b ∷ rest) = ground (arith, count-sort_in audits v a rest)

pub count-sort_package :
    (audits : List Audit) (v : ℕ) (xs : List ℕ) → count v (sort_package audits xs) ≡ count v xs
unfolding sort_package
count-sort_package audits v [] = refl
count-sort_package audits v (a ∷ rest) =
    omega
      (arith, count-sort_in audits v a (sort_package audits rest), count-sort_package audits v rest)

pub count-not_used :
    (used : List Bool) (v : ℕ) (xs : List ℕ)
    → count v (not_used used xs) ≡ (if is_used used v then 0 else count v xs)
unfolding not_used
count-not_used used v [] = ground arith
count-not_used used v (a ∷ rest) = ground (arith, count-not_used used v rest, ==_iff a v)

-- A package has the ancestors that are not yet used, and the transaction.
pub count-package :
    (audits : List Audit) (used : List Bool) (uid v : ℕ)
    → count v (package_of audits used uid)
      ≡ (if is_used used v then 0 else count v (audit_of audits uid).ancestors)
        + (if uid == v then 1 else 0)
unfolding package_of
count-package audits used uid v = omega (
  arith,
  count-append v (sort_package audits (not_used used (audit_of audits uid).ancestors)) (uid ∷ []),
  count-sort_package audits v (not_used used (audit_of audits uid).ancestors),
  count-not_used used v (audit_of audits uid).ancestors,
)

-- A property of numbers that every counted one has.
pub All-of_count : (P : ℕ → Type 0) (xs : List ℕ) → ((v : ℕ) → 0 < count v xs → P v) → All P xs
All-of_count P [] h = tt
All-of_count P (x ∷ xs) h = (h x (ground arith), All-of_count P xs (λ v k. h v (omega arith)))

pub of_All_count : (P : ℕ → Type 0) (xs : List ℕ) (v : ℕ) → All P xs → 0 < count v xs → P v
of_All_count P [] v h k = absurd (omega arith)
of_All_count P (x ∷ xs) v h k = elim (Bool-cases (x == v)) [
  | inl e ↦ rw ((==_iff x v).0 e) at h.0
  | inr e ↦ of_All_count P xs v h.1 (ground arith)
]

-- The weights of a list, with no wrap-around.
abbrev pub weight_sum : List Audit → List ℕ → ℕ
weight_sum audits [] = 0
weight_sum audits (m ∷ rest) = (audit_of audits m).weight + weight_sum audits rest

pub weight_sum-append :
    (audits : List Audit) (xs ys : List ℕ)
    → weight_sum audits (xs ++ ys) ≡ weight_sum audits xs + weight_sum audits ys
weight_sum-append audits [] ys = omega arith
weight_sum-append audits (x ∷ xs) ys = omega (arith, weight_sum-append audits xs ys)

module _ {F : Type 0} ⦃f : Float F⦄ (audits : List Audit) where
  -- What the loop over the package leaves in each field.
  pub take_all-used :
      (r : F) (pkg : List ℕ) (s : State F) → (take_all audits r pkg s).used ≡ mark_all s.used pkg
  unfolding take_all
  take_all-used r [] s = refl
  take_all-used r (m ∷ rest) s = take_all-used r rest _

  pub take_all-cur_block :
      (r : F) (pkg : List ℕ) (s : State F)
      → (take_all audits r pkg s).cur_block ≡ s.cur_block ++ pkg
  unfolding take_all
  take_all-cur_block r [] s = sym (append-nil s.cur_block)
  take_all-cur_block r (m ∷ rest) s =
      rw (take_all-cur_block r rest _) (append_assoc s.cur_block (m ∷ []) rest)

  pub take_all_rest :
      (r : F) (pkg : List ℕ) (s : State F)
      → ((take_all audits r pkg s).heap ≡ s.heap)
        × ((take_all audits r pkg s).blocks ≡ s.blocks)
        × ((take_all audits r pkg s).overflow ≡ s.overflow)
  unfolding take_all
  take_all_rest r [] s = (refl, refl, refl)
  take_all_rest r (m ∷ rest) s = take_all_rest r rest _
