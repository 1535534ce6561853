-- ===== src/Gbt/Pack/Valid.antt =====
-- What the loop of src/gbt.rs relies on about the closures and the children that it is given, and
-- the packages that come of them.
use satya_btc.Common.{
  ℕ, ◌+◌, ◌≤◌, ◌<◌, ◌≡◌, Bool, false, inl, inr, List, arith, if◌then◌else◌, ◌==◌, ==_iff,
  Bool-cases, length, count, All,
}
use satya_btc.Gbt.Audit.{Audit, audit_of, is_used}
use satya_btc.Gbt.Pack.{package_of}
use satya_btc.Gbt.Pack.Marks.{count-package, All-of_count, of_All_count}

-- Every uid is an index, and a transaction is no ancestor of its own.
pub record IsAudited (audits : List Audit) : Type 0 where
  pub near : (u : ℕ) → All (λ a. a < length audits) (audit_of audits u).ancestors
  pub kids : (u : ℕ) → All (λ c. c < length audits) (audit_of audits u).children
  pub distinct : (u v : ℕ) → count v (audit_of audits u).ancestors ≤ 1
  pub apart : (u : ℕ) → count u (audit_of audits u).ancestors ≡ 0

module _ {audits : List Audit} (valid : IsAudited audits) (used : List Bool) (uid : ℕ) where
  package_member :
      uid < length audits → (v : ℕ) → 0 < count v (package_of audits used uid) → v < length audits
  package_member h v k = elim (Bool-cases (uid == v)) [
    | inl e ↦ omega (arith, (==_iff uid v).0 e)
    | inr e ↦
        of_All_count (λ a. a < length audits) (audit_of audits uid).ancestors v (valid.near uid)
          (ground (arith, count-package audits used uid v))
  ]

  pub package_near : uid < length audits → All (λ m. m < length audits) (package_of audits used uid)
  package_near h = All-of_count (λ m. m < length audits) _ (package_member h)

  -- The members are distinct, and none is used.
  pub package_distinct :
      is_used used uid ≡ false
      → (v : ℕ) → count v (package_of audits used uid) + (if is_used used v then 1 else 0) ≤ 1
  package_distinct free v = elim (Bool-cases (uid == v)) [
    | inl e ↦
        let same : uid ≡ v = (==_iff uid v).0 e in
        ground (arith, count-package audits used uid v, valid.apart uid)
    | inr e ↦ ground (arith, count-package audits used uid v, valid.distinct uid v)
  ]

  pub package_has : (count uid (package_of audits used uid) ≡ 0) → ⊥
  package_has e = ground (arith, count-package audits used uid uid)
