-- ===== src/Gbt/Project/Audits.antt =====
-- src/gbt.rs, `project_with`: the audits before the loop. On a well-formed input nothing panics, the
-- data of each transaction is its own, and the ancestors are the transitive closure of the parents.
use satya_btc.Common.{
  ℕ, zero, suc, ◌<◌, ◌≡◌, refl, ◌∙◌, ap, inl, inr, some, List, [], ◌∷◌, ◌++◌, arith, if◌then◌else◌,
  ◌==◌, ==_iff, Bool-cases, length, get_or, set, All, All-append, length-set, get_or-set_self,
  get_or-set_ne,
}
use satya_btc.Gbt.Audit.{GbtTx, Audit, audit_of, no_audit}
use satya_btc.Gbt.Ancestors.{no_tx}
use satya_btc.Gbt.Project.{blank_audits, link_parents, link_children}

abbrev pub tx_of : List GbtTx → ℕ → GbtTx
tx_of txs u = get_or txs u no_tx

-- The input that the documentation of `GbtTx` asks for: the uids and the parents are indices.
pub record IsDense (txs : List GbtTx) : Type 0 where
  pub uids : All (λ tx. tx.uid < length txs) txs
  pub parents : All (λ tx. All (λ p. p < length txs) tx.parents) txs

pub length-blank_audits : (txs : List GbtTx) → length (blank_audits txs) ≡ length txs
length-blank_audits [] = refl
length-blank_audits (tx ∷ rest) = ap suc (length-blank_audits rest)

-- The audit carries the data of the transaction.
pub record IsAlike (tx : GbtTx) (a : Audit) : Type 0 where
  pub fee : a.fee ≡ tx.fee
  pub weight : a.weight ≡ tx.weight
  pub order : a.order ≡ tx.order

blank_audits-IsAlike :
    (txs : List GbtTx) (u : ℕ) → IsAlike (tx_of txs u) (audit_of (blank_audits txs) u)
blank_audits-IsAlike [] u = record { fee = refl; weight = refl; order = refl }
blank_audits-IsAlike (tx ∷ rest) zero = record { fee = refl; weight = refl; order = refl }
blank_audits-IsAlike (tx ∷ rest) (suc u) = blank_audits-IsAlike rest u

blank_audits_bare :
    (txs : List GbtTx) (u : ℕ)
    → ((audit_of (blank_audits txs) u).children ≡ [])
      × ((audit_of (blank_audits txs) u).ancestors ≡ [])
blank_audits_bare [] u = (refl, refl)
blank_audits_bare (tx ∷ rest) zero = (refl, refl)
blank_audits_bare (tx ∷ rest) (suc u) = blank_audits_bare rest u

pub audit_of-set :
    (audits : List Audit) (p u : ℕ) (a : Audit)
    → p < length audits
    → audit_of (set audits p a) u ≡ (if p == u then a else audit_of audits u)
audit_of-set audits p u a h = elim (Bool-cases (p == u)) [
  | inl at ↦
      let same : p ≡ u = (==_iff p u).0 at in ground (arith, get_or-set_self audits p a no_audit)
  | inr off ↦ ground (arith, get_or-set_ne audits p u a no_audit, ==_iff p u)
]

module _ (txs : List GbtTx) where
  pub record IsLinked (audits : List Audit) : Type 0 where
    pub size : length audits ≡ length txs
    pub alike : (u : ℕ) → IsAlike (tx_of txs u) (audit_of audits u)
    pub kids : (u : ℕ) → All (λ c. c < length txs) (audit_of audits u).children

  -- A write of one audit that keeps its data and has children in range.
  pub set-IsLinked :
      (audits : List Audit) (p : ℕ) (a : Audit)
      → p < length txs
      → IsLinked audits
      → IsAlike (tx_of txs p) a
      → All (λ c. c < length txs) a.children
      → IsLinked (set audits p a)
  set-IsLinked audits p a h l alike kids =
      let at = λ (u : ℕ). audit_of-set audits p u a (omega (arith, h, l.size)) in
      record {
        size = length-set audits p a ∙ l.size;
        alike = λ u. elim (Bool-cases (p == u)) [
          | inl e ↦ let same : p ≡ u = (==_iff p u).0 e in rw (at u, e) (rw same at alike)
          | inr e ↦ rw (at u, e) (l.alike u)
        ];
        kids = λ u. elim (Bool-cases (p == u)) [
          | inl e ↦ rw (at u, e) kids
          | inr e ↦ rw (at u, e) (l.kids u)
        ];
      }

  link_parents_returns :
      (uid : ℕ) (ps : List ℕ) (audits : List Audit)
      → uid < length txs
      → All (λ p. p < length txs) ps
      → IsLinked audits
      → (audits' : List Audit) × (link_parents uid ps audits ≡ some audits') × IsLinked audits'
  unfolding link_parents
  link_parents_returns uid [] audits h hp l = (audits, refl, l)
  link_parents_returns uid (p ∷ rest) audits h hp l =
      let a = audit_of audits p in
      let own = l.alike p in
      let linked =
        set-IsLinked audits p (record a { children = a.children ++ uid ∷ [] }) hp.0 l
          (record { fee = own.fee; weight = own.weight; order = own.order })
          (All-append (λ c. c < length txs) a.children _ (l.kids p) (h, tt)) in
      let (audits', e, l') = link_parents_returns uid rest _ h hp.1 linked in
      (audits', ground (arith, l.size), l')

  link_children_returns :
      (rest : List GbtTx) (audits : List Audit)
      → All (λ tx. tx.uid < length txs) rest
      → All (λ tx. All (λ p. p < length txs) tx.parents) rest
      → IsLinked audits
      → (audits' : List Audit) × (link_children rest audits ≡ some audits') × IsLinked audits'
  unfolding link_children
  link_children_returns [] audits hu hp l = (audits, refl, l)
  link_children_returns (tx ∷ rest) audits hu hp l =
      let (audits1, e1, l1) = link_parents_returns tx.uid tx.parents audits hu.0 hp.0 l in
      let (audits2, e2, l2) = link_children_returns rest audits1 hu.1 hp.1 l1 in
      (audits2, ground arith, l2)

  pub IsLinked-returns :
      IsDense txs
      → (audits : List Audit) × (link_children txs (blank_audits txs) ≡ some audits)
        × IsLinked audits
  IsLinked-returns d = link_children_returns txs (blank_audits txs) d.uids d.parents (record {
    size = length-blank_audits txs;
    alike = blank_audits-IsAlike txs;
    kids = λ u. rw ((blank_audits_bare txs u).0) tt;
  })
