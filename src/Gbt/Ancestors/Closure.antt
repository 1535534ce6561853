-- ===== src/Gbt/Ancestors/Closure.antt =====
-- src/gbt.rs, `build_ancestors`: what the set that it collects should be, and how the set grows.
use satya_btc.Common.{
  ℕ, ◌≤◌, ◌<◌, ◌≡◌, refl, true, ◌||◌, inl, inr, List, [], ◌∷◌, arith, ◌==◌, ==_iff, Bool-cases,
  length, set, contains, count, contains-count,
}
use satya_btc.Gbt.Audit.{GbtTx}
use satya_btc.Gbt.Ancestors.{insert, insert_all, parents_of}

abbrev pub Has : List ℕ → ℕ → Type 0
Has xs a = contains xs a ≡ true

-- The transitive closure of the direct parents.
pub data Ancestor (txs : List GbtTx) (u : ℕ) : ℕ → Type 0 where
  parent : {a : ℕ} → Has (parents_of txs u) a → Ancestor txs u a
  above : {b a : ℕ} → Ancestor txs u b → Has (parents_of txs b) a → Ancestor txs u a

-- The parents are indices, and `rank` puts each below its child: the graph has no cycle.
pub record IsAcyclic (txs : List GbtTx) (rank : ℕ → ℕ) : Type 0 where
  pub in_range : (u p : ℕ) → Has (parents_of txs u) p → p < length txs
  pub below : (u p : ℕ) → Has (parents_of txs u) p → rank p < rank u

pub Ancestor-trans :
    {txs : List GbtTx} {p a : ℕ} (u : ℕ)
    → Has (parents_of txs u) p
    → Ancestor txs p a
    → Ancestor txs u a
Ancestor-trans u h (parent k) = above (parent h) k
Ancestor-trans u h (above r k) = above (Ancestor-trans u h r) k

pub contains-insert :
    (a v : ℕ) (xs : List ℕ) → contains (insert a xs) v ≡ ((a == v) || contains xs v)
contains-insert a v xs = ground (arith, ==_iff a v)

pub contains-insert_all :
    (ys xs : List ℕ) (v : ℕ) → contains (insert_all ys xs) v ≡ (contains ys v || contains xs v)
contains-insert_all [] xs v = refl
contains-insert_all (a ∷ rest) xs v =
    ground (arith, contains-insert_all rest (insert a xs) v, contains-insert a v xs)

abbrev pub Distinct : List ℕ → Type 0
Distinct xs = (v : ℕ) → count v xs ≤ 1

insert-Distinct : (a : ℕ) (xs : List ℕ) → Distinct xs → Distinct (insert a xs)
insert-Distinct a xs h v = ground (arith, h v, contains-count xs a, ==_iff a v)

insert_all-Distinct : (ys xs : List ℕ) → Distinct xs → Distinct (insert_all ys xs)
insert_all-Distinct [] xs h = h
insert_all-Distinct (a ∷ rest) xs h =
    insert_all-Distinct rest (insert a xs) (insert-Distinct a xs h)

module _ (txs : List GbtTx) where
  -- A set of ancestors that has the parents of its members.
  pub record IsPart (u : ℕ) (found : List ℕ) : Type 0 where
    pub distinct : Distinct found
    pub sound : (a : ℕ) → Has found a → Ancestor txs u a
    pub closed : (b a : ℕ) → Has found b → Has (parents_of txs b) a → Has found a

  pub record IsClosure (u : ℕ) (found : List ℕ) : Type 0 where
    pub part : IsPart u found
    pub first : (a : ℕ) → Has (parents_of txs u) a → Has found a

  pub IsClosure-complete :
      {u a : ℕ} {found : List ℕ} → IsClosure u found → Ancestor txs u a → Has found a
  IsClosure-complete c (parent k) = c.first _ k
  IsClosure-complete c (above r k) = c.part.closed _ _ (IsClosure-complete c r) k

  -- Adding a parent with its closure.
  pub grow-IsPart :
      (u p : ℕ) (set found : List ℕ)
      → Has (parents_of txs u) p
      → IsClosure p found
      → IsPart u set
      → IsPart u (insert_all found (insert p set))
  grow-IsPart u p set found h c part = record {
    distinct = insert_all-Distinct found (insert p set) (insert-Distinct p set part.distinct);
    sound = λ a k. elim (Bool-cases (contains found a)) [
      | inl e ↦ Ancestor-trans u h (c.part.sound a e)
      | inr e ↦ elim (Bool-cases (p == a)) [
        | inl at ↦ parent (let same : p ≡ a = (==_iff p a).0 at in rw same at h)
        | inr off ↦
            part.sound a
              (ground (arith, contains-insert_all found (insert p set) a, contains-insert p a set))
      ]
    ];
    closed = λ b a k l. ground (
      arith,
      contains-insert_all found (insert p set) a,
      contains-insert p a set,
      contains-insert_all found (insert p set) b,
      contains-insert p b set,
      c.part.closed b a,
      c.first a,
      part.closed b a,
      ==_iff p b,
    );
  }
