-- ===== src/Sim/Node/Truthful/Arrive.antt =====
-- src/sim/mock_node.rs: an arrival, with a txid that is new, keeps the chains.
use satya_btc.Common.{
  ℕ, suc, ◌+◌, ◌≤◌, ◌<◌, ◌≡◌, sym, subst, ◌⊎◌, inl, inr, none, some, List, [], ◌∷◌, arith, ◌==◌,
  ==_iff, Bool-cases,
}
use satya_btc.Rpc.{MempoolEntry}
use satya_btc.Mempool.{map_insert}
use satya_btc.Sim.Node.{lookup}
use satya_btc.Sim.Node.Maps.{lookup-map_insert}
use satya_btc.Sim.Node.Truthful.{IsLinked, root, child, IsForest}

module _ {A : Type 0} where
  pub inserted : (k : ℕ) (a : A) (m : List (ℕ × A)) → lookup k (map_insert k a m) ≡ some a
  inserted k a m = ground (arith, lookup-map_insert k a m k, ==_iff k k)

  -- What stood under another key is still found.
  pub still_there :
      (k : ℕ) (a : A) (m : List (ℕ × A)) (v : ℕ) (b : A)
      → lookup k m ≡ none
      → lookup v m ≡ some b
      → lookup v (map_insert k a m) ≡ some b
  still_there k a m v b new h = elim (Bool-cases (k == v)) [
    | inr off ↦ ground (arith, lookup-map_insert k a m v)
    | inl at ↦ let same : k ≡ v = (==_iff k v).0 at in absurd (ground arith)
  ]

  -- What is found is the new value, or was there.
  pub found_after :
      (k : ℕ) (a : A) (m : List (ℕ × A)) (v : ℕ) (b : A)
      → lookup v (map_insert k a m) ≡ some b
      → ((v ≡ k) × (b ≡ a)) ⊎ (lookup v m ≡ some b)
  found_after k a m v b h = elim (Bool-cases (k == v)) [
    | inr off ↦ inr (ground (arith, lookup-map_insert k a m v))
    | inl at ↦ inl (ground (arith, ==_iff k v), ground (arith, lookup-map_insert k a m v))
  ]

module _ (born : ℕ) (txs : List (ℕ × MempoolEntry)) (children : List (ℕ × ℕ))
    (h : IsForest born txs children) (id : ℕ) (e : MempoolEntry) (new : lookup id txs ≡ none)
    (positive : 0 < e.vsize) (small : e.vsize ≤ 100_000) where
  -- A transaction on its own.
  pub alone-IsForest :
      e.depends ≡ []
      → e.ancestorsize ≡ e.vsize
      → e.fees.ancestor ≡ e.fees.base
      → IsForest (suc born) (map_insert id e txs) children
  alone-IsForest d a f = record {
    linked = λ v x l. elim (found_after id e txs v x l) [
      | inl (at, is) ↦ rw is (root d a f)
      | inr old ↦ go_linked v x (h.linked v x old)
    ];
    sized = λ v x l. elim (found_after id e txs v x l) [
      | inl (at, is) ↦ rw is positive
      | inr old ↦ h.sized v x old
    ];
    bound = λ v x l. elim (found_after id e txs v x l) [
      | inl (at, is) ↦ rw is (omega (arith, a, small))
      | inr old ↦ omega (arith, h.bound v x old)
    ];
    index = λ p c l. let (x, k, on) = h.index p c l in (x, still_there id e txs c x new k, on);
  }
    where
      go_linked :
          (v : ℕ) (x : MempoolEntry)
          → IsLinked txs children v x
          → IsLinked (map_insert id e txs) children v x
      go_linked v x (root d1 a1 f1) = root d1 a1 f1
      go_linked v x (child p pe d1 l c a1 f1) =
          child p pe d1 (still_there id e txs p pe new l) c a1 f1

  -- The child of a transaction that has none.
  pub attached-IsForest :
      (parent : ℕ) (pe : MempoolEntry)
      → lookup parent txs ≡ some pe
      → lookup parent children ≡ none
      → e.depends ≡ parent ∷ []
      → e.ancestorsize ≡ e.vsize + pe.ancestorsize
      → e.fees.ancestor ≡ e.fees.base + pe.fees.ancestor
      → IsForest (suc born) (map_insert id e txs) (map_insert parent id children)
  attached-IsForest parent pe there childless d a f = record {
    linked = λ v x l. elim (found_after id e txs v x l) [
      | inl (at, is) ↦
          rw (is, at)
            (child parent pe d (still_there id e txs parent pe new there)
              (inserted parent id children) a f)
      | inr old ↦ go_linked v x (h.linked v x old)
    ];
    sized = λ v x l. elim (found_after id e txs v x l) [
      | inl (at, is) ↦ rw is positive
      | inr old ↦ h.sized v x old
    ];
    bound = λ v x l. elim (found_after id e txs v x l) [
      | inl (at, is) ↦ rw is (omega (arith, a, small, h.bound parent pe there))
      | inr old ↦ omega (arith, h.bound v x old)
    ];
    index = λ p c l. elim (found_after parent id children p c l) [
      | inl (at, is) ↦ (
        e,
        subst (λ q. lookup q (map_insert id e txs) ≡ some e) (sym is) (inserted id e txs),
        subst (λ q. e.depends ≡ q ∷ []) (sym at) d,
      )
      | inr old ↦ let (x, k, on) = h.index p c old in (x, still_there id e txs c x new k, on)
    ];
  }
    where
      go_linked :
          (v : ℕ) (x : MempoolEntry)
          → IsLinked txs children v x
          → IsLinked (map_insert id e txs) (map_insert parent id children) v x
      go_linked v x (root d1 a1 f1) = root d1 a1 f1
      go_linked v x (child p pe1 d1 l c a1 f1) =
          child p pe1 d1 (still_there id e txs p pe1 new l)
            (still_there parent id children p v childless c) a1 f1
