-- ===== src/Sim/Node/Block/Roots.antt =====
-- src/sim/mock_node.rs, `confirm_set`: what its updates and removals leave, and which are the new roots.
use satya_btc.Common.{
  ℕ, ◌≡◌, refl, ap, Bool, true, false, not, ◌&&◌, ◌||◌, inl, inr, none, some, List, [], ◌∷◌, arith,
  ◌==◌, ==_iff, contains, Bool-cases, List-cases, if◌then◌else◌,
}
use satya_btc.Rpc.{MempoolEntry}
use satya_btc.Mempool.{keys, map_remove, remove_all}
use satya_btc.Sim.Node.{lookup, map_update, entry_at, update_each}
use satya_btc.Sim.Node.Maps.{lookup-map_remove, lookup-map_update}
use satya_btc.Sim.Node.Block.{rerooted, make_root}

pub lookup-remove_all :
    {A : Type 0} (ks : List ℕ) (m : List (ℕ × A)) (v : ℕ)
    → lookup v (remove_all ks m) ≡ (if contains ks v then none else lookup v m)
unfolding remove_all
lookup-remove_all [] m v = refl
lookup-remove_all (k ∷ rest) m v =
    ground (arith, lookup-remove_all rest (map_remove k m) v, lookup-map_remove k m v)

pub contains-keys :
    {A : Type 0} (m : List (ℕ × A)) (v : ℕ) (a : A)
    → lookup v m ≡ some a
    → contains (keys m) v ≡ true
contains-keys [] v a h = absurd (ground arith)
contains-keys ((j, x) ∷ rest) v a h = elim (Bool-cases (j == v)) [
  | inl e ↦ ground arith
  | inr e ↦ let later = contains-keys rest v a (ground arith) in ground arith
]

pub lookup-update_each :
    (ids : List ℕ) (txs : List (ℕ × MempoolEntry)) (v : ℕ) (e : MempoolEntry)
    → lookup v txs ≡ some e
    → lookup v (update_each make_root ids txs) ≡ some (if contains ids v then make_root e else e)
lookup-update_each [] txs v e h = h
lookup-update_each (k ∷ rest) txs v e h = elim (Bool-cases (k == v)) [
  | inl at ↦
      let now : lookup v (map_update k make_root txs) ≡ some (make_root e) =
        ground (arith, lookup-map_update k make_root txs v) in
      let later = lookup-update_each rest (map_update k make_root txs) v (make_root e) now in
      ground arith
  | inr off ↦
      let now : lookup v (map_update k make_root txs) ≡ some e =
        ground (arith, lookup-map_update k make_root txs v) in
      let later = lookup-update_each rest (map_update k make_root txs) v e now in ground arith
]

pub lookup-update_each-none :
    (ids : List ℕ) (txs : List (ℕ × MempoolEntry)) (v : ℕ)
    → lookup v txs ≡ none
    → lookup v (update_each make_root ids txs) ≡ none
lookup-update_each-none [] txs v h = h
lookup-update_each-none (k ∷ rest) txs v h =
    lookup-update_each-none rest (map_update k make_root txs) v
      (ground (arith, lookup-map_update k make_root txs v))

-- A survivor whose parent is confirmed.
abbrev pub is_orphan : List (ℕ × MempoolEntry) → List ℕ → ℕ → Bool
is_orphan txs set v = elim (entry_at txs v).depends [ [] ↦ false | p ∷ _ ↦ contains set p ]

pub contains-rerooted :
    (txs : List (ℕ × MempoolEntry)) (set ks : List ℕ) (v : ℕ)
    → contains (rerooted txs set ks) v
      ≡ (contains ks v && (not (contains set v) && is_orphan txs set v))
contains-rerooted txs set [] v = refl
contains-rerooted txs set (t ∷ rest) v = go (contains-rerooted txs set rest v)
  where
    -- Whether the first is picked.
    first : contains (rerooted txs set (t ∷ rest)) v ≡ (
        ((t == v) && (not (contains set t) && is_orphan txs set t))
        || contains (rerooted txs set rest) v)
    first = elim (List-cases (entry_at txs t).depends) [
      | inl d ↦ rw d (ground arith)
      | inr (p, others, d) ↦ rw d (ground arith)
    ]

    go :
        contains (rerooted txs set rest) v
          ≡ (contains rest v && (not (contains set v) && is_orphan txs set v))
        → contains (rerooted txs set (t ∷ rest)) v
          ≡ (contains (t ∷ rest) v && (not (contains set v) && is_orphan txs set v))
    go ih = elim (Bool-cases (t == v)) [
      | inl at ↦
          let same : t ≡ v = (==_iff t v).0 at in
          let flag : (not (contains set t) && is_orphan txs set t)
              ≡ (not (contains set v) && is_orphan txs set v) =
            ap (λ x. not (contains set x) && is_orphan txs set x) same in
          ground (arith, first, ih, flag)
      | inr off ↦ ground (arith, first, ih)
    ]
