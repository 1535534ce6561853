-- ===== src/Sim/Node/Maps.antt =====
-- The maps of src/sim/mock_node.rs: what is found after a change.
use satya_btc.Common.{ℕ, ◌≡◌, refl, none, some, List, [], ◌∷◌, arith, ◌==◌, ==_iff, if◌then◌else◌}
use satya_btc.Mempool.{map_remove, map_insert}
use satya_btc.Sim.Node.{lookup, map_update}

module _ {A : Type 0} where
  pub lookup-map_remove :
      (k : ℕ) (m : List (ℕ × A)) (v : ℕ)
      → lookup v (map_remove k m) ≡ (if k == v then none else lookup v m)
  lookup-map_remove k [] v = ground arith
  lookup-map_remove k ((j, x) ∷ rest) v =
      ground (arith, lookup-map_remove k rest v, ==_iff j k, ==_iff j v, ==_iff k v)

  pub lookup-map_insert :
      (k : ℕ) (a : A) (m : List (ℕ × A)) (v : ℕ)
      → lookup v (map_insert k a m) ≡ (if k == v then some a else lookup v m)
  lookup-map_insert k a m v = ground (arith, lookup-map_remove k m v)

  pub lookup-map_update :
      (k : ℕ) (g : A → A) (m : List (ℕ × A)) (v : ℕ)
      → lookup v (map_update k g m)
        ≡ elim (lookup v m) [ none ↦ none | some a ↦ some (if k == v then g a else a) ]
  lookup-map_update k g [] v = refl
  lookup-map_update k g ((j, x) ∷ rest) v =
      ground (arith, lookup-map_update k g rest v, ==_iff j k, ==_iff j v, ==_iff k v)
