-- ===== src/Sim/Node.antt =====
-- src/sim/mock_node.rs: the node of the simulation, its arrivals and its evictions. A `HashMap` is an
-- association list, and any function of its keys may choose the one that `keys().next()` gives. A sum
-- of `Amount`s that does not fit a `u64` panics in the bitcoin crate: the node is marked as panicked.
pub mod Maps
pub mod Arrival
pub mod Block
pub mod Descent
pub mod Descendants
pub mod Chains
pub mod Settings
pub mod Totals
pub mod Surface
pub mod Tests
pub mod Truthful
use satya_btc.Common.{
  ℕ, zero, suc, ◌+◌, ◌-◌, ◌*◌, ◌/◌, Bool, true, false, not, ◌&&◌, ◌||◌, Option, none, some, List,
  [], ◌∷◌, add64, u64_mod, saturating_mul64, ltb, leb, ◌==◌, if◌then◌else◌, length, get_or,
  is_empty, min, max,
}
use satya_btc.Float.{Float}
use satya_btc.Rpc.{MempoolEntry, MempoolEntryFees, MempoolInfo, MempoolRpc, Result, ok}
use satya_btc.Mempool.{keys, map_remove, map_insert}

-- `HashMap::get`, and a change through `get_mut`.
abbrev pub lookup : {A : Type 0} → ℕ → List (ℕ × A) → Option A
lookup k [] = none
lookup k ((j, v) ∷ rest) = if j == k then some v else lookup k rest

abbrev pub map_update : {A : Type 0} → ℕ → (A → A) → List (ℕ × A) → List (ℕ × A)
map_update k g [] = []
map_update k g ((j, v) ∷ rest) = (j, if j == k then g v else v) ∷ map_update k g rest

pub record FeeDistribution (F : Type 0) : Type 0 where
  pub min_sat_vb : ℕ
  pub max_sat_vb : ℕ
  pub skew : F

pub record ChurnConfig (F : Type 0) : Type 0 where
  pub arrivals_per_tick : ℕ
  pub evictions_per_tick : ℕ
  pub fee : FeeDistribution F
  pub cpfp_fraction : F
  pub max_chain : ℕ

pub record MockNode (R F : Type 0) : Type 0 where
  pub txs : List (ℕ × MempoolEntry)
  pub children : List (ℕ × ℕ)
  pub tip_height : ℕ
  pub min_fee : ℕ
  pub reloading : Bool
  pub rng : R
  pub cfg : ChurnConfig F
  -- The random state of the `HashMap`: which of the keys `keys().next()` gives.
  pub hash : List ℕ → ℕ
  -- A sum of `Amount`s did not fit. The source panics there, and what follows is no run of it.
  pub panicked : Bool

abbrev pub no_entry : MempoolEntry
no_entry = record {
  vsize = 0;
  weight = none;
  depends = [];
  fees = record { base = 0; ancestor = 0; descendant = 0 };
  ancestorsize = 0;
  descendantsize = 0;
  time = none;
}

-- `self.txs[id]`, for an `id` that is a key; the blank entry is never read.
abbrev pub entry_at : List (ℕ × MempoolEntry) → ℕ → MempoolEntry
entry_at txs id = elim (lookup id txs) [ none ↦ no_entry | some e ↦ e ]

-- The sums of `Amount`s of the entries fit a `u64`.
abbrev pub amounts_fit : List (ℕ × MempoolEntry) → List ℕ → Bool
amounts_fit txs [] = true
amounts_fit txs (k ∷ rest) =
    (ltb (entry_at txs k).fees.ancestor u64_mod && ltb (entry_at txs k).fees.descendant u64_mod)
    && amounts_fit txs rest

-- `keys().next()`, where there is a key.
abbrev pub first_key : (List ℕ → ℕ) → List ℕ → ℕ
first_key hash ks = get_or ks (min (hash ks) (length ks - 1)) 0

unfoldable pub own_rate_sat_vb : MempoolEntry → ℕ
own_rate_sat_vb e = e.fees.base / max e.vsize 1

-- The parent of an entry that is in the mempool.
abbrev pub parent_in : List (ℕ × MempoolEntry) → ℕ → Option ℕ
parent_in txs id = elim (lookup id txs) [
  | none ↦ none
  | some e ↦ elim e.depends [
    | [] ↦ none
    | p ∷ _ ↦ elim (lookup p txs) [ none ↦ none | some _ ↦ some p ]
  ]
]

-- The walk of `ancestors_of`, on fuel.
unfoldable pub walk_up : List (ℕ × MempoolEntry) → ℕ → ℕ → List ℕ
walk_up txs zero id = []
walk_up txs (suc fuel) id = elim (parent_in txs id) [ none ↦ [] | some p ↦ p ∷ walk_up txs fuel p ]

-- Each step lowers the ancestor size, so that of the entry is enough fuel.
unfoldable pub ancestors_of : List (ℕ × MempoolEntry) → ℕ → List ℕ
unfolding walk_up
ancestors_of txs id = walk_up txs (suc (entry_at txs id).ancestorsize) id

-- The descent to the leaf of a chain, on fuel.
unfoldable pub walk_down : List (ℕ × ℕ) → ℕ → ℕ → ℕ
walk_down children zero leaf = leaf
walk_down children (suc fuel) leaf = elim (lookup leaf children) [
  | none ↦ leaf
  | some child ↦ walk_down children fuel child
]

abbrev pub greatest : List (ℕ × MempoolEntry) → ℕ
greatest [] = 0
greatest ((k, e) ∷ rest) = max e.ancestorsize (greatest rest)

abbrev pub add_total : ℕ → ℕ → MempoolEntry → MempoolEntry
add_total vsize base e = record e {
  descendantsize = add64 e.descendantsize vsize;
  fees = record e.fees { descendant = e.fees.descendant + base };
}

abbrev pub sub_total : ℕ → ℕ → MempoolEntry → MempoolEntry
sub_total vsize base e = record e {
  descendantsize = e.descendantsize - vsize;
  fees = record e.fees { descendant = e.fees.descendant - base };
}

abbrev pub update_each :
    (MempoolEntry → MempoolEntry) → List ℕ → List (ℕ × MempoolEntry) → List (ℕ × MempoolEntry)
update_each g [] txs = txs
update_each g (a ∷ rest) txs = update_each g rest (map_update a g txs)

unfoldable pub adjust_descendant_totals :
    ℕ → ℕ → ℕ → Bool → List (ℕ × MempoolEntry) → List (ℕ × MempoolEntry)
unfolding ancestors_of
adjust_descendant_totals id vsize base add txs =
    update_each (if add then add_total vsize base else sub_total vsize base)
      (id ∷ ancestors_of txs id) txs

module _ {R F : Type 0} where
  unfoldable pub remove_leaf : ℕ → MockNode R F → MockNode R F
  unfolding adjust_descendant_totals
  remove_leaf leaf n = elim (lookup leaf n.children) [
    | some child ↦ n
    | none ↦ elim (lookup leaf n.txs) [
      | none ↦ n
      | some entry ↦
          let txs = map_remove leaf n.txs in
          elim entry.depends [
            | [] ↦ record n { txs = txs }
            | parent ∷ _ ↦ record n {
              txs = adjust_descendant_totals parent entry.vsize entry.fees.base false txs;
              children = map_remove parent n.children;
            }
          ]
    ]
  ]

  -- One eviction: the leaf of the chain of the key that comes first.
  unfoldable pub evict : MockNode R F → MockNode R F
  unfolding walk_down remove_leaf
  evict n = elim n.txs [
    | [] ↦ n
    | (k, _) ∷ rest ↦
        let start = first_key n.hash (k ∷ keys rest) in
        remove_leaf (walk_down n.children (suc (greatest n.txs)) start) n
  ]

  unfoldable pub evict_times : ℕ → MockNode R F → MockNode R F
  unfolding evict
  evict_times zero n = n
  evict_times (suc k) n = evict_times k (evict n)
