-- ===== src/Gbt/Ancestors.antt =====
-- src/gbt.rs, `build_ancestors`: the memoized transitive closure of the parents.
-- The call stack is the fuel: `none` says that it ran out. A `HashSet` is a list without duplicates,
-- whose order nothing observes: the sums of `score_of` and the sort of a package do not depend on it.
pub mod Closure
pub mod Walk
use satya_btc.Common.{
  ℕ, zero, suc, Bool, true, false, Option, none, some, List, [], ◌∷◌, contains, if◌then◌else◌,
  get_or, set,
}
use satya_btc.Gbt.Audit.{GbtTx}

pub record Memo : Type 0 where
  pub memo : List (Option (List ℕ))
  pub visiting : List Bool

-- `HashSet::insert`
abbrev pub insert : ℕ → List ℕ → List ℕ
insert a set = if contains set a then set else a ∷ set

abbrev pub insert_all : List ℕ → List ℕ → List ℕ
insert_all [] set = set
insert_all (a ∷ rest) set = insert_all rest (insert a set)

abbrev pub no_tx : GbtTx
no_tx = record { uid = 0; order = 0; fee = 0; weight = 0; parents = [] }

abbrev pub parents_of : List GbtTx → ℕ → List ℕ
parents_of txs uid = (get_or txs uid no_tx).parents

abbrev pub Build : Type 0
Build = Memo → Option (List ℕ × Memo)

-- The loop over the parents, given the recursive call.
unfoldable pub gather : (ℕ → Build) → List ℕ → List ℕ → Build
gather build [] set st = some (set, st)
gather build (p ∷ rest) set st = elim (build p st) [
  | none ↦ none
  | some (above, st') ↦ gather build rest (insert_all above (insert p set)) st'
]

-- The end of the call: clear the mark and keep the result.
abbrev pub finish : ℕ → List ℕ → Memo → List ℕ × Memo
finish uid found st =
    (found, record st { memo = set st.memo uid (some found); visiting = set st.visiting uid false })

unfoldable pub build_ancestors : List GbtTx → ℕ → ℕ → Build
unfolding gather
build_ancestors txs zero uid st = none
build_ancestors txs (suc fuel) uid st = elim (get_or st.memo uid none) [
  | some a ↦ some (a, st)
  | none ↦
      let found =
        gather (build_ancestors txs fuel) (parents_of txs uid) []
          (record st { visiting = set st.visiting uid true }) in
      let walked : Option (List ℕ × Memo) = elim found [
        | none ↦ none
        | some (above, st') ↦ some (finish uid above st')
      ] in
      if get_or st.visiting uid false then some ([], st) else walked
]
