-- ===== src/Gbt/Pack.antt =====
-- src/gbt.rs, the loop of `project_with` and `refresh_descendants`. One round of the loop is `step`;
-- the rounds and the walk over the descendants run on fuel.
pub mod Marks
pub mod Rule
pub mod Valid
pub mod Refresh
pub mod Included
pub mod Once
pub mod Spent
pub mod Blocks
pub mod Complete
pub mod Rated
pub mod Rounds
pub mod Sorted
pub mod Ordered
use satya_btc.Common.{
  ℕ, zero, suc, ◌-◌, Bool, true, not, ◌&&◌, ◌||◌, Option, none, some, List, [], ◌∷◌, ◌++◌, Ordering,
  compare, add32, add64, saturating_add64, ltb, if◌then◌else◌, is_empty, length, set, contains,
}
use satya_btc.Float.{Float}
use satya_btc.Gbt.Audit.{Audit, audit_of, is_used, failure_limit, rate, score_of}
use satya_btc.Gbt.Heap.{HeapItem, then_with, empty, top, unordered, pop}

-- The arguments of `project_with`.
pub record Limits : Type 0 where
  pub max_blocks : ℕ
  pub max_block_weight : ℕ
  pub reserved : ℕ

-- The local variables of `project_with` that its loop changes.
pub record State (F : Type 0) : Type 0 where
  pub used : List Bool
  pub heap : List (HeapItem F)
  pub blocks : List (List ℕ)
  pub effective_rates : List (ℕ × F)
  pub cur_block : List ℕ
  pub block_weight : ℕ
  pub overflow : List ℕ
  pub failures : ℕ

pub data Step (F : Type 0) : Type 0 where
  next : State F → Step F
  stop : State F → Step F
  panic : Step F
  out_of_steps : Step F

pub data Outcome (A : Type 0) : Type 0 where
  done : A → Outcome A
  panicked : Outcome A
  out_of_fuel : Outcome A

-- The order of a package: roots first.
abbrev pub package_cmp : List Audit → ℕ → ℕ → Ordering
package_cmp audits a b =
    then_with
      (then_with
        (compare (length (audit_of audits a).ancestors) (length (audit_of audits b).ancestors))
        (compare (audit_of audits a).order (audit_of audits b).order))
      (compare a b)

-- `sort_by`, which is stable.
unfoldable pub sort_in : List Audit → ℕ → List ℕ → List ℕ
sort_in audits a [] = a ∷ []
sort_in audits a (b ∷ rest) = elim (package_cmp audits a b) [
  | Ordering.gt ↦ b ∷ sort_in audits a rest
  | _ ↦ a ∷ b ∷ rest
]

unfoldable pub sort_package : List Audit → List ℕ → List ℕ
unfolding sort_in
sort_package audits [] = []
sort_package audits (a ∷ rest) = sort_in audits a (sort_package audits rest)

unfoldable pub not_used : List Bool → List ℕ → List ℕ
not_used used [] = []
not_used used (a ∷ rest) = if is_used used a then not_used used rest else a ∷ not_used used rest

unfoldable pub package_of : List Audit → List Bool → ℕ → List ℕ
unfolding not_used sort_package
package_of audits used uid =
    sort_package audits (not_used used (audit_of audits uid).ancestors) ++ uid ∷ []

unfoldable pub sum_weight : List Audit → List ℕ → ℕ
sum_weight audits [] = 0
sum_weight audits (m ∷ rest) = add64 (audit_of audits m).weight (sum_weight audits rest)

unfoldable pub sum_fee : List Audit → List ℕ → ℕ
sum_fee audits [] = 0
sum_fee audits (m ∷ rest) = add64 (audit_of audits m).fee (sum_fee audits rest)

-- `if seen.insert(c) { stack.push(c); }` for each child. The top of the stack is its head.
unfoldable pub offer : List ℕ → List ℕ → List ℕ → List ℕ × List ℕ
offer [] seen stack = (seen, stack)
offer (c ∷ rest) seen stack =
    let old = offer rest seen stack in
    let new = offer rest (c ∷ seen) (c ∷ stack) in if contains seen c then old else new

unfoldable pub offer_all : List Audit → List ℕ → List ℕ → List ℕ → List ℕ × List ℕ
unfolding offer
offer_all audits [] seen stack = (seen, stack)
offer_all audits (m ∷ rest) seen stack =
    let (seen', stack') = offer (audit_of audits m).children seen stack in
    offer_all audits rest seen' stack'

module _ {F : Type 0} ⦃f : Float F⦄ (audits : List Audit) where
  unfoldable pub item_of : List Bool → ℕ → HeapItem F
  item_of used uid = record {
    score = score_of uid audits used;
    order = (audit_of audits uid).order;
    uid = uid;
  }

  -- The `while` loop of `refresh_descendants`.
  unfoldable pub descend :
      List Bool → ℕ → List ℕ → List ℕ → List (HeapItem F) → Option (List (HeapItem F))
  descend used fuel seen [] heap = some heap
  descend used zero seen (d ∷ stack) heap = none
  descend used (suc fuel) seen (d ∷ stack) heap =
      let (seen', stack') = offer (audit_of audits d).children seen stack in
      descend used fuel seen' stack' (if is_used used d then heap else item_of used d ∷ heap)

  -- A uid is pushed on the stack once, so the number of the audits is fuel enough.
  unfoldable pub refresh_descendants :
      List ℕ → List Bool → List (HeapItem F) → Option (List (HeapItem F))
  unfolding offer_all descend
  refresh_descendants pkg used heap =
      let (seen, stack) = offer_all audits pkg [] [] in descend used (length audits) seen stack heap

  -- The loop over the package that is included.
  unfoldable pub take_all : F → List ℕ → State F → State F
  take_all cluster_rate [] s = s
  take_all cluster_rate (m ∷ rest) s = take_all cluster_rate rest (record s {
    used = set s.used m true;
    cur_block = s.cur_block ++ m ∷ [];
    block_weight = add64 s.block_weight (audit_of audits m).weight;
    effective_rates = (m, cluster_rate) ∷ s.effective_rates;
  })

  unfoldable pub push_all : List Bool → List ℕ → List (HeapItem F) → List (HeapItem F)
  push_all used [] heap = heap
  push_all used (o ∷ rest) heap = push_all used rest (item_of used o ∷ heap)

  module _ (lim : Limits) where
    unfoldable pub bounded : State F → Bool
    bounded s = ltb (length s.blocks) (lim.max_blocks - 1)

    -- The package does not fit the block that is being filled.
    unfoldable pub too_big : State F → ℕ → Bool
    unfolding bounded
    too_big s pkg_weight =
        bounded s
        && (not (is_empty s.cur_block)
            && ltb lim.max_block_weight (saturating_add64 s.block_weight pkg_weight))

    unfoldable pub hold : State F → ℕ → State F
    hold s uid = record s { overflow = s.overflow ++ uid ∷ []; failures = add32 s.failures 1 }

    unfoldable pub include : State F → List ℕ → Option (State F)
    unfolding sum_fee sum_weight take_all
    include s pkg =
        let s' = take_all (rate (sum_fee audits pkg) (sum_weight audits pkg)) pkg s in
        elim (refresh_descendants pkg s'.used s'.heap) [
          | none ↦ none
          | some heap ↦ some (record s' { heap = heap; failures = 0 })
        ]

    unfoldable pub place : State F → ℕ → Option (State F)
    unfolding package_of sum_weight too_big hold
    place s uid =
        let pkg = package_of audits s.used uid in
        if too_big s (sum_weight audits pkg) then some (hold s uid) else include s pkg

    -- Close the block that is being filled, and give the held packages another try.
    unfoldable pub close_block : State F → State F
    unfolding push_all
    close_block s = record s {
      blocks = s.blocks ++ s.cur_block ∷ [];
      cur_block = [];
      block_weight = lim.reserved;
      failures = 0;
      heap = push_all s.used s.overflow s.heap;
      overflow = [];
    }

    unfoldable pub finalize : State F → State F
    unfolding bounded close_block
    finalize s =
        if bounded s
          && ((ltb failure_limit s.failures || is_empty s.heap) && not (is_empty s.cur_block))
        then close_block s
        else s

    unfoldable pub visit : State F → HeapItem F → Step F
    unfolding place finalize
    visit s item =
        let cur = score_of item.uid audits s.used in
        let refreshed = record s { heap = item_of s.used item.uid ∷ s.heap } in
        let placed : Step F = elim (place s item.uid) [
          | none ↦ out_of_steps
          | some s' ↦ next (finalize s')
        ] in
        if is_used s.used item.uid
        then next s
        else if f.differs cur item.score
        then next refreshed
        else placed

    unfoldable pub step : State F → Step F
    unfolding visit
    step s = elim (pop s.heap) [
      | empty ↦ stop s
      | top item rest ↦ visit (record s { heap = rest }) item
      | unordered ↦ panic
    ]

    unfoldable pub loop : ℕ → State F → Outcome (State F)
    unfolding step
    loop zero s = out_of_fuel
    loop (suc fuel) s = elim (step s) [
      | next s' ↦ loop fuel s'
      | stop s' ↦ done s'
      | panic ↦ panicked
      | out_of_steps ↦ out_of_fuel
    ]
