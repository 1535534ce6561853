-- ===== src/Sim/Node/Truthful/Pick.antt =====
-- src/sim/mock_node.rs, `pick_parent`: the parent is in the mempool and has no child yet.
use satya_btc.Common.{
  ℕ, zero, suc, ◌+◌, ◌-◌, ◌<◌, ◌≡◌, subst, false, ◌||◌, ◌&&◌, inl, inr, Option, none, some, List,
  [], ◌∷◌, arith, ◌==◌, ==_iff, Option-cases, Bool-cases, ltb, leb, length, get_or, All, min,
  is_empty,
}
use satya_btc.Rpc.{MempoolEntry}
use satya_btc.Mempool.{keys}
use satya_btc.Sim.Random.{Rng, Draw, IsFresh}
use satya_btc.Sim.Node.{
  first_key, remove_leaf, walk_down, greatest, evict, lookup, entry_at, MockNode, own_rate_sat_vb,
  ancestors_of,
}
use satya_btc.Sim.Node.Arrival.{better, eligible, sample_best, pick_parent}

-- A transaction that an arrival may attach to: it has no child, and its chain is short.
abbrev pub IsOpen : List (ℕ × MempoolEntry) → List (ℕ × ℕ) → ℕ → ℕ → Type 0
IsOpen txs children max_chain t =
    (lookup t children ≡ none)
    × (length (ancestors_of txs t) + 1 < max_chain)
    × ((e : MempoolEntry) × (lookup t txs ≡ some e))

All-index : (P : ℕ → Type 0) (xs : List ℕ) (i d : ℕ) → All P xs → i < length xs → P (get_or xs i d)
All-index P [] i d h l = absurd (omega arith)
All-index P (x ∷ xs) zero d h l = h.0
All-index P (x ∷ xs) (suc i) d h l = All-index P xs i d h.1 (omega arith)

head_found : {A : Type 0} (k : ℕ) (a : A) (m : List (ℕ × A)) → lookup k ((k, a) ∷ m) ≡ some a
head_found k a m = ground (arith, ==_iff k k)

-- Each key is found.
pub all_found :
    (txs rest : List (ℕ × MempoolEntry))
    → ((k : ℕ) (e : MempoolEntry)
        → lookup k rest ≡ some e
        → (x : MempoolEntry) × (lookup k txs ≡ some x))
    → All (λ k. (x : MempoolEntry) × (lookup k txs ≡ some x)) (keys rest)
all_found txs [] more = tt
all_found txs ((k, e) ∷ rest) more = (
  more k e (head_found k e rest),
  all_found txs rest (λ v x h. elim (Bool-cases (k == v)) [
    | inl at ↦ more v e (ground arith)
    | inr off ↦ more v x (ground arith)
  ]),
)

-- The key that comes first is found.
pub first_key_there :
    (hash : List ℕ → ℕ) (k : ℕ) (x : MempoolEntry) (rest : List (ℕ × MempoolEntry))
    → (y : MempoolEntry) × (lookup (first_key hash (k ∷ keys rest)) ((k, x) ∷ rest) ≡ some y)
first_key_there hash k x rest =
    let txs = (k, x) ∷ rest in
    All-index (λ j. (y : MempoolEntry) × (lookup j txs ≡ some y)) (k ∷ keys rest)
      (min (hash (k ∷ keys rest)) (length (k ∷ keys rest) - 1)) 0
      (all_found txs txs (λ v e h. (e, h))) (omega arith)

-- An eviction removes the leaf of the chain of that key.
pub evict_starts :
    {R F : Type 0} (n : MockNode R F) (k : ℕ) (x : MempoolEntry) (rest : List (ℕ × MempoolEntry))
    → n.txs ≡ (k, x) ∷ rest
    → remove_leaf (walk_down n.children (suc (greatest n.txs)) (first_key n.hash (k ∷ keys rest))) n
      ≡ evict n
unfolding evict
evict_starts n k x rest is = ground arith

eligible-IsOpen :
    (txs : List (ℕ × MempoolEntry)) (children : List (ℕ × ℕ)) (max_chain : ℕ) (ks : List ℕ)
    → All (λ k. (x : MempoolEntry) × (lookup k txs ≡ some x)) ks
    → All (IsOpen txs children max_chain) (eligible txs children max_chain ks)
eligible-IsOpen txs children max_chain [] h = tt
eligible-IsOpen txs children max_chain (t ∷ rest) (there, h) =
    let later = eligible-IsOpen txs children max_chain rest h in
    elim (Option-cases (lookup t children)) [
      | inr (c, e) ↦
          let same : eligible txs children max_chain rest
              ≡ eligible txs children max_chain (t ∷ rest) =
            ground arith in
          subst (All (IsOpen txs children max_chain)) same later
      | inl e ↦ elim (Bool-cases (ltb (length (ancestors_of txs t) + 1) max_chain)) [
        | inl short ↦
            let same : t ∷ eligible txs children max_chain rest
                ≡ eligible txs children max_chain (t ∷ rest) =
              ground arith in
            subst (All (IsOpen txs children max_chain)) same ((e, ground arith, there), later)
        | inr long ↦
            let same : eligible txs children max_chain rest
                ≡ eligible txs children max_chain (t ∷ rest) =
              ground arith in
            subst (All (IsOpen txs children max_chain)) same later
      ]
    ]

-- The best of the candidates so far, if there is one, is such a transaction.
abbrev IsBest : List (ℕ × MempoolEntry) → List (ℕ × ℕ) → ℕ → Option (ℕ × ℕ) → Type 0
IsBest txs children max_chain best =
    (r t : ℕ) → best ≡ some (r, t) → IsOpen txs children max_chain t

better-IsBest :
    (txs : List (ℕ × MempoolEntry)) (children : List (ℕ × ℕ)) (max_chain : ℕ)
    (best : Option (ℕ × ℕ)) (r t : ℕ)
    → IsBest txs children max_chain best
    → IsOpen txs children max_chain t
    → IsBest txs children max_chain (better best r t)
better-IsBest txs children max_chain none r t h k r1 t1 e =
    let same : t ≡ t1 = ground arith in subst (IsOpen txs children max_chain) same k
better-IsBest txs children max_chain (some (br, bt)) r t h k r1 t1 e =
    elim (Bool-cases (ltb br r || ((br == r) && leb bt t))) [
      | inl keep ↦ h r1 t1 (ground arith)
      | inr new ↦ let same : t ≡ t1 = ground arith in subst (IsOpen txs children max_chain) same k
    ]

module _ {R F : Type 0} ⦃rng : Rng R⦄ ⦃draw : Draw R F⦄ (fresh : IsFresh R F) where
  sample_best-IsBest :
      (txs : List (ℕ × MempoolEntry)) (children : List (ℕ × ℕ)) (max_chain : ℕ)
      (candidates : List ℕ) (samples : ℕ) (best : Option (ℕ × ℕ)) (r : R)
      → All (IsOpen txs children max_chain) candidates
      → 0 < length candidates
      → IsBest txs children max_chain best
      → IsBest txs children max_chain (sample_best txs candidates samples best r).0
        × ((id : ℕ) → fresh.Used r id → fresh.Used (sample_best txs candidates samples best r).1 id)
  unfolding sample_best
  sample_best-IsBest txs children max_chain candidates zero best r h l k = (k, λ id u. u)
  sample_best-IsBest txs children max_chain candidates (suc samples) best r h l k =
      let last = length candidates - 1 in
      let idx = (rng.gen_range 0 last r).0 in
      let inside = fresh.in_range 0 last r (omega arith) in
      let t = get_or candidates idx 0 in
      let chosen =
        All-index (IsOpen txs children max_chain) candidates idx 0 h (omega (arith, inside, l)) in
      let (found, kept) =
        sample_best-IsBest txs children max_chain candidates samples
          (better best (own_rate_sat_vb (entry_at txs t)) t) (rng.gen_range 0 last r).1 h l
          (better-IsBest txs children max_chain best (own_rate_sat_vb (entry_at txs t)) t k
            chosen) in
      (found, λ id u. kept id (fresh.range_keeps 0 last r id u))

  -- The parent that is picked is in the mempool, and no child of it is; its chain is short.
  pub pick_parent-IsOpen :
      (n : MockNode R F)
      → ((t : ℕ) → (pick_parent n).0 ≡ some t → IsOpen n.txs n.children n.cfg.max_chain t)
        × ((id : ℕ) → fresh.Used n.rng id → fresh.Used (pick_parent n).1 id)
  unfolding pick_parent
  pick_parent-IsOpen n =
      let candidates = eligible n.txs n.children n.cfg.max_chain (keys n.txs) in
      let opens =
        eligible-IsOpen n.txs n.children n.cfg.max_chain (keys n.txs)
          (all_found n.txs n.txs (λ k e h. (e, h))) in
      elim (Bool-cases (ltb n.cfg.max_chain 2 || is_empty candidates)) [
        | inl e ↦ (λ t h. absurd (ground arith), λ id u. rw (pick_parent, e) u)
        | inr e ↦
            let some_there : 0 < length candidates = not_empty candidates (ground arith) in
            let (found, kept) =
              sample_best-IsBest n.txs n.children n.cfg.max_chain candidates
                (min (length candidates) 8) none n.rng opens some_there
                (λ r t h. absurd (ground arith)) in
            (
              λ t h.
                  elim (Option-cases
                    (sample_best n.txs candidates (min (length candidates) 8) none n.rng).0) [
                      | inl e1 ↦ absurd (ground arith)
                      | inr ((r, t1), e1) ↦
                          let same : t1 ≡ t = ground arith in
                          subst (IsOpen n.txs n.children n.cfg.max_chain) same (found r t1 e1)
                    ],
              λ id u. rw (pick_parent, e) (kept id u),
            )
      ]
    where
      not_empty : (xs : List ℕ) → is_empty xs ≡ false → 0 < length xs
      not_empty [] h = absurd (ground arith)
      not_empty (x ∷ xs) h = omega arith
