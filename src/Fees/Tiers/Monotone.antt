-- ===== src/Fees/Tiers/Monotone.antt =====
-- src/fees.rs: the tiers do not increase with the depth.
use satya_btc.Common.{
  ℕ, ◌≤◌, ◌≡◌, ◌≢◌, false, ◌⊎◌, inl, inr, some, List, [], ◌∷◌, arith, Ordering, add64, leb,
  Bool-cases, All,
}
use satya_btc.Float.{Float, IsFloat, IsNum, Ge}
use satya_btc.Fees.Tiers.{
  fastest_depth, half_hour_depth, hour_depth, economy_depth, tier_from, tier_at_depth, insert_desc,
  sort_desc, recommended_tiers,
}

module _ {F : Type 0} ⦃f : Float F⦄ (laws : IsFloat F) where
  -- `r` is at least each rate of the list.
  abbrev pub Above : F → List (F × ℕ) → Type 0
  Above r xs = All (λ b. Ge r b.0) xs

  abbrev pub IsDescending : List (F × ℕ) → Type 0
  IsDescending [] = Unit {0}
  IsDescending (a ∷ rest) = Above a.0 rest × IsDescending rest

  abbrev pub Rates : List (F × ℕ) → Type 0
  Rates xs = All (λ b. IsNum b.0) xs

  Above-trans : (r q : F) (xs : List (F × ℕ)) → Ge r q → Above q xs → Above r xs
  Above-trans r q [] g h = tt
  Above-trans r q (b ∷ rest) g h = (laws.ge_trans r q b.0 g h.0, Above-trans r q rest g h.1)

  Ge-of_not_lt :
      (x y : F) (o : Ordering)
      → f.partial_cmp x y ≡ some o
      → f.partial_cmp y x ≢ some Ordering.gt
      → Ge x y
  Ge-of_not_lt x y Ordering.gt e h = inl e
  Ge-of_not_lt x y Ordering.eq e h = inr e
  Ge-of_not_lt x y Ordering.lt e h = absurd (h (laws.flip x y e))

  -- Where the new rate goes, and what that says of the two.
  insert_cases :
      (a b : F × ℕ) (rest : List (F × ℕ))
      → IsNum a.0
      → IsNum b.0
      → ((insert_desc a (b ∷ rest) ≡ b ∷ insert_desc a rest) × Ge b.0 a.0)
        ⊎ ((insert_desc a (b ∷ rest) ≡ a ∷ b ∷ rest) × Ge a.0 b.0)
  unfolding insert_desc
  insert_cases a b rest ha hb =
      let (o, e) = laws.compares b.0 a.0 hb ha in
      let (o', e') = laws.compares a.0 b.0 ha hb in go o e o' e'
    where
      go :
          (o : Ordering)
          → f.partial_cmp b.0 a.0 ≡ some o
          → (o' : Ordering) → f.partial_cmp a.0 b.0 ≡ some o'
          → ((insert_desc a (b ∷ rest) ≡ b ∷ insert_desc a rest) × Ge b.0 a.0)
            ⊎ ((insert_desc a (b ∷ rest) ≡ a ∷ b ∷ rest) × Ge a.0 b.0)
      go Ordering.gt e o' e' = inl (ground arith, inl e)
      go Ordering.eq e o' e' = inr (ground arith, Ge-of_not_lt a.0 b.0 o' e' (λ k. ground arith))
      go Ordering.lt e o' e' = inr (ground arith, inl (laws.flip b.0 a.0 e))

  Above-insert_desc :
      (r : F) (a : F × ℕ) (xs : List (F × ℕ))
      → IsNum a.0
      → Rates xs
      → Ge r a.0
      → Above r xs
      → Above r (insert_desc a xs)
  unfolding insert_desc
  Above-insert_desc r a [] na nx g h = (g, tt)
  Above-insert_desc r a (b ∷ rest) na nx g h = elim (insert_cases a b rest na nx.0) [
    | inl (e, _) ↦ rw e (h.0, Above-insert_desc r a rest na nx.1 g h.1)
    | inr (e, _) ↦ rw e (g, (h.0, h.1))
  ]

  insert_desc-IsDescending :
      (a : F × ℕ) (xs : List (F × ℕ))
      → IsNum a.0
      → Rates xs
      → IsDescending xs
      → IsDescending (insert_desc a xs)
  unfolding insert_desc
  insert_desc-IsDescending a [] na nx h = (tt, tt)
  insert_desc-IsDescending a (b ∷ rest) na nx h = elim (insert_cases a b rest na nx.0) [
    | inl (e, g) ↦
        rw e
          (Above-insert_desc b.0 a rest na nx.1 g h.0, insert_desc-IsDescending a rest na nx.1 h.1)
    | inr (e, g) ↦ rw e ((g, Above-trans a.0 b.0 rest g h.0), h)
  ]

  insert_desc-Rates :
      (a : F × ℕ) (xs : List (F × ℕ)) → IsNum a.0 → Rates xs → Rates (insert_desc a xs)
  unfolding insert_desc
  insert_desc-Rates a [] na nx = (na, tt)
  insert_desc-Rates a (b ∷ rest) na nx = elim (insert_cases a b rest na nx.0) [
    | inl (e, _) ↦ rw e (nx.0, insert_desc-Rates a rest na nx.1)
    | inr (e, _) ↦ rw e (na, nx)
  ]

  pub sort_desc-Rates : (xs : List (F × ℕ)) → Rates xs → Rates (sort_desc xs)
  unfolding sort_desc
  sort_desc-Rates [] nx = tt
  sort_desc-Rates (a ∷ rest) nx = insert_desc-Rates a _ nx.0 (sort_desc-Rates rest nx.1)

  pub sort_desc-IsDescending : (xs : List (F × ℕ)) → Rates xs → IsDescending (sort_desc xs)
  unfolding sort_desc
  sort_desc-IsDescending [] nx = tt
  sort_desc-IsDescending (a ∷ rest) nx =
      insert_desc-IsDescending a _ nx.0 (sort_desc-Rates rest nx.1)
        (sort_desc-IsDescending rest nx.1)

  -- Whatever is at least the floor and each rate is at least the tier.
  tier_from_least :
      (r floor : F) (threshold cum : ℕ) (xs : List (F × ℕ))
      → Ge r floor
      → Above r xs
      → Ge r (tier_from threshold floor cum xs)
  unfolding tier_from
  tier_from_least r floor threshold cum [] g h = g
  tier_from_least r floor threshold cum ((rate, weight) ∷ rest) g h =
      elim (Bool-cases (leb threshold (add64 cum weight))) [
        | inl e ↦ rw e (laws.fmax_least rate floor r h.0 g)
        | inr e ↦ rw e (tier_from_least r floor threshold (add64 cum weight) rest g h.1)
      ]

  tier_from-Ge :
      (floor : F) (low high cum : ℕ) (xs : List (F × ℕ))
      → IsNum floor
      → low ≤ high
      → Rates xs
      → IsDescending xs
      → Ge (tier_from low floor cum xs) (tier_from high floor cum xs)
  unfolding tier_from
  tier_from-Ge floor low high cum [] nf l nx h = inr nf
  tier_from-Ge floor low high cum ((rate, weight) ∷ rest) nf l nx h =
      let (over, above) = laws.fmax_ge rate floor nx.0 nf in
      elim (Bool-cases (leb low (add64 cum weight))) [
        | inl e ↦ elim (Bool-cases (leb high (add64 cum weight))) [
          | inl e' ↦ rw (e, e') (inr (laws.fmax_num rate floor nx.0 nf))
          | inr e' ↦
              rw (e, e')
                (tier_from_least (f.fmax rate floor) floor high (add64 cum weight) rest above
                  (Above-trans (f.fmax rate floor) rate rest over h.0))
        ]
        | inr e ↦
            let e' : leb high (add64 cum weight) ≡ false = ground arith in
            rw (e, e') (tier_from-Ge floor low high (add64 cum weight) rest nf l nx.1 h.1)
      ]

  tier_from_floor :
      (floor : F) (threshold cum : ℕ) (xs : List (F × ℕ))
      → IsNum floor
      → Rates xs
      → Ge (tier_from threshold floor cum xs) floor
  unfolding tier_from
  tier_from_floor floor threshold cum [] nf nx = inr nf
  tier_from_floor floor threshold cum ((rate, weight) ∷ rest) nf nx =
      elim (Bool-cases (leb threshold (add64 cum weight))) [
        | inl e ↦ rw e (laws.fmax_ge rate floor nx.0 nf).1
        | inr e ↦ rw e (tier_from_floor floor threshold (add64 cum weight) rest nf nx.1)
      ]

  tier_at_depth-Ge :
      (floor : F) (near far : ℕ) (xs : List (F × ℕ))
      → IsNum floor
      → near ≤ far
      → Rates xs
      → Ge (tier_at_depth (sort_desc xs) near floor) (tier_at_depth (sort_desc xs) far floor)
  unfolding tier_at_depth
  tier_at_depth-Ge floor near far xs nf l nx =
      tier_from-Ge floor _ _ 0 (sort_desc xs) nf (omega arith) (sort_desc-Rates xs nx)
        (sort_desc-IsDescending xs nx)

  -- For rates and a floor that are numbers, each tier is at least the next deeper one, and the deepest
  -- is at least the floor.
  pub recommended_tiers_descend :
      (rate_weights : List (F × ℕ)) (min_fee_sat_vb : F) (computed_at : ℕ)
      → Rates rate_weights
      → IsNum min_fee_sat_vb
      → Ge
          (recommended_tiers rate_weights min_fee_sat_vb computed_at).next_block
          (recommended_tiers rate_weights min_fee_sat_vb computed_at).within_3_blocks
        × Ge
            (recommended_tiers rate_weights min_fee_sat_vb computed_at).within_3_blocks
            (recommended_tiers rate_weights min_fee_sat_vb computed_at).within_6_blocks
        × Ge
            (recommended_tiers rate_weights min_fee_sat_vb computed_at).within_6_blocks
            (recommended_tiers rate_weights min_fee_sat_vb computed_at).horizon
        × Ge (recommended_tiers rate_weights min_fee_sat_vb computed_at).horizon min_fee_sat_vb
  unfolding recommended_tiers tier_at_depth
  recommended_tiers_descend rate_weights min_fee_sat_vb computed_at nx nf = (
    tier_at_depth-Ge min_fee_sat_vb fastest_depth half_hour_depth rate_weights nf (omega arith) nx,
    tier_at_depth-Ge min_fee_sat_vb half_hour_depth hour_depth rate_weights nf (omega arith) nx,
    tier_at_depth-Ge min_fee_sat_vb hour_depth economy_depth rate_weights nf (omega arith) nx,
    tier_from_floor min_fee_sat_vb _ 0 (sort_desc rate_weights) nf
        (sort_desc-Rates rate_weights nx),
  )
