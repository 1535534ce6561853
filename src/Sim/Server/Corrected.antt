-- ===== src/Sim/Server/Corrected.antt =====
-- src/sim/server.rs, `run_cli`: what the corrections of the flags give.
use satya_btc.Common.{
  ℕ, ◌≤◌, ◌≡◌, refl, ap, ◌∙◌, false, ◌&&◌, inl, inr, some, arith, Ordering, Bool-cases,
  Option-cases, max,
}
use satya_btc.Float.{Float, IsFloat, IsNum, Ge}
use satya_btc.Sim.Random.{Casts, less}
use satya_btc.Sim.Node.Arrival.{skewed}
use satya_btc.Sim.Server.Flags.{
  SimServeArgs, is_nan, corrected_fraction, least_skew, corrected_skew, churn_config,
}

module _ {F : Type 0} ⦃f : Float F⦄ (laws : IsFloat F) where
  is_nan-IsNum : (x : F) → is_nan x ≡ false → IsNum x
  is_nan-IsNum x h = elim (Option-cases (f.partial_cmp x x)) [
    | inl e ↦ absurd (ground arith)
    | inr (o, e) ↦ e ∙ ap some (laws.self_eq x o e)
  ]

  less-Ge : (x y : F) → IsNum x → IsNum y → less x y ≡ false → Ge x y
  less-Ge x y nx ny h = let (o, e) = laws.compares x y nx ny in go o e
    where
      go : (o : Ordering) → f.partial_cmp x y ≡ some o → Ge x y
      go Ordering.gt e = inl e
      go Ordering.eq e = inr e
      go Ordering.lt e = absurd (ground arith)

  not_less : (x y : F) → Ge x y → less x y ≡ false
  not_less x y h = ground arith

  least_skew-IsNum : IsNum (least_skew {F = F})
  least_skew-IsNum = laws.quotient_num 1 10 (ground arith)

  one_skew : Ge (f.of_u64 1) (least_skew {F = F})
  one_skew = laws.quotient_le 1 10 (ground arith) (omega arith)

  corrected_fraction_range :
      (x : F) → Ge (corrected_fraction x) (f.of_u64 0) × Ge (f.of_u64 1) (corrected_fraction x)
  unfolding corrected_fraction
  corrected_fraction_range x =
      let zero_num = laws.of_u64_num 0 in
      let one_num = laws.of_u64_num 1 in
      let one_zero = laws.of_u64_ge 1 0 (omega arith) in
      elim (Bool-cases (is_nan x)) [
        | inl e ↦ rw e (inr zero_num, one_zero)
        | inr e ↦
            let num = is_nan-IsNum x e in
            elim (Bool-cases (less x (f.of_u64 0))) [
              | inl low ↦
                  rw (e, low, not_less (f.of_u64 1) (f.of_u64 0) one_zero) (inr zero_num, one_zero)
              | inr above ↦ elim (Bool-cases (less (f.of_u64 1) x)) [
                | inl over ↦ rw (e, above, over) (one_zero, inr one_num)
                | inr within ↦
                    rw (e, above, within)
                      (
                        less-Ge x (f.of_u64 0) num zero_num above,
                        less-Ge (f.of_u64 1) x one_num num within,
                      )
              ]
            ]
      ]

  corrected_skew_least : (x : F) → Ge (corrected_skew x) (least_skew {F = F})
  unfolding corrected_skew
  corrected_skew_least x = elim (Bool-cases (is_nan x)) [
    | inl e ↦ rw e (
        laws.ge_trans (f.of_u64 3) (f.of_u64 1) least_skew (laws.of_u64_ge 3 1 (omega arith))
          one_skew)
    | inr e ↦ elim (Bool-cases (less x least_skew)) [
      | inl low ↦ rw (e, low) (inr least_skew-IsNum)
      | inr above ↦ rw (e, above) (less-Ge x least_skew (is_nan-IsNum x e) least_skew-IsNum above)
    ]
  ]

  corrected_fraction_kept :
      (x : F) → IsNum x → Ge x (f.of_u64 0) → Ge (f.of_u64 1) x → corrected_fraction x ≡ x
  unfolding corrected_fraction
  corrected_fraction_kept x num low high =
      let known : is_nan x ≡ false = rw (is_nan, num) refl in
      let above : less x (f.of_u64 0) ≡ false = not_less x (f.of_u64 0) low in
      let within : less (f.of_u64 1) x ≡ false = not_less (f.of_u64 1) x high in
      rw (known, above, within) refl

  module _ ⦃casts : Casts F⦄ where
    skewed_least :
        (low high : ℕ) (x : F)
        → Ge x (least_skew {F = F})
        → Ge (skewed low high x).skew (least_skew {F = F})
    unfolding skewed
    skewed_least low high x h = elim (Bool-cases (casts.is_finite x && less (f.of_u64 0) x)) [
      | inl e ↦ rw e h
      | inr e ↦ rw e one_skew
    ]

    pub chain_flag : (args : SimServeArgs F) → (churn_config args).max_chain ≡ max args.max_chain 1
    unfolding churn_config
    chain_flag args = refl

    -- Whatever the flags, with floats that keep the IEEE facts.
    pub churn_config_corrected :
        (args : SimServeArgs F)
        → Ge (churn_config args).cpfp_fraction (f.of_u64 0)
          × Ge (f.of_u64 1) (churn_config args).cpfp_fraction
          × Ge (churn_config args).fee.skew (least_skew {F = F})
          × (1 ≤ (churn_config args).max_chain)
          × (IsNum args.cpfp_fraction
              → Ge args.cpfp_fraction (f.of_u64 0)
              → Ge (f.of_u64 1) args.cpfp_fraction
              → (churn_config args).cpfp_fraction ≡ args.cpfp_fraction)
    unfolding churn_config
    churn_config_corrected args =
        let (low, high) = corrected_fraction_range args.cpfp_fraction in
        (
          low,
          high,
          skewed_least 1 500 (corrected_skew args.fee_skew) (corrected_skew_least args.fee_skew),
          omega arith,
          corrected_fraction_kept args.cpfp_fraction,
        )
