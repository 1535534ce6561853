-- ===== src/Sim/Random.antt =====
-- The generator of the rand crate and the functions of `f64` that only src/sim uses, as interfaces.
use satya_btc.Common.{ℕ, ◌≤◌, Bool, true, false, some, Ordering}
use satya_btc.Float.{Float}

-- `gen::<f64>()`
pub record Draw (R F : Type 0) : Type 0 where
  pub gen : R → F × R

-- `gen_range(lo..=hi)`, and `fill` of the 32 bytes of a txid.
pub record Rng (R : Type 0) : Type 0 where
  pub gen_range : ℕ → ℕ → R → ℕ × R
  pub fill : R → ℕ × R

-- `powf`, `round() as u64`, `as usize` and `is_finite`.
pub record Casts (F : Type 0) : Type 0 where
  pub powf : F → F → F
  pub round_u64 : F → ℕ
  pub trunc_u64 : F → ℕ
  pub is_finite : F → Bool

-- `a < b`
abbrev pub less : {F : Type 0} ⦃f : Float F⦄ → F → F → Bool
less ⦃f⦄ a b = elim (f.partial_cmp a b) [ some Ordering.lt ↦ true | _ ↦ false ]

-- What the draws keep to: a range, and no txid is drawn twice. `Used` are the txids drawn so far.
pub record IsFresh (R F : Type 0) ⦃rng : Rng R⦄ ⦃draw : Draw R F⦄ : Type 1 where
  pub Used : R → ℕ → Type 0
  pub in_range :
      (lo hi : ℕ) (r : R)
      → lo ≤ hi
      → (lo ≤ (rng.gen_range lo hi r).0) × ((rng.gen_range lo hi r).0 ≤ hi)
  pub new : (r : R) → Used r (rng.fill r).0 → ⊥
  pub drawn : (r : R) → Used (rng.fill r).1 (rng.fill r).0
  pub fill_keeps : (r : R) (id : ℕ) → Used r id → Used (rng.fill r).1 id
  pub gen_keeps : (r : R) (id : ℕ) → Used r id → Used (draw.gen r).1 id
  pub range_keeps : (lo hi : ℕ) (r : R) (id : ℕ) → Used r id → Used (rng.gen_range lo hi r).1 id
