-- ===== src/Float.antt =====
-- The `f64` of gbt.rs, fees.rs and mempool.rs: floating-point numbers are no code of the repository,
-- so the type and the operations that the program uses are an interface, with the IEEE 754 facts
-- that the proofs rely on as its laws. `scaled_float` shows that the laws can be met.
use native.Mathlib.Nat.{div-le_of_le-mul}
use satya_btc.Common.{
  ℕ, ◌≤◌, ◌*◌, ◌/◌, ◌≡◌, ◌≢◌, ◌⊎◌, Bool, false, not, Option, some, Ordering, compare, min, max,
  arith, ◌==◌,
}

pub record Float (F : Type 0) : Type 0 where
  -- `n as f64`
  pub of_u64 : ℕ → F
  pub mul : F → F → F
  pub div : F → F → F
  -- `f64::min` and `f64::max`
  pub fmin : F → F → F
  pub fmax : F → F → F
  pub partial_cmp : F → F → Option Ordering
  -- `(a - b).abs() > 1e-9`
  pub differs : F → F → Bool

-- NaN is the value that does not compare with itself.
abbrev pub IsNum : {F : Type 0} ⦃f : Float F⦄ → F → Type 0
IsNum ⦃f⦄ x = f.partial_cmp x x ≡ some Ordering.eq

-- `a >= b`
abbrev pub Ge : {F : Type 0} ⦃f : Float F⦄ → F → F → Type 0
Ge ⦃f⦄ a b = (f.partial_cmp a b ≡ some Ordering.gt) ⊎ (f.partial_cmp a b ≡ some Ordering.eq)

-- Facts of IEEE 754 arithmetic. The difference of a value and itself is 0 or NaN, never above 1e-9.
pub record IsFloat (F : Type 0) ⦃f : Float F⦄ : Type 0 where
  pub differs_self : (x : F) → f.differs x x ≡ false
  pub of_u64_num : (n : ℕ) → IsNum (f.of_u64 n)
  pub ratio_num : (n d : ℕ) → d ≢ 0 → IsNum (f.div (f.mul (f.of_u64 4) (f.of_u64 n)) (f.of_u64 d))
  -- the conversion and the quotient round, which keeps the order
  pub of_u64_ge : (n m : ℕ) → m ≤ n → Ge (f.of_u64 n) (f.of_u64 m)
  pub quotient_num : (n d : ℕ) → d ≢ 0 → IsNum (f.div (f.of_u64 n) (f.of_u64 d))
  pub quotient_le : (n d : ℕ) → d ≢ 0 → n ≤ d → Ge (f.of_u64 1) (f.div (f.of_u64 n) (f.of_u64 d))
  -- what compares with itself is equal to itself
  pub self_eq : (x : F) (o : Ordering) → f.partial_cmp x x ≡ some o → o ≡ Ordering.eq
  pub fmin_num : (x y : F) → IsNum x → IsNum y → IsNum (f.fmin x y)
  pub fmax_num : (x y : F) → IsNum x → IsNum y → IsNum (f.fmax x y)
  -- numbers compare
  pub compares : (x y : F) → IsNum x → IsNum y → (o : Ordering) × (f.partial_cmp x y ≡ some o)
  pub flip : (x y : F) → f.partial_cmp x y ≡ some Ordering.lt → f.partial_cmp y x ≡ some Ordering.gt
  pub ge_trans : (x y z : F) → Ge x y → Ge y z → Ge x z
  pub ge_not_gt : (x y : F) → Ge x y → f.partial_cmp y x ≢ some Ordering.gt
  pub fmax_ge : (x y : F) → IsNum x → IsNum y → Ge (f.fmax x y) x × Ge (f.fmax x y) y
  pub fmax_least : (x y z : F) → Ge z x → Ge z y → Ge z (f.fmax x y)

-- Millionths: every law holds of them, and the tests and witnesses run on them.
abbrev pub Scaled : Type 0
Scaled = ℕ

instance abbrev pub scaled_float : Float Scaled
scaled_float = record {
  of_u64 = λ n. n * 1_000_000;
  mul = λ a b. a * b / 1_000_000;
  div = λ a b. a * 1_000_000 / b;
  fmin = min;
  fmax = max;
  partial_cmp = λ a b. some (compare a b);
  differs = λ a b. not (a == b);
}

scaled_compares : (x y : ℕ) → (o : Ordering) × (some (compare x y) ≡ some o)
scaled_compares x y = (compare x y, cc)

scaled_quotient :
    (n d : ℕ) → d ≢ 0 → n ≤ d → (n * 1_000_000) * 1_000_000 / (d * 1_000_000) ≤ 1_000_000
scaled_quotient n d positive l = div-le_of_le-mul (d * 1_000_000) (omega (arith, l))

scaled_ge : (n m : ℕ) → m ≤ n → Ge {F = Scaled} n m
scaled_ge n m l = ground arith

pub scaled_laws : IsFloat Scaled
scaled_laws = record {
  differs_self = λ x. ground arith;
  of_u64_num = λ n. ground arith;
  ratio_num = λ n d h. ground arith;
  of_u64_ge = λ n m l. scaled_ge (n * 1_000_000) (m * 1_000_000) (omega (arith, l));
  quotient_num = λ n d h. ground arith;
  quotient_le = λ n d h l. scaled_ge 1_000_000 _ (scaled_quotient n d h l);
  self_eq = λ x o h. ground arith;
  fmin_num = λ x y h k. ground arith;
  fmax_num = λ x y h k. ground arith;
  compares = λ x y h k. scaled_compares x y;
  flip = λ x y h. ground arith;
  ge_trans = λ x y z h k. ground arith;
  ge_not_gt = λ x y h k. ground arith;
  fmax_ge = λ x y h k. ground arith;
  fmax_least = λ x y z h k. ground arith;
}
