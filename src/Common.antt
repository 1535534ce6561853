-- ===== src/Common.antt =====
-- The names that the other modules share: the libraries', passed on, and those of two children.
-- Machine words stand here too: a `u32`, a `u64` or a `usize` of a 64-bit host is a number, with its
-- wrap-around or its saturation written out by the operation that the source uses.
mod Tests
mod Lists
pub use Tests.*
pub use Lists.*
pub use Prim.Native.Nat.{
  ℕ, zero, suc, ◌+◌, ◌-◌, ◌*◌, ◌/◌, ◌%◌, ◌^◌, ◌≤◌, ◌<◌, compare, Ordering, min, max,
}
pub use mathlib.Core.Path.{◌≡◌, refl, sym, ap, ◌∙◌, subst}
pub use mathlib.Core.Logic.{◌≢◌, ◌↔◌, ◌⊎◌, inl, inr}
pub use mathlib.Core.Bool.{Bool, true, false, not, ◌&&◌, ◌||◌}
pub use mathlib.Core.Option.{Option, none, some}
pub use mathlib.Core.List.{List, [], ◌∷◌, ◌++◌, map, append-nil, append_assoc}
pub use native.Mathlib.Omega.{arith}

abbrev pub u32_mod : ℕ
u32_mod = 2 ^ 32

abbrev pub u64_mod : ℕ
u64_mod = 2 ^ 64

abbrev pub u32_max : ℕ
u32_max = 4_294_967_295

abbrev pub u64_max : ℕ
u64_max = 18_446_744_073_709_551_615

-- `a + b` on `u64` (release profile: wraps).
abbrev pub add64 : ℕ → ℕ → ℕ
add64 a b = (a + b) % u64_mod

-- `a + b` on `u32`.
abbrev pub add32 : ℕ → ℕ → ℕ
add32 a b = (a + b) % u32_mod

-- `a.saturating_add(b)` and `a.saturating_mul(b)` on `u64` and `usize`.
abbrev pub saturating_add64 : ℕ → ℕ → ℕ
saturating_add64 a b = min (a + b) u64_max

abbrev pub saturating_mul64 : ℕ → ℕ → ℕ
saturating_mul64 a b = min (a * b) u64_max

-- `a.saturating_mul(b)` on `u32`.
abbrev pub saturating_mul32 : ℕ → ℕ → ℕ
saturating_mul32 a b = min (a * b) u32_max
