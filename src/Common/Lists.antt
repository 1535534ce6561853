-- ===== src/Common/Lists.antt =====
-- Lists measured and indexed by native numbers, under the library's names.
use Prim.Native.Nat.{ℕ, zero, suc, ◌+◌, ◌≤◌, ◌<◌}
use mathlib.Core.Path.{◌≡◌, refl, ap}
use mathlib.Core.Logic.{◌≢◌}
use mathlib.Core.Bool.{Bool, true, false, ◌||◌}
use mathlib.Core.List.{List, [], ◌∷◌, ◌++◌}
use native.Mathlib.Omega.{arith}
use satya_btc.Common.Tests.{◌==◌, if◌then◌else◌}

module _ {ℓ} {A : Type ℓ} where
  abbrev pub length : List A → ℕ
  length [] = 0
  length (x ∷ xs) = suc (length xs)

  abbrev pub get_or : List A → ℕ → A → A
  get_or [] i d = d
  get_or (x ∷ xs) zero d = x
  get_or (x ∷ xs) (suc i) d = get_or xs i d

  -- A write out of bounds changes nothing.
  abbrev pub set : List A → ℕ → A → List A
  set [] i v = []
  set (x ∷ xs) zero v = v ∷ xs
  set (x ∷ xs) (suc i) v = x ∷ set xs i v

  abbrev pub take : ℕ → List A → List A
  take zero xs = []
  take (suc n) [] = []
  take (suc n) (x ∷ xs) = x ∷ take n xs

  abbrev pub replicate : ℕ → A → List A
  replicate zero a = []
  replicate (suc n) a = a ∷ replicate n a

  -- A predicate of every element, which computes to a tuple.
  abbrev pub All {κ} : (A → Type κ) → List A → Type κ
  All P [] = Unit
  All P (x ∷ xs) = P x × All P xs

  pub length-append : (xs ys : List A) → length (xs ++ ys) ≡ length xs + length ys
  length-append [] ys = omega arith
  length-append (x ∷ xs) ys = omega (arith, length-append xs ys)

  pub length-set : (xs : List A) (i : ℕ) (v : A) → length (set xs i v) ≡ length xs
  length-set [] i v = refl
  length-set (x ∷ xs) zero v = refl
  length-set (x ∷ xs) (suc i) v = ap suc (length-set xs i v)

  pub length-replicate : (n : ℕ) (a : A) → length (replicate n a) ≡ n
  length-replicate zero a = refl
  length-replicate (suc n) a = ap suc (length-replicate n a)

  pub get_or-set_self :
      (xs : List A) (i : ℕ) (v d : A) → i < length xs → get_or (set xs i v) i d ≡ v
  get_or-set_self [] i v d h = elim h [ ]
  get_or-set_self (x ∷ xs) zero v d h = refl
  get_or-set_self (x ∷ xs) (suc i) v d h = get_or-set_self xs i v d (omega arith)

  pub get_or-set_ne :
      (xs : List A) (i j : ℕ) (v d : A) → i ≢ j → get_or (set xs i v) j d ≡ get_or xs j d
  get_or-set_ne [] i j v d h = refl
  get_or-set_ne (x ∷ xs) zero zero v d h = absurd (h refl)
  get_or-set_ne (x ∷ xs) zero (suc j) v d h = refl
  get_or-set_ne (x ∷ xs) (suc i) zero v d h = refl
  get_or-set_ne (x ∷ xs) (suc i) (suc j) v d h = get_or-set_ne xs i j v d (λ e. h (ap suc e))

  pub get_or-replicate : (n i : ℕ) (a : A) → get_or (replicate n a) i a ≡ a
  get_or-replicate zero i a = refl
  get_or-replicate (suc n) zero a = refl
  get_or-replicate (suc n) (suc i) a = get_or-replicate n i a

  pub All-append {κ} :
      (R : A → Type κ) (left right : List A) → All R left → All R right → All R (left ++ right)
  All-append R [] right k l = l
  All-append R (a ∷ left) right (here, k) l = (here, All-append R left right k l)

  pub All-append_left {κ} : (P : A → Type κ) (xs ys : List A) → All P (xs ++ ys) → All P xs
  All-append_left P [] ys h = tt
  All-append_left P (x ∷ xs) ys h = (h.0, All-append_left P xs ys h.1)

  pub All-map {κ μ} :
      (P : A → Type κ) (Q : A → Type μ) (xs : List A) → ((x : A) → P x → Q x) → All P xs → All Q xs
  All-map P Q [] f h = tt
  All-map P Q (x ∷ xs) f h = (f x h.0, All-map P Q xs f h.1)

  -- An element read by its index has what all have.
  pub All-get_or {κ} :
      (P : A → Type κ) (xs : List A) (i : ℕ) (d : A) → All P xs → P d → P (get_or xs i d)
  All-get_or P [] i d h k = k
  All-get_or P (x ∷ xs) zero d h k = h.0
  All-get_or P (x ∷ xs) (suc i) d h k = All-get_or P xs i d h.1 k

-- Sets and multisets of numbers.
abbrev pub contains : List ℕ → ℕ → Bool
contains [] a = false
contains (x ∷ xs) a = (x == a) || contains xs a

abbrev pub count : ℕ → List ℕ → ℕ
count v [] = 0
count v (n ∷ left) = (if n == v then 1 else 0) + count v left

pub count-append :
    (v : ℕ) (left right : List ℕ) → count v (left ++ right) ≡ count v left + count v right
count-append v [] right = ground arith
count-append v (n ∷ left) right = ground (arith, count-append v left right)

pub contains-count : (xs : List ℕ) (a : ℕ) → contains xs a ≡ false → count a xs ≡ 0
contains-count [] a h = refl
contains-count (x ∷ xs) a h = ground (arith, contains-count xs a)

pub count-contains : (xs : List ℕ) (a : ℕ) → contains xs a ≡ true → 0 < count a xs
count-contains [] a h = cc
count-contains (x ∷ xs) a h = ground (arith, count-contains xs a)

-- The number of flags that are not set.
abbrev pub unset : List Bool → ℕ
unset [] = 0
unset (false ∷ bs) = suc (unset bs)
unset (true ∷ bs) = unset bs

pub unset-le : (bs : List Bool) → unset bs ≤ length bs
unset-le [] = omega arith
unset-le (false ∷ bs) = omega (arith, unset-le bs)
unset-le (true ∷ bs) = omega (arith, unset-le bs)

pub unset-replicate : (n : ℕ) → unset (replicate n false) ≡ n
unset-replicate zero = refl
unset-replicate (suc n) = ap suc (unset-replicate n)

pub unset-set_le : (bs : List Bool) (i : ℕ) → unset (set bs i true) ≤ unset bs
unset-set_le [] i = omega arith
unset-set_le (false ∷ bs) zero = omega arith
unset-set_le (true ∷ bs) zero = omega arith
unset-set_le (false ∷ bs) (suc i) = omega (arith, unset-set_le bs i)
unset-set_le (true ∷ bs) (suc i) = omega (arith, unset-set_le bs i)

pub unset-set :
    (bs : List Bool) (i : ℕ)
    → i < length bs
    → get_or bs i false ≡ false
    → suc (unset (set bs i true)) ≡ unset bs
unset-set [] i h e = absurd (omega arith)
unset-set (false ∷ bs) zero h e = refl
unset-set (true ∷ bs) zero h e = cc
unset-set (false ∷ bs) (suc i) h e = ap suc (unset-set bs i (omega arith) e)
unset-set (true ∷ bs) (suc i) h e = unset-set bs i (omega arith) e
