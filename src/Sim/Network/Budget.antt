-- ===== src/Sim/Network/Budget.antt =====
-- src/sim/network.rs: how many calls the limiter lets through.
use satya_btc.Common.{
  ℕ, ◌+◌, ◌*◌, ◌≤◌, ◌<◌, ◌≡◌, refl, ◌&&◌, List, [], ◌∷◌, arith, ltb, leb, if◌then◌else◌,
}
use satya_btc.Sim.Network.{Limiter, new_limiter, one_second, roll, check_rate_limit}

-- The times of the calls that are let through.
unfoldable pub admitted : ℕ → Limiter → List ℕ → List ℕ
unfolding check_rate_limit
admitted limit l [] = []
admitted limit l (now ∷ rest) =
    let (within, l') = check_rate_limit l limit now in
    let later = admitted limit l' rest in if within then now ∷ later else later

-- The times do not go back, from `start` on.
abbrev pub IsForward : ℕ → List ℕ → Type 0
IsForward start [] = Unit
IsForward start (now ∷ rest) = (start ≤ now) × IsForward now rest

-- The times within a second from `t` on.
abbrev pub in_second : ℕ → List ℕ → ℕ
in_second t [] = 0
in_second t (x ∷ rest) = (if leb t x && ltb x (t + one_second) then 1 else 0) + in_second t rest

-- `k` of the calls so far were let through in the second from `t` on, the last call came at `last`.
record IsWithin (limit t last k : ℕ) (l : Limiter) : Type 0 where
  budget : l.count ≤ limit
  started : l.window_start ≤ last
  past : last < t → k ≡ 0
  before : l.window_start < t → k ≤ l.count
  inside : l.window_start < t + one_second → k ≤ l.count + limit
  total : k ≤ limit + limit

step-IsWithin :
    (limit t last now k : ℕ) (l : Limiter)
    → IsWithin limit t last k l
    → last ≤ now
    → IsWithin limit t now
        (k
          + (if (check_rate_limit l limit now).0
              then (if leb t now && ltb now (t + one_second) then 1 else 0)
              else 0))
        (check_rate_limit l limit now).1
unfolding check_rate_limit roll
step-IsWithin limit t last now k l h later = record {
  budget = ground (arith, h.budget);
  started = ground (arith, h.started);
  past = λ early. ground (arith, h.past);
  before = λ early. ground (arith, h.past, h.before, h.budget);
  inside = λ early. ground (arith, h.past, h.before, h.inside, h.budget);
  total = ground (arith, h.past, h.before, h.inside, h.total, h.budget, h.started);
}

in_second-IsWithin :
    (limit t last k : ℕ) (l : Limiter) (times : List ℕ)
    → IsWithin limit t last k l
    → IsForward last times
    → k + in_second t (admitted limit l times) ≤ limit + limit
unfolding admitted
in_second-IsWithin limit t last k l [] h forward = omega (arith, h.total)
in_second-IsWithin limit t last k l (now ∷ rest) h (later, forward) =
    let more =
      in_second-IsWithin limit t now
        (k
          + (if (check_rate_limit l limit now).0
              then (if leb t now && ltb now (t + one_second) then 1 else 0)
              else 0))
        (check_rate_limit l limit now).1 rest (step-IsWithin limit t last now k l h later)
        forward in
    ground (arith, more)

-- Calls at times that do not go back, against a new limiter: of those that it lets through, no more
-- than twice the limit fall into any one second, wherever that second begins.
pub check_rate_limit_bound :
    (limit start t : ℕ) (times : List ℕ)
    → IsForward start times
    → in_second t (admitted limit (new_limiter start) times) ≤ 2 * limit
check_rate_limit_bound limit start t times forward =
    let first : IsWithin limit t start 0 (new_limiter start) = record {
      budget = omega arith;
      started = omega arith;
      past = λ early. refl;
      before = λ early. omega arith;
      inside = λ early. omega arith;
      total = omega arith;
    } in
    omega (arith, in_second-IsWithin limit t start 0 (new_limiter start) times first forward)
