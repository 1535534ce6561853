-- ===== src/Zmq/Sleeps.antt =====
-- src/zmq.rs: how long the listener sleeps between its sessions.
use satya_btc.Common.{
  ℕ, suc, ◌*◌, ◌^◌, ◌≡◌, refl, Bool, true, false, List, [], ◌∷◌, arith, min, if◌then◌else◌,
}
use satya_btc.Zmq.{Channel, Session, run_once, spawn_block_listener, backoff_start, backoff_max}

-- The session gets as far as its receive loop.
abbrev pub is_connected : Session → Bool
is_connected s = elim s.connects [ true ↦ s.subscribes | false ↦ false ]

-- The sleeps: seconds, doubled with each session that does not connect. `k` counts the sessions since the
-- last that connected, that one too.
abbrev pub backoffs : ℕ → List Session → List ℕ
backoffs k [] = []
backoffs k (s ∷ rest) =
    let failed = if is_connected s then 0 else k in min (2 ^ failed) 30 ∷ backoffs (suc failed) rest

doubled : (k b : ℕ) → b ≡ min (2 ^ k) 30 → min (b * 2) backoff_max ≡ min (2 ^ suc k) 30
doubled k b h = omega (arith, h)

slept :
    (t u : Bool) (k b : ℕ)
    → t ≡ u
    → b ≡ min (2 ^ k) 30
    → (if t then backoff_start else b) ≡ min (2 ^ (if u then 0 else k)) 30
slept t true k b e h = ground (arith, e)
slept t false k b e h = ground (arith, e, h)

module _ {C : Type 0} ⦃ch : Channel C⦄ where
  run_once-connected : (s : Session) (c : C) → (run_once s c).0 ≡ is_connected s
  unfolding run_once
  run_once-connected s c = ground arith

  sleeps_from :
      (sessions : List Session) (c : C) (k b : ℕ)
      → b ≡ min (2 ^ k) 30
      → (spawn_block_listener sessions c b).0 ≡ backoffs k sessions
  unfolding spawn_block_listener
  sleeps_from [] c k b h = refl
  sleeps_from (s ∷ rest) c k b h =
      let failed = if is_connected s then 0 else k in
      let sleep = if (run_once s c).0 then backoff_start else b in
      let same : sleep ≡ min (2 ^ failed) 30 =
        slept _ (is_connected s) k b (run_once-connected s c) h in
      let later =
        sleeps_from rest (run_once s c).1 (suc failed) (min (sleep * 2) backoff_max)
          (doubled failed sleep same) in
      cc

  -- The sleep after a session is min(2^k, 30) seconds. After one that connects k is 0; after another k
  -- counts the sessions before it back to the last that connected, that one counted too, or all before
  -- it if none connected.
  pub listener_sleeps :
      (sessions : List Session) (c : C)
      → (spawn_block_listener sessions c backoff_start).0 ≡ backoffs 0 sessions
  listener_sleeps sessions c = sleeps_from sessions c 0 backoff_start (omega arith)
