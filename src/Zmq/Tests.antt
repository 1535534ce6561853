-- ===== src/Zmq/Tests.antt =====
-- The listener of src/zmq.rs over a channel that counts, and the theorems about it at such inputs.
use satya_btc.Common.{ℕ, suc, ◌-◌, ◌≡◌, refl, true, false, [], ◌∷◌, ltb, if◌then◌else◌}
use satya_btc.Zmq.{Channel, Session, block, tick, spawn_block_listener}
use satya_btc.Zmq.Sleeps.{listener_sleeps}
use satya_btc.Zmq.Wakes.{IsSingle, listener_wakes}

-- A channel of capacity 1, as the number of its messages.
instance abbrev slot : Channel ℕ
slot = record { try_send = λ n. if ltb n 1 then suc n else n; recv = λ n. n - 1; len = λ n. n }

slot-IsSingle : IsSingle ℕ
slot-IsSingle = record { full = λ c. refl; taken = λ c. refl }

abbrev unreachable : Session
unreachable = record { connects = false; subscribes = false; events = [] }

abbrev two_blocks : Session
two_blocks = record {
  connects = true;
  subscribes = true;
  events = block ∷ tick ∷ block ∷ block ∷ [];
}

listener_sleeps_example :
    (spawn_block_listener {C = ℕ}
      (unreachable ∷ unreachable ∷ unreachable ∷ two_blocks ∷ unreachable ∷ [])
      0
      1).0
    ≡ 1 ∷ 2 ∷ 4 ∷ 1 ∷ 2 ∷ []
listener_sleeps_example =
    listener_sleeps (unreachable ∷ unreachable ∷ unreachable ∷ two_blocks ∷ unreachable ∷ []) 0

listener_wakes_example : (spawn_block_listener {C = ℕ} (two_blocks ∷ unreachable ∷ []) 0 1).1 ≡ 1
listener_wakes_example = listener_wakes slot-IsSingle (two_blocks ∷ unreachable ∷ []) 0 1 false refl
