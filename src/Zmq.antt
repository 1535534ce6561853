-- ===== src/Zmq.antt =====
-- src/zmq.rs, the listener for blocks. A session's answers from the zeromq crate are an input: whether
-- it connects and subscribes, and what happens until a receive fails or the stream ends. The channel of
-- the tokio crate is an interface. Durations are in seconds; log lines are left out.
pub mod Sleeps
pub mod Wakes
mod Tests
use satya_btc.Common.{ℕ, ◌*◌, Bool, true, false, Option, List, [], ◌∷◌, min, if◌then◌else◌}

abbrev pub backoff_start : ℕ
backoff_start = 1

abbrev pub backoff_max : ℕ
backoff_max = 30

-- `try_send(())` of the sender, `recv()` of the receiver, and how many messages wait.
pub record Channel (C : Type 0) : Type 0 where
  pub try_send : C → C
  pub recv : C → C
  pub len : C → ℕ

-- A message arrives, or the loop of `run` takes the wake.
pub data Event : Type 0 where
  block : Event
  tick : Event

pub record Session : Type 0 where
  pub connects : Bool
  pub subscribes : Bool
  pub events : List Event

module _ {C : Type 0} ⦃ch : Channel C⦄ where
  unfoldable pub receive : List Event → C → C
  receive [] c = c
  receive (block ∷ rest) c = receive rest (ch.try_send c)
  receive (tick ∷ rest) c = receive rest (ch.recv c)

  -- `connected`, and the channel.
  unfoldable pub run_once : Session → C → Bool × C
  unfolding receive
  run_once s c =
      if s.connects
      then (if s.subscribes then (true, receive s.events c) else (false, c))
      else (false, c)

  -- The sleeps that follow the sessions, and the channel.
  unfoldable pub spawn_block_listener : List Session → C → ℕ → List ℕ × C
  unfolding run_once
  spawn_block_listener [] c backoff = ([], c)
  spawn_block_listener (s ∷ rest) c backoff =
      let (connected, c') = run_once s c in
      let sleep = if connected then backoff_start else backoff in
      let (sleeps, c'') = spawn_block_listener rest c' (min (sleep * 2) backoff_max) in
      (sleep ∷ sleeps, c'')
