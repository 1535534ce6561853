-- ===== src/Zmq/Wakes.antt =====
-- src/zmq.rs: the wake that waits in the channel.
use satya_btc.Common.{ℕ, suc, ◌-◌, ◌≡◌, Bool, true, false, List, [], ◌∷◌, arith, ltb, if◌then◌else◌}
use satya_btc.Zmq.{Channel, Event, block, tick, Session, receive, run_once, spawn_block_listener}
use satya_btc.Zmq.Sleeps.{is_connected}

-- The channel of tokio with capacity 1: a message is dropped where one waits, and taken once.
pub record IsSingle (C : Type 0) ⦃ch : Channel C⦄ : Type 0 where
  pub full :
      (c : C) → ch.len (ch.try_send c) ≡ (if ltb (ch.len c) 1 then suc (ch.len c) else ch.len c)
  pub taken : (c : C) → ch.len (ch.recv c) ≡ ch.len c - 1

-- Whether a wake waits: it does after a block, and does not after the loop has taken it.
abbrev pub waiting : Bool → List Event → Bool
waiting w [] = w
waiting w (block ∷ rest) = waiting true rest
waiting w (tick ∷ rest) = waiting false rest

abbrev pub waiting_after : Bool → List Session → Bool
waiting_after w [] = w
waiting_after w (s ∷ rest) = waiting_after (if is_connected s then waiting w s.events else w) rest

abbrev pub wakes : Bool → ℕ
wakes w = if w then 1 else 0

module _ {C : Type 0} ⦃ch : Channel C⦄ (single : IsSingle C) where
  receive-waiting :
      (events : List Event) (c : C) (w : Bool)
      → ch.len c ≡ wakes w
      → ch.len (receive events c) ≡ wakes (waiting w events)
  unfolding receive
  receive-waiting [] c w h = h
  receive-waiting (block ∷ rest) c w h =
      receive-waiting rest (ch.try_send c) true (ground (arith, single.full c))
  receive-waiting (tick ∷ rest) c w h =
      receive-waiting rest (ch.recv c) false (ground (arith, single.taken c))

  session-waiting :
      (s : Session) (c : C) (w : Bool)
      → ch.len c ≡ wakes w
      → ch.len (run_once s c).1 ≡ wakes (if is_connected s then waiting w s.events else w)
  unfolding run_once
  session-waiting s c w h = ground (arith, receive-waiting s.events c w h)

  -- With a channel of capacity 1 the listener is a flag: whatever the sessions, one wake waits if the
  -- last that happened was a block, none if it was the loop that took it, and never more than one.
  pub listener_wakes :
      (sessions : List Session) (c : C) (backoff : ℕ) (w : Bool)
      → ch.len c ≡ wakes w
      → ch.len (spawn_block_listener sessions c backoff).1 ≡ wakes (waiting_after w sessions)
  unfolding spawn_block_listener
  listener_wakes [] c backoff w h = h
  listener_wakes (s ∷ rest) c backoff w h =
      listener_wakes rest (run_once s c).1 _ _ (session-waiting s c w h)
