-- ===== src/Tests/Listeners.antt =====
-- The results about the server's loop and `Close`, at a server with one and with two connections.
use suffren.Base.{ℕ, ◌≡◌, refl, true, false, write, arith, [], ◌∷◌, All}
use suffren.P2p.Listener.{
  spawned, registered, unregistered, returned, accepting, handing_on, left, failed, at_connections,
  closed, Server, listen, delete, Steps, begin, then_step, accepts, hands_on, leaves, registers,
  unregisters, returns, begins_close, closes_listener, locks, closes_connection, fails_connection,
  unlocks, waits,
}
use suffren.P2p.Listener.Shut.{close-closes}
use suffren.P2p.Listener.Locked.{fails_connection-stays}

-- A connection is registered before `Close` comes to its loop and unregistered after it.
abbrev one_shut : Server
one_shut = record listen {
  stages =
      write (write (write (write listen.stages 0 spawned) 0 registered) 0 unregistered) 0 returned;
  is_open = write (write (write listen.is_open 0 true) 0 false) 0 false;
  next = 1;
  loop = left;
  listening = false;
  done = true;
  wg = 0;
  closing = closed;
}

one_connection : Steps listen one_shut
unfolding write delete
one_connection =
    then_step
      (then_step
        (then_step
          (then_step
            (then_step
              (then_step
                (then_step
                  (then_step
                    (then_step
                      (then_step (then_step (then_step begin (accepts refl refl)) (hands_on refl))
                        (registers 0 (omega arith) refl refl))
                      (begins_close refl))
                    (closes_listener refl))
                  (leaves refl refl))
                (locks refl refl))
              (closes_connection [] 0 [] refl))
            (unlocks refl))
          (unregisters 0 (omega arith) refl refl))
        (returns 0 (omega arith) refl))
      (waits refl refl)

close-closes_example :
    (one_shut.closing ≡ at_connections []
      → (one_shut.listening ≡ false)
        × All (λ i. one_shut.is_open i ≡ false) one_shut.active_connections)
    × (one_shut.closing ≡ closed
        → (one_shut.listening ≡ false)
          × (one_shut.loop ≡ left)
          × (one_shut.active_connections ≡ [])
          × ((i : ℕ) → (one_shut.stages i ≡ returned) × (one_shut.is_open i ≡ false)))
close-closes_example = close-closes one_shut one_connection

-- Two connections are registered and `Close` is at them; a third has been accepted.
abbrev two_served : Server
two_served = record listen {
  stages =
      write (write (write (write listen.stages 0 spawned) 0 registered) 1 spawned) 1 registered;
  is_open = write (write listen.is_open 0 true) 1 true;
  active_connections = 1 ∷ 0 ∷ [];
  next = 2;
  loop = handing_on;
  listening = false;
  done = true;
  locked = true;
  wg = 3;
  closing = at_connections (1 ∷ 0 ∷ []);
}

two_connections : Steps listen two_served
unfolding write
two_connections =
    then_step
      (then_step
        (then_step
          (then_step
            (then_step
              (then_step
                (then_step
                  (then_step (then_step (then_step begin (accepts refl refl)) (hands_on refl))
                    (registers 0 (omega arith) refl refl))
                  (accepts refl refl))
                (hands_on refl))
              (registers 1 (omega arith) refl refl))
            (accepts refl refl))
          (begins_close refl))
        (closes_listener refl))
      (locks refl refl)

zero_serves : two_served.stages 0 ≡ registered
unfolding write
zero_serves = refl

-- The first connection that the loop takes gives an error; then the third is handed on.
abbrev two_stopped : Server
two_stopped = record two_served { closing = failed }

abbrev three_accepted : Server
three_accepted = record two_stopped {
  stages = write two_stopped.stages 2 spawned;
  is_open = write two_stopped.is_open 2 true;
  next = 3;
  loop = accepting;
  wg = 4;
}

fails_connection-stays_example :
    (three_accepted.locked ≡ true)
    × (three_accepted.closing ≡ failed)
    × (three_accepted.stages 0 ≡ registered)
fails_connection-stays_example =
    fails_connection-stays 0 (1 ∷ 0 ∷ []) two_served two_stopped three_accepted two_connections refl
      zero_serves (fails_connection [] 1 (0 ∷ []) refl) refl (then_step begin (hands_on refl))
