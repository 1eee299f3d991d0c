-- ===== src/Connector/Examples.antt =====
-- Tests of the connector, and its theorems at concrete connectors.
use muzi.Prelude.{◌+◌, ◌≡◌, refl, true, false, [], ◌∷◌, some}
use muzi.Connector.{
  Connector, connecting, close, run_after, queue_reset_channel, in_progress, init, retry,
  connecting_to, connect_result, connect_to, start_in_loop, start, handle_write, handle_connected,
  remove_and_reset_channel,
}
use muzi.Connector.Sockets.{write_op, step, sound, held, made, released, step_lem}

abbrev idle : Connector
idle = record init { connect = true; new_connection_callback = true }

-- A connector that waits for the socket 8.
abbrev waiting : Connector
waiting = record idle { state = connecting; channel = some (record { fd = 8; in_poller = true }) }

abbrev after_refusal : Connector
after_refusal = record idle {
  retry_delay = 1000;
  timer_id = some 3;
  channel = some (record { fd = 8; in_poller = false });
}

start-idle : start 3 8 in_progress idle ≡ some (waiting, [])
unfolding start start_in_loop connect_to connect_result connecting_to init
start-idle = refl

step_example :
    (sound after_refusal ≡ true)
    × (held 8 waiting + made 8 9 (write_op true false) waiting
        ≡ released 8 (queue_reset_channel ∷ close 8 ∷ run_after 500 ∷ []) + held 8 after_refusal)
unfolding step handle_write handle_connected remove_and_reset_channel retry init
step_example = step_lem 8 3 9 (write_op true false) waiting refl refl refl
