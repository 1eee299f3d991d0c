-- ===== src/TcpClient/Examples.antt =====
-- Tests of a client, and its theorems at a concrete run.
use muzi.Prelude.{◌≡◌, refl, Bool, true, false, List, [], ◌∷◌, none, some}
use muzi.Connector.{
  in_progress, connected as connected_state, start, start_in_loop, connect_to, connect_result,
  connecting_to, handle_write, handle_connected, remove_and_reset_channel, reset_channel,
  init as new_connector,
}
use muzi.Connector.Sockets.{step as connector_step}
use muzi.Connector.Calls.{trying}
use muzi.TcpConnection.{
  init as new_connection_object, connected as up, establish_connection, handle_read, handle_close,
  got, disconnected, is, TcpConnection,
}
use muzi.TcpConnection.Run.{readable, step as connection_step}
use muzi.TcpClient.{TcpClient, Attempt, init, new_object, connect, new_connection_in_loop, operate}
use muzi.TcpClient.Run.{Action, call_connect, connected, reset, step, Run, done, after}
use muzi.TcpClient.Safety.{at_number-up}
use muzi.TcpClient.Reconnect.{GoesDown, connect-operate, operate-reconnect, operate-queued}

-- Socket 7 connects at once, and the timer that is not needed is 1.
abbrev first : Attempt
first = record { timer = 1; fd = 7; errno = in_progress }

abbrev second : Attempt
second = record { timer = 2; fd = 8; errno = in_progress }

abbrev established : TcpConnection
unfolding new_connection_object
established = record new_object { state = up; tied = true; reading = true }

-- A client whose first attempt has succeeded, with ResetChannel() queued.
abbrev fresh_client : Bool → TcpClient
unfolding new_connector
fresh_client retry = record (init retry) {
  to_connect = true;
  connector = record (trying 7 new_connector) {
    state = connected_state;
    channel = some (record { fd = 7; in_poller = false });
    new_connection_callback = true;
  };
  resets = 1;
  connection = some 0;
  connections = established ∷ [];
}

abbrev connecting_actions : List Action
connecting_actions = call_connect first ∷ connected first false false ∷ []

fresh_run : (retry : Bool) → Run (init retry) connecting_actions (fresh_client retry)
unfolding init step connect start start_in_loop connect_to connect_result connecting_to handle_write
    handle_connected remove_and_reset_channel connector_step new_connector new_connection_in_loop
    new_connection_object establish_connection
fresh_run retry =
    after (call_connect first) refl refl (after (connected first false false) refl refl (done _))

abbrev ready_client : Bool → TcpClient
ready_client retry = record (fresh_client retry) {
  connector = record (fresh_client retry).connector { channel = none };
  resets = 0;
}

abbrev ready_actions : List Action
ready_actions = call_connect first ∷ connected first false false ∷ reset ∷ []

ready_run : (retry : Bool) → Run (init retry) ready_actions (ready_client retry)
unfolding init step connect start start_in_loop connect_to connect_result connecting_to handle_write
    handle_connected remove_and_reset_channel connector_step new_connector new_connection_in_loop
    new_connection_object establish_connection reset_channel
ready_run retry =
    after (call_connect first) refl refl
      (after (connected first false false) refl refl (after reset refl refl (done _)))

-- The peer closes the connection.
closing : (retry : Bool) → GoesDown (readable (got [])) 0 (ready_client retry)
unfolding init new_connection_object connection_step handle_read handle_close fresh_client
closing retry = (established, _, _, refl, refl, refl, refl)

closing_fresh : GoesDown (readable (got [])) 0 (fresh_client true)
unfolding init new_connection_object connection_step handle_read handle_close fresh_client
closing_fresh = (established, _, _, refl, refl, refl, refl)

at_number-up_example : (is established disconnected ≡ false) × (established.in_poller ≡ true)
unfolding init new_connection_object fresh_client established
at_number-up_example = at_number-up true 0 (fresh_run true) refl

connect-operate_example :
    (s' : TcpClient) × (operate first (readable (got [])) 0 (ready_client false) ≡ some s')
    × (s'.connection ≡ none)
    × (connect second s'
        ≡ some
            (record s' { to_connect = true; connector = record s'.connector { connect = true } }))
unfolding init fresh_client
connect-operate_example =
    connect-operate false first second (readable (got [])) 0 (ready_run false) (closing false) refl

operate-reconnect_example :
    (s' : TcpClient) × (operate second (readable (got [])) 0 (ready_client true) ≡ some s')
    × (s'.connection ≡ none)
    × (s'.connector ≡ trying 8 (ready_client true).connector)
unfolding init fresh_client
operate-reconnect_example =
    operate-reconnect true 2 8 (readable (got [])) 0 (ready_run true) (closing true) refl refl refl

operate-queued_example : operate second (readable (got [])) 0 (fresh_client true) ≡ none
unfolding init fresh_client
operate-queued_example =
    operate-queued true 2 8 (readable (got [])) 0 (fresh_run true) closing_fresh refl refl refl
