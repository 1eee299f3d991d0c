-- ===== src/TcpConnection/Examples.antt =====
-- Tests of the connection, and its theorems at concrete connections.
use muzi.Prelude.{◌+◌, ◌≤◌, ◌≡◌, refl, true, false, List, [], ◌∷◌, ◌++◌, inr, arith}
use muzi.TcpConnection.{
  TcpConnection, connected, disconnected, disconnecting, Effect, connection, close, write_complete,
  wrote, shut_down_on_write, done as sent, got, init, establish_connection, send, send_in_loop,
  send_remaining, send_buffer, send_buffer_in_loop, shut_down, shut_down_in_loop, handle_close,
  handle_read, handle_write, after_write,
}
use muzi.TcpConnection.Stream.{kernel_bytes, send_in_loop_lem}
use muzi.TcpConnection.Run.{
  Op, establish, shut, send_bytes, send_stored, readable, writable, step, Run, done, after,
}
use muzi.TcpConnection.Lifecycle.{closes, down, sound, closes-down, Run-sound, shut_downs-output}
use muzi.TcpConnection.Accepted.{accepted, kernel_bytes-accepted}

abbrev fresh : TcpConnection
fresh = record init {
  connection_callback = true;
  close_callback = true;
  message_callback = true;
  write_complete_callback = true;
}

abbrev up : TcpConnection
up = record fresh { state = connected; tied = true; reading = true }

-- Bytes are sent, some wait, and the connection is shut down before they are out.
abbrev ops : List Op
ops =
    establish
    ∷ send_bytes (1 ∷ 2 ∷ []) [] (sent 2)
    ∷ send_stored (3 ∷ 4 ∷ [])
    ∷ shut
    ∷ writable (sent 1)
    ∷ writable (sent 1)
    ∷ readable (got [])
    ∷ []

abbrev ops_effects : List Effect
ops_effects =
    connection
    ∷ wrote (1 ∷ 2 ∷ [])
    ∷ write_complete
    ∷ wrote (3 ∷ [])
    ∷ wrote (4 ∷ [])
    ∷ write_complete
    ∷ shut_down_on_write
    ∷ connection
    ∷ close
    ∷ []

abbrev at_end : TcpConnection
at_end = record up { state = disconnected; reading = false }

Run-example : Run fresh ops ops_effects at_end
unfolding init step establish_connection send send_in_loop send_remaining send_buffer
    send_buffer_in_loop shut_down shut_down_in_loop handle_write after_write handle_read
    handle_close
Run-example = after establish refl (
    after (send_bytes (1 ∷ 2 ∷ []) [] (sent 2)) refl (
      after (send_stored (3 ∷ 4 ∷ [])) refl (
        after shut refl (
          after (writable (sent 1)) refl
            (after (writable (sent 1)) refl (after (readable (got [])) refl (done at_end)))))))

closes-down_example : closes ops_effects + down fresh ≤ down at_end
closes-down_example = closes-down Run-example

Run-sound_example : sound at_end ≡ true
unfolding init
Run-sound_example = Run-sound Run-example refl

kernel_bytes-accepted_example :
    kernel_bytes ops_effects ++ at_end.output_buffer ≡ fresh.output_buffer ++ accepted ops fresh
unfolding init step establish_connection send send_in_loop send_remaining send_buffer
    send_buffer_in_loop shut_down shut_down_in_loop handle_write after_write handle_read
    handle_close
kernel_bytes-accepted_example =
    kernel_bytes-accepted Run-example (tt, (inr refl, (tt, (tt, (tt, (tt, (tt, tt)))))))

abbrev closing : TcpConnection
closing = record up { state = disconnecting; writing = true; output_buffer = 7 ∷ [] }

shut_downs-output_example :
    let (c, es) = handle_write closing (sent 1) in (c.output_buffer ≡ []) × (c.writing ≡ false)
unfolding init step handle_write after_write shut_down_in_loop
shut_downs-output_example = shut_downs-output (writable (sent 1)) closing refl refl (omega arith)

-- write(2) takes two bytes of three; `9` and `8` lie behind them in memory.
send_in_loop-partial :
    (send_in_loop up (1 ∷ 2 ∷ 3 ∷ []) (9 ∷ 8 ∷ 7 ∷ []) (sent 2)).0.output_buffer ≡ 3 ∷ 9 ∷ 8 ∷ []
unfolding send_in_loop send_remaining init
send_in_loop-partial = refl

send_in_loop_example :
    let (c, es) = send_in_loop up (1 ∷ 2 ∷ 3 ∷ []) (9 ∷ 8 ∷ 7 ∷ []) (sent 2) in
    kernel_bytes es ++ c.output_buffer ≡ 1 ∷ 2 ∷ 3 ∷ 9 ∷ 8 ∷ []
unfolding init
send_in_loop_example =
    send_in_loop_lem up (1 ∷ 2 ∷ 3 ∷ []) (9 ∷ 8 ∷ 7 ∷ []) (sent 2) (λ e. cc) (omega arith)
