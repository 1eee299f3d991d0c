-- ===== src/TcpConnection/Owner.antt =====
-- What the owner of a connection relies on: when the connection calls back, and that the calls of
-- the owner do not fail.
use muzi.Prelude.{
  ◌+◌, ◌≡◌, refl, Bool, true, false, not, ◌&&◌, [], ◌∷◌, none, some, arith, ◌==◌, if◌then◌else◌,
}
use muzi.TcpConnection.{
  TcpConnection, connecting, disconnected, Result, got, failed, is, done as sent,
  establish_connection, destroy_connection, handle_close, force_close_in_loop, shut_down_in_loop,
  shut_down, send_buffer_in_loop, send_remaining, send_in_loop, send, send_buffer, force_close,
  start_read_in_loop, stop_read_in_loop, handle_read, after_write, handle_write,
}
use muzi.TcpConnection.Run.{
  Op, establish, shut, force, destroy, start_read, stop_read, send_bytes, send_stored, readable,
  writable, own, step,
}
use muzi.TcpConnection.Lifecycle.{closes, down, sound}

-- The owner has set its callbacks.
abbrev pub owned : TcpConnection → Bool
owned c = c.close_callback && (c.connection_callback && sound c)

abbrev pub same : Bool → Bool → Bool
same a b = if a then b else not b

-- A step of the connection: it calls back exactly when it goes down, and stays in the poller.
abbrev pub serves : TcpConnection → Result → Bool
serves c none = true
serves c (some (c', es)) =
    owned c'
    && (same (is c' connecting) (is c connecting)
        && (same c'.in_poller c.in_poller && (closes es + down c == down c')))

pub own-step-serves :
    (o : Op) (c : TcpConnection) → own o ≡ true → owned c ≡ true → serves c (step o c) ≡ true
unfolding step shut_down shut_down_in_loop force_close force_close_in_loop handle_close
    start_read_in_loop stop_read_in_loop send send_in_loop send_remaining send_buffer
    send_buffer_in_loop handle_read handle_write after_write
own-step-serves establish c w h = cc
own-step-serves destroy c w h = cc
own-step-serves shut c w h = ground (arith, h)
own-step-serves force c w h = ground (arith, h)
own-step-serves start_read c w h = ground (arith, h)
own-step-serves stop_read c w h = ground (arith, h)
own-step-serves (send_bytes bytes beyond r) c w h = ground (arith, h)
own-step-serves (send_stored buf) c w h = ground (arith, h)
own-step-serves (readable failed) c w h = ground (arith, h)
own-step-serves (readable (got [])) c w h = ground (arith, h)
own-step-serves (readable (got (b ∷ bs))) c w h = ground (arith, h)
own-step-serves (writable failed) c w h = ground (arith, h)
own-step-serves (writable (sent n)) c w h = ground (arith, h)

-- The first call of the owner.
abbrev pub established : TcpConnection → Result → Bool
established c none = false
established c (some (c', es)) =
    owned c'
    && (not (is c' connecting)
        && (same c'.in_poller c.in_poller && ((closes es == 0) && (down c' == 0))))

pub establish_connection_lem :
    (c : TcpConnection)
    → owned c ≡ true
    → is c connecting ≡ true
    → established c (establish_connection c) ≡ true
unfolding establish_connection
establish_connection_lem c h k = ground (arith, h, k)

-- The last call of the owner, of a connection that is down.
abbrev pub destroyed : TcpConnection → Result → Bool
destroyed c none = false
destroyed c (some (c', es)) =
    owned c'
    && (not (is c' connecting) && (not c'.in_poller && ((closes es == 0) && (down c' == 1))))

pub destroy_connection_lem :
    (c : TcpConnection)
    → owned c ≡ true
    → is c disconnected ≡ true
    → c.in_poller ≡ true
    → destroyed c (destroy_connection c) ≡ true
unfolding destroy_connection
destroy_connection_lem c h k p = ground (arith, h, k, p)

-- ShutDown() neither calls back nor takes the connection out of the poller.
abbrev pub shut_off : TcpConnection → Result → Bool
shut_off c none = false
shut_off c (some (c', es)) =
    owned c'
    && (same (is c' connecting) (is c connecting)
        && (same c'.in_poller c.in_poller && (down c' == down c)))

pub shut_lem : (c : TcpConnection) → owned c ≡ true → shut_off c (step shut c) ≡ true
unfolding step shut_down shut_down_in_loop
shut_lem c h = ground (arith, h)

abbrev pub is_some : Result → Bool
is_some none = false
is_some (some r) = true

-- The events of the poller and the calls of the user, where no assertion fails.
abbrev pub runs_on : Op → TcpConnection → Bool
runs_on (readable r) c = not (is c disconnected)
runs_on (writable r) c = not (is c disconnected)
runs_on o c = own o

-- A connection that is established fails no assertion.
pub own-step-runs :
    (o : Op) (c : TcpConnection)
    → runs_on o c ≡ true
    → is c connecting ≡ false
    → is_some (step o c) ≡ true
unfolding step force_close force_close_in_loop handle_close handle_read
own-step-runs establish c w h = cc
own-step-runs destroy c w h = cc
own-step-runs shut c w h = refl
own-step-runs force c w h = ground arith
own-step-runs start_read c w h = refl
own-step-runs stop_read c w h = refl
own-step-runs (send_bytes bytes beyond r) c w h = refl
own-step-runs (send_stored buf) c w h = refl
own-step-runs (readable failed) c w h = refl
own-step-runs (readable (got [])) c w h = ground arith
own-step-runs (readable (got (b ∷ bs))) c w h = refl
own-step-runs (writable r) c w h = refl

pub runs_on-own : (o : Op) (c : TcpConnection) → runs_on o c ≡ true → own o ≡ true
runs_on-own (readable r) c h = refl
runs_on-own (writable r) c h = refl
runs_on-own establish c h = h
runs_on-own destroy c h = h
runs_on-own shut c h = h
runs_on-own force c h = h
runs_on-own start_read c h = h
runs_on-own stop_read c h = h
runs_on-own (send_bytes bytes beyond r) c h = h
runs_on-own (send_stored buf) c h = h
