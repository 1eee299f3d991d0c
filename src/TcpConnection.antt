-- ===== src/TcpConnection.antt =====
-- muzi/net/tcp_connection.h and tcp_connection.cc: one TCP connection, its two buffers and its
-- state. A buffer is the list of bytes that it holds (ChainBuffer has its operations in full). A
-- system call's result is an argument. The calls that leave the object (callbacks, bytes handed to
-- the kernel, the shutdown of the socket) are listed as effects, in order; a callback is taken to
-- return before the connection is used again. Every function runs in the loop's thread, and `none`
-- is a failed assertion.
pub mod Stream
pub mod Run
pub mod Lifecycle
pub mod Owner
pub mod Accepted
mod Examples
use muzi.Prelude.{
  ℕ, ◌+◌, ◌-◌, ◌*◌, Bool, true, false, not, ◌&&◌, ◌||◌, List, [], ◌∷◌, ◌++◌, Option, none, some,
  length, take, drop, ltb, leb, ◌==◌, if◌then◌else◌, is_empty,
}

pub data ConnectionState : Type 0 where
  connecting connected disconnected disconnecting : ConnectionState

abbrev pub same_state : ConnectionState → ConnectionState → Bool
same_state connecting connecting = true
same_state connected connected = true
same_state disconnected disconnected = true
same_state disconnecting disconnecting = true
same_state _ _ = false

-- `writing` and `reading` are channel_->IsWritting() and IsReading(); `in_poller` says that
-- channel_->Remove() has not been called. The Booleans at the end say which callbacks are set.
pub record TcpConnection : Type 0 where
  pub state : ConnectionState
  pub writing : Bool
  pub reading : Bool
  pub in_poller : Bool
  pub tied : Bool
  pub high_water_mark : ℕ
  pub is_reading : Bool
  pub input_buffer : List ℕ
  pub output_buffer : List ℕ
  pub connection_callback : Bool
  pub close_callback : Bool
  pub message_callback : Bool
  pub write_complete_callback : Bool
  pub high_water_callback : Bool

pub data Effect : Type 0 where
  connection close message write_complete : Effect
  high_water : ℕ → Effect
  wrote : List ℕ → Effect
  shut_down_on_write : Effect

-- The result of write(2) and writev(2), and of read(2) and readv(2) with the bytes read.
pub data Written : Type 0 where
  done : ℕ → Written
  failed : Written

pub data Received : Type 0 where
  got : List ℕ → Received
  failed : Received

abbrev pub Result : Type 0
Result = Option (TcpConnection × List Effect)

-- kHighWaterMark
abbrev pub high_water_mark : ℕ
high_water_mark = 64 * 1024 * 1024

-- TcpConnection::TcpConnection; the owner sets the callbacks behind it.
unfoldable pub init : TcpConnection
init = record {
  state = connecting;
  writing = false;
  reading = false;
  in_poller = true;
  tied = false;
  high_water_mark = high_water_mark;
  is_reading = true;
  input_buffer = [];
  output_buffer = [];
  connection_callback = false;
  close_callback = false;
  message_callback = false;
  write_complete_callback = false;
  high_water_callback = false;
}

abbrev pub when : Bool → Effect → List Effect
when b e = if b then e ∷ [] else []

abbrev pub is : TcpConnection → ConnectionState → Bool
is c s = same_state c.state s

unfoldable pub handle_close : TcpConnection → Result
handle_close c =
    if is c connected || is c disconnecting
    then some (
      record c { state = disconnected; writing = false; reading = false },
      connection ∷ close ∷ [],
    )
    else none

pub force_close_in_loop : TcpConnection → Result
force_close_in_loop c =
    if is c connected || is c disconnecting then handle_close c else some (c, [])

pub shut_down_in_loop : TcpConnection → TcpConnection × List Effect
shut_down_in_loop c = (c, when (not c.writing) shut_down_on_write)

-- ShutDown(): the exchange of the state, and whether ShutDownInLoop() is to run.
pub shut_down : TcpConnection → TcpConnection × Bool
shut_down c = if is c connected then (record c { state = disconnecting }, true) else (c, false)

-- Whether an output buffer of `old` bytes reaches the mark with `more` bytes.
abbrev pub reaches_mark : TcpConnection → ℕ → ℕ → Bool
reaches_mark c old more =
    leb c.high_water_mark (more + old) && (ltb old c.high_water_mark && c.high_water_callback)

-- SendInLoop(const Buffer &)
pub send_buffer_in_loop : TcpConnection → List ℕ → TcpConnection × List Effect
send_buffer_in_loop c buf =
    if is c disconnected
    then (c, [])
    else let old = length c.output_buffer in
      (
        record c { output_buffer = c.output_buffer ++ buf; writing = true },
        when (reaches_mark c old (length buf)) (high_water (old + length buf)),
      )

-- `!channel_->IsWritting() && ouput_buffer_.ReadableBytes() == 0`
abbrev pub writes_directly : TcpConnection → Bool
writes_directly c = not c.writing && is_empty c.output_buffer

-- How many bytes the direct write takes: none unless write(2) returns a positive number.
abbrev pub taken : Bool → Written → ℕ
taken true (done n) = n
taken _ _ = 0

-- The part of SendInLoop() behind the direct write of `written` bytes. `beyond` are the bytes that
-- lie behind `bytes` in memory: the source appends `len` bytes from `first + written` on.
pub send_remaining : TcpConnection → List ℕ → List ℕ → ℕ → TcpConnection × List Effect
send_remaining c bytes beyond written =
    let len = length bytes in
    let remaining = len - written in
    let old = length c.output_buffer in
    if ltb 0 remaining
    then (
      record c {
        output_buffer = c.output_buffer ++ take len (drop written (bytes ++ beyond));
        writing = true;
      },
      when (reaches_mark c old remaining) (high_water (old + remaining)),
    )
    else (c, [])

-- SendInLoop(const void *, size_t), with the result of write(2) if it is called.
pub send_in_loop : TcpConnection → List ℕ → List ℕ → Written → TcpConnection × List Effect
send_in_loop c bytes beyond result =
    let written = taken (writes_directly c) result in
    let (c', later) = send_remaining c bytes beyond written in
    if is c disconnected then (c, []) else (
      c',
      (if ltb 0 written then wrote (take written bytes) ∷ [] else [])
          ++ (when (ltb 0 written && (length bytes - written == 0 && c.write_complete_callback))
                write_complete
              ++ later),
    )

-- Send(), Send(Buffer &) and ForceClose() from the loop's thread.
pub send : TcpConnection → List ℕ → List ℕ → Written → TcpConnection × List Effect
send c bytes beyond result = if is c connected then send_in_loop c bytes beyond result else (c, [])

pub send_buffer : TcpConnection → List ℕ → TcpConnection × List Effect
send_buffer c buf = if is c connected then send_buffer_in_loop c buf else (c, [])

pub force_close : TcpConnection → Result
force_close c = if is c connected || is c disconnecting then force_close_in_loop c else some (c, [])

unfoldable pub establish_connection : TcpConnection → Result
establish_connection c =
    if c.close_callback && (c.connection_callback && is c connecting)
    then some (record c { state = connected; tied = true; reading = true }, connection ∷ [])
    else none

-- The channel is removed: it may want no events and must still be in the poller.
abbrev pub drop_channel : TcpConnection → Result
drop_channel c =
    if not c.writing && (not c.reading && c.in_poller)
    then some (record c { in_poller = false }, [])
    else none

unfoldable pub destroy_connection : TcpConnection → Result
destroy_connection c =
    if is c disconnected
    then drop_channel c
    else drop_channel (record c { state = disconnected; writing = false; reading = false })

pub start_read_in_loop : TcpConnection → TcpConnection
start_read_in_loop c =
    if (not c.is_reading || not c.reading) && (not (is c connecting) && not (is c disconnected))
    then record c { reading = true; is_reading = true }
    else c

pub stop_read_in_loop : TcpConnection → TcpConnection
stop_read_in_loop c =
    if (c.is_reading || c.reading) && not (is c disconnected)
    then record c { reading = false; is_reading = false }
    else c

unfoldable pub handle_read : TcpConnection → Received → Result
handle_read c failed = some (c, [])
handle_read c (got []) = handle_close c
handle_read c (got (x ∷ xs)) =
    some (record c { input_buffer = c.input_buffer ++ x ∷ xs }, when c.message_callback message)

-- The part of HandleWrite() behind a WriteFd() that has taken `n` bytes.
pub after_write : TcpConnection → ℕ → TcpConnection × List Effect
after_write c n =
    let rest = drop n c.output_buffer in
    let emptied = record c { output_buffer = rest; writing = false } in
    if is_empty rest
    then (
      emptied,
      when c.write_complete_callback write_complete
          ++ (if is c disconnecting then (shut_down_in_loop emptied).1 else []),
    )
    else (record c { output_buffer = rest }, [])

pub handle_write : TcpConnection → Written → TcpConnection × List Effect
handle_write c failed = (c, [])
handle_write c (done n) =
    let (c', later) = after_write c n in
    if c.writing then (c', wrote (take n c.output_buffer) ∷ later) else (c, [])
