-- ===== src/TcpConnection/Run.antt =====
-- A connection's operations as steps, and the runs that they make.
use muzi.Prelude.{ℕ, Bool, true, false, ◌≡◌, List, [], ◌∷◌, ◌++◌, some, if◌then◌else◌}
use muzi.TcpConnection.{
  TcpConnection, Effect, Result, Written, Received, establish_connection, send, send_buffer,
  shut_down, shut_down_in_loop, force_close, destroy_connection, start_read_in_loop,
  stop_read_in_loop, handle_read, handle_write,
}

pub data Op : Type 0 where
  establish shut force destroy start_read stop_read : Op
  send_bytes : List ℕ → List ℕ → Written → Op
  send_stored : List ℕ → Op
  readable : Received → Op
  writable : Written → Op

-- What a connection and its user do, and not its owner.
abbrev pub own : Op → Bool
own establish = false
own destroy = false
own _ = true

-- ShutDown() from the loop's thread.
abbrev pub shut_down_now : TcpConnection → TcpConnection × List Effect
shut_down_now c = let (c', begun) = shut_down c in if begun then shut_down_in_loop c' else (c', [])

unfoldable pub step : Op → TcpConnection → Result
step establish c = establish_connection c
step shut c = some (shut_down_now c)
step force c = force_close c
step destroy c = destroy_connection c
step start_read c = some (start_read_in_loop c, [])
step stop_read c = some (stop_read_in_loop c, [])
step (send_bytes bytes beyond r) c = some (send c bytes beyond r)
step (send_stored buf) c = some (send_buffer c buf)
step (readable r) c = handle_read c r
step (writable r) c = some (handle_write c r)

-- The steps that `ops` make from one connection to another, with their effects.
pub data Run : TcpConnection → List Op → List Effect → TcpConnection → Type 0 where
  done : (c : TcpConnection) → Run c [] [] c
  after :
      {c c₁ c₂ : TcpConnection} {es fs : List Effect} (o : Op) {ops : List Op}
      → step o c ≡ some (c₁, es)
      → Run c₁ ops fs c₂
      → Run c (o ∷ ops) (es ++ fs) c₂
