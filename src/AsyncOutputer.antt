-- ===== src/AsyncOutputer.antt =====
-- muzi/base/async_outputer.h and async_outputer.cc: log lines that any thread hands over and one
-- thread writes to the file. The threads take turns: a call of Output() or Flush() is one action
-- under mutex_, and the writing thread's loop is one action at each of the places of Phase. `none`
-- is an action for which the thread is elsewhere, or the use of a null pointer. A null pointer that
-- is put into a vector fails there, not when the buffer is written.
pub mod Run
pub mod Buffers
pub mod Progress
pub mod Order
pub mod Stop
pub mod Ending
mod Examples
use mathlib.Core.Option.{map as map_option}
use muzi.Prelude.{
  ℕ, suc, ◌+◌, ◌-◌, ◌*◌, Bool, true, false, not, ◌&&◌, ◌||◌, List, [], ◌∷◌, ◌++◌, Option, none,
  some, length, take, ltb, if◌then◌else◌, is_empty,
}
use muzi.FixedBuffer.{FixedBuffer, init as new_buffer, clear, get_avail, append}
use muzi.LogStream.{small_buff_size}

-- config::kLargeBuffSize
abbrev pub large_buff_size : ℕ
large_buff_size = 4096 * 1000

-- Where the writing thread stands in Run(): not started, at the test of the loop, before the lock,
-- in WaitForSeconds(), behind the lock with the buffers to write, and behind the loop.
pub data Phase : Type 0 where
  idle testing locking waiting writing ended : Phase

-- A unique_ptr is an Option. `accepted` records the bytes handed over, `written` the ones in the
-- file, `dropped` the number of buffers thrown away, and `promised` how many bytes had been handed
-- over when Stop() was called.
pub record AsyncOutputer : Type 0 where
  pub phase : Phase
  pub running : Bool
  pub last_write : Bool
  pub current_buffer : Option FixedBuffer
  pub next_buffer : Option FixedBuffer
  pub buffers : List FixedBuffer
  pub new_buffer1 : Option FixedBuffer
  pub new_buffer2 : Option FixedBuffer
  pub buffers_to_write : List FixedBuffer
  pub accepted : List ℕ
  pub written : List ℕ
  pub dropped : ℕ
  pub promised : ℕ

-- AsyncOutputer(), and the locals of Run().
unfoldable pub init : AsyncOutputer
unfolding new_buffer
init = record {
  phase = idle;
  running = false;
  last_write = true;
  current_buffer = some new_buffer;
  next_buffer = some new_buffer;
  buffers = [];
  new_buffer1 = some new_buffer;
  new_buffer2 = some new_buffer;
  buffers_to_write = [];
  accepted = [];
  written = [];
  dropped = 0;
  promised = 0;
}

abbrev pub same_phase : Phase → Phase → Bool
same_phase idle idle = true
same_phase testing testing = true
same_phase locking locking = true
same_phase waiting waiting = true
same_phase writing writing = true
same_phase ended ended = true
same_phase _ _ = false

abbrev pub at : AsyncOutputer → Phase → Bool
at s p = same_phase s.phase p

abbrev pub only : Bool → Option AsyncOutputer → Option AsyncOutputer
only b r = if b then r else none

abbrev pub present : Option FixedBuffer → Bool
present none = false
present (some b) = true

abbrev pub or_new : Option FixedBuffer → FixedBuffer
or_new none = new_buffer
or_new (some b) = b

-- Start(), and Stop() up to Join().
pub start : AsyncOutputer → Option AsyncOutputer
start s = only (at s idle) (some (record s { running = true; phase = testing }))

pub stop : AsyncOutputer → Option AsyncOutputer
stop s = only (not (at s idle)) (
    some (record s {
      running = false;
      promised = if s.running then length s.accepted else s.promised;
    }))

-- The current buffer goes to the full ones, and the next one or a new one takes its place.
abbrev pub replace_with : FixedBuffer → FixedBuffer → AsyncOutputer → AsyncOutputer
replace_with b new s = record s {
  buffers = s.buffers ++ b ∷ [];
  current_buffer = some new;
  next_buffer = none;
}

abbrev pub flush_from : Option FixedBuffer → AsyncOutputer → Option AsyncOutputer
flush_from none s = none
flush_from (some b) s = some (replace_with b (or_new s.next_buffer) s)

pub flush : AsyncOutputer → Option AsyncOutputer
flush s = flush_from s.current_buffer s

abbrev pub output_to : List ℕ → Option FixedBuffer → AsyncOutputer → Option AsyncOutputer
output_to msg none s = none
output_to msg (some b) s =
    let s' = record s { accepted = s.accepted ++ msg } in
    if ltb (get_avail large_buff_size b) (length msg)
    then map_option (λ new. replace_with b new s')
        (append large_buff_size (or_new s.next_buffer) msg)
    else map_option (λ b'. record s' { current_buffer = some b' }) (append large_buff_size b msg)

-- Output() of a SmallBuffer that holds `msg`.
pub output : List ℕ → AsyncOutputer → Option AsyncOutputer
output msg s = only (ltb (length msg) small_buff_size) (output_to msg s.current_buffer s)

-- Run(): the test of the loop.
pub test : AsyncOutputer → Option AsyncOutputer
test s = only (at s testing) (
    some (
      if s.running || s.last_write
      then record s { last_write = s.running; phase = locking }
      else record s { phase = ended }))

-- Under mutex_: the buffers are taken over, with a spare one in place of the current one.
abbrev pub collect_from : Option FixedBuffer → AsyncOutputer → Option AsyncOutputer
collect_from none s = none
collect_from (some b) s = some (record s {
  phase = writing;
  buffers = s.buffers_to_write;
  buffers_to_write = s.buffers ++ b ∷ [];
  current_buffer = s.new_buffer1;
  new_buffer1 = none;
  next_buffer = if present s.next_buffer then s.next_buffer else s.new_buffer2;
  new_buffer2 = if present s.next_buffer then s.new_buffer2 else none;
})

pub collect : AsyncOutputer → Option AsyncOutputer
collect s = collect_from s.current_buffer s

pub lock : AsyncOutputer → Option AsyncOutputer
lock s =
    only (at s locking)
      (if is_empty s.buffers then some (record s { phase = waiting }) else collect s)

-- WaitForSeconds() returns, notified or not.
pub wake : AsyncOutputer → Option AsyncOutputer
wake s = only (at s waiting) (collect s)

abbrev pub back : List FixedBuffer → Option FixedBuffer
back [] = none
back (b ∷ []) = some b
back (b ∷ c ∷ bs) = back (c ∷ bs)

abbrev pub pop_back : List FixedBuffer → List FixedBuffer
pop_back [] = []
pop_back (b ∷ []) = []
pop_back (b ∷ c ∷ bs) = b ∷ pop_back (c ∷ bs)

abbrev pub bytes_of : List FixedBuffer → List ℕ
bytes_of [] = []
bytes_of (b ∷ bs) = b.bytes ++ bytes_of bs

-- At most two buffers are kept of too many.
abbrev pub cut_down : ℕ → List FixedBuffer → List FixedBuffer
cut_down n bs = if ltb n (length bs) then take 2 bs else bs

abbrev pub refill_second : Option FixedBuffer → AsyncOutputer → Option AsyncOutputer
refill_second none s = none
refill_second (some b) s = some (record s { new_buffer2 = some (clear b) })

-- The written buffers become the spare ones.
abbrev pub recycle : Option FixedBuffer → Option FixedBuffer → AsyncOutputer → Option AsyncOutputer
recycle none c s = none
recycle (some b) c s =
    let s' = record s { new_buffer1 = some (clear b) } in
    let refilled = refill_second c s' in if present s.new_buffer2 then some s' else refilled

-- Run() behind the lock: dropping, writing, and the spare buffers.
pub write : AsyncOutputer → Option AsyncOutputer
write s =
    let kept = cut_down 25 s.buffers_to_write in
    let left = cut_down 2 kept in
    only (at s writing) (
      recycle (back left) (back (pop_back left)) (record s {
        phase = testing;
        buffers_to_write = [];
        written = s.written ++ bytes_of kept;
        dropped = s.dropped + (length s.buffers_to_write - length kept);
      }))
