-- ===== src/Channel.antt =====
-- muzi/net/channel.h and channel.cc: a file descriptor's wanted and received events, and the
-- dispatch of the received ones to callbacks. An event mask is the record of its bits that the
-- code names. LOG lines are left out.
pub mod Dispatch
mod Examples
use muzi.Prelude.{ℕ, Bool, true, false, not, ◌&&◌, ◌||◌, List, [], ◌∷◌, ◌++◌, if◌then◌else◌}

pub record Events : Type 0 where
  pub pollin : Bool
  pub pollpri : Bool
  pub pollout : Bool
  pub pollerr : Bool
  pub pollhup : Bool
  pub pollnval : Bool
  pub pollrdhup : Bool

-- kNoneEvent, kReadEvent and kWriteEvent
abbrev pub none_event : Events
none_event = record {
  pollin = false;
  pollpri = false;
  pollout = false;
  pollerr = false;
  pollhup = false;
  pollnval = false;
  pollrdhup = false;
}

abbrev pub read_event : Events
read_event = record none_event { pollin = true; pollpri = true }

abbrev pub write_event : Events
write_event = record none_event { pollout = true }

-- `a | b`, `a & ~b` and `(a & b) != 0`
abbrev pub events_or : Events → Events → Events
events_or a b = record {
  pollin = a.pollin || b.pollin;
  pollpri = a.pollpri || b.pollpri;
  pollout = a.pollout || b.pollout;
  pollerr = a.pollerr || b.pollerr;
  pollhup = a.pollhup || b.pollhup;
  pollnval = a.pollnval || b.pollnval;
  pollrdhup = a.pollrdhup || b.pollrdhup;
}

abbrev pub events_without : Events → Events → Events
events_without a b = record {
  pollin = a.pollin && not b.pollin;
  pollpri = a.pollpri && not b.pollpri;
  pollout = a.pollout && not b.pollout;
  pollerr = a.pollerr && not b.pollerr;
  pollhup = a.pollhup && not b.pollhup;
  pollnval = a.pollnval && not b.pollnval;
  pollrdhup = a.pollrdhup && not b.pollrdhup;
}

abbrev pub events_meet : Events → Events → Bool
events_meet a b =
    a.pollin && b.pollin
    || (a.pollpri && b.pollpri
        || (a.pollout && b.pollout
            || (a.pollerr && b.pollerr
                || (a.pollhup && b.pollhup
                    || (a.pollnval && b.pollnval || a.pollrdhup && b.pollrdhup)))))

-- `a == kNoneEvent`
abbrev pub events_none : Events → Bool
events_none a = not (
    a.pollin
    || (a.pollpri || (a.pollout || (a.pollerr || (a.pollhup || (a.pollnval || a.pollrdhup))))))

-- FdStatus of epoll_poller.cc, the values of index_
pub data FdStatus : Type 0 where
  new added deleted : FdStatus

-- Which callbacks are set; `tied_object` says whether the tied object is still alive.
pub record Channel : Type 0 where
  pub fd : ℕ
  pub events : Events
  pub revents : Events
  pub index : FdStatus
  pub in_using : Bool
  pub handling_event : Bool
  pub tied : Bool
  pub tied_object : Bool
  pub read_callback : Bool
  pub write_callback : Bool
  pub error_callback : Bool
  pub close_callback : Bool

-- Channel::Channel
unfoldable pub init : ℕ → Channel
init fd = record {
  fd = fd;
  events = none_event;
  revents = none_event;
  index = new;
  in_using = false;
  handling_event = false;
  tied = false;
  tied_object = false;
  read_callback = false;
  write_callback = false;
  error_callback = false;
  close_callback = false;
}

abbrev pub is_writting : Channel → Bool
is_writting c = events_meet c.events write_event

abbrev pub is_reading : Channel → Bool
is_reading c = events_meet c.events read_event

abbrev pub is_none_event : Channel → Bool
is_none_event c = events_none c.events

-- What each of these does to events_ before it calls Update().
abbrev pub enable_reading : Channel → Channel
enable_reading c = record c { events = events_or c.events read_event }

abbrev pub disable_reading : Channel → Channel
disable_reading c = record c { events = events_without c.events read_event }

abbrev pub enable_writting : Channel → Channel
enable_writting c = record c { events = events_or c.events write_event }

abbrev pub disable_writting : Channel → Channel
disable_writting c = record c { events = events_without c.events write_event }

abbrev pub disable_all : Channel → Channel
disable_all c = record c { events = none_event }

pub data Callback : Type 0 where
  error read write close : Callback

abbrev pub when : Bool → Callback → List Callback
when b k = if b then k ∷ [] else []

-- The callbacks that HandleEventWithGuard() makes, in order. A callback does not change revents_,
-- which only the poller writes, and is taken not to exchange the channel's callbacks.
pub handle_event_with_guard : Channel → List Callback
handle_event_with_guard c =
    let r = c.revents in
    when ((r.pollerr || r.pollnval) && c.error_callback) error
    ++ (when ((r.pollin || (r.pollpri || r.pollrdhup)) && c.read_callback) read
        ++ (when (r.pollout && c.write_callback) write
            ++ when ((r.pollhup && not r.pollin) && c.close_callback) close))

pub handle_event : Channel → List Callback
handle_event c =
    if c.tied
    then (if c.tied_object then handle_event_with_guard c else [])
    else handle_event_with_guard c

pub data EventStr : Type 0 where
  none_str read_str write_str unknown_str : EventStr

-- ToEventStr(): the tests are `events | kReadEvent`, not `&`.
pub to_event_str : Events → EventStr
to_event_str e =
    if events_none e
    then none_str
    else if not (events_none (events_or e read_event))
    then read_str
    else if not (events_none (events_or e write_event))
    then write_str
    else unknown_str
