-- ===== src/Channel/Dispatch.antt =====
-- Which callbacks an event reaches, and what the changes of the wanted events do.
use muzi.Prelude.{◌≡◌, Bool, true, false, not, ◌&&◌, ◌||◌, List, [], ◌∷◌, arith, if◌then◌else◌}
use muzi.Channel.{
  Events, Channel, Callback, error, read, write, close, handle_event, handle_event_with_guard,
  is_reading, is_writting, enable_reading, disable_reading, enable_writting, disable_writting,
  events_none, to_event_str, none_str, read_str,
}

-- Whether a callback is among those made.
abbrev pub same : Callback → Callback → Bool
same error error = true
same read read = true
same write write = true
same close close = true
same _ _ = false

abbrev pub made : Callback → List Callback → Bool
made k [] = false
made k (j ∷ js) = same k j || made k js

-- An object that is tied and gone gets no event.
abbrev pub alive : Channel → Bool
alive c = not c.tied || c.tied_object

-- HandleEvent() makes each callback exactly when it is set, the tied object is alive and an event
-- for it has come: error or invalid descriptor; data, urgent data or the peer's half-close; room
-- to write; a hang-up with no data left.
pub handle_event-made :
    (c : Channel)
    → let r = c.revents in
      (made error (handle_event c) ≡ alive c && ((r.pollerr || r.pollnval) && c.error_callback))
      × (made read (handle_event c)
          ≡ alive c && ((r.pollin || (r.pollpri || r.pollrdhup)) && c.read_callback))
      × (made write (handle_event c) ≡ alive c && (r.pollout && c.write_callback))
      × (made close (handle_event c) ≡ alive c && ((r.pollhup && not r.pollin) && c.close_callback))
unfolding handle_event handle_event_with_guard
handle_event-made c = ground arith

-- Enabling and disabling one direction leaves the other as it was.
pub enable-disable_events :
    (c : Channel)
    → (is_reading (enable_reading c) ≡ true)
      × (is_writting (enable_reading c) ≡ is_writting c)
      × (is_reading (disable_reading c) ≡ false)
      × (is_writting (disable_reading c) ≡ is_writting c)
      × (is_writting (enable_writting c) ≡ true)
      × (is_reading (enable_writting c) ≡ is_reading c)
      × (is_writting (disable_writting c) ≡ false)
      × (is_reading (disable_writting c) ≡ is_reading c)
enable-disable_events c = ground arith

-- ToEventStr() calls every mask that is not empty "Read", one of write events alone too.
pub to_event_str-read_str :
    (e : Events) → to_event_str e ≡ (if events_none e then none_str else read_str)
unfolding to_event_str
to_event_str-read_str e = ground arith
