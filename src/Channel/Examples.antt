-- ===== src/Channel/Examples.antt =====
-- Tests of the channel, and its theorems at concrete channels.
use muzi.Prelude.{◌≡◌, refl, true, [], ◌∷◌}
use muzi.Channel.{Channel, read, write, init, read_event, handle_event, handle_event_with_guard}

-- The peer has hung up and data is left.
abbrev hung_up : Channel
hung_up = record (init 5) {
  events = read_event;
  revents = record read_event { pollhup = true; pollout = true };
  read_callback = true;
  write_callback = true;
  close_callback = true;
}

handle_event-hung_up : handle_event hung_up ≡ read ∷ write ∷ []
unfolding handle_event handle_event_with_guard init
handle_event-hung_up = refl

handle_event_gone : handle_event (record hung_up { tied = true }) ≡ []
unfolding handle_event init
handle_event_gone = refl
