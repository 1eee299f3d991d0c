-- ===== src/Poller/Examples.antt =====
-- An interest list as a function, and the theorems of the poller at a loop with one channel.
use mathlib.Core.Path.{subst}
use mathlib.Core.Bool.{false≢true}
use native.Mathlib.Decide.{ℕ_discrete}
use muzi.Prelude.{ℕ, ◌≡◌, refl, inr, true, false, Option, none, some, arith, ◌==◌, if◌then◌else◌}
use muzi.Channel.{Channel, Events, init, read_event, deleted}
use muzi.Poller.{Poller, update, set_events, remove_indexed, remove_channel, remove}
use muzi.Poller.Kernel.{Epoll, Operation, add, modify, delete}
use muzi.Poller.Invariant.{none≢some, Tracked, IsValid, IsFresh}
use muzi.Poller.Update.{set_events_lem, wanted}
use muzi.Poller.Remove.{remove_lem}

abbrev Interest : Type 0
Interest = ℕ → Option Events

abbrev interest_ctl : Operation → ℕ → Events → Interest → Option Interest
interest_ctl add fd e k = elim (k fd) [ none ↦ some (update k fd (some e)) | some _ ↦ none ]
interest_ctl modify fd e k = elim (k fd) [ none ↦ none | some _ ↦ some (update k fd (some e)) ]
interest_ctl delete fd e k = elim (k fd) [ none ↦ none | some _ ↦ some (update k fd none) ]

interest_add :
    (fd : ℕ) (e : Events) (k : Interest)
    → k fd ≡ none
    → interest_ctl add fd e k ≡ some (update k fd (some e))
interest_add fd e k h = ground (arith, h)

interest_modify :
    (fd : ℕ) (e old : Events) (k : Interest)
    → k fd ≡ some old
    → interest_ctl modify fd e k ≡ some (update k fd (some e))
interest_modify fd e old k h = ground (arith, h)

interest_delete :
    (fd : ℕ) (e old : Events) (k : Interest)
    → k fd ≡ some old
    → interest_ctl delete fd e k ≡ some (update k fd none)
interest_delete fd e old k h = ground (arith, h)

abbrev interest : Epoll
interest = record {
  State = Interest;
  ctl = interest_ctl;
  registered = λ k fd. k fd;
  ctl_add = λ fd e k h. (update k fd (some e), interest_add fd e k h, λ j. refl);
  ctl_modify = λ fd e old k h. (update k fd (some e), interest_modify fd e old k h, λ j. refl);
  ctl_delete = λ fd e old k h. (update k fd none, interest_delete fd e old k h, λ j. refl);
}

-- No channel is known yet; the channel at address `c` is for descriptor `c`.
abbrev start : Poller interest
start = record { channels = λ fd. none; heap = init; kernel = λ fd. none; ep_events = 2 }

start-IsValid : IsValid interest start
unfolding init
start-IsValid = record {
  tracked = λ c u. absurd (false≢true u);
  owned = λ fd c m. absurd (none≢some m);
  watched = λ fd m. refl;
}

start-IsFresh : IsFresh interest start 5
unfolding init
start-IsFresh = record { unseen = refl; free = refl }

-- The channel at 5 has been enabled and disabled again.
abbrev parked : Channel
parked = record (init 5) { in_using = true; index = deleted }

abbrev parking : Poller interest
parking = record start { channels = update (λ fd. none) 5 (some 5); heap = update init 5 parked }

parking-IsValid : IsValid interest parking
unfolding init
parking-IsValid = record {
  tracked = λ c u. elim (ℕ_discrete 5 c) [
    | yes e ↦ subst (Tracked interest parking) e (record { mapped = refl; agrees = refl })
    | no ne ↦ let f : false ≡ true = ground (arith, u, ne) in absurd (false≢true f)
  ];
  owned = λ fd c m. elim (ℕ_discrete 5 fd) [
    | yes e ↦
        let same : 5 ≡ c = ground (arith, m, e) in
        subst (λ k. ((parking.heap k).in_using ≡ true) × ((parking.heap k).fd ≡ fd)) same (refl, e)
    | no ne ↦ let f : none ≡ some c = ground (arith, m, ne) in absurd (none≢some f)
  ];
  watched = λ fd m. refl;
}

set_events_lem_example :
    (p' : Poller interest) × (set_events interest start 5 read_event ≡ some p')
    × IsValid interest p'
    × ((p'.heap 5).events ≡ read_event)
    × ((fd : ℕ)
        → p'.kernel fd ≡ (
            if (start.heap 5).fd == fd
            then wanted interest (start.heap 5).index read_event
            else none))
set_events_lem_example =
    set_events_lem interest start 5 read_event start-IsValid (inr start-IsFresh)

remove_lem_example :
    (p' : Poller interest) × (remove interest parking 5 ≡ some p')
    × IsValid interest p'
    × ((fd : ℕ)
        → (p'.channels fd ≡ (if 5 == fd then none else parking.channels fd))
          × (p'.kernel fd ≡ (if 5 == fd then none else none)))
unfolding init
remove_lem_example = remove_lem interest parking 5 parking-IsValid refl refl

abbrev gone : Poller interest
gone = record parking {
  channels = update parking.channels 5 none;
  heap = update parking.heap 5 (record parked { in_using = false });
}

remove-parking : remove interest parking 5 ≡ some gone
unfolding init remove remove_channel remove_indexed
remove-parking = refl
