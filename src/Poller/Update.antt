-- ===== src/Poller/Update.antt =====
-- UpdateChannel(): each of its cases, and the changes of a channel's wanted events.
use mathlib.Core.Path.{subst}
use muzi.Prelude.{
  ℕ, ◌≡◌, ◌≢◌, ◌⊎◌, inl, inr, refl, sym, ap, ◌∙◌, true, false, Option, none, some, arith, ◌==◌,
  if◌then◌else◌, Bool-cases,
}
use muzi.Channel.{Channel, Events, FdStatus, new, added, deleted, is_none_event, events_none}
use muzi.Poller.{Poller, update, epoll_update, update_indexed, update_channel, set_events}
use muzi.Poller.Kernel.{Epoll}
use muzi.Poller.Invariant.{==-self, Agrees, IsValid, IsFresh, settle}

module _ (epoll : Epoll) where
  open epoll use {registered, ctl_add, ctl_modify, ctl_delete}

  -- What UpdateChannel() changes: the index of one channel, its entry of the map to `m` and its
  -- entry in the kernel to `r`.
  pub record Changed (q p' : Poller epoll) (c : ℕ) (s : FdStatus) (m : Option ℕ) (r : Option Events)
      : Type 0 where
    pub here : p'.heap c ≡ record (q.heap c) { index = s }
    pub others : (j : ℕ) → c ≢ j → p'.heap j ≡ q.heap j
    pub map' : (j : ℕ) → p'.channels j ≡ (if (q.heap c).fd == j then m else q.channels j)
    pub kernel' :
        (j : ℕ) → registered p'.kernel j ≡ (if (q.heap c).fd == j then r else registered q.kernel j)

  module _ (q : Poller epoll) (c : ℕ) where
    update_new :
        q.channels (q.heap c).fd ≡ none
        → registered q.kernel (q.heap c).fd ≡ none
        → (p' : Poller epoll) × (update_indexed epoll new q c ≡ some p')
          × Changed q p' c added (some c) (some (q.heap c).events)
    unfolding update_indexed epoll_update
    update_new free unwatched =
        let (k, e, f) = ctl_add (q.heap c).fd (q.heap c).events q.kernel unwatched in
        (
          record {
            channels = update q.channels (q.heap c).fd (some c);
            heap = update q.heap c (record (q.heap c) { index = added });
            kernel = k;
            ep_events = q.ep_events;
          },
          ground (arith, free, e),
          record {
            here = ground arith;
            others = λ j ne. ground arith;
            map' = λ j. refl;
            kernel' = f;
          },
        )

    update_deleted :
        q.channels (q.heap c).fd ≡ some c
        → registered q.kernel (q.heap c).fd ≡ none
        → (p' : Poller epoll) × (update_indexed epoll deleted q c ≡ some p')
          × Changed q p' c added (some c) (some (q.heap c).events)
    unfolding update_indexed epoll_update
    update_deleted mine unwatched =
        let (k, e, f) = ctl_add (q.heap c).fd (q.heap c).events q.kernel unwatched in
        (
          record q { heap = update q.heap c (record (q.heap c) { index = added }); kernel = k },
          ground (arith, mine, e),
          record {
            here = ground arith;
            others = λ j ne. ground arith;
            map' = λ j. ground (arith, mine);
            kernel' = f;
          },
        )

    update_modified :
        {old : Events}
        → q.channels (q.heap c).fd ≡ some c
        → (q.heap c).index ≡ added
        → registered q.kernel (q.heap c).fd ≡ some old
        → is_none_event (q.heap c) ≡ false
        → (p' : Poller epoll) × (update_indexed epoll added q c ≡ some p')
          × Changed q p' c added (some c) (some (q.heap c).events)
    unfolding update_indexed epoll_update
    update_modified {old} mine is_added watched wants =
        let (k, e, f) = ctl_modify (q.heap c).fd (q.heap c).events old q.kernel watched in
        (
          record q { kernel = k },
          rw (mine, ==-self c, wants, epoll_update, e),
          record {
            here = ground (arith, is_added);
            others = λ j ne. refl;
            map' = λ j. ground (arith, mine);
            kernel' = f;
          },
        )

    update_dropped :
        {old : Events}
        → q.channels (q.heap c).fd ≡ some c
        → registered q.kernel (q.heap c).fd ≡ some old
        → is_none_event (q.heap c) ≡ true
        → (p' : Poller epoll) × (update_indexed epoll added q c ≡ some p')
          × Changed q p' c deleted (some c) none
    unfolding update_indexed epoll_update
    update_dropped {old} mine watched idle =
        let (k, e, f) = ctl_delete (q.heap c).fd (q.heap c).events old q.kernel watched in
        (
          record q { heap = update q.heap c (record (q.heap c) { index = deleted }); kernel = k },
          rw (mine, ==-self c, idle, e),
          record {
            here = ground arith;
            others = λ j ne. ground arith;
            map' = λ j. ground (arith, mine);
            kernel' = f;
          },
        )

  -- What a change of the wanted events to `e` leaves in the kernel.
  abbrev pub wanted : FdStatus → Events → Option Events
  wanted added e = if events_none e then none else some e
  wanted _ e = some e

  module _ (p : Poller epoll) (c : ℕ) (e : Events) (v : IsValid epoll p) where
    abbrev wanting : Channel
    wanting = record (p.heap c) { events = e; in_using = true }

    abbrev asked : Poller epoll
    asked = record p { heap = update p.heap c wanting }

    asked-heap : asked.heap c ≡ wanting
    asked-heap = ground arith

    abbrev Settled : Poller epoll → Type 0
    Settled p' =
        (set_events epoll p c e ≡ some p')
        × IsValid epoll p'
        × ((p'.heap c).events ≡ e)
        × ((fd : ℕ)
            → registered p'.kernel fd
              ≡ (if (p.heap c).fd == fd then wanted (p.heap c).index e else registered p.kernel fd))

    here_fd : (asked.heap c).fd ≡ (p.heap c).fd
    here_fd = ap (λ (h : Channel). h.fd) asked-heap

    here_events : some (asked.heap c).events ≡ some e
    here_events = ap (λ (h : Channel). some h.events) asked-heap

    settle_update :
        (s s' : FdStatus) (r : Option Events) (p' : Poller epoll)
        → (p.heap c).index ≡ s
        → (p.channels (p.heap c).fd ≡ some c) ⊎ (p.channels (p.heap c).fd ≡ none)
        → Agrees s' r e
        → r ≡ wanted s e
        → update_indexed epoll s asked c ≡ some p'
        → Changed asked p' c s' (some c) r
        → Settled p'
    unfolding set_events update_channel
    settle_update s s' r p' is owner agrees' is_wanted done ch =
        let now : p'.heap c ≡ record wanting { index = s' } =
          ch.here ∙ ap (λ (h : Channel). record h { index = s' }) asked-heap in
        let kernel' =
          subst
            (λ (k : ℕ).
              (j : ℕ) → registered p'.kernel j ≡ (if k == j then r else registered p.kernel j))
            here_fd ch.kernel' in
        (
          ap (λ t. update_indexed epoll t asked c) (ap (λ (h : Channel). h.index) asked-heap ∙ is)
              ∙ done,
          settle epoll p p' c r v owner (ap (λ (h : Channel). h.fd) now)
              (ap (λ (h : Channel). h.in_using) now) (λ j ne. ch.others j ne ∙ ground arith)
              (subst
                (λ (k : ℕ). (j : ℕ) → p'.channels j ≡ (if k == j then some c else p.channels j))
                here_fd ch.map')
              kernel' (subst (λ (h : Channel). Agrees h.index r h.events) (sym now) agrees'),
          ap (λ (h : Channel). h.events) now,
          subst
              (λ x.
                (fd : ℕ)
                → registered p'.kernel fd
                  ≡ (if (p.heap c).fd == fd then x else registered p.kernel fd))
              (is_wanted ∙ ap (λ t. wanted t e) (sym is)) kernel',
        )

    settle_status :
        (s : FdStatus)
        → (p.heap c).index ≡ s
        → ((p.heap c).in_using ≡ true) ⊎ IsFresh epoll p c
        → (p' : Poller epoll) × Settled p'
    settle_status new is (inl u) = absurd (
        subst (λ t. Agrees t (registered p.kernel (p.heap c).fd) (p.heap c).events) is
          (v.tracked c u).agrees)
    settle_status new is (inr fresh) =
        let (p', done, ch) =
          update_new asked c (ap p.channels here_fd ∙ fresh.free)
            (ap (registered p.kernel) here_fd ∙ v.watched _ fresh.free) in
        (p', settle_update new added _ p' is (inr fresh.free) here_events here_events done ch)
    settle_status deleted is (inr fresh) = let e : new ≡ deleted = sym fresh.unseen ∙ is in cc
    settle_status deleted is (inl u) =
        let t = v.tracked c u in
        let (p', done, ch) = update_deleted asked c (ap p.channels here_fd ∙ t.mapped) (
          ap (registered p.kernel) here_fd
          ∙ subst (λ s. Agrees s (registered p.kernel (p.heap c).fd) (p.heap c).events) is
              t.agrees) in
        (p', settle_update deleted added _ p' is (inl t.mapped) here_events here_events done ch)
    settle_status added is (inr fresh) = let e : new ≡ added = sym fresh.unseen ∙ is in cc
    settle_status added is (inl u) =
        let t = v.tracked c u in
        let mine = ap p.channels here_fd ∙ t.mapped in
        let watched =
          ap (registered p.kernel) here_fd
          ∙ subst (λ s. Agrees s (registered p.kernel (p.heap c).fd) (p.heap c).events) is
              t.agrees in
        let idle = ap (λ (h : Channel). is_none_event h) asked-heap in
        elim (Bool-cases (events_none e)) [
          | inl none_left ↦
              let (p', done, ch) = update_dropped asked c mine watched (idle ∙ none_left) in
              (
                p',
                settle_update added deleted none p' is (inl t.mapped) refl (rw none_left) done ch,
              )
          | inr wants ↦
              let (p', done, ch) =
                update_modified asked c mine (ap (λ (h : Channel). h.index) asked-heap ∙ is) watched
                  (idle ∙ wants) in
              (
                p',
                settle_update added added _ p' is (inl t.mapped) here_events (rw wants here_events)
                    done ch,
              )
        ]

  -- EnableReading() and its kin, on a channel that is in use or fresh, do not fail. They keep the
  -- invariant. The kernel then watches the descriptor for just the events that the channel wants,
  -- and not at all if it was watched and wants none; every other descriptor is watched as before.
  pub set_events_lem :
      (p : Poller epoll) (c : ℕ) (e : Events)
      → IsValid epoll p
      → ((p.heap c).in_using ≡ true) ⊎ IsFresh epoll p c
      → (p' : Poller epoll) × (set_events epoll p c e ≡ some p')
        × IsValid epoll p'
        × ((p'.heap c).events ≡ e)
        × ((fd : ℕ)
            → registered p'.kernel fd
              ≡ (if (p.heap c).fd == fd then wanted (p.heap c).index e else registered p.kernel fd))
  set_events_lem p c e v ready =
      let (p', s) = settle_status p c e v (p.heap c).index refl ready in (p', s.0, s.1, s.2, s.3)
