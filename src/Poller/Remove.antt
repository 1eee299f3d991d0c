-- ===== src/Poller/Remove.antt =====
-- Channel::Remove() and RemoveChannel().
use mathlib.Core.Path.{subst}
use native.Mathlib.Decide.{ℕ_discrete}
use muzi.Prelude.{
  ℕ, ◌≡◌, ◌≢◌, refl, sym, ap, ◌∙◌, true, false, none, some, arith, ◌==◌, if◌then◌else◌, Bool-cases,
  inl, inr,
}
use muzi.Channel.{Channel, Events, FdStatus, new, added, deleted, is_none_event}
use muzi.Poller.{
  Poller, update, epoll_update, update_indexed, update_channel, set_events, remove_indexed,
  remove_channel, remove,
}
use muzi.Poller.Kernel.{Epoll}
use muzi.Poller.Invariant.{==-self, none≢some, Agrees, Tracked, IsValid}

module _ (epoll : Epoll) where
  open epoll use {registered, ctl_delete}

  -- One channel leaves the map and the kernel, and nothing else changes.
  pub record Removed (p p' : Poller epoll) (c : ℕ) : Type 0 where
    pub unused : (p'.heap c).in_using ≡ false
    pub same_fd : (p'.heap c).fd ≡ (p.heap c).fd
    pub same_index : (p'.heap c).index ≡ (p.heap c).index
    pub others : (j : ℕ) → c ≢ j → p'.heap j ≡ p.heap j
    pub map' : (j : ℕ) → p'.channels j ≡ (if (p.heap c).fd == j then none else p.channels j)
    pub kernel' :
        (j : ℕ)
        → registered p'.kernel j ≡ (if (p.heap c).fd == j then none else registered p.kernel j)

  module _ {p p' : Poller epoll} {c : ℕ} (v : IsValid epoll p) (u : (p.heap c).in_using ≡ true)
      (r : Removed p p' c) where
    owner : p.channels (p.heap c).fd ≡ some c
    owner = (v.tracked c u).mapped

    removed-Tracked : (j : ℕ) → (p'.heap j).in_using ≡ true → Tracked epoll p' j
    removed-Tracked j w = elim (ℕ_discrete c j) [
      | yes e ↦ let f : false ≡ true = sym r.unused ∙ ap (λ k. (p'.heap k).in_using) e ∙ w in cc
      | no ne ↦
          let same = r.others j ne in
          let t = v.tracked j (ap (λ (h : Channel). h.in_using) (sym same) ∙ w) in
          let far : (p.heap c).fd ≢ (p.heap j).fd =
            λ e. let s : some c ≡ some j = sym owner ∙ ap p.channels e ∙ t.mapped in ne (cc s) in
          let k : registered p'.kernel (p.heap j).fd ≡ registered p.kernel (p.heap j).fd =
            ground (arith, r.kernel' (p.heap j).fd, far) in
          record {
            mapped =
                subst (λ (h : Channel). p'.channels h.fd ≡ some j) (sym same)
                  (ground (arith, r.map' (p.heap j).fd, far, t.mapped));
            agrees =
                subst (λ (h : Channel). Agrees h.index (registered p'.kernel h.fd) h.events)
                  (sym same)
                  (subst (λ x. Agrees (p.heap j).index x (p.heap j).events) (sym k) t.agrees);
          }
    ]

    removed_owned :
        (fd j : ℕ) → p'.channels fd ≡ some j → ((p'.heap j).in_using ≡ true) × ((p'.heap j).fd ≡ fd)
    removed_owned fd j m = elim (ℕ_discrete (p.heap c).fd fd) [
      | yes e ↦
          let gone : p'.channels fd ≡ none = ground (arith, r.map' fd, e) in
          absurd (none≢some (sym gone ∙ m))
      | no ne ↦
          let (w, f) = v.owned fd j (ground (arith, r.map' fd, m, ne)) in
          let differ : c ≢ j = λ e. ne (ap (λ k. (p.heap k).fd) e ∙ f) in
          subst (λ (h : Channel). (h.in_using ≡ true) × (h.fd ≡ fd)) (sym (r.others j differ))
            (w, f)
    ]

    removed_watched : (fd : ℕ) → p'.channels fd ≡ none → registered p'.kernel fd ≡ none
    removed_watched fd m = ground (arith, r.map' fd, r.kernel' fd, v.watched fd)

    pub Removed-IsValid : IsValid epoll p'
    Removed-IsValid = record {
      tracked = removed-Tracked;
      owned = removed_owned;
      watched = removed_watched;
    }

  remove_status :
      (s : FdStatus) (p : Poller epoll) (c : ℕ)
      → (p.heap c).index ≡ s
      → IsValid epoll p
      → (p.heap c).in_using ≡ true
      → is_none_event (p.heap c) ≡ true
      → (p' : Poller epoll) × (remove epoll p c ≡ some p') × Removed p p' c
  unfolding remove remove_channel remove_indexed epoll_update
  remove_status new p c is v u idle = absurd (
      subst (λ t. Agrees t (registered p.kernel (p.heap c).fd) (p.heap c).events) is
        (v.tracked c u).agrees)
  remove_status added p c is v u idle =
      let t = v.tracked c u in
      let watched =
        subst (λ s. Agrees s (registered p.kernel (p.heap c).fd) (p.heap c).events) is t.agrees in
      let (k, e, f) =
        ctl_delete (p.heap c).fd (p.heap c).events (p.heap c).events p.kernel watched in
      (
        record {
          channels = update p.channels (p.heap c).fd none;
          heap = update p.heap c (record (p.heap c) { in_using = false });
          kernel = k;
          ep_events = p.ep_events;
        },
        ground (arith, t.mapped, idle, is, e, ==-self c),
        record {
          unused = ground arith;
          same_fd = ground arith;
          same_index = ground arith;
          others = λ j ne. ground arith;
          map' = λ j. refl;
          kernel' = f;
        },
      )
  remove_status deleted p c is v u idle =
      let t = v.tracked c u in
      let unwatched =
        subst (λ s. Agrees s (registered p.kernel (p.heap c).fd) (p.heap c).events) is t.agrees in
      (
        record {
          channels = update p.channels (p.heap c).fd none;
          heap = update p.heap c (record (p.heap c) { in_using = false });
          kernel = p.kernel;
          ep_events = p.ep_events;
        },
        ground (arith, t.mapped, idle, is, ==-self c),
        record {
          unused = ground arith;
          same_fd = ground arith;
          same_index = ground arith;
          others = λ j ne. ground arith;
          map' = λ j. refl;
          kernel' = λ j. ground (arith, unwatched);
        },
      )

  -- Remove() of a channel in use that wants no events does not fail and keeps the invariant.
  -- Neither the map nor the kernel then has its descriptor, and for every other descriptor both
  -- are as before.
  pub remove_lem :
      (p : Poller epoll) (c : ℕ)
      → IsValid epoll p
      → (p.heap c).in_using ≡ true
      → is_none_event (p.heap c) ≡ true
      → (p' : Poller epoll) × (remove epoll p c ≡ some p')
        × IsValid epoll p'
        × ((fd : ℕ)
            → (p'.channels fd ≡ (if (p.heap c).fd == fd then none else p.channels fd))
              × (registered p'.kernel fd
                  ≡ (if (p.heap c).fd == fd then none else registered p.kernel fd)))
  remove_lem p c v u idle =
      let (p', e, r) = remove_status (p.heap c).index p c refl v u idle in
      (p', e, Removed-IsValid v u r, λ fd. (r.map' fd, r.kernel' fd))

  set_events_unmapped :
      (s : FdStatus) (p : Poller epoll) (c : ℕ) (e : Events)
      → (p.heap c).index ≡ s
      → s ≢ new
      → p.channels (p.heap c).fd ≡ none
      → set_events epoll p c e ≡ none
  unfolding set_events update_channel update_indexed
  set_events_unmapped new p c e is old gone = absurd (old refl)
  set_events_unmapped added p c e is old gone = ground (arith, is, gone, ==-self c)
  set_events_unmapped deleted p c e is old gone = ground (arith, is, gone, ==-self c)

  removed_idle :
      (p : Poller epoll) {p' : Poller epoll} (c : ℕ)
      → remove epoll p c ≡ some p'
      → is_none_event (p.heap c) ≡ true
  unfolding remove
  removed_idle p c done = elim (Bool-cases (is_none_event (p.heap c))) [
    | inl idle ↦ idle
    | inr busy ↦
        let failed : remove epoll p c ≡ none = rw busy in absurd (none≢some (sym failed ∙ done))
  ]

  tracked-ne-new :
      (p : Poller epoll) (c : ℕ)
      → IsValid epoll p
      → (p.heap c).in_using ≡ true
      → (p.heap c).index ≢ new
  tracked-ne-new p c v u is =
      subst (λ t. Agrees t (registered p.kernel (p.heap c).fd) (p.heap c).events) is
        (v.tracked c u).agrees

  -- RemoveChannel() leaves index_ as it is, so a channel that was removed cannot be used again:
  -- the next change of its events fails an assertion.
  pub set_events-remove :
      (p p' : Poller epoll) (c : ℕ) (e : Events)
      → IsValid epoll p
      → (p.heap c).in_using ≡ true
      → remove epoll p c ≡ some p'
      → set_events epoll p' c e ≡ none
  set_events-remove p p' c e v u done =
      let (q, done', r) = remove_status (p.heap c).index p c refl v u (removed_idle p c done) in
      let same : some q ≡ some p' = sym done' ∙ done in
      let q-eq-p' : q ≡ p' = cc same in
      subst (λ (x : Poller epoll). set_events epoll x c e ≡ none) q-eq-p'
        (set_events_unmapped (q.heap c).index q c e refl
          (λ is. tracked-ne-new p c v u (sym r.same_index ∙ is))
          (r.map' (q.heap c).fd ∙ ground (arith, r.same_fd)))
