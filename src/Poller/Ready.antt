-- ===== src/Poller/Ready.antt =====
-- Poll() hands out what epoll_wait() reports.
use muzi.Prelude.{
  ℕ, ◌*◌, ◌≤◌, ◌≡◌, refl, ap, ◌∙◌, List, [], ◌∷◌, ◌++◌, map, some, arith, length, ◌==◌,
  if◌then◌else◌, le→leb, Bool-cases, inl, inr, sym,
}
use native.Mathlib.Decide.{ℕ_discrete}
use mathlib.Core.List.{append-nil, append_assoc}
use muzi.Channel.{Channel, Events}
use muzi.Poller.{Poller, update, fill_active_channels, poll}
use muzi.Poller.Kernel.{Epoll}

-- The events last reported for a channel.
abbrev pub received : ℕ → List (ℕ × Events) → Events → Events
received c [] e = e
received c ((d, f) ∷ ready) e = received c ready (if d == c then f else e)

update-revents :
    (heap : ℕ → Channel) (d c : ℕ) (f : Events)
    → update heap d (record (heap d) { revents = f }) c
      ≡ record (heap c) { revents = if d == c then f else (heap c).revents }
update-revents heap d c f = elim (ℕ_discrete d c) [
  | yes e ↦ ground (arith, e, ap heap e)
  | no ne ↦ ground (arith, ne)
]

module _ (epoll : Epoll) where
  -- What Poll() does to the channels: only their received events change.
  pub record Filled (p : Poller epoll) (ready : List (ℕ × Events)) (q : Poller epoll) : Type 0 where
    pub same_channels : q.channels ≡ p.channels
    pub same_kernel : q.kernel ≡ p.kernel
    pub same_ep_events : q.ep_events ≡ p.ep_events
    pub got :
        (c : ℕ) → q.heap c ≡ record (p.heap c) { revents = received c ready (p.heap c).revents }

  fill-Filled :
      (ready : List (ℕ × Events)) (p : Poller epoll) (active : List ℕ)
      → Filled p ready (fill_active_channels epoll ready p active).0
  unfolding fill_active_channels
  fill-Filled [] p active = record {
    same_channels = refl;
    same_kernel = refl;
    same_ep_events = refl;
    got = λ c. refl;
  }
  fill-Filled ((d, f) ∷ ready) p active =
      let next : Poller epoll = record p {
        heap = update p.heap d (record (p.heap d) { revents = f });
      } in
      let w = fill-Filled ready next (active ++ d ∷ []) in
      record {
        same_channels = w.same_channels;
        same_kernel = w.same_kernel;
        same_ep_events = w.same_ep_events;
        got = λ c.
            w.got c
            ∙ ap (λ (h : Channel). record h { revents = received c ready h.revents })
                (update-revents p.heap d c f);
      }

  fill-active :
      (ready : List (ℕ × Events)) (p : Poller epoll) (active : List ℕ)
      → (fill_active_channels epoll ready p active).1 ≡ active ++ map (λ e. e.0) ready
  unfolding fill_active_channels
  fill-active [] p active = sym (append-nil active)
  fill-active ((d, f) ∷ ready) p active =
      fill-active ready _ (active ++ d ∷ []) ∙ append_assoc active (d ∷ []) _

  -- Poll() after epoll_wait() has reported `ready`, no more than the event buffer holds: the
  -- channels reported are appended in order, each has the events last reported for it, nothing
  -- else of any channel, of the map or of the kernel changes, and the buffer doubles if it was
  -- full.
  pub poll_lem :
      (e : ℕ × Events) (ready : List (ℕ × Events)) (p : Poller epoll) (active : List ℕ)
      → let n = length (e ∷ ready) in
        n ≤ p.ep_events
        → (q : Poller epoll) × (poll epoll (some (e ∷ ready)) p active
            ≡ some (q, active ++ map (λ r. r.0) (e ∷ ready)))
          × ((c : ℕ)
              → q.heap c
                ≡ record (p.heap c) { revents = received c (e ∷ ready) (p.heap c).revents })
          × (q.channels ≡ p.channels)
          × (q.kernel ≡ p.kernel)
          × (q.ep_events ≡ (if n == p.ep_events then p.ep_events * 2 else p.ep_events))
  unfolding poll
  poll_lem e ready p active h =
      let n = length (e ∷ ready) in
      let q : Poller epoll = (fill_active_channels epoll (e ∷ ready) p active).0 in
      let f = fill-Filled (e ∷ ready) p active in
      let a = fill-active (e ∷ ready) p active in
      elim (Bool-cases (n == p.ep_events)) [
        | inl full ↦ (
          record q { ep_events = q.ep_events * 2 },
          rw (le→leb n p.ep_events h, full, a),
          f.got,
          f.same_channels,
          f.same_kernel,
          rw full (ap (λ k. k * 2) f.same_ep_events),
        )
        | inr spare ↦ (
          q,
          rw (le→leb n p.ep_events h, spare, a),
          f.got,
          f.same_channels,
          f.same_kernel,
          rw spare f.same_ep_events,
        )
      ]
