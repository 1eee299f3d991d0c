-- ===== src/Poller/Invariant.antt =====
-- The poller's map, the index_ of each channel and the kernel's interest list agree.
use mathlib.Core.Path.{subst}
use native.Mathlib.Decide.{ℕ_discrete}
use muzi.Prelude.{
  ℕ, ◌≡◌, ◌≢◌, ◌⊎◌, inl, inr, sym, ap, ◌∙◌, true, Option, none, some, arith, ◌==◌, if◌then◌else◌,
}
use muzi.Channel.{Channel, Events, FdStatus, new, added, deleted}
use muzi.Poller.{Poller}
use muzi.Poller.Kernel.{Epoll}

pub ==-self : (a : ℕ) → (a == a) ≡ true
==-self a = ground arith

pub none≢some {ℓ} : {A : Type ℓ} {x : A} → none ≢ some x
none≢some e = cc

some-eq-some {ℓ} : {A : Type ℓ} {x y : A} → some x ≡ some y → x ≡ y
some-eq-some e = cc

-- What the kernel holds for a descriptor whose channel has this index_ and wants `e`.
abbrev pub Agrees : FdStatus → Option Events → Events → Type 0
Agrees new r e = ⊥
Agrees added r e = r ≡ some e
Agrees deleted r e = r ≡ none

module _ (epoll : Epoll) where
  open epoll use {registered}

  pub record Tracked (p : Poller epoll) (c : ℕ) : Type 0 where
    pub mapped : p.channels (p.heap c).fd ≡ some c
    pub agrees : Agrees (p.heap c).index (registered p.kernel (p.heap c).fd) (p.heap c).events

  -- Every channel in use is tracked, the map holds no others, and the kernel watches no descriptor
  -- that the map does not have.
  pub record IsValid (p : Poller epoll) : Type 0 where
    pub tracked : (c : ℕ) → (p.heap c).in_using ≡ true → Tracked p c
    pub owned :
        (fd c : ℕ) → p.channels fd ≡ some c → ((p.heap c).in_using ≡ true) × ((p.heap c).fd ≡ fd)
    pub watched : (fd : ℕ) → p.channels fd ≡ none → registered p.kernel fd ≡ none

  -- A channel that no poller has seen, on a descriptor that no other channel has.
  pub record IsFresh (p : Poller epoll) (c : ℕ) : Type 0 where
    pub unseen : (p.heap c).index ≡ new
    pub free : p.channels (p.heap c).fd ≡ none

  -- One channel, its entry of the map and its entry in the kernel change together.
  module _ (p p' : Poller epoll) (c : ℕ) (r : Option Events) (v : IsValid p)
      (owner : (p.channels (p.heap c).fd ≡ some c) ⊎ (p.channels (p.heap c).fd ≡ none))
      (same_fd : (p'.heap c).fd ≡ (p.heap c).fd) (in_use : (p'.heap c).in_using ≡ true)
      (others : (j : ℕ) → c ≢ j → p'.heap j ≡ p.heap j)
      (map' : (j : ℕ) → p'.channels j ≡ (if (p.heap c).fd == j then some c else p.channels j))
      (kernel' : (j : ℕ)
        → registered p'.kernel j ≡ (if (p.heap c).fd == j then r else registered p.kernel j))
      (agrees' : Agrees (p'.heap c).index r (p'.heap c).events) where
    apart : (j : ℕ) → c ≢ j → p.channels (p.heap j).fd ≡ some j → (p.heap c).fd ≢ (p.heap j).fd
    apart j ne m e = elim owner [
      | inl o ↦ ne (some-eq-some (sym o ∙ ap p.channels e ∙ m))
      | inr o ↦ none≢some (sym o ∙ ap p.channels e ∙ m)
    ]

    settle-Tracked : (j : ℕ) → (p'.heap j).in_using ≡ true → Tracked p' j
    settle-Tracked j u = elim (ℕ_discrete c j) [
      | yes e ↦ subst (Tracked p') e (record {
        mapped = ground (arith, map' (p'.heap c).fd, same_fd);
        agrees =
            let k : registered p'.kernel (p'.heap c).fd ≡ r =
              ground (arith, kernel' (p'.heap c).fd, same_fd) in
            subst (λ x. Agrees (p'.heap c).index x (p'.heap c).events) (sym k) agrees';
      })
      | no ne ↦
          let same : p'.heap j ≡ p.heap j = others j ne in
          let t = v.tracked j (ap (λ (h : Channel). h.in_using) (sym same) ∙ u) in
          let far = apart j ne t.mapped in
          let k : registered p'.kernel (p.heap j).fd ≡ registered p.kernel (p.heap j).fd =
            ground (arith, kernel' (p.heap j).fd, far) in
          record {
            mapped =
                subst (λ (h : Channel). p'.channels h.fd ≡ some j) (sym same)
                  (ground (arith, map' (p.heap j).fd, far, t.mapped));
            agrees =
                subst (λ (h : Channel). Agrees h.index (registered p'.kernel h.fd) h.events)
                  (sym same)
                  (subst (λ x. Agrees (p.heap j).index x (p.heap j).events) (sym k) t.agrees);
          }
    ]

    settle_owned :
        (fd j : ℕ) → p'.channels fd ≡ some j → ((p'.heap j).in_using ≡ true) × ((p'.heap j).fd ≡ fd)
    settle_owned fd j m = elim (ℕ_discrete (p.heap c).fd fd) [
      | yes e ↦
          let same : c ≡ j = ground (arith, map' fd, m, e) in
          subst (λ k. ((p'.heap k).in_using ≡ true) × ((p'.heap k).fd ≡ fd)) same
            (in_use, same_fd ∙ e)
      | no ne ↦
          let (u, f) = v.owned fd j (ground (arith, map' fd, m, ne)) in
          let differ : c ≢ j = λ e. ne (ap (λ k. (p.heap k).fd) e ∙ f) in
          subst (λ (h : Channel). (h.in_using ≡ true) × (h.fd ≡ fd)) (sym (others j differ)) (u, f)
    ]

    settle_watched : (fd : ℕ) → p'.channels fd ≡ none → registered p'.kernel fd ≡ none
    settle_watched fd m = elim (ℕ_discrete (p.heap c).fd fd) [
      | yes e ↦
          let there : p'.channels fd ≡ some c = ground (arith, map' fd, e) in
          absurd (none≢some (sym m ∙ there))
      | no ne ↦ ground (arith, map' fd, kernel' fd, v.watched fd)
    ]

    pub settle : IsValid p'
    settle = record { tracked = settle-Tracked; owned = settle_owned; watched = settle_watched }
