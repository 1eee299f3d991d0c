-- ===== src/Poller.antt =====
-- muzi/net/poller.h, poller.cc and poller/epoll_poller.cc: the channels of a loop and the kernel's
-- interest list behind epoll_ctl(2) and epoll_wait(2), which are a parameter. A pointer to a
-- channel is its address in a heap of channels. `none` is a failed assertion or a fatal log line.
-- AssertInLoopThread() is taken to hold: every call is made in the loop's thread.
pub mod Kernel
pub mod Invariant
pub mod Update
pub mod Remove
pub mod Ready
mod Examples
use muzi.Prelude.{
  ℕ, ◌*◌, Bool, true, false, List, [], ◌∷◌, ◌++◌, Option, none, some, length, leb, ◌==◌,
  if◌then◌else◌,
}
use muzi.Channel.{Channel, Events, FdStatus, new, added, deleted, is_none_event}
use Kernel.{Epoll, Operation, add, modify, delete}

-- A map with one entry changed.
abbrev pub update {ℓ} : {A : Type ℓ} → (ℕ → A) → ℕ → A → ℕ → A
update f k v j = if k == j then v else f j

module _ (epoll : Epoll) where
  open epoll use {State, ctl}

  -- channels_, the heap, and the kernel's state behind epfd_
  pub record Poller : Type 0 where
    pub channels : ℕ → Option ℕ
    pub heap : ℕ → Channel
    pub kernel : State
    -- ep_events_.size()
    pub ep_events : ℕ

  -- `it != channels_.end() && it->second == channel`
  abbrev pub maps_to : Option ℕ → ℕ → Bool
  maps_to none c = false
  maps_to (some d) c = d == c

  -- EpollPoller::Update(): a failing epoll_ctl is fatal.
  pub epoll_update : Poller → Operation → ℕ → Option Poller
  epoll_update p op c = elim (ctl op (p.heap c).fd (p.heap c).events p.kernel) [
    | none ↦ none
    | some k ↦ some (record p { kernel = k })
  ]

  abbrev pub set_index : Poller → ℕ → FdStatus → Poller
  set_index p c s = record p { heap = update p.heap c (record (p.heap c) { index = s }) }

  -- The three cases of index_ in UpdateChannel().
  pub update_indexed : FdStatus → Poller → ℕ → Option Poller
  update_indexed new p c = elim (p.channels (p.heap c).fd) [
    | none ↦
        epoll_update
          (set_index (record p { channels = update p.channels (p.heap c).fd (some c) }) c added) add
          c
    | some d ↦ none
  ]
  update_indexed deleted p c =
      if maps_to (p.channels (p.heap c).fd) c
      then epoll_update (set_index p c added) add c
      else none
  update_indexed added p c =
      if maps_to (p.channels (p.heap c).fd) c
      then if is_none_event (p.heap c)
        then elim (epoll_update p delete c) [ none ↦ none | some q ↦ some (set_index q c deleted) ]
        else epoll_update p modify c
      else none

  pub update_channel : Poller → ℕ → Option Poller
  update_channel p c = update_indexed (p.heap c).index p c

  -- RemoveChannel() does not touch index_. For a new channel it only logs an error.
  pub remove_indexed : FdStatus → Poller → ℕ → Option Poller
  remove_indexed new p c = some p
  remove_indexed added p c = elim (epoll_update p delete c) [
    | none ↦ none
    | some q ↦ some (record q { channels = update q.channels (p.heap c).fd none })
  ]
  remove_indexed deleted p c = some (record p { channels = update p.channels (p.heap c).fd none })

  pub remove_channel : Poller → ℕ → Option Poller
  remove_channel p c =
      if maps_to (p.channels (p.heap c).fd) c then remove_indexed (p.heap c).index p c else none

  pub has_channel : Poller → ℕ → Bool
  has_channel p c = maps_to (p.channels (p.heap c).fd) c

  -- Channel::EnableReading() and the other changes of the wanted events, to `e`; then
  -- Channel::Update() and EventLoop::UpdateChannel().
  pub set_events : Poller → ℕ → Events → Option Poller
  set_events p c e =
      update_channel
        (record p { heap = update p.heap c (record (p.heap c) { events = e; in_using = true }) }) c

  -- Channel::Remove() and EventLoop::RemoveChannel().
  pub remove : Poller → ℕ → Option Poller
  remove p c =
      if is_none_event (p.heap c)
      then elim (remove_channel p c) [
        | none ↦ none
        | some q ↦
            some (record q { heap = update q.heap c (record (q.heap c) { in_using = false }) })
      ]
      else none

  -- `ready` is what epoll_wait() has put at the front of ep_events_.
  pub fill_active_channels : List (ℕ × Events) → Poller → List ℕ → Poller × List ℕ
  fill_active_channels [] p active = (p, active)
  fill_active_channels ((c, e) ∷ ready) p active =
      fill_active_channels ready
        (record p { heap = update p.heap c (record (p.heap c) { revents = e }) }) (active ++ c ∷ [])

  -- Poll(); `none` of epoll_wait() is its error, which is logged.
  pub poll : Option (List (ℕ × Events)) → Poller → List ℕ → Option (Poller × List ℕ)
  poll none p active = some (p, active)
  poll (some []) p active = some (p, active)
  poll (some (e ∷ ready)) p active =
      let n = length (e ∷ ready) in
      let (q, active') = fill_active_channels (e ∷ ready) p active in
      if leb n p.ep_events
      then some (if n == p.ep_events then record q { ep_events = q.ep_events * 2 } else q, active')
      else none
