-- ===== src/Poller/Kernel.antt =====
-- epoll_ctl(2) as the code relies on it: adding a descriptor that is not in the interest list,
-- changing or deleting one that is, succeed and change that descriptor only.
use muzi.Prelude.{ℕ, ◌≡◌, Option, none, some, ◌==◌, if◌then◌else◌}
use muzi.Channel.{Events}

-- EPOLL_CTL_ADD, EPOLL_CTL_MOD, EPOLL_CTL_DEL
pub data Operation : Type 0 where
  add modify delete : Operation

pub record Epoll : Type 1 where
  pub State : Type 0
  pub ctl : Operation → ℕ → Events → State → Option State
  -- The events for which a descriptor is in the interest list.
  pub registered : State → ℕ → Option Events
  pub ctl_add :
      (fd : ℕ) (e : Events) (k : State)
      → registered k fd ≡ none
      → (k' : State) × (ctl add fd e k ≡ some k')
        × ((j : ℕ) → registered k' j ≡ (if fd == j then some e else registered k j))
  pub ctl_modify :
      (fd : ℕ) (e old : Events) (k : State)
      → registered k fd ≡ some old
      → (k' : State) × (ctl modify fd e k ≡ some k')
        × ((j : ℕ) → registered k' j ≡ (if fd == j then some e else registered k j))
  pub ctl_delete :
      (fd : ℕ) (e old : Events) (k : State)
      → registered k fd ≡ some old
      → (k' : State) × (ctl delete fd e k ≡ some k')
        × ((j : ℕ) → registered k' j ≡ (if fd == j then none else registered k j))
