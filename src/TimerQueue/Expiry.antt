-- ===== src/TimerQueue/Expiry.antt =====
-- GetExpired().
use muzi.Prelude.{
  ℕ, ◌≡◌, inl, inr, refl, sym, ap, ◌∙◌, Bool, false, List, [], ◌∷◌, ◌++◌, some, arith, leb,
  if◌then◌else◌, Bool-cases,
}
use mathlib.Core.List.{append-nil, append_assoc}
use muzi.TimerQueue.{Timer, TimerQueue, find, erase, take_expired, get_expired}
use muzi.TimerQueue.Invariant.{
  AllAbove, Sorted, UniqueIds, IsValid, find-erase-absent, erase-UniqueIds, sizes_agree-IsValid,
}

-- The timers that have expired at a time, and the others.
abbrev pub expired_in : ℕ → List Timer → List Timer
expired_in now [] = []
expired_in now (x ∷ xs) =
    let rest = expired_in now xs in if leb x.expiration now then x ∷ rest else rest

abbrev pub left_in : ℕ → List Timer → List Timer
left_in now [] = []
left_in now (x ∷ xs) = let rest = left_in now xs in if leb x.expiration now then rest else x ∷ rest

-- Behind an entry that has not expired nothing has.
AllAbove-left :
    (now : ℕ) (x : Timer) (xs : List Timer)
    → leb x.expiration now ≡ false
    → AllAbove x xs
    → (expired_in now xs ≡ []) × (left_in now xs ≡ xs)
AllAbove-left now x [] h a = (refl, refl)
AllAbove-left now x (y ∷ ys) h (a, more) =
    let later : leb y.expiration now ≡ false = ground arith in
    let (none_here, all_here) = AllAbove-left now x ys h more in
    rw later (none_here, ap (λ l. y ∷ l) all_here)

-- What the loop leaves of the set and of the map, and what it has moved.
record Moved (now : ℕ) (xs expired : List Timer) (r : List Timer × List Timer × List Timer)
    : Type 0 where
  left_eq : r.0 ≡ left_in now xs
  expired_eq : r.2 ≡ expired ++ expired_in now xs
  sorted : Sorted r.0
  unique : UniqueIds r.0
  unique_active : UniqueIds r.1
  same_find : (i : ℕ) → find i r.0 ≡ find i r.1

take_expired-Moved :
    (now : ℕ) (xs active expired : List Timer)
    → Sorted xs
    → UniqueIds xs
    → UniqueIds active
    → ((i : ℕ) → find i xs ≡ find i active)
    → Moved now xs expired (take_expired now xs active expired)
unfolding take_expired
take_expired-Moved now [] active expired s u v f = record {
  left_eq = refl;
  expired_eq = sym (append-nil expired);
  sorted = tt;
  unique = tt;
  unique_active = v;
  same_find = f;
}
take_expired-Moved now (x ∷ xs) active expired (a, s) (u, us) v f =
    let left_at : Bool → List Timer = λ b. if b then left_in now xs else x ∷ left_in now xs in
    let expired_at : Bool → List Timer =
      λ b. if b then x ∷ expired_in now xs else expired_in now xs in
    elim (Bool-cases (leb x.expiration now)) [
      | inl due ↦
          let m =
            take_expired-Moved now xs (erase x.sequence active) (expired ++ x ∷ []) s us
              (erase-UniqueIds x.sequence active v)
              (λ i. find-erase-absent i x xs active u v (f i)) in
          rw due (record {
            left_eq = m.left_eq ∙ ap left_at (sym due);
            expired_eq =
                m.expired_eq
                ∙ append_assoc expired (x ∷ []) (expired_in now xs)
                ∙ ap (λ b. expired ++ expired_at b) (sym due);
            sorted = m.sorted;
            unique = m.unique;
            unique_active = m.unique_active;
            same_find = m.same_find;
          })
      | inr later ↦
          let (none_here, all_here) = AllAbove-left now x xs later a in
          rw later (record {
            left_eq = ap (λ l. x ∷ l) (sym all_here) ∙ ap left_at (sym later);
            expired_eq =
                sym (append-nil expired)
                ∙ ap (λ l. expired ++ l) (sym none_here)
                ∙ ap (λ b. expired ++ expired_at b) (sym later);
            sorted = (a, s);
            unique = (u, us);
            unique_active = v;
            same_find = f;
          })
    ]

-- GetExpired() on a valid queue with no expired timers at hand cannot fail and leaves a valid
-- queue: it moves exactly the timers that expire at `now` or before, in their order.
pub get_expired_lem :
    (now : ℕ) (q : TimerQueue)
    → IsValid q
    → q.expired_timers ≡ []
    → (q' : TimerQueue) × (get_expired now q ≡ some q')
      × IsValid q'
      × (q'.timers ≡ left_in now q.timers)
      × (q'.expired_timers ≡ expired_in now q.timers)
unfolding get_expired
get_expired_lem now q v nothing =
    let r = take_expired now q.timers q.active_timers [] in
    let m =
      take_expired-Moved now q.timers q.active_timers [] v.sorted v.unique v.unique_active
        v.same_find in
    let q' = record q { timers = r.0; active_timers = r.1; expired_timers = r.2 } in
    let v' : IsValid q' = record {
      sorted = m.sorted;
      unique = m.unique;
      unique_active = m.unique_active;
      same_find = m.same_find;
    } in
    (q', rw (nothing, sizes_agree-IsValid q' v') refl, v', m.left_eq, m.expired_eq)
