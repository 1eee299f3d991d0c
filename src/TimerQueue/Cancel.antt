-- ===== src/TimerQueue/Cancel.antt =====
-- CancelTimerInLoop().
use muzi.Prelude.{
  ℕ, ◌≡◌, inl, inr, refl, sym, ap, ◌∙◌, true, false, not, ◌&&◌, List, [], ◌∷◌, none, some, arith,
  ◌==◌, if◌then◌else◌, Bool-cases, Option-cases,
}
use mathlib.Core.Path.{subst}
use muzi.TimerQueue.{
  Timer, TimerQueue, less, same_entry, set_has, set_erase, find, erase, has, check, cancel_found,
  cancel_timer_in_loop,
}
use muzi.TimerQueue.Invariant.{
  AllAbove, Sorted, UniqueIds, IsValid, find-erase, erase-UniqueIds, sizes_agree-IsValid,
}

find-head :
    (i : ℕ) (x : Timer) {t : Timer} (xs : List Timer)
    → (x.sequence == i) ≡ true
    → find i (x ∷ xs) ≡ some t
    → x ≡ t
find-head i x xs here h =
    ap (λ o. elim o [ none ↦ x | some u ↦ u ])
      (sym (ap (λ b. if b then some x else find i xs) here) ∙ h)

same_entry_refl : (x : Timer) → same_entry x x ≡ true
same_entry_refl x = ground arith

AllAbove-find :
    (x : Timer) (i : ℕ) (t : Timer) (xs : List Timer)
    → AllAbove x xs
    → find i xs ≡ some t
    → less x t ≡ true
AllAbove-find x i t [] a h = cc
AllAbove-find x i t (y ∷ ys) (a, more) h = elim (Bool-cases (y.sequence == i)) [
  | inl here ↦ subst (λ u. less x u ≡ true) (find-head i y ys here h) a
  | inr later ↦ AllAbove-find x i t ys more (ground arith)
]

AllAbove-erase : (x : Timer) (i : ℕ) (xs : List Timer) → AllAbove x xs → AllAbove x (erase i xs)
AllAbove-erase x i [] a = tt
AllAbove-erase x i (y ∷ ys) (a, more) = elim (Bool-cases (y.sequence == i)) [
  | inl here ↦ rw here more
  | inr later ↦ rw later (a, AllAbove-erase x i ys more)
]

erase-Sorted : (i : ℕ) (xs : List Timer) → Sorted xs → Sorted (erase i xs)
erase-Sorted i [] s = tt
erase-Sorted i (y ∷ ys) (a, s) = elim (Bool-cases (y.sequence == i)) [
  | inl here ↦ rw here s
  | inr later ↦ rw later (AllAbove-erase y i ys a, erase-Sorted i ys s)
]

-- The entry of a timer that the map has under an id is the entry with that id.
set_erase-erase :
    (i : ℕ) (t : Timer) (xs : List Timer)
    → Sorted xs
    → find i xs ≡ some t
    → (set_has t xs ≡ true) × (set_erase t xs ≡ erase i xs)
set_erase-erase i t [] s h = cc
set_erase-erase i t (x ∷ xs) (a, s) h = elim (Bool-cases (x.sequence == i)) [
  | inl here ↦
      let e = find-head i x xs here h in
      let same : same_entry x t ≡ true = subst (λ u. same_entry x u ≡ true) e (same_entry_refl x) in
      rw (here, same) (refl, refl)
  | inr later ↦
      let below : less x t ≡ true = AllAbove-find x i t xs a (ground arith) in
      let other : same_entry x t ≡ false = ground arith in
      let (has_it, same) = set_erase-erase i t xs s (ground arith) in
      rw (later, other) (has_it, ap (λ l. x ∷ l) same)
]

-- What CancelTimerInLoop() of an id is to do: it does not fail, it leaves a valid queue with all
-- timers but the one of the id, and an id that the queue does not have is remembered while
-- callbacks run.
abbrev pub Cancels : TimerQueue → ℕ → Type 0
Cancels q i =
    (q' : TimerQueue) × (cancel_timer_in_loop q i ≡ some q')
    × IsValid q'
    × ((j : ℕ) → find j q'.timers ≡ (if j == i then none else find j q.timers))
    × (q'.canceling_timers ≡ (
        if q.is_executing_timers && not (has i q.timers)
        then i ∷ q.canceling_timers
        else q.canceling_timers))

check-IsValid : (q : TimerQueue) → IsValid q → check q ≡ some q
check-IsValid q v = rw (sizes_agree-IsValid q v) refl

kept_absent :
    (i j : ℕ) (xs : List Timer)
    → find i xs ≡ none
    → find j xs ≡ (if j == i then none else find j xs)
kept_absent i j xs absent = grind arith

cancel_absent : (q : TimerQueue) (i : ℕ) → IsValid q → find i q.timers ≡ none → Cancels q i
unfolding cancel_timer_in_loop cancel_found
cancel_absent q i v absent =
    let absent' : find i q.active_timers ≡ none = sym (v.same_find i) ∙ absent in
    let kept : (j : ℕ) → find j q.timers ≡ (if j == i then none else find j q.timers) =
      λ j. kept_absent i j q.timers absent in
    let q' = record q { canceling_timers = i ∷ q.canceling_timers } in
    let v' : IsValid q' = record {
      sorted = v.sorted;
      unique = v.unique;
      unique_active = v.unique_active;
      same_find = v.same_find;
    } in
    elim (Bool-cases q.is_executing_timers) [
      | inl on ↦ (
        q',
        rw absent' (ap (λ b. check (if b then q' else q)) on ∙ check-IsValid q' v'),
        v',
        kept,
        rw (absent, on) refl,
      )
      | inr off ↦ (
        q,
        rw absent' (ap (λ b. check (if b then q' else q)) off ∙ check-IsValid q v),
        v,
        kept,
        rw (absent, off) refl,
      )
    ]

cancel_present :
    (q : TimerQueue) (i : ℕ) (t : Timer) → IsValid q → find i q.timers ≡ some t → Cancels q i
unfolding cancel_timer_in_loop cancel_found
cancel_present q i t v found =
    let (has_it, same) = set_erase-erase i t q.timers v.sorted found in
    let q' = record q { timers = set_erase t q.timers; active_timers = erase i q.active_timers } in
    let gone : (j : ℕ) → find j q'.timers ≡ (if j == i then none else find j q.timers) =
      λ j. ap (find j) same ∙ find-erase j i q.timers v.unique in
    let v' : IsValid q' = record {
      sorted = subst Sorted (sym same) (erase-Sorted i q.timers v.sorted);
      unique = subst UniqueIds (sym same) (erase-UniqueIds i q.timers v.unique);
      unique_active = erase-UniqueIds i q.active_timers v.unique_active;
      same_find = λ j.
          gone j
          ∙ ap (λ r. if j == i then none else r) (v.same_find j)
          ∙ sym (find-erase j i q.active_timers v.unique_active);
    } in
    let found' : find i q.active_timers ≡ some t = sym (v.same_find i) ∙ found in
    (q', rw (found', has_it) (check-IsValid q' v'), v', gone, rw found (ground arith))

-- CancelTimerInLoop() on a valid queue cannot fail and leaves a valid queue with all timers but
-- the one of the id. An id that the queue does not have is remembered while callbacks run.
pub cancel_timer_in_loop_lem : (q : TimerQueue) (i : ℕ) → IsValid q → Cancels q i
cancel_timer_in_loop_lem q i v = elim (Option-cases (find i q.timers)) [
  | inl absent ↦ cancel_absent q i v absent
  | inr (t, found) ↦ cancel_present q i t v found
]
