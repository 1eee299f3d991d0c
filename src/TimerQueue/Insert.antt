-- ===== src/TimerQueue/Insert.antt =====
-- Insert() of a new timer.
use muzi.Prelude.{
  ℕ, ◌≡◌, inl, inr, refl, sym, ap, ◌∙◌, Bool, true, false, ◌&&◌, ◌||◌, List, [], ◌∷◌, none, some,
  arith, ltb, ◌==◌, if◌then◌else◌, Bool-cases,
}
use muzi.TimerQueue.{Timer, TimerQueue, less, set_has, set_insert, find, is_earliest, insert}
use muzi.TimerQueue.Invariant.{
  AllAbove, Sorted, IsValid, set_insert-Sorted, find-set_insert, set_insert-UniqueIds,
  sizes_agree-IsValid,
}

-- Whether a timer expires before each of a list.
abbrev pub all_later : Timer → List Timer → Bool
all_later t [] = true
all_later t (x ∷ xs) = ltb t.expiration x.expiration && all_later t xs

AllAbove-all_later :
    (t x : Timer) (xs : List Timer)
    → ltb t.expiration x.expiration ≡ true
    → AllAbove x xs
    → all_later t xs ≡ true
AllAbove-all_later t x [] h a = refl
AllAbove-all_later t x (y ∷ ys) h (a, more) =
    let tail = AllAbove-all_later t x ys h more in ground arith

is_earliest-all_later :
    (t : Timer) (xs : List Timer) → Sorted xs → is_earliest t xs ≡ all_later t xs
is_earliest-all_later t [] s = refl
is_earliest-all_later t (x ∷ xs) (a, s) = elim (Bool-cases (ltb t.expiration x.expiration)) [
  | inl sooner ↦ rw (sooner, AllAbove-all_later t x xs sooner a) refl
  | inr later ↦ rw later refl
]

abbrev pub has_address : ℕ → List Timer → Bool
has_address a [] = false
has_address a (x ∷ xs) = (x.address == a) || has_address a xs

has_address-set_insert :
    (a : ℕ) (t : Timer) (xs : List Timer) → has_address a (set_insert t xs) ≡ has_address a (t ∷ xs)
has_address-set_insert a t [] = refl
has_address-set_insert a t (x ∷ xs) =
    let tail = has_address-set_insert a t xs in
    elim (Bool-cases (less t x)) [
      | inl first ↦ rw first refl
      | inr later ↦ rw (later, tail) (ground arith)
    ]

-- An entry at an address that the set does not have is new to it.
pub set_has-has_address :
    (t : Timer) (xs : List Timer) → has_address t.address xs ≡ false → set_has t xs ≡ false
set_has-has_address t [] h = refl
set_has-has_address t (x ∷ xs) h =
    let tail = set_has-has_address t xs (ground arith) in ground arith

-- Insert() of a timer whose id and entry are new to a valid queue cannot fail. The queue stays
-- valid, has the new timer besides the old ones, by their ids and by their addresses, and the
-- same ids to cancel, and the result says whether the new timer expires before all others.
pub insert_lem :
    (q : TimerQueue) (t : Timer)
    → IsValid q
    → set_has t q.timers ≡ false
    → find t.sequence q.timers ≡ none
    → (q' : TimerQueue) × (insert q t ≡ some (q', all_later t q.timers))
      × IsValid q'
      × ((i : ℕ) → find i q'.timers ≡ find i (t ∷ q.timers))
      × (q'.canceling_timers ≡ q.canceling_timers)
      × ((a : ℕ) → has_address a q'.timers ≡ has_address a (t ∷ q.timers))
unfolding insert
insert_lem q t v new_entry new_id =
    let q' = record q { timers = set_insert t q.timers; active_timers = t ∷ q.active_timers } in
    let found : (i : ℕ) → find i q'.timers ≡ find i (t ∷ q.timers) =
      λ i. find-set_insert i t q.timers new_id in
    let v' : IsValid q' = record {
      sorted = set_insert-Sorted t q.timers new_entry v.sorted;
      unique = set_insert-UniqueIds t q.timers new_id v.unique;
      unique_active = (sym (v.same_find t.sequence) ∙ new_id, v.unique_active);
      same_find = λ i. found i ∙ ap (λ r. if t.sequence == i then some t else r) (v.same_find i);
    } in
    let sizes = sizes_agree-IsValid q' v' in
    let absent : find t.sequence q.active_timers ≡ none = v'.unique_active.0 in
    (
      q',
      rw (new_entry, absent, sizes, is_earliest-all_later t q.timers v.sorted) refl,
      v',
      found,
      refl,
      λ a. has_address-set_insert a t q.timers,
    )
