-- ===== src/TimerQueue/Invariant.antt =====
-- The ordered set and the map of timers hold the same timers.
use muzi.Prelude.{
  ℕ, suc, ◌≡◌, inl, inr, refl, ap, ◌∙◌, true, false, List, [], ◌∷◌, none, some, arith, length, ◌==◌,
  if◌then◌else◌, Bool-cases,
}
use muzi.TimerQueue.{Timer, TimerQueue, less, set_has, set_insert, find, erase, has, sizes_agree}

-- A list of entries in strictly ascending order.
abbrev pub AllAbove : Timer → List Timer → Type 0
AllAbove t [] = Unit
AllAbove t (x ∷ xs) = (less t x ≡ true) × AllAbove t xs

abbrev pub Sorted : List Timer → Type 0
Sorted [] = Unit
Sorted (x ∷ xs) = AllAbove x xs × Sorted xs

-- No two timers of a list have one id.
abbrev pub UniqueIds : List Timer → Type 0
UniqueIds [] = Unit
UniqueIds (x ∷ xs) = (find x.sequence xs ≡ none) × UniqueIds xs

pub record IsValid (q : TimerQueue) : Type 0 where
  pub sorted : Sorted q.timers
  pub unique : UniqueIds q.timers
  pub unique_active : UniqueIds q.active_timers
  pub same_find : (i : ℕ) → find i q.timers ≡ find i q.active_timers

less_trans : (s t u : Timer) → less s t ≡ true → less t u ≡ true → less s u ≡ true
less_trans s t u h k = ground arith

pub AllAbove-less :
    (s t : Timer) (xs : List Timer) → less s t ≡ true → AllAbove t xs → AllAbove s xs
AllAbove-less s t [] h a = tt
AllAbove-less s t (x ∷ xs) h (a, more) = (less_trans s t x h a, AllAbove-less s t xs h more)

-- What the set's insertion does.
AllAbove-set_insert :
    (s t : Timer) (xs : List Timer) → less s t ≡ true → AllAbove s xs → AllAbove s (set_insert t xs)
AllAbove-set_insert s t [] h a = (h, tt)
AllAbove-set_insert s t (x ∷ xs) h (a, more) = elim (Bool-cases (less t x)) [
  | inl first ↦ rw first (h, (a, more))
  | inr later ↦ rw later (a, AllAbove-set_insert s t xs h more)
]

pub set_insert-Sorted :
    (t : Timer) (xs : List Timer) → set_has t xs ≡ false → Sorted xs → Sorted (set_insert t xs)
set_insert-Sorted t [] h s = (tt, tt)
set_insert-Sorted t (x ∷ xs) h (a, s) = elim (Bool-cases (less t x)) [
  | inl first ↦ rw first ((first, AllAbove-less t x xs first a), (a, s))
  | inr later ↦
      rw later
        (AllAbove-set_insert x t xs (ground arith) a, set_insert-Sorted t xs (ground arith) s)
]

pub find-set_insert :
    (i : ℕ) (t : Timer) (xs : List Timer)
    → find t.sequence xs ≡ none
    → find i (set_insert t xs) ≡ find i (t ∷ xs)
find-set_insert i t [] h = refl
find-set_insert i t (x ∷ xs) h =
    let apart : (x.sequence == t.sequence) ≡ false = ground arith in
    let tail = find-set_insert i t xs (ground arith) in
    elim (Bool-cases (less t x)) [
      | inl first ↦ rw first refl
      | inr later ↦ rw (later, tail) (ground arith)
    ]

pub set_insert-UniqueIds :
    (t : Timer) (xs : List Timer)
    → find t.sequence xs ≡ none
    → UniqueIds xs
    → UniqueIds (set_insert t xs)
set_insert-UniqueIds t [] h u = (refl, tt)
set_insert-UniqueIds t (x ∷ xs) h (u, us) =
    let apart : (x.sequence == t.sequence) ≡ false = ground arith in
    let absent : find t.sequence xs ≡ none = ground arith in
    elim (Bool-cases (less t x)) [
      | inl first ↦ rw first (h, (u, us))
      | inr later ↦ rw later (
        find-set_insert x.sequence t xs absent ∙ ground arith,
        set_insert-UniqueIds t xs absent us,
      )
    ]

-- Erasing an id.
pub find-erase :
    (i j : ℕ) (xs : List Timer)
    → UniqueIds xs
    → find i (erase j xs) ≡ (if i == j then none else find i xs)
find-erase i j [] u = ground arith
find-erase i j (x ∷ xs) (u, us) = let tail = find-erase i j xs us in ground arith

pub erase-UniqueIds : (j : ℕ) (xs : List Timer) → UniqueIds xs → UniqueIds (erase j xs)
erase-UniqueIds j [] u = tt
erase-UniqueIds j (x ∷ xs) (u, us) =
    let tail = find-erase x.sequence j xs us in
    let rest = erase-UniqueIds j xs us in
    elim (Bool-cases (x.sequence == j)) [
      | inl here ↦ rw here us
      | inr later ↦ rw later (ground arith, rest)
    ]

length-erase : (j : ℕ) (xs : List Timer) → has j xs ≡ true → suc (length (erase j xs)) ≡ length xs
length-erase j [] h = cc
length-erase j (x ∷ xs) h =
    let tail : (has j xs ≡ true) → suc (length (erase j xs)) ≡ length xs = length-erase j xs in
    elim (Bool-cases (x.sequence == j)) [
      | inl here ↦ rw here refl
      | inr later ↦ rw later (ap suc (tail (ground (arith, later, h))))
    ]

pub find-erase-absent :
    (i : ℕ) (x : Timer) (xs ys : List Timer)
    → find x.sequence xs ≡ none
    → UniqueIds ys
    → find i (x ∷ xs) ≡ find i ys
    → find i xs ≡ find i (erase x.sequence ys)
find-erase-absent i x xs ys u v f = let e = find-erase i x.sequence ys v in grind arith

-- Lists that hold the same ids once are of one length.
pub same_length :
    (xs ys : List Timer)
    → UniqueIds xs
    → UniqueIds ys
    → ((i : ℕ) → find i xs ≡ find i ys)
    → length xs ≡ length ys
same_length [] [] u v f = refl
same_length [] (y ∷ ys) u v f = ground (arith, f y.sequence)
same_length (x ∷ xs) ys (u, us) v f =
    let first : find x.sequence ys ≡ some x = ground (arith, f x.sequence) in
    ap suc (
      same_length xs (erase x.sequence ys) us (erase-UniqueIds x.sequence ys v)
        (λ i. find-erase-absent i x xs ys u v (f i)))
    ∙ length-erase x.sequence ys (ground (arith, first))

-- A valid queue passes the source's check of the sizes.
pub sizes_agree-IsValid : (q : TimerQueue) → IsValid q → sizes_agree q ≡ true
sizes_agree-IsValid q v =
    ground (arith, same_length q.timers q.active_timers v.unique v.unique_active v.same_find)
