-- ===== src/TimerQueue/Restart.antt =====
-- ResetTimer().
use muzi.Prelude.{
  ℕ, ◌+◌, ◌≡◌, inl, inr, refl, sym, ap, ◌∙◌, Bool, false, not, ◌&&◌, List, [], ◌∷◌, none, some,
  arith, if◌then◌else◌, Bool-cases,
}
use muzi.TimerQueue.{Timer, TimerQueue, find, mem_id, restart, reinsert, reset_timer, rearm}
use muzi.TimerQueue.Invariant.{IsValid}
use muzi.TimerQueue.Insert.{has_address, set_has-has_address, insert_lem}

-- Whether ResetTimer() restarts a timer, with the ids to cancel.
abbrev pub restarts : List ℕ → Timer → Bool
restarts ids t = t.repeated && not (mem_id t.sequence ids)

-- The timers `xs` with those of the others that are due again in front, one interval after `now`.
abbrev pub with_restarted : ℕ → List ℕ → List Timer → List Timer → List Timer
with_restarted now ids [] xs = xs
with_restarted now ids (t ∷ ts) xs =
    let again : Timer = record t { expiration = now + t.interval } in
    with_restarted now ids ts (if restarts ids t then again ∷ xs else xs)

-- No id and no address of a list of timers stands in another or twice.
abbrev pub Apart : List Timer → List Timer → Type 0
Apart [] xs = Unit
Apart (t ∷ ts) xs =
    (find t.sequence xs ≡ none) × ((has_address t.address xs ≡ false) × Apart ts (t ∷ xs))

Apart-sub :
    (ts xs ys : List Timer)
    → ((i : ℕ) → find i xs ≡ none → find i ys ≡ none)
    → ((a : ℕ) → has_address a xs ≡ false → has_address a ys ≡ false)
    → Apart ts xs
    → Apart ts ys
Apart-sub [] xs ys f g a = tt
Apart-sub (t ∷ ts) xs ys f g (no_id, (no_address, more)) = (
  f t.sequence no_id,
  (
    g t.address no_address,
    Apart-sub ts (t ∷ xs) (t ∷ ys) (λ i h. let e = f i in ground arith)
        (λ a h. let e = g a in ground arith) more,
  ),
)

find-with_restarted :
    (now : ℕ) (ids : List ℕ) (ts xs ys : List Timer)
    → ((i : ℕ) → find i xs ≡ find i ys)
    → (i : ℕ) → find i (with_restarted now ids ts xs) ≡ find i (with_restarted now ids ts ys)
find-with_restarted now ids [] xs ys f i = f i
find-with_restarted now ids (t ∷ ts) xs ys f i =
    find-with_restarted now ids ts _ _ (λ j. let e = f j in ground arith) i

reinsert_lem :
    (now : ℕ) (ts : List Timer) (q : TimerQueue)
    → IsValid q
    → Apart ts q.timers
    → (q' : TimerQueue) × (reinsert now ts q ≡ some q')
      × IsValid q'
      × ((i : ℕ) → find i q'.timers ≡ find i (with_restarted now q.canceling_timers ts q.timers))
unfolding reinsert restart
reinsert_lem now [] q v a = (q, refl, v, λ i. refl)
reinsert_lem now (t ∷ ts) q v (no_id, (no_address, more)) =
    elim (Bool-cases (restarts q.canceling_timers t)) [
      | inl again ↦
          let t' = restart now t in
          let (q₁, e, v₁, ids₁, same, addresses₁) =
            insert_lem q t' v (set_has-has_address t' q.timers no_address) no_id in
          let apart₁ : Apart ts q₁.timers =
            Apart-sub ts (t ∷ q.timers) q₁.timers (λ i h. let f = ids₁ i in ground arith)
              (λ a h. let g = addresses₁ a in ground arith) more in
          let (q', e', v', found) = reinsert_lem now ts q₁ v₁ apart₁ in
          (
            q',
            rw (again, e) e',
            v',
            λ i.
                found i
                ∙ ap (λ ids. find i (with_restarted now ids ts q₁.timers)) same
                ∙ find-with_restarted now q.canceling_timers ts q₁.timers (t' ∷ q.timers) ids₁ i
                ∙ ap
                    (λ b. find i (
                      with_restarted now q.canceling_timers ts
                        (if b then t' ∷ q.timers else q.timers)))
                    (sym again),
          )
      | inr over ↦
          let apart₁ : Apart ts q.timers =
            Apart-sub ts (t ∷ q.timers) q.timers (λ i h. ground arith) (λ a h. ground arith) more in
          let (q', e', v', found) = reinsert_lem now ts q v apart₁ in
          (
            q',
            rw over e',
            v',
            λ i.
                found i
                ∙ ap
                    (λ b. find i (
                      with_restarted now q.canceling_timers ts
                        (if b then restart now t ∷ q.timers else q.timers)))
                    (sym over),
          )
    ]

-- ResetTimer() on a valid queue whose expired timers are not in it cannot fail and leaves a valid
-- queue: each expired timer that repeats and has not been cancelled meanwhile is in it again, to
-- expire at `now` and its interval, and otherwise as it was; no other is added, and no expired timer
-- and no id to cancel is left at hand.
pub reset_timer_lem :
    (now clock : ℕ) (q : TimerQueue)
    → IsValid q
    → Apart q.expired_timers q.timers
    → (q' : TimerQueue) × (reset_timer now clock q ≡ some q')
      × IsValid q'
      × ((i : ℕ)
          → find i q'.timers
            ≡ find i (with_restarted now q.canceling_timers q.expired_timers q.timers))
      × (q'.expired_timers ≡ [])
      × (q'.canceling_timers ≡ [])
unfolding reset_timer
reset_timer_lem now clock q v apart =
    let (q₁, e, v₁, found) = reinsert_lem now q.expired_timers q v apart in
    (
      record q₁ {
        expired_timers = [];
        canceling_timers = [];
        armed = rearm clock q₁.timers q₁.armed;
      },
      rw (reset_timer, e) refl,
      record {
        sorted = v₁.sorted;
        unique = v₁.unique;
        unique_active = v₁.unique_active;
        same_find = v₁.same_find;
      },
      found,
      refl,
      refl,
    )
