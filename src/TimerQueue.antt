-- ===== src/TimerQueue.antt =====
-- muzi/net/timer_queue.h, timer_queue.cc and timer.cc: the timers of a loop. Times are in
-- microseconds, and an invalid time is 0. A timer's object is its value, with its address; what a
-- callback does to the queue is a list of calls, and the clock's readings are arguments. Every
-- function runs in the loop's thread, and `none` is a failed assertion or a fatal log line.
pub mod Invariant
pub mod Insert
pub mod Cancel
pub mod Expiry
pub mod Restart
mod Examples
use muzi.Prelude.{
  ℕ, suc, ◌+◌, ◌-◌, Bool, true, false, not, ◌&&◌, ◌||◌, List, [], ◌∷◌, ◌++◌, Option, none, some,
  length, ltb, leb, ◌==◌, if◌then◌else◌,
}

pub record Timer : Type 0 where
  pub expiration : ℕ
  pub interval : ℕ
  pub repeated : Bool
  pub sequence : ℕ
  pub address : ℕ

-- timers_ in its order, the values of active_timers_, and the relative time that the timer
-- descriptor is armed with.
pub record TimerQueue : Type 0 where
  pub timers : List Timer
  pub active_timers : List Timer
  pub expired_timers : List Timer
  pub canceling_timers : List ℕ
  pub is_executing_timers : Bool
  pub armed : Option ℕ

unfoldable pub init : TimerQueue
init = record {
  timers = [];
  active_timers = [];
  expired_timers = [];
  canceling_timers = [];
  is_executing_timers = false;
  armed = none;
}

-- CompareEntry
abbrev pub less : Timer → Timer → Bool
less s t =
    ltb s.expiration t.expiration || ((s.expiration == t.expiration) && ltb s.address t.address)

-- insert(), find() and erase() of the std::set: entries of which neither is less are the same.
abbrev pub same_entry : Timer → Timer → Bool
same_entry s t = not (less s t) && not (less t s)

abbrev pub set_has : Timer → List Timer → Bool
set_has t [] = false
set_has t (x ∷ xs) = same_entry x t || set_has t xs

abbrev pub set_insert : Timer → List Timer → List Timer
set_insert t [] = t ∷ []
set_insert t (x ∷ xs) = let rest = set_insert t xs in if less t x then t ∷ x ∷ xs else x ∷ rest

abbrev pub set_erase : Timer → List Timer → List Timer
set_erase t [] = []
set_erase t (x ∷ xs) = let rest = set_erase t xs in if same_entry x t then xs else x ∷ rest

-- find() and erase() of the std::map.
abbrev pub find : ℕ → List Timer → Option Timer
find i [] = none
find i (x ∷ xs) = if x.sequence == i then some x else find i xs

abbrev pub erase : ℕ → List Timer → List Timer
erase i [] = []
erase i (x ∷ xs) = let rest = erase i xs in if x.sequence == i then xs else x ∷ rest

abbrev pub is_some : Option Timer → Bool
is_some none = false
is_some (some t) = true

abbrev pub has : ℕ → List Timer → Bool
has i xs = is_some (find i xs)

abbrev pub mem_id : ℕ → List ℕ → Bool
mem_id i [] = false
mem_id i (j ∷ js) = (i == j) || mem_id i js

abbrev pub sizes_agree : TimerQueue → Bool
sizes_agree q = length q.timers == length q.active_timers

abbrev pub check : TimerQueue → Option TimerQueue
check q = if sizes_agree q then some q else none

-- ResetTimerFd(): the relative time for a timer that expires at `time`.
pub reset_timer_fd : ℕ → ℕ → ℕ
reset_timer_fd clock time = if ltb clock time then time - clock else 10

-- Timer::Restart()
pub restart : ℕ → Timer → Timer
restart now t = record t { expiration = now + t.interval }

abbrev pub is_earliest : Timer → List Timer → Bool
is_earliest t [] = true
is_earliest t (x ∷ xs) = ltb t.expiration x.expiration

pub insert : TimerQueue → Timer → Option (TimerQueue × Bool)
insert q t =
    let q' = record q { timers = set_insert t q.timers; active_timers = t ∷ q.active_timers } in
    if not (set_has t q.timers) && (not (has t.sequence q.active_timers) && sizes_agree q')
    then some (q', is_earliest t q.timers)
    else none

abbrev pub arm : ℕ → Timer → TimerQueue × Bool → TimerQueue
arm clock t (q, earliest) =
    if earliest then record q { armed = some (reset_timer_fd clock t.expiration) } else q

pub add_timer_in_loop : ℕ → TimerQueue → Timer → Option TimerQueue
add_timer_in_loop clock q t = elim (insert q t) [ none ↦ none | some r ↦ some (arm clock t r) ]

-- AddTimer() from the loop's thread, with the timer that it makes.
pub add_timer : ℕ → TimerQueue → Timer → Option TimerQueue
add_timer clock q t = if ltb 0 t.expiration then add_timer_in_loop clock q t else none

-- CancelTimerInLoop(), by what active_timers_ has under the id.
pub cancel_found : TimerQueue → ℕ → Option Timer → Option TimerQueue
cancel_found q i (some t) =
    if set_has t q.timers
    then check (record q { timers = set_erase t q.timers; active_timers = erase i q.active_timers })
    else none
cancel_found q i none =
    check
      (if q.is_executing_timers then record q { canceling_timers = i ∷ q.canceling_timers } else q)

pub cancel_timer_in_loop : TimerQueue → ℕ → Option TimerQueue
cancel_timer_in_loop q i = cancel_found q i (find i q.active_timers)

-- The loop of GetExpired() over the entries before upper_bound(now), and what is left of the set.
pub take_expired : ℕ → List Timer → List Timer → List Timer → List Timer × List Timer × List Timer
take_expired now [] active expired = ([], active, expired)
take_expired now (x ∷ xs) active expired =
    let rest = take_expired now xs (erase x.sequence active) (expired ++ x ∷ []) in
    if leb x.expiration now then rest else (x ∷ xs, active, expired)

abbrev pub none_expired : List Timer → Bool
none_expired [] = true
none_expired (x ∷ xs) = false

pub get_expired : ℕ → TimerQueue → Option TimerQueue
get_expired now q =
    let (left, active, expired) = take_expired now q.timers q.active_timers [] in
    if none_expired q.expired_timers
    then check (record q { timers = left; active_timers = active; expired_timers = expired })
    else none

-- The loop of ResetTimer().
pub reinsert : ℕ → List Timer → TimerQueue → Option TimerQueue
reinsert now [] q = some q
reinsert now (t ∷ ts) q =
    let skip = reinsert now ts q in
    if t.repeated && not (mem_id t.sequence q.canceling_timers)
    then elim (insert q (restart now t)) [ none ↦ none | some (q', e) ↦ reinsert now ts q' ]
    else skip

abbrev pub rearm : ℕ → List Timer → Option ℕ → Option ℕ
rearm clock [] armed = armed
rearm clock (t ∷ ts) armed =
    if ltb 0 t.expiration then some (reset_timer_fd clock t.expiration) else armed

pub reset_timer : ℕ → ℕ → TimerQueue → Option TimerQueue
reset_timer now clock q = elim (reinsert now q.expired_timers q) [
  | none ↦ none
  | some q' ↦ some (record q' {
    expired_timers = [];
    canceling_timers = [];
    armed = rearm clock q'.timers q'.armed;
  })
]

-- What a timer's callback does to the queue.
pub data Call : Type 0 where
  add : ℕ → Timer → Call
  cancel : ℕ → Call

pub make_call : Call → TimerQueue → Option TimerQueue
make_call (add clock t) q = add_timer clock q t
make_call (cancel i) q = cancel_timer_in_loop q i

pub run_all : List Call → TimerQueue → Option TimerQueue
run_all [] q = some q
run_all (k ∷ ks) q = elim (make_call k q) [ none ↦ none | some q' ↦ run_all ks q' ]

abbrev ◌>>=◌ {ℓ κ} : {A : Type ℓ} {B : Type κ} → Option A → (A → Option B) → Option B
◌>>=◌ none f = none
◌>>=◌ (some a) f = f a

-- HandleRead(): `calls` are those of the callbacks of the expired timers, in their order.
pub handle_read : ℕ → ℕ → (List Timer → List Call) → TimerQueue → Option TimerQueue
handle_read now clock calls q = do
  q₁ ← get_expired now q
  q₂ ← run_all (calls q₁.expired_timers) (record q₁ { is_executing_timers = true })
  reset_timer now clock (record q₂ { is_executing_timers = false })
