-- ===== src/AsyncOutputer/Order.antt =====
-- The bytes handed over reach the file in their order, whatever the threads do.
use mathlib.Core.List.{append-nil, append_assoc}
use mathlib.Core.Path.{subst}
use muzi.Prelude.{
  ℕ, ◌-◌, ◌<◌, ◌≤◌, ◌≡◌, refl, sym, ap, ◌∙◌, Bool, true, false, ◌||◌, List, [], ◌∷◌, ◌++◌, Option,
  none, some, arith, length, ltb, is_empty, is_empty→nil, Bool-cases, inl, inr, take, length-take,
}
use muzi.FixedBuffer.{FixedBuffer, init as new_buffer, clear}
use muzi.LogStream.{small_buff_size}
use muzi.AsyncOutputer.{
  AsyncOutputer, init, large_buff_size, writing, at, only, present, start, stop, flush_from, flush,
  output_to, output, test, collect_from, collect, lock, idle, testing, locking, waiting, wake, back,
  pop_back, bytes_of, cut_down, refill_second, recycle, write,
}
use muzi.AsyncOutputer.Run.{
  Action, call_start, call_stop, call_flush, call_output, test_loop, lock_mutex, wake_up, write_out,
  step, Run, Run-keeps,
}
use muzi.AsyncOutputer.Buffers.{fits, blank, sound, or_new_lem, output_lem}
use muzi.AsyncOutputer.Progress.{step-sound-some}

abbrev pub held : Option FixedBuffer → List ℕ
held none = []
held (some b) = b.bytes

-- What the full buffers and the current one hold, behind what the writing thread has taken over.
abbrev pub waiting_bytes : AsyncOutputer → List ℕ
waiting_bytes s = bytes_of s.buffers_to_write ++ (bytes_of s.buffers ++ held s.current_buffer)

abbrev pub InOrder : AsyncOutputer → Type 0
InOrder s = s.dropped ≡ 0 → s.accepted ≡ s.written ++ waiting_bytes s

abbrev InOrderAfter : Option AsyncOutputer → Type 0
InOrderAfter none = Unit
InOrderAfter (some s) = InOrder s

pub bytes_of-snoc :
    (bs : List FixedBuffer) (b : FixedBuffer) → bytes_of (bs ++ b ∷ []) ≡ bytes_of bs ++ b.bytes
bytes_of-snoc [] b = append-nil b.bytes
bytes_of-snoc (x ∷ bs) b =
    ap (λ l. x.bytes ++ l) (bytes_of-snoc bs b) ∙ sym (append_assoc x.bytes (bytes_of bs) b.bytes)

only-InOrder : (b : Bool) (r : Option AsyncOutputer) → InOrderAfter r → InOrderAfter (only b r)
only-InOrder true r h = h
only-InOrder false r h = tt

flush_from-InOrder :
    (o : Option FixedBuffer) (s : AsyncOutputer)
    → s.current_buffer ≡ o
    → blank s.next_buffer ≡ true
    → InOrder s
    → InOrderAfter (flush_from o s)
flush_from-InOrder none s e n h = tt
flush_from-InOrder (some b) s e n h = λ d.
    h d
    ∙ ap (λ c. s.written ++ (bytes_of s.buffers_to_write ++ (bytes_of s.buffers ++ held c))) e
    ∙ ap (λ l. s.written ++ (bytes_of s.buffers_to_write ++ l))
        (sym (bytes_of-snoc s.buffers b) ∙ sym (append-nil (bytes_of (s.buffers ++ b ∷ []))))
    ∙ ap (λ l. s.written ++ (bytes_of s.buffers_to_write ++ (bytes_of (s.buffers ++ b ∷ []) ++ l)))
        (sym (or_new_lem s.next_buffer n))

-- A message behind the bytes that wait.
append_three :
    (w t b c msg : List ℕ) → (w ++ (t ++ (b ++ c))) ++ msg ≡ w ++ (t ++ ((b ++ c) ++ msg))
append_three w t b c msg =
    append_assoc w (t ++ (b ++ c)) msg ∙ ap (λ l. w ++ l) (append_assoc t (b ++ c) msg)

output_to-InOrder :
    (msg : List ℕ) (o : Option FixedBuffer) (s : AsyncOutputer)
    → s.current_buffer ≡ o
    → length msg < small_buff_size
    → sound s ≡ true
    → InOrder s
    → InOrderAfter (output_to msg o s)
output_to-InOrder msg none s e m v h = tt
output_to-InOrder msg (some b) s e m v h =
    let f : ltb (length b.bytes) large_buff_size ≡ true = ground (arith, ap fits e, v) in
    let W = s.written in
    let T = bytes_of s.buffers_to_write in
    let B = bytes_of s.buffers in
    let said : (d : s.dropped ≡ 0) → s.accepted ++ msg ≡ W ++ (T ++ ((B ++ b.bytes) ++ msg)) = λ d.
      ap (λ l. l ++ msg) (h d ∙ ap (λ c. W ++ (T ++ (B ++ held c))) e)
      ∙ append_three W T B b.bytes msg in
    elim (output_lem msg s b (ground (arith, v)) (ground (arith, f)) m) [
      | inl full ↦
          rw full (λ d. said d ∙ ap (λ l. W ++ (T ++ (l ++ msg))) (sym (bytes_of-snoc s.buffers b)))
      | inr (left, short) ↦
          rw left (λ d. said d ∙ ap (λ l. W ++ (T ++ l)) (append_assoc B b.bytes msg))
    ]

collect_from-InOrder :
    (o : Option FixedBuffer) (s : AsyncOutputer)
    → s.current_buffer ≡ o
    → is_empty s.buffers_to_write ≡ true
    → blank s.new_buffer1 ≡ true
    → InOrder s
    → InOrderAfter (collect_from o s)
collect_from-InOrder none s e w n h = tt
collect_from-InOrder (some b) s e w n h = λ d.
    let none_left : s.buffers_to_write ≡ [] = is_empty→nil s.buffers_to_write w in
    h d
    ∙ ap (λ c. s.written ++ (bytes_of s.buffers_to_write ++ (bytes_of s.buffers ++ held c))) e
    ∙ ap (λ l. s.written ++ (bytes_of l ++ (bytes_of s.buffers ++ b.bytes))) none_left
    ∙ ap (λ l. s.written ++ l)
        (sym (bytes_of-snoc s.buffers b) ∙ sym (append-nil (bytes_of (s.buffers ++ b ∷ []))))
    ∙ ap (λ l. s.written ++ (bytes_of (s.buffers ++ b ∷ []) ++ l))
        (sym (held_blank s.new_buffer1 n)
          ∙ ap (λ l. bytes_of l ++ held s.new_buffer1) (sym none_left))
  where
    held_blank : (c : Option FixedBuffer) → blank c ≡ true → held c ≡ []
    held_blank none q = refl
    held_blank (some x) q = is_empty→nil x.bytes q

-- Nothing is dropped when the count of dropped buffers stays.
pub cut_all :
    (n : ℕ) (bs : List FixedBuffer)
    → 2 ≤ n
    → length bs - length (cut_down n bs) ≡ 0
    → cut_down n bs ≡ bs
cut_all n bs n2 d = elim (Bool-cases (ltb n (length bs))) [
  | inl more ↦
      let two : length (cut_down n bs) ≡ length (take 2 bs) = rw more refl in
      absurd (ground (arith, length-take 2 bs))
  | inr all ↦ rw all refl
]

recycle-InOrder :
    (o c : Option FixedBuffer) (s : AsyncOutputer) → InOrder s → InOrderAfter (recycle o c s)
recycle-InOrder none c s h = tt
recycle-InOrder (some x) c s h = elim (Bool-cases (present s.new_buffer2)) [
  | inl on ↦ rw on h
  | inr off ↦ rw off (second c)
]
  where
    second :
        (c : Option FixedBuffer)
        → InOrderAfter (refill_second c (record s { new_buffer1 = some (clear x) }))
    second none = tt
    second (some y) = h

write-InOrder : (s : AsyncOutputer) → InOrder s → InOrderAfter (write s)
unfolding write
write-InOrder s h =
    let kept = cut_down 25 s.buffers_to_write in
    only-InOrder (at s writing) _ (
      recycle-InOrder (back (cut_down 2 kept)) (back (pop_back (cut_down 2 kept))) _ (λ d.
        let all : kept ≡ s.buffers_to_write =
          cut_all 25 s.buffers_to_write (omega arith) (omega arith) in
        h (omega arith)
        ∙ ap (λ l. s.written ++ (bytes_of l ++ (bytes_of s.buffers ++ held s.current_buffer)))
            (sym all)
        ∙ sym
            (append_assoc s.written (bytes_of kept) (bytes_of s.buffers ++ held s.current_buffer))))

step-InOrder :
    (a : Action) (s : AsyncOutputer) → sound s ≡ true → InOrder s → InOrderAfter (step a s)
unfolding step start stop flush output test lock wake collect
step-InOrder call_start s v h = elim (Bool-cases (at s idle)) [
  | inl on ↦ rw on h
  | inr off ↦ rw off tt
]
step-InOrder call_stop s v h = elim (Bool-cases (at s idle)) [
  | inl on ↦ rw on tt
  | inr off ↦ rw off h
]
step-InOrder call_flush s v h = flush_from-InOrder s.current_buffer s refl (ground (arith, v)) h
step-InOrder (call_output msg) s v h = elim (Bool-cases (ltb (length msg) small_buff_size)) [
  | inl on ↦ rw on (output_to-InOrder msg s.current_buffer s refl (ground arith) v h)
  | inr off ↦ rw off tt
]
step-InOrder test_loop s v h = elim (Bool-cases (s.running || s.last_write)) [
  | inl on ↦ rw on (only-InOrder (at s testing) _ h)
  | inr off ↦ rw off (only-InOrder (at s testing) _ h)
]
step-InOrder lock_mutex s v h = elim (Bool-cases (at s locking)) [
  | inl on ↦ rw on (elim (Bool-cases (is_empty s.buffers)) [
    | inl nothing ↦ rw nothing h
    | inr full ↦ rw full (
        collect_from-InOrder s.current_buffer s refl (ground (arith, v, on)) (ground (arith, v, on))
          h)
  ])
  | inr off ↦ rw off tt
]
step-InOrder wake_up s v h = elim (Bool-cases (at s waiting)) [
  | inl on ↦ rw on (
      collect_from-InOrder s.current_buffer s refl (ground (arith, v, on)) (ground (arith, v, on))
        h)
  | inr off ↦ rw off tt
]
step-InOrder write_out s v h = write-InOrder s h

-- What every action keeps.
pub record IsValid (s : AsyncOutputer) : Type 0 where
  pub is_sound : sound s ≡ true
  pub in_order : InOrder s

pub step-IsValid : (a : Action) (s s₁ : AsyncOutputer) → step a s ≡ some s₁ → IsValid s → IsValid s₁
step-IsValid a s s₁ e v = record {
  is_sound = step-sound-some a s s₁ e v.is_sound;
  in_order = subst InOrderAfter e (step-InOrder a s v.is_sound v.in_order);
}

pub init-IsValid : IsValid init
unfolding init new_buffer
init-IsValid = record { is_sound = refl; in_order = λ d. refl }

-- As long as no buffer is dropped, the bytes that have been handed over are those in the file, those
-- the writing thread has taken over, and those in the buffers, in this order: none is lost or
-- repeated, and no log line is torn.
pub accepted-written :
    {acts : List Action} {s : AsyncOutputer}
    → Run init acts s
    → s.dropped ≡ 0
    → s.accepted ≡ s.written ++ waiting_bytes s
accepted-written r d = (Run-keeps IsValid step-IsValid r init-IsValid).in_order d
