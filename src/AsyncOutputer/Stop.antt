-- ===== src/AsyncOutputer/Stop.antt =====
-- The writing thread ends only when what was handed over before Stop() is in the file.
use mathlib.Core.Path.{subst}
use muzi.Prelude.{
  ℕ, ◌+◌, ◌-◌, ◌<◌, ◌≤◌, ◌≡◌, refl, sym, ap, ◌∙◌, Bool, true, false, not, ◌&&◌, ◌||◌, List, [], ◌∷◌,
  ◌++◌, Option, none, some, arith, length, ltb, leb, ◌==◌, is_empty→nil, if◌then◌else◌, Bool-cases,
  inl, inr, take, take-append_le, length-append,
}
use muzi.FixedBuffer.{FixedBuffer, init as new_buffer}
use muzi.LogStream.{small_buff_size}
use muzi.AsyncOutputer.{
  AsyncOutputer, init, large_buff_size, idle, testing, locking, waiting, writing, ended, at, start,
  stop, flush_from, flush, output_to, output, test, collect_from, collect, lock, wake, back,
  pop_back, bytes_of, cut_down, recycle, write,
}
use muzi.AsyncOutputer.Run.{
  Action, call_start, call_stop, call_flush, call_output, test_loop, lock_mutex, wake_up, write_out,
  step, Run, Run-keeps,
}
use muzi.AsyncOutputer.Buffers.{fits, sound, output_lem}
use muzi.AsyncOutputer.Order.{
  IsValid, init-IsValid, step-IsValid, cut_all, held, waiting_bytes, bytes_of-snoc,
}

-- In the last turn of the loop, the promised bytes are among those taken over, and then written.
abbrev pub promise : AsyncOutputer → Bool
promise s =
    not (s.dropped == 0)
    || (((not s.running && not (at s idle)) || s.last_write)
        && (leb s.promised (length s.accepted)
            && (if at s ended then not s.last_write else true)
            && (s.last_write
                || (if at s writing
                    then leb s.promised (length s.written + length (bytes_of s.buffers_to_write))
                    else (at s locking || (at s waiting || leb s.promised (length s.written)))))))

abbrev promise_after : Option AsyncOutputer → Bool
promise_after none = true
promise_after (some s) = promise s

flush_from-promise :
    (o : Option FixedBuffer) (s : AsyncOutputer)
    → promise s ≡ true
    → promise_after (flush_from o s) ≡ true
flush_from-promise none s h = refl
flush_from-promise (some b) s h = h

output_to-promise :
    (msg : List ℕ) (o : Option FixedBuffer) (s : AsyncOutputer)
    → s.current_buffer ≡ o
    → length msg < small_buff_size
    → sound s ≡ true
    → promise s ≡ true
    → promise_after (output_to msg o s) ≡ true
output_to-promise msg none s e m v h = refl
output_to-promise msg (some b) s e m v h =
    let f : ltb (length b.bytes) large_buff_size ≡ true = ground (arith, ap fits e, v) in
    let len = length-append s.accepted msg in
    elim (output_lem msg s b (ground (arith, v)) (ground (arith, f)) m) [
      | inl full ↦ rw full (ground (arith, h, len))
      | inr (left, short) ↦ rw left (ground (arith, h, len))
    ]

-- What is taken over is all that has been handed over and is not yet written.
length-taken :
    (s : AsyncOutputer) (b : FixedBuffer)
    → IsValid s
    → s.dropped ≡ 0
    → s.current_buffer ≡ some b
    → at s writing ≡ false
    → length s.accepted ≡ length s.written + length (bytes_of (s.buffers ++ b ∷ []))
length-taken s b v d e w =
    let none_left : s.buffers_to_write ≡ [] =
      is_empty→nil s.buffers_to_write (ground (arith, v.is_sound)) in
    ap length (v.in_order d)
    ∙ length-append s.written (waiting_bytes s)
    ∙ ap (λ n. length s.written + n)
        (ap (λ l. length (bytes_of l ++ (bytes_of s.buffers ++ held s.current_buffer))) none_left
          ∙ ap (λ c. length (bytes_of s.buffers ++ held c)) e
          ∙ ap length (sym (bytes_of-snoc s.buffers b)))

collect_from-promise :
    (o : Option FixedBuffer) (s : AsyncOutputer)
    → s.current_buffer ≡ o
    → at s writing ≡ false
    → at s ended ≡ false
    → IsValid s
    → promise s ≡ true
    → promise_after (collect_from o s) ≡ true
collect_from-promise none s e w n v h = refl
collect_from-promise (some b) s e w n v h = elim (Bool-cases (s.dropped == 0)) [
  | inl d ↦ promised_taken (length-taken s b v (ground (arith, d)) e w)
  | inr d ↦ rw d refl
]
  where
    promised_taken :
        length s.accepted ≡ length s.written + length (bytes_of (s.buffers ++ b ∷ []))
        → promise_after (collect_from (some b) s) ≡ true
    promised_taken len = ground (arith, h)

recycle-promise :
    (o c : Option FixedBuffer) (s : AsyncOutputer)
    → promise s ≡ true
    → promise_after (recycle o c s) ≡ true
recycle-promise none c s h = refl
recycle-promise (some x) none s h = ground arith
recycle-promise (some x) (some y) s h = ground arith

-- What has been taken over is written, unless buffers are dropped.
write-promise :
    (s : AsyncOutputer) → at s writing ≡ true → promise s ≡ true → promise_after (write s) ≡ true
unfolding write
write-promise s w h =
    let kept = cut_down 25 s.buffers_to_write in
    let gone = length s.buffers_to_write - length kept in
    let len = length-append s.written (bytes_of kept) in
    let next : promise (record s {
      phase = testing;
      buffers_to_write = [];
      written = s.written ++ bytes_of kept;
      dropped = s.dropped + gone;
    })
        ≡ true =
      elim (Bool-cases (gone == 0)) [
        | inl d ↦
            let all : kept ≡ s.buffers_to_write =
              cut_all 25 s.buffers_to_write (omega arith) (ground (arith, d)) in
            let same : length (bytes_of kept) ≡ length (bytes_of s.buffers_to_write) =
              ap (λ l. length (bytes_of l)) all in
            ground (arith, h, len, same, w)
        | inr d ↦ ground (arith, d)
      ] in
    rw w (recycle-promise (back (cut_down 2 kept)) (back (pop_back (cut_down 2 kept))) _ next)

step-promise :
    (a : Action) (s : AsyncOutputer)
    → IsValid s
    → promise s ≡ true
    → promise_after (step a s) ≡ true
unfolding step start stop flush output test lock wake collect write
step-promise call_start s v h = ground (arith, h)
step-promise call_stop s v h = ground (arith, h)
step-promise call_flush s v h = flush_from-promise s.current_buffer s h
step-promise (call_output msg) s v h = elim (Bool-cases (ltb (length msg) small_buff_size)) [
  | inl on ↦ rw on (output_to-promise msg s.current_buffer s refl (ground arith) v.is_sound h)
  | inr off ↦ rw off refl
]
step-promise test_loop s v h = ground (arith, h)
step-promise lock_mutex s v h = elim (Bool-cases (at s locking)) [
  | inl on ↦
      let c =
        collect_from-promise s.current_buffer s refl (ground (arith, on)) (ground (arith, on)) v
          h in
      ground (arith, on, c, h)
  | inr off ↦ rw off refl
]
step-promise wake_up s v h = elim (Bool-cases (at s waiting)) [
  | inl on ↦
      rw on
        (collect_from-promise s.current_buffer s refl (ground (arith, on)) (ground (arith, on)) v h)
  | inr off ↦ rw off refl
]
step-promise write_out s v h = elim (Bool-cases (at s writing)) [
  | inl on ↦ write-promise s on h
  | inr off ↦ rw off refl
]

record Kept (s : AsyncOutputer) : Type 0 where
  is_valid : IsValid s
  keeps_promise : promise s ≡ true

step-Kept : (a : Action) (s s₁ : AsyncOutputer) → step a s ≡ some s₁ → Kept s → Kept s₁
step-Kept a s s₁ e k = record {
  is_valid = step-IsValid a s s₁ e k.is_valid;
  keeps_promise =
      subst (λ r. promise_after r ≡ true) e (step-promise a s k.is_valid k.keeps_promise);
}

init-promise : promise init ≡ true
unfolding init new_buffer
init-promise = refl

-- However the threads take turns, when the writing thread has ended, and no buffer was dropped,
-- the bytes that were handed over before Stop() are all in the file, at its front and in order.
pub ended-written :
    {acts : List Action} {s : AsyncOutputer}
    → Run init acts s
    → at s ended ≡ true
    → s.dropped ≡ 0
    → (s.promised ≤ length s.written) × (take s.promised s.accepted ≡ take s.promised s.written)
ended-written {s = s} r e d =
    let k =
      Run-keeps Kept step-Kept r
        (record { is_valid = init-IsValid; keeps_promise = init-promise }) in
    let all : s.promised ≤ length s.written = ground (arith, k.keeps_promise) in
    (
      all,
      ap (take s.promised) (k.is_valid.in_order d)
          ∙ take-append_le s.promised s.written (waiting_bytes s) all,
    )
