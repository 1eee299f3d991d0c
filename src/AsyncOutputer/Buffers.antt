-- ===== src/AsyncOutputer/Buffers.antt =====
-- No pointer to a buffer is null when it is used.
use muzi.Prelude.{
  ℕ, ◌+◌, ◌-◌, ◌<◌, ◌≤◌, ◌≡◌, refl, ap, Bool, true, false, not, ◌&&◌, ◌||◌, List, [], ◌∷◌, ◌++◌,
  Option, none, some, arith, length, length-append, length-take, ltb, leb, is_empty, is_empty→nil,
  if◌then◌else◌, Bool-cases, inl, inr, ◌⊎◌,
}
use muzi.FixedBuffer.{FixedBuffer, init as new_buffer, clear, get_avail}
use muzi.FixedBuffer.Bounds.{Fits, append_whole, get_avail_lem}
use muzi.LogStream.{small_buff_size}
use muzi.AsyncOutputer.{
  AsyncOutputer, large_buff_size, writing, at, present, or_new, replace_with, flush_from, output_to,
  collect_from, back, pop_back, cut_down, recycle, write,
}

abbrev pub fits : Option FixedBuffer → Bool
fits none = false
fits (some b) = ltb (length b.bytes) large_buff_size

abbrev pub blank : Option FixedBuffer → Bool
blank none = true
blank (some b) = is_empty b.bytes

-- The buffers of the writing thread: two spare ones, or as many written ones as it takes to have
-- them again.
abbrev pub spare : AsyncOutputer → Bool
spare s =
    if at s writing
    then not (is_empty s.buffers_to_write)
      && (blank s.new_buffer2 && (present s.new_buffer2 || leb 2 (length s.buffers_to_write)))
    else (present s.new_buffer1 && blank s.new_buffer1)
      && ((present s.new_buffer2 && blank s.new_buffer2) && is_empty s.buffers_to_write)

-- A next buffer is missing only when a full one waits.
abbrev pub sound : AsyncOutputer → Bool
sound s =
    fits s.current_buffer
    && (blank s.next_buffer && ((present s.next_buffer || not (is_empty s.buffers)) && spare s))

pub or_new_lem : (o : Option FixedBuffer) → blank o ≡ true → (or_new o).bytes ≡ []
unfolding new_buffer
or_new_lem none h = refl
or_new_lem (some b) h = is_empty→nil b.bytes h

-- The state behind Output(): the message is in the current buffer, or in the next one.
pub output_lem :
    (msg : List ℕ) (s : AsyncOutputer) (b : FixedBuffer)
    → blank s.next_buffer ≡ true
    → Fits large_buff_size b
    → length msg < small_buff_size
    → let s' = record s { accepted = s.accepted ++ msg } in
      (output_to msg (some b) s ≡ some (replace_with b (record { bytes = msg }) s'))
      ⊎ ((output_to msg (some b) s
            ≡ some (record s' { current_buffer = some (record { bytes = b.bytes ++ msg }) }))
          × (length b.bytes + length msg < large_buff_size))
output_lem msg s b next f m =
    let room = get_avail_lem large_buff_size b (omega arith) f in
    let empty = or_new_lem s.next_buffer next in
    elim (Bool-cases (ltb (get_avail large_buff_size b) (length msg))) [
      | inl full ↦
          let len : length (or_new s.next_buffer).bytes ≡ 0 = ap length empty in
          inl (
            rw
              (
                full,
                append_whole large_buff_size (or_new s.next_buffer) msg (omega arith) (omega arith),
                empty,
              )
              refl)
      | inr left ↦
          let short : length b.bytes + length msg < large_buff_size = ground (arith, room) in
          inr (rw (left, append_whole large_buff_size b msg (omega arith) short) refl, short)
    ]

-- The action can be taken, and leaves a sound state.
abbrev pub sound_next : Option AsyncOutputer → Bool
sound_next none = false
sound_next (some s) = sound s

pub flush_from-sound :
    (o : Option FixedBuffer) (s : AsyncOutputer)
    → s.current_buffer ≡ o
    → sound s ≡ true
    → sound_next (flush_from o s) ≡ true
unfolding new_buffer
flush_from-sound none s e h = absurd (ground (arith, ap fits e))
flush_from-sound (some b) s e h =
    let empty : length (or_new s.next_buffer).bytes ≡ 0 =
      ap length (or_new_lem s.next_buffer (ground (arith, h))) in
    let len : length (s.buffers ++ b ∷ []) ≡ length s.buffers + 1 =
      length-append s.buffers (b ∷ []) in
    ground (arith, ap fits e, empty, len)

pub output_to-sound :
    (msg : List ℕ) (o : Option FixedBuffer) (s : AsyncOutputer)
    → s.current_buffer ≡ o
    → length msg < small_buff_size
    → sound s ≡ true
    → sound_next (output_to msg o s) ≡ true
output_to-sound msg none s e m h = absurd (ground (arith, ap fits e))
output_to-sound msg (some b) s e m h =
    let f : ltb (length b.bytes) large_buff_size ≡ true = ground (arith, ap fits e, h) in
    let len : length (s.buffers ++ b ∷ []) ≡ length s.buffers + 1 =
      length-append s.buffers (b ∷ []) in
    let more = length-append b.bytes msg in
    elim (output_lem msg s b (ground (arith, h)) (ground (arith, f)) m) [
      | inl full ↦ rw full (ground (arith, len))
      | inr (left, short) ↦ rw left (ground (arith, more))
    ]

pub collect_from-sound :
    (o : Option FixedBuffer) (s : AsyncOutputer)
    → s.current_buffer ≡ o
    → at s writing ≡ false
    → sound s ≡ true
    → sound_next (collect_from o s) ≡ true
collect_from-sound none s e w h = absurd (ground (arith, ap fits e))
collect_from-sound (some b) s e w h =
    let len : length (s.buffers ++ b ∷ []) ≡ length s.buffers + 1 =
      length-append s.buffers (b ∷ []) in
    ground (arith, len)

back_lem : (bs : List FixedBuffer) → 0 < length bs → present (back bs) ≡ true
back_lem [] h = absurd (omega arith)
back_lem (b ∷ []) h = refl
back_lem (b ∷ c ∷ bs) h = back_lem (c ∷ bs) (omega arith)

length-pop_back : (bs : List FixedBuffer) → length (pop_back bs) ≡ length bs - 1
length-pop_back [] = omega arith
length-pop_back (b ∷ []) = omega arith
length-pop_back (b ∷ c ∷ bs) = omega (arith, length-pop_back (c ∷ bs))

length-cut_down :
    (n : ℕ) (bs : List FixedBuffer) (k : ℕ)
    → 2 ≤ n
    → k ≤ 2
    → k ≤ length bs
    → k ≤ length (cut_down n bs)
length-cut_down n bs k n2 k2 h = elim (Bool-cases (ltb n (length bs))) [
  | inl more ↦ rw more (omega (arith, length-take 2 bs))
  | inr all ↦ rw all h
]

recycle_sound :
    (o c : Option FixedBuffer) (s : AsyncOutputer)
    → present o ≡ true
    → (present s.new_buffer2 || present c) ≡ true
    → at s writing ≡ false
    → is_empty s.buffers_to_write ≡ true
    → blank s.new_buffer2 ≡ true
    → fits s.current_buffer ≡ true
    → blank s.next_buffer ≡ true
    → (present s.next_buffer || not (is_empty s.buffers)) ≡ true
    → sound_next (recycle o c s) ≡ true
unfolding clear
recycle_sound none c s here second p w n2 f b q = absurd (ground arith)
recycle_sound (some x) none s here second p w n2 f b q = ground arith
recycle_sound (some x) (some y) s here second p w n2 f b q = ground arith

pub write-sound :
    (s : AsyncOutputer) → at s writing ≡ true → sound s ≡ true → sound_next (write s) ≡ true
unfolding write
write-sound s w h =
    let l = cut_down 2 (cut_down 25 s.buffers_to_write) in
    let kept = λ (k : ℕ) (k2 : k ≤ 2) (e : k ≤ length s.buffers_to_write).
      length-cut_down 2 (cut_down 25 s.buffers_to_write) k (omega arith) k2
        (length-cut_down 25 s.buffers_to_write k (omega arith) k2 e) in
    let first : present (back l) ≡ true = back_lem l (kept 1 (omega arith) (ground (arith, h))) in
    let second : (present s.new_buffer2 || present (back (pop_back l))) ≡ true =
      elim (Bool-cases (present s.new_buffer2)) [
        | inl on ↦ rw on refl
        | inr off ↦
            let two = kept 2 (omega arith) (ground (arith, h)) in
            rw (off, back_lem (pop_back l) (omega (arith, length-pop_back l, two))) refl
      ] in
    rw w (
      recycle_sound (back l) (back (pop_back l)) _ first second refl refl (ground (arith, h))
        (ground (arith, h)) (ground (arith, h)) (ground (arith, h)))
