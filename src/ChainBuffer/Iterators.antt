-- ===== src/ChainBuffer/Iterators.antt =====
-- Forward() and BackWard(), and the operations that move the write position by them.
use native.Mathlib.Decide.{dec_lt}
use muzi.Prelude.{
  ℕ, zero, suc, ◌+◌, ◌-◌, ◌*◌, ◌^◌, ◌≤◌, ◌<◌, ◌≡◌, refl, ap, ◌∙◌, inl, inr, false, ◌++◌, some,
  arith, length, take, drop, ltb, ◌==◌, Bool-cases, le→ltb, length-take,
}
use muzi.ChainBuffer.{
  ChainBuffer, stands, before_begin, forward, backward, has_write, writable_bytes,
  slow_readable_bytes, add_size,
}
use muzi.ChainBuffer.Bytes.{concat, length-concat, take_add, drop-append_le}
use muzi.ChainBuffer.Invariant.{
  write_offset, read_offset, contents, CanWrite, IsValid, write_offset-lt,
}

pub read_offset-le :
    (size : ℕ) {b : ChainBuffer}
    → IsValid size b
    → read_offset size b ≤ length (take (write_offset size b) (concat b.buffers))
read_offset-le size {b} v =
    let e : b.read_buffer * size ≡ 0 = ap (λ k. k * size) v.read_first ∙ omega arith in
    omega (
      arith,
      length-take (write_offset size b) (concat b.buffers),
      length-concat size b.buffers v.can_write.uniform,
      write_offset-lt size v.can_write,
      v.counted,
    )

module _ (size : ℕ) where
  forward-zero : (fuel i pos : ℕ) → 0 < fuel → forward size fuel i pos 0 ≡ some (i, pos)
  unfolding forward
  forward-zero zero i pos h = absurd (omega arith)
  forward-zero (suc fuel) i pos h = refl

  backward-zero : (fuel i pos : ℕ) → 0 < fuel → backward size fuel i pos 0 ≡ stands i pos
  unfolding backward
  backward-zero zero i pos h = absurd (omega arith)
  backward-zero (suc fuel) i pos h = refl

  -- Forward() ends `len` bytes on, on a byte of a block.
  pub forward_lem :
      (fuel i pos len : ℕ)
      → pos < size
      → len < fuel
      → (i' : ℕ) × (pos' : ℕ) × (forward size fuel i pos len ≡ some (i', pos'))
        × (i' * size + pos' ≡ i * size + pos + len)
        × (pos' < size)
  unfolding forward
  forward_lem zero i pos len p h = absurd (omega arith)
  forward_lem (suc fuel) i pos zero p h = (i, pos, refl, omega arith, p)
  forward_lem (suc fuel) i pos (suc len) p h = elim (Bool-cases (ltb (suc len) (size - pos))) [
    | inl near ↦ (
      i,
      pos + suc len,
      rw (near, forward-zero fuel i (pos + suc len) (omega arith)),
      omega arith,
      ground arith,
    )
    | inr far ↦
        let (i', pos', e, o, q) =
          forward_lem fuel (suc i) 0 (suc len - (size - pos)) (omega arith) (ground arith) in
        (i', pos', rw far e, ground (arith, o), q)
  ]

  back_room : (i pos len : ℕ) → suc len < i * size + pos → pos ≤ suc len → 0 < i
  back_room zero pos len b h = absurd (omega arith)
  back_room (suc i) pos len b h = omega arith

  pos→ne : (i : ℕ) → 0 < i → (i == 0) ≡ false
  pos→ne i h = ground arith

  back_offset : (i : ℕ) → 0 < i → (i - 1) * size + size ≡ i * size
  back_offset i h = let e : i ≡ suc (i - 1) = omega arith in omega (arith, ap (λ k. k * size) e)

  back_far :
      (i pos len : ℕ)
      → 0 < i
      → suc len < i * size + pos
      → pos ≤ suc len
      → suc len - pos < (i - 1) * size + size
  back_far i pos len h b p = omega (arith, back_offset i h)

  backward_inside :
      (fuel i pos len : ℕ)
      → pos ≤ size
      → 0 < pos
      → len < i * size + pos
      → len < fuel
      → (i' : ℕ) × (pos' : ℕ) × (backward size fuel i pos len ≡ stands i' pos')
        × (i' * size + pos' + len ≡ i * size + pos)
        × (pos' ≤ size)
  unfolding backward
  backward_inside zero i pos len p z b h = absurd (omega arith)
  backward_inside (suc fuel) i pos zero p z b h = (i, pos, refl, omega arith, p)
  backward_inside (suc fuel) i pos (suc len) p z b h = elim (Bool-cases (ltb (suc len) pos)) [
    | inl near ↦ (
      i,
      pos - suc len,
      rw (near, backward-zero fuel i (pos - suc len) (omega arith)),
      ground arith,
      ground arith,
    )
    | inr far ↦
        let later : 0 < i = back_room i pos len b (ground arith) in
        let (i', pos', e, o, q) =
          backward_inside fuel (i - 1) size (suc len - pos) (omega arith) (omega arith)
            (back_far i pos len later b (ground arith)) (ground arith) in
        (i', pos', rw (far, pos→ne i later) e, ground (arith, o, back_offset i later), q)
  ]

  -- BackWard() by fewer bytes than stand before the position ends `len` bytes back.
  pub backward_lem :
      (fuel i pos len : ℕ)
      → pos < size
      → len < i * size + pos
      → len < fuel
      → (i' : ℕ) × (pos' : ℕ) × (backward size (suc fuel) i pos len ≡ stands i' pos')
        × (i' * size + pos' + len ≡ i * size + pos)
        × (pos' ≤ size)
  unfolding backward
  backward_lem fuel i (suc pos) len p b h =
      backward_inside (suc fuel) i (suc pos) len (omega arith) (omega arith) b (omega arith)
  backward_lem fuel i zero zero p b h = (i, 0, refl, omega arith, omega arith)
  backward_lem fuel i zero (suc len) p b h =
      let later : 0 < i = back_room i 0 len b (omega arith) in
      let back = back_offset i later in
      let (i', pos', e, o, q) =
        backward_inside fuel (i - 1) size (suc len - 0) (omega arith) (omega arith)
          (omega (arith, back)) (omega arith) in
      (i', pos', rw (le→ltb (suc len) 0 (omega arith), pos→ne i later) e, omega (arith, o, back), q)

  back_off :
      (fuel i pos len : ℕ)
      → pos ≤ size
      → 0 < pos
      → 0 < len
      → i * size + pos ≤ len
      → len < fuel
      → backward size fuel i pos len ≡ before_begin
  unfolding backward
  back_off zero i pos len p z l b h = absurd (omega arith)
  back_off (suc fuel) i pos zero p z l b h = absurd (omega arith)
  back_off (suc fuel) zero pos (suc len) p z l b h = rw (le→ltb (suc len) pos (omega arith))
  back_off (suc fuel) (suc i) pos (suc len) p z l b h =
      let back = back_offset (suc i) (omega arith) in
      rw (le→ltb (suc len) pos (omega arith), pos→ne (suc i) (omega arith))
        (back_off fuel (suc i - 1) size (suc len - pos) (omega arith) (omega arith) (omega arith)
          (omega (arith, back)) (omega arith))

  -- BackWard() by as many bytes as stand before the position, or more, steps before begin().
  pub backward-before_begin :
      (fuel i pos len : ℕ)
      → pos < size
      → 0 < len
      → i * size + pos ≤ len
      → len < fuel
      → backward size (suc fuel) i pos len ≡ before_begin
  unfolding backward
  backward-before_begin fuel i (suc pos) len p l b h =
      back_off (suc fuel) i (suc pos) len (omega arith) (omega arith) l b (omega arith)
  backward-before_begin fuel i zero zero p l b h = absurd (omega arith)
  backward-before_begin fuel zero zero (suc len) p l b h = rw (le→ltb (suc len) 0 (omega arith))
  backward-before_begin fuel (suc i) zero (suc len) p l b h =
      let back = back_offset (suc i) (omega arith) in
      rw (le→ltb (suc len) 0 (omega arith), pos→ne (suc i) (omega arith))
        (back_off fuel (suc i - 1) size (suc len - 0) (omega arith) (omega arith) (omega arith)
          (omega (arith, back)) (omega arith))

pub index-lt : (size i pos n : ℕ) → i * size + pos < n * size → i < n
index-lt size i pos n h = elim (dec_lt i n) [
  | yes p ↦ p
  | no p ↦
      let le : n ≤ i = omega arith in
      let more : n * size ≤ i * size = grind arith in absurd (omega arith)
]

-- The writable bytes are those from the write position to the end of the last block.
pub write_offset-add-writable_bytes :
    (size : ℕ) {b : ChainBuffer}
    → CanWrite size b
    → write_offset size b + writable_bytes size b ≡ length b.buffers * size
unfolding writable_bytes
write_offset-add-writable_bytes size {b} v =
    let n = length b.buffers - b.write_buffer in
    let k : length b.buffers ≡ b.write_buffer + n = omega (arith, v.write_in) in
    let e : length b.buffers * size ≡ (b.write_buffer + n) * size = ap (λ j. j * size) k in
    omega (arith, write_offset-lt size v)

-- SlowReadableBytes(), the distance between the positions, is the count that ReadableBytes() keeps.
pub slow_readable_bytes_lem :
    (size : ℕ) {b : ChainBuffer} → IsValid size b → slow_readable_bytes size b ≡ b.readable_bytes
unfolding slow_readable_bytes
slow_readable_bytes_lem size {b} v =
    let k : b.write_buffer - b.read_buffer ≡ b.write_buffer = omega (arith, v.read_first) in
    let e : (b.write_buffer - b.read_buffer) * size ≡ b.write_buffer * size =
      ap (λ j. j * size) k in
    omega (arith, v.counted)

-- HasWrite() of fewer bytes than are writable ends, with a valid buffer that takes in the next
-- `len` bytes of the blocks, if the buffer stays below 2^64 bytes.
pub has_write_lem :
    (size : ℕ) {b : ChainBuffer} (len : ℕ)
    → IsValid size b
    → b.readable_bytes + len < 2 ^ 64
    → len < writable_bytes size b
    → (b' : ChainBuffer) × (has_write size b len ≡ some b')
      × IsValid size b'
      × (contents size b'
          ≡ contents size b ++ take len (drop (write_offset size b) (concat b.buffers)))
unfolding has_write
has_write_lem size {b} len v f h =
    let total = concat b.buffers in
    let room = write_offset-add-writable_bytes size v.can_write in
    let (i', pos', e, o, q) =
      forward_lem size (len + 2) b.write_buffer b.write_pos len v.can_write.write_pos_in
        (omega arith) in
    (
      record b {
        readable_bytes = add_size b.readable_bytes len;
        write_buffer = i';
        write_pos = pos';
      },
      ground (arith, e),
      record {
        can_write = record {
          uniform = v.can_write.uniform;
          write_in = index-lt size i' pos' (length b.buffers) (omega (arith, o, room));
          write_pos_in = q;
        };
        read_first = v.read_first;
        read_pos_in = v.read_pos_in;
        counted = omega (arith, o, v.counted);
        fits = omega arith;
      },
      ap (drop (read_offset size b)) (take_add (write_offset size b) len (i' * size + pos') total o)
          ∙ drop-append_le (read_offset size b) (take (write_offset size b) total) _
              (read_offset-le size v),
    )
