-- ===== src/OldBuffer.antt =====
-- muzi/net/old_buffer.h and old_buffer.cc: a byte queue in a vector of blocks of `size` bytes, with an
-- iterator that runs over all of them. `none` is a failed assertion, or an iterator that reads the
-- vector outside its blocks.
pub mod Iterators
pub mod Flat
pub mod Space
pub mod Growth
pub mod Bytes
pub mod Vectors
pub mod Scatter
pub mod Sockets
pub mod Replaced
mod Examples
use muzi.Prelude.{
  ℕ, zero, suc, ◌+◌, ◌-◌, ◌*◌, ◌/◌, ◌^◌, Bool, true, false, ◌&&◌, List, [], ◌∷◌, Option, none, some,
  length, ltb, leb, ◌==◌, if◌then◌else◌, ℤ, pos, negsuc, negative,
}

-- buffer_it_ as the number of the block, and cur_ - first_; first_ and last_ are the block's.
pub record Iterator : Type 0 where
  pub buffer_it : ℕ
  pub cur : ℕ

-- `memory` has the byte at an offset of a block.
pub record OldBuffer : Type 0 where
  pub count : ℕ
  pub memory : ℕ → ℕ → ℕ
  pub read_index : Iterator
  pub write_index : Iterator

-- kCheapPrepend, kBufferSize
abbrev pub cheap_prepend : ℕ
cheap_prepend = 8

abbrev pub buffer_size : ℕ
buffer_size = 2048

-- Signed differences and sums.
abbrev pub minus : ℕ → ℕ → ℤ
minus m n = if leb n m then pos (m - n) else negative (n - m)

abbrev pub plus : ℤ → ℕ → ℤ
plus (pos m) n = pos (m + n)
plus (negsuc m) n = minus n (suc m)

abbrev pub times : ℕ → ℤ → ℤ
times k (pos n) = pos (k * n)
times k (negsuc n) = negative (k * suc n)

-- static_cast<size_t>
abbrev pub to_size : ℤ → ℕ
to_size (pos n) = n
to_size (negsuc n) = 2 ^ 64 - suc n

-- std::max(n - 1, 0L)
abbrev pub but_one : ℤ → ℕ
but_one (pos n) = n - 1
but_one (negsuc n) = 0

-- std::swap() of two blocks.
abbrev pub swapped : ℕ → ℕ → (ℕ → ℕ → ℕ) → ℕ → ℕ → ℕ
swapped left idle memory i =
    if i == left then memory idle else if i == idle then memory left else memory i

abbrev pub and_then {ℓ ℓ'} : {A : Type ℓ} {B : Type ℓ'} → Option A → (A → Option B) → Option B
and_then none f = none
and_then (some a) f = f a

abbrev pub begin : Iterator
begin = record { buffer_it = 0; cur = 0 }

module _ (size : ℕ) where
  -- operator-, where the end of the vector is the block `count` with its pointers at 0.
  pub difference : Iterator → Iterator → ℤ
  difference lhs rhs =
      plus (times size (minus lhs.buffer_it (suc rhs.buffer_it))) (lhs.cur + (size - rhs.cur))

  -- MoveBuffer(), to an offset of the new block.
  abbrev pub move_buffer : ℕ → ℕ → ℕ → Option Iterator
  move_buffer count i offset =
      if ltb i count then some (record { buffer_it = i; cur = offset }) else none

  -- operator+=, by the offset from first_.
  abbrev pub skip_to : ℕ → Iterator → ℤ → Option Iterator
  skip_to count it (pos k) =
      let buffer_offset = k / size in
      if ltb k size
      then some (record it { cur = k })
      else move_buffer count (it.buffer_it + buffer_offset) (k - buffer_offset * size)
  skip_to count it (negsuc k) =
      let buffer_offset = suc (k / size) in
      if leb buffer_offset it.buffer_it
      then move_buffer count (it.buffer_it - buffer_offset) (buffer_offset * size - suc k)
      else none

  -- operator+= and operator-= of a number that is not negative.
  pub skip : ℕ → Iterator → ℕ → Option Iterator
  skip count it n = skip_to count it (pos (n + it.cur))

  pub skip_back : ℕ → Iterator → ℕ → Option Iterator
  skip_back count it n = skip_to count it (minus it.cur n)

  -- operator++ and operator--.
  pub next : ℕ → Iterator → Option Iterator
  next count it =
      let cur = suc it.cur in
      if cur == size then move_buffer count (suc it.buffer_it) 0 else some (record it { cur = cur })

  pub previous : ℕ → Iterator → Option Iterator
  previous count it =
      let block = it.buffer_it in
      if it.cur == 0
      then (if block == 0 then none else move_buffer count (block - 1) (size - 1))
      else some it

  pub readable_bytes : OldBuffer → ℕ
  readable_bytes b = to_size (difference b.write_index b.read_index)

  -- One position is kept free at the end.
  pub writable_bytes : OldBuffer → ℕ
  writable_bytes b = but_one (difference (record { buffer_it = b.count; cur = 0 }) b.write_index)

  pub prependable_bytes : OldBuffer → ℕ
  prependable_bytes b = to_size (difference b.read_index begin)

  -- ResetIndex()
  pub reset_index : OldBuffer → Option OldBuffer
  reset_index b =
      and_then (skip b.count begin cheap_prepend)
        (λ it. some (record b { read_index = it; write_index = it }))

  -- Buffer(), of blocks whose bytes nothing has set.
  pub init : ℕ → (ℕ → ℕ → ℕ) → Option OldBuffer
  init count memory =
      reset_index
        (record { count = count; memory = memory; read_index = begin; write_index = begin })

  -- Retrive()
  pub retrive : OldBuffer → ℕ → Option OldBuffer
  retrive b len =
      let readable = readable_bytes b in
      let moved =
        and_then (skip b.count b.read_index len) (λ it. some (record b { read_index = it })) in
      if leb len readable then (if ltb len readable then moved else reset_index b) else none

  -- UnWrite()
  pub unwrite : OldBuffer → ℕ → Option OldBuffer
  unwrite b len =
      let moved =
        and_then (skip_back b.count b.write_index len)
          (λ it. some (record b { write_index = it })) in
      if leb len (readable_bytes b) then moved else none

  -- The blocks behind std::swap() of `n` pairs, of the blocks from `left` and from `idle` on.
  abbrev pub swap_blocks : ℕ → ℕ → ℕ → (ℕ → ℕ → ℕ) → ℕ → ℕ → ℕ
  swap_blocks zero left idle memory = memory
  swap_blocks (suc n) left idle memory =
      swap_blocks n (suc left) (suc idle) (swapped left idle memory)

  -- ExtendSpace()
  pub extend_space : OldBuffer → ℕ → OldBuffer
  extend_space b len =
      let left = b.read_index.buffer_it in
      let offset = b.write_index.buffer_it - left in
      let buffers_to_use = (b.count - left) + suc ((len - 1) / size) in
      let idle = if leb cheap_prepend b.read_index.cur then 0 else 1 in
      if ltb (2 * buffers_to_use) b.count
      then record b {
        memory = swap_blocks (suc offset) left idle b.memory;
        read_index = record b.read_index { buffer_it = idle };
        write_index = record b.write_index { buffer_it = idle + offset };
      }
      else record b { count = b.count * 2 }

  -- EnsureWritableBytes()
  abbrev pub ensure_writable_bytes : ℕ → OldBuffer → ℕ → Option OldBuffer
  ensure_writable_bytes zero b len = if ltb (writable_bytes b) len then none else some b
  ensure_writable_bytes (suc fuel) b len =
      let rest = ensure_writable_bytes fuel (extend_space b (len - writable_bytes b)) len in
      if ltb (writable_bytes b) len then rest else some b

  abbrev pub store : (ℕ → ℕ → ℕ) → Iterator → ℕ → ℕ → ℕ → ℕ
  store memory it x i o = if i == it.buffer_it && o == it.cur then x else memory i o

  -- std::copy() to an iterator.
  abbrev pub copy_to : ℕ → Iterator → List ℕ → (ℕ → ℕ → ℕ) → Option (ℕ → ℕ → ℕ)
  copy_to count it [] memory = some memory
  copy_to count it (x ∷ xs) memory =
      and_then (next count it) (λ it'. copy_to count it' xs (store memory it x))

  -- Append()
  pub append : OldBuffer → List ℕ → Option OldBuffer
  append b xs =
      let len = length xs in
      and_then (ensure_writable_bytes len b len) (λ b.
        and_then (copy_to b.count b.write_index xs b.memory) (λ memory.
          and_then (skip b.count b.write_index len)
            (λ it. some (record b { memory = memory; write_index = it }))))

  -- Prepend()
  pub prepend : OldBuffer → List ℕ → Option OldBuffer
  prepend b xs =
      let copied = and_then (skip_back b.count b.read_index (length xs)) (λ it.
        and_then (copy_to b.count it xs b.memory)
          (λ memory. some (record b { memory = memory; read_index = it }))) in
      if leb (length xs) (prependable_bytes b) then copied else none

  -- The bytes that std::string reads from an iterator on.
  abbrev pub read_from : ℕ → ℕ → (ℕ → ℕ → ℕ) → Iterator → Option (List ℕ)
  read_from zero count memory it = some []
  read_from (suc n) count memory it = and_then (next count it) (λ it'.
      and_then (read_from n count memory it') (λ xs. some (memory it.buffer_it it.cur ∷ xs)))

  -- RetriveAsString(), of a length.
  pub retrive_as_string : OldBuffer → ℕ → Option (List ℕ × OldBuffer)
  retrive_as_string b len =
      and_then (read_from len b.count b.memory b.read_index)
        (λ xs. and_then (retrive b len) (λ b. some (xs, b)))

  -- RetriveAllAsString()
  pub retrive_all_as_string : OldBuffer → Option (List ℕ × OldBuffer)
  retrive_all_as_string b = retrive_as_string b (readable_bytes b)
