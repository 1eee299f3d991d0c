-- ===== src/OldBuffer/Bytes.antt =====
-- The operations of the buffer on the bytes that it holds.
use native.Mathlib.Nat.{mul-le-mul_right}
use muzi.Prelude.{
  ℕ, ◌+◌, ◌-◌, ◌≤◌, ◌<◌, ◌≡◌, refl, sym, ap, ◌∙◌, inl, inr, true, List, [], ◌++◌, Option, some,
  arith, length, take, drop, ltb, leb, Bool-cases,
}
use muzi.OldBuffer.{
  Iterator, OldBuffer, cheap_prepend, minus, to_size, difference, and_then, skip, begin,
  reset_index, retrive, unwrite, prepend, copy_to, append, retrive_as_string, readable_bytes,
  prependable_bytes,
}
use muzi.OldBuffer.Iterators.{position, position-in, skip_lem, skip_back_lem, difference_lem}
use muzi.OldBuffer.Flat.{
  slice, slice-cong, slice-append, copy_to_lem, read_from_lem, length-slice, take-slice, drop-slice,
}
use muzi.OldBuffer.Growth.{ensure_writable_bytes_lem}
use muzi.OldBuffer.Space.{IsValid, held, contents, readable_bytes_lem, writable_bytes_lem}

-- What an operation leaves.
abbrev pub Leaves : ℕ → Option OldBuffer → List ℕ → Type 0
Leaves size r q = (b' : OldBuffer) × (r ≡ some b') × IsValid size b' × (contents size b' ≡ q)

-- ResetIndex() empties a buffer whose first block has room for the bytes to be prepended.
pub reset_index_lem :
    (size : ℕ) (b : OldBuffer)
    → cheap_prepend < size
    → 0 < b.count
    → Leaves size (reset_index size b) []
unfolding reset_index
reset_index_lem size b h c =
    let l = mul-le-mul_right size c in
    let (it, e, v, q) =
      skip_lem size b.count begin cheap_prepend (record { block_in = c; cur_in = omega (arith, h) })
        (omega (arith, h, l)) in
    let none_held : position size it - position size it ≡ 0 = omega arith in
    (
      record b { read_index = it; write_index = it },
      ap (λ r. and_then r (λ it. some (record b { read_index = it; write_index = it }))) e,
      record { read_in = v; write_in = v; in_order = omega arith },
      ap (slice size b.memory (position size it)) none_held,
    )

module _ (size : ℕ) {b : OldBuffer} where
  pub length-contents : IsValid size b → length (contents size b) ≡ held size b
  length-contents v = length-slice size (held size b) b.memory (position size b.read_index)

  -- Retrive() of `n` bytes that the buffer holds takes off the first ones.
  pub retrive-drop :
      (n : ℕ)
      → cheap_prepend < size
      → IsValid size b
      → n ≤ length (contents size b)
      → Leaves size (retrive size b n) (drop n (contents size b))
  unfolding retrive
  retrive-drop n big v h =
      let r = readable_bytes_lem size v in
      let n_held : n ≤ held size b = omega (arith, h, length-contents v) in
      let in_buffer : leb n (readable_bytes size b) ≡ true = ground (arith, r, n_held) in
      let rest = drop-slice size n (held size b) b.memory (position size b.read_index) n_held in
      elim (Bool-cases (ltb n (readable_bytes size b))) [
        | inl on ↦
            let w = position-in size b.count v.write_in in
            let (it, e, v', q) =
              skip_lem size b.count b.read_index n v.read_in
                (omega (arith, v.in_order, n_held, w)) in
            let left : position size b.write_index - position size it ≡ held size b - n =
              omega (arith, q) in
            rw (in_buffer, on)
              (
                record b { read_index = it },
                ap (λ r. and_then r (λ it. some (record b { read_index = it }))) e,
                record {
                  read_in = v';
                  write_in = v.write_in;
                  in_order = omega (arith, q, n_held, v.in_order);
                },
                ap (λ p. slice size b.memory p (position size b.write_index - position size it)) q
                    ∙ ap (slice size b.memory (position size b.read_index + n)) left
                    ∙ sym rest,
              )
        | inr off ↦
            let none_left : 0 ≡ held size b - n = ground (arith, off, r) in
            let (b', e, v', c) = reset_index_lem size b big (omega (arith, v.read_in.block_in)) in
            rw (in_buffer, off)
              (
                b',
                e,
                v',
                c ∙ ap (slice size b.memory (position size b.read_index + n)) none_left ∙ sym rest,
              )
      ]

  -- UnWrite() of `n` bytes that the buffer holds takes off the last ones.
  pub unwrite-take :
      (n : ℕ)
      → IsValid size b
      → n ≤ length (contents size b)
      → Leaves size (unwrite size b n) (take (length (contents size b) - n) (contents size b))
  unfolding unwrite
  unwrite-take n v h =
      let r = readable_bytes_lem size v in
      let len = length-contents v in
      let n_held : n ≤ held size b = omega (arith, h, len) in
      let in_buffer : leb n (readable_bytes size b) ≡ true = ground (arith, r, n_held) in
      let (it, e, v', q) =
        skip_back_lem size b.count b.write_index n v.write_in (omega (arith, n_held)) in
      let left : position size it - position size b.read_index ≡ length (contents size b) - n =
        omega (arith, q, len) in
      rw in_buffer (
        record b { write_index = it },
        ap (λ r. and_then r (λ it. some (record b { write_index = it }))) e,
        record {
          read_in = v.read_in;
          write_in = v';
          in_order = omega (arith, q, n_held, v.in_order);
        },
        ap (slice size b.memory (position size b.read_index)) left
            ∙ sym (
                take-slice size (length (contents size b) - n) (held size b) b.memory
                  (position size b.read_index) (omega (arith, len))),
      )

  -- Append() keeps the bytes held and puts its own behind them, whatever room there was.
  pub append-contents :
      (xs : List ℕ) → IsValid size b → Leaves size (append size b xs) (contents size b ++ xs)
  unfolding append
  append-contents xs v =
      let len = length xs in
      let (b₁, e, v₁, c, room) = ensure_writable_bytes_lem size len len v (omega arith) in
      let end = writable_bytes_lem size v₁ in
      let (memory, f, others, s) =
        copy_to_lem size b₁.count b₁.write_index xs b₁.memory v₁.write_in
          (omega (arith, room, end)) in
      let (it, g, v', q) =
        skip_lem size b₁.count b₁.write_index len v₁.write_in (omega (arith, room, end)) in
      let more : position size it - position size b₁.read_index ≡ held size b₁ + len =
        omega (arith, q, v₁.in_order) in
      let next : position size b₁.read_index + held size b₁ ≡ position size b₁.write_index =
        omega (arith, v₁.in_order) in
      let old : slice size memory (position size b₁.read_index) (held size b₁) ≡ contents size b₁ =
        slice-cong size (held size b₁) memory b₁.memory (position size b₁.read_index)
          (position size b₁.read_index)
          (λ k l. others (position size b₁.read_index + k) (ground (arith, l, next))) in
      (
        record b₁ { memory = memory; write_index = it },
        ap (λ r. and_then r stored) e
            ∙ ap (λ r. and_then r (ended b₁)) f
            ∙ ap (λ r. and_then r (at_end b₁ memory)) g,
        record { read_in = v₁.read_in; write_in = v'; in_order = omega (arith, q, v₁.in_order) },
        ap (slice size memory (position size b₁.read_index)) more
            ∙ slice-append size (held size b₁) len memory (position size b₁.read_index)
            ∙ ap (λ ys. ys ++ slice size memory (position size b₁.read_index + held size b₁) len)
                (old ∙ c)
            ∙ ap (λ p. contents size b ++ slice size memory p len) next
            ∙ ap (λ ys. contents size b ++ ys) s,
      )
    where
      at_end : OldBuffer → (ℕ → ℕ → ℕ) → Iterator → Option OldBuffer
      at_end b memory it = some (record b { memory = memory; write_index = it })

      ended : OldBuffer → (ℕ → ℕ → ℕ) → Option OldBuffer
      ended b memory = and_then (skip size b.count b.write_index (length xs)) (at_end b memory)

      stored : OldBuffer → Option OldBuffer
      stored b = and_then (copy_to size b.count b.write_index xs b.memory) (ended b)

  -- Prepend() of bytes that have room before those held puts its own before them.
  pub prepend-contents :
      (xs : List ℕ)
      → IsValid size b
      → length xs ≤ position size b.read_index
      → Leaves size (prepend size b xs) (xs ++ contents size b)
  unfolding prepend prependable_bytes
  prepend-contents xs v h =
      let len = length xs in
      let d = difference_lem size b.read_index begin (omega arith) in
      let all : leb (position size begin) (position size b.read_index) ≡ true = ground arith in
      let same : to_size (minus (position size b.read_index) (position size begin))
          ≡ position size b.read_index - position size begin =
        rw all refl in
      let room : leb len (to_size (difference size b.read_index begin)) ≡ true =
        ground (arith, h, ap to_size d, same) in
      let w = position-in size b.count v.write_in in
      let (it, e, v', q) = skip_back_lem size b.count b.read_index len v.read_in h in
      let (memory, f, others, s) =
        copy_to_lem size b.count it xs b.memory v' (omega (arith, q, h, v.in_order, w)) in
      let next : position size it + len ≡ position size b.read_index = omega (arith, q, h) in
      let more : position size b.write_index - position size it ≡ len + held size b =
        omega (arith, next, v.in_order) in
      let old : slice size memory (position size b.read_index) (held size b) ≡ contents size b =
        slice-cong size (held size b) memory b.memory (position size b.read_index)
          (position size b.read_index)
          (λ k l. others (position size b.read_index + k) (ground (arith, next))) in
      rw room (
        record b { memory = memory; read_index = it },
        ap (λ r. and_then r stored) e ∙ ap (λ r. and_then r (begins it)) f,
        record { read_in = v'; write_in = v.write_in; in_order = omega (arith, next, v.in_order) },
        ap (slice size memory (position size it)) more
            ∙ slice-append size len (held size b) memory (position size it)
            ∙ ap (λ ys. ys ++ slice size memory (position size it + len) (held size b)) s
            ∙ ap (λ p. xs ++ slice size memory p (held size b)) next
            ∙ ap (λ ys. xs ++ ys) old,
      )
    where
      begins : Iterator → (ℕ → ℕ → ℕ) → Option OldBuffer
      begins it memory = some (record b { memory = memory; read_index = it })

      stored : Iterator → Option OldBuffer
      stored it = and_then (copy_to size b.count it xs b.memory) (begins it)

  -- RetriveAsString() of `n` bytes that the buffer holds gives out the first ones and takes them off.
  pub retrive_as_string-take :
      (n : ℕ)
      → cheap_prepend < size
      → IsValid size b
      → n ≤ length (contents size b)
      → (b' : OldBuffer) × (retrive_as_string size b n ≡ some (take n (contents size b), b'))
        × IsValid size b'
        × (contents size b' ≡ drop n (contents size b))
  unfolding retrive_as_string
  retrive_as_string-take n big v h =
      let len = length-contents v in
      let n_held : n ≤ held size b = omega (arith, h, len) in
      let w = position-in size b.count v.write_in in
      let out =
        read_from_lem size n b.count b.memory b.read_index v.read_in
          (omega (arith, n_held, v.in_order, w)) in
      let (b', e, v', c) = retrive-drop n big v h in
      let first = take-slice size n (held size b) b.memory (position size b.read_index) n_held in
      (
        b',
        ap (λ r. and_then r taken) out
            ∙ ap (λ r. and_then r (handed (slice size b.memory (position size b.read_index) n))) e
            ∙ ap (λ xs. some (xs, b')) (sym first),
        v',
        c,
      )
    where
      handed : List ℕ → OldBuffer → Option (List ℕ × OldBuffer)
      handed xs b = some (xs, b)

      taken : List ℕ → Option (List ℕ × OldBuffer)
      taken xs = and_then (retrive size b n) (handed xs)
