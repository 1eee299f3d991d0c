-- ===== src/OldBuffer/Vectors.antt =====
-- muzi/net/old_buffer.cc: WriteFd() over writev(2). What the call returns is an argument; that it
-- takes the bytes of the vectors in their order is what its manual says.
use muzi.Prelude.{
  ℕ, zero, suc, ◌+◌, ◌-◌, ◌*◌, ◌≤◌, ◌<◌, ◌≡◌, refl, sym, ap, ◌∙◌, inl, inr, List, [], ◌∷◌, ◌++◌,
  Option, some, arith, length, take, drop, ◌==◌, if◌then◌else◌, Bool-cases,
}
use native.Mathlib.Nat.{lt_of_mul-lt-mul_right}
use muzi.ChainBuffer.Vectors.{Iovec, Written, written, failed}
use muzi.OldBuffer.{Iterator, OldBuffer, and_then, skip, difference, to_size, readable_bytes}
use muzi.OldBuffer.Iterators.{position, position-in, skip_lem}
use muzi.OldBuffer.Flat.{at, slice, slice-append, at-position, drop-slice}
use muzi.OldBuffer.Space.{IsValid, held, contents, readable_bytes_lem}
use muzi.OldBuffer.Bytes.{length-contents}

-- The bytes of a vector, and of vectors in turn.
abbrev pub bytes_of : (ℕ → ℕ → ℕ) → ℕ → ℕ → ℕ → List ℕ
bytes_of memory i c zero = []
bytes_of memory i c (suc n) = memory i c ∷ bytes_of memory i (suc c) n

abbrev pub gather : (ℕ → ℕ → ℕ) → List Iovec → List ℕ
gather memory [] = []
gather memory (v ∷ vs) = bytes_of memory v.block v.iov_pos v.iov_len ++ gather memory vs

module _ (size : ℕ) where
  -- The whole blocks from `i` on, and the last one.
  abbrev pub last_vec : ℕ → ℕ → ℕ → List Iovec
  last_vec zero i len = record { block = i; iov_pos = 0; iov_len = len } ∷ []
  last_vec (suc k) i len =
      record { block = i; iov_pos = 0; iov_len = size } ∷ last_vec k (suc i) len

  -- The vectors of WriteFd().
  abbrev pub used_vec : OldBuffer → List Iovec
  used_vec b =
      let first = b.read_index.buffer_it in
      let last = b.write_index.buffer_it in
      let all = to_size (difference size b.write_index b.read_index) in
      if first == last
      then record { block = first; iov_pos = b.read_index.cur; iov_len = all } ∷ []
      else record { block = first; iov_pos = b.read_index.cur; iov_len = size - b.read_index.cur }
        ∷ last_vec (last - suc first) (suc first) b.write_index.cur

  -- WriteFd(), with the bytes that the kernel takes.
  unfoldable pub write_fd : OldBuffer → Written → Option (List ℕ × OldBuffer)
  write_fd b failed = some ([], b)
  write_fd b (written n) =
      and_then (skip size b.count b.read_index n)
        (λ it. some (take n (gather b.memory (used_vec b)), record b { read_index = it }))

  append_nil : (xs : List ℕ) → xs ++ [] ≡ xs
  append_nil [] = refl
  append_nil (x ∷ xs) = ap (λ ys. x ∷ ys) (append_nil xs)

  bytes_of-slice :
      (n : ℕ) (memory : ℕ → ℕ → ℕ) (i c : ℕ)
      → c + n ≤ size
      → bytes_of memory i c n ≡ slice size memory (i * size + c) n
  bytes_of-slice zero memory i c h = refl
  bytes_of-slice (suc n) memory i c h =
      let it : Iterator = record { buffer_it = i; cur = c } in
      let there : i * size + suc c ≡ suc (i * size + c) = omega arith in
      ap (λ x. x ∷ bytes_of memory i (suc c) n)
        (sym (at-position size memory it (omega (arith, h))))
      ∙ ap (λ xs. at size memory (i * size + c) ∷ xs)
          (bytes_of-slice n memory i (suc c) (omega (arith, h))
            ∙ ap (λ p. slice size memory p n) there)

  gather-last_vec :
      (k : ℕ) (memory : ℕ → ℕ → ℕ) (i len : ℕ)
      → len ≤ size
      → gather memory (last_vec k i len) ≡ slice size memory (i * size) (k * size + len)
  gather-last_vec zero memory i len h =
      let here : i * size + 0 ≡ i * size = omega arith in
      let all : len ≡ 0 * size + len = omega arith in
      append_nil (bytes_of memory i 0 len)
      ∙ bytes_of-slice len memory i 0 (omega (arith, h))
      ∙ ap (λ p. slice size memory p len) here
      ∙ ap (slice size memory (i * size)) all
  gather-last_vec (suc k) memory i len h =
      let here : i * size + 0 ≡ i * size = omega arith in
      let next : suc i * size ≡ i * size + size = omega arith in
      let all : suc k * size + len ≡ size + (k * size + len) = omega arith in
      ap (λ xs. xs ++ gather memory (last_vec k (suc i) len))
        (bytes_of-slice size memory i 0 (omega arith) ∙ ap (λ p. slice size memory p size) here)
      ∙ ap (λ xs. slice size memory (i * size) size ++ xs)
          (gather-last_vec k memory (suc i) len h
            ∙ ap (λ p. slice size memory p (k * size + len)) next)
      ∙ sym (slice-append size size (k * size + len) memory (i * size))
      ∙ ap (slice size memory (i * size)) (sym all)

  -- The vectors have the bytes held.
  gather-used_vec :
      {b : OldBuffer} → IsValid size b → gather b.memory (used_vec b) ≡ contents size b
  unfolding readable_bytes
  gather-used_vec {b} v =
      let first = b.read_index.buffer_it in
      let last = b.write_index.buffer_it in
      let pos = b.read_index.cur in
      let all = to_size (difference size b.write_index b.read_index) in
      let r : all ≡ held size b = readable_bytes_lem size v in
      elim (Bool-cases (first == last)) [
        | inl on ↦
            let same : first ≡ last = ground (arith, on) in
            let in_block : pos + all ≤ size =
              omega (arith, r, ap (λ i. i * size) same, v.write_in.cur_in, v.in_order) in
            rw on (
              append_nil (bytes_of b.memory first pos all)
              ∙ bytes_of-slice all b.memory first pos in_block
              ∙ ap (slice size b.memory (position size b.read_index)) r)
        | inr off ↦
            let k = last - suc first in
            let len = b.write_index.cur in
            let ordered : first < suc last =
              lt_of_mul-lt-mul_right size (omega (arith, v.in_order, v.write_in.cur_in)) in
            let behind : last ≡ suc first + k = ground (arith, ordered, off) in
            let next : suc first * size ≡ position size b.read_index + (size - pos) =
              omega (arith, v.read_in.cur_in) in
            let total : (size - pos) + (k * size + len) ≡ held size b =
              omega (arith, ap (λ i. i * size) behind, v.read_in.cur_in) in
            rw off (
              ap (λ xs. xs ++ gather b.memory (last_vec k (suc first) len))
                (bytes_of-slice (size - pos) b.memory first pos (omega (arith, v.read_in.cur_in)))
              ∙ ap (λ xs. slice size b.memory (position size b.read_index) (size - pos) ++ xs)
                  (gather-last_vec k b.memory (suc first) len (omega (arith, v.write_in.cur_in))
                    ∙ ap (λ p. slice size b.memory p (k * size + len)) next)
              ∙ sym (
                  slice-append size (size - pos) (k * size + len) b.memory
                    (position size b.read_index))
              ∙ ap (slice size b.memory (position size b.read_index)) total)
      ]

  -- WriteFd() of which the kernel takes `n` bytes, no more than are held: it gets the first `n` bytes,
  -- and a valid buffer is left with those behind.
  pub write_fd-take :
      {b : OldBuffer} (n : ℕ)
      → IsValid size b
      → n ≤ length (contents size b)
      → (b' : OldBuffer) × (write_fd b (written n) ≡ some (take n (contents size b), b'))
        × IsValid size b'
        × (contents size b' ≡ drop n (contents size b))
  unfolding write_fd
  write_fd-take {b} n v h =
      let n_held : n ≤ held size b = omega (arith, h, length-contents size v) in
      let w = position-in size b.count v.write_in in
      let (it, e, v', q) =
        skip_lem size b.count b.read_index n v.read_in (omega (arith, v.in_order, n_held, w)) in
      let left : position size b.write_index - position size it ≡ held size b - n =
        omega (arith, q) in
      let b' = record b { read_index = it } in
      (
        b',
        ap (λ r. and_then r sent) e ∙ ap (λ xs. some (take n xs, b')) (gather-used_vec v),
        record {
          read_in = v';
          write_in = v.write_in;
          in_order = omega (arith, q, n_held, v.in_order);
        },
        ap (λ p. slice size b.memory p (position size b.write_index - position size it)) q
            ∙ ap (slice size b.memory (position size b.read_index + n)) left
            ∙ sym (drop-slice size n (held size b) b.memory (position size b.read_index) n_held),
      )
    where
      sent : Iterator → Option (List ℕ × OldBuffer)
      sent it = some (take n (gather b.memory (used_vec b)), record b { read_index = it })
