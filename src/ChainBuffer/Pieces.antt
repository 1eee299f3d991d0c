-- ===== src/ChainBuffer/Pieces.antt =====
-- The bytes held as pieces of blocks: WriteFd() hands their front to the kernel, and
-- Append(const ChainBuffer &) appends them all.
use muzi.Prelude.{
  ℕ, zero, suc, ◌+◌, ◌-◌, ◌*◌, ◌^◌, ◌≤◌, ◌<◌, ◌≡◌, refl, sym, ap, ◌∙◌, inl, inr, List, [], ◌++◌,
  some, arith, length, get_or, take, drop, ◌==◌, Bool-cases, length-append, length-drop,
  take-append_le, take_all,
}
use mathlib.Core.List.{append_assoc, append-nil}
use muzi.ChainBuffer.{ChainBuffer}
use muzi.ChainBuffer.Bytes.{concat, take-drop}
use muzi.ChainBuffer.Invariant.{write_offset, contents, CanWrite, IsValid, length-contents}
use muzi.ChainBuffer.Append.{append_lem}
use muzi.ChainBuffer.Retrive.{retrive_lem}
use muzi.ChainBuffer.Peek.{from, peek_near, peek_far, length-block}
use muzi.ChainBuffer.Vectors.{
  max_vec_size, written, gather, used_vec, with_sent, write_fd, and_then, append_from,
  append_buffer,
}

module _ (size : ℕ) {b : ChainBuffer} (v : CanWrite size b) where
  -- The bytes from offset `pos` of block `i` to the write position.
  abbrev pub held_from : ℕ → ℕ → List ℕ
  held_from i pos = drop (i * size + pos) (take (write_offset size b) (concat b.buffers))

  before_write :
      (i pos : ℕ)
      → i < b.write_buffer
      → pos < size
      → i * size + pos + (size - pos) ≤ write_offset size b
  before_write i pos h p =
      let more : suc i * size ≤ b.write_buffer * size = grind arith in omega arith

  as_part :
      (i pos len : ℕ)
      → i * size + pos + len ≡ write_offset size b
      → take len (from size b.buffers v.uniform i pos) ≡ held_from i pos
  as_part i pos len e =
      take-drop len (i * size + pos) (write_offset size b) (concat b.buffers) (omega (arith, e))

  -- A block before the one written to is held from `pos` on.
  held_block :
      (i pos : ℕ)
      → i < b.write_buffer
      → pos < size
      → held_from i pos ≡ drop pos (get_or b.buffers i []) ++ held_from (suc i) 0
  held_block i pos h p =
      let room = before_write i pos h p in
      let len = write_offset size b - (i * size + pos) in
      let all : length (drop pos (get_or b.buffers i [])) ≡ size - pos = omega (
        arith,
        length-drop pos (get_or b.buffers i []),
        length-block size b.buffers i v.uniform (omega (arith, v.write_in)),
      ) in
      sym (
        ap (λ l. drop pos (get_or b.buffers i []) ++ l)
          (sym (as_part (suc i) 0 (len - (size - pos)) (omega (arith, room))))
        ∙ ap (λ l. l ++ take (len - (size - pos)) (from size b.buffers v.uniform (suc i) 0))
            (sym (take_all (size - pos) (drop pos (get_or b.buffers i [])) (omega (arith, all))))
        ∙ peek_far size b.buffers v.uniform i pos len (omega (arith, v.write_in)) p
            (omega (arith, room))
        ∙ as_part i pos len (omega (arith, room)))

  -- The block written to is held up to the write position.
  held_last :
      (pos : ℕ)
      → pos ≤ b.write_pos
      → held_from b.write_buffer pos
        ≡ take (b.write_pos - pos) (drop pos (get_or b.buffers b.write_buffer []))
  held_last pos p = sym (
      peek_near size b.buffers v.uniform b.write_buffer pos (b.write_pos - pos) v.write_in
        (omega (arith, v.write_pos_in)) (omega (arith, v.write_pos_in))
      ∙ as_part b.write_buffer pos (b.write_pos - pos) (omega arith))

  -- The vectors of WriteFd() are the front of the bytes held.
  gather-used_vec :
      (k i pos : ℕ)
      → i ≤ b.write_buffer
      → pos < size
      → (i ≡ b.write_buffer → pos ≤ b.write_pos)
      → (rest : List ℕ) × (held_from i pos ≡ gather (used_vec size k b i pos) b.buffers ++ rest)
  gather-used_vec zero i pos h p q = (held_from i pos, refl)
  gather-used_vec (suc k) i pos h p q = elim (Bool-cases (i == b.write_buffer)) [
    | inl on ↦
        let e : i ≡ b.write_buffer = ground arith in
        (
          [],
          rw on (
              ap (λ j. held_from j pos) e
              ∙ held_last pos (q e)
              ∙ ap (λ j. take (b.write_pos - pos) (drop pos (get_or b.buffers j []))) (sym e)
              ∙ sym (append-nil _ ∙ append-nil _)),
        )
    | inr off ↦
        let lt : i < b.write_buffer = ground arith in
        let (rest, e) = gather-used_vec k (suc i) 0 lt (omega arith) (λ _. omega arith) in
        let all = length-block size b.buffers i v.uniform (omega (arith, v.write_in)) in
        (
          rest,
          rw off (
              held_block i pos lt p
              ∙ ap (λ l. drop pos (get_or b.buffers i []) ++ l) e
              ∙ ap (λ l. l ++ (gather (used_vec size k b (suc i) 0) b.buffers ++ rest))
                  (sym (
                    take_all (size - pos) (drop pos (get_or b.buffers i []))
                      (omega (arith, all, length-drop pos (get_or b.buffers i [])))))
              ∙ sym (append_assoc (take (size - pos) (drop pos (get_or b.buffers i []))) _ rest)),
        )
  ]

pos-le :
    (size : ℕ) {b : ChainBuffer}
    → IsValid size b
    → b.read_buffer ≡ b.write_buffer
    → b.read_pos ≤ b.write_pos
pos-le size {b} v e =
    let first : b.write_buffer * size ≡ 0 * size = ap (λ k. k * size) (sym e ∙ v.read_first) in
    omega (arith, v.counted, first)

-- WriteFd() of which the kernel takes `n` bytes, no more than it is handed, ends: the kernel gets the
-- first `n` bytes of the buffer, and a valid buffer is left with those behind.
pub write_fd_lem :
    (size : ℕ) {b : ChainBuffer} (n : ℕ)
    → IsValid size b
    → n ≤ length (gather (used_vec size max_vec_size b b.read_buffer b.read_pos) b.buffers)
    → (b' : ChainBuffer) × (write_fd size b (written n) ≡ some (take n (contents size b), b'))
      × IsValid size b'
      × (contents size b' ≡ drop n (contents size b))
unfolding write_fd
write_fd_lem size {b} n v h =
    let handed = gather (used_vec size max_vec_size b b.read_buffer b.read_pos) b.buffers in
    let (rest, e) =
      gather-used_vec size v.can_write max_vec_size b.read_buffer b.read_pos
        (omega (arith, v.read_first)) v.read_pos_in (pos-le size v) in
    let same : take n (contents size b) ≡ take n handed =
      ap (take n) e ∙ take-append_le n handed rest h in
    let len = ap length e ∙ length-append handed rest in
    let (b', r, v', c) = retrive_lem size n v (omega (arith, length-contents size v, len)) in
    (b', ap (with_sent size (take n handed)) r ∙ ap (λ l. some (l, b')) (sym same), v', c)

-- Append(const ChainBuffer &) of another buffer ends, with a valid buffer that holds the old bytes
-- followed by those of the other one, if there are fewer than 2^64 of them.
pub append_buffer_lem :
    (size : ℕ) {b buffer : ChainBuffer}
    → IsValid size b
    → IsValid size buffer
    → b.readable_bytes + buffer.readable_bytes < 2 ^ 64
    → (b' : ChainBuffer) × (append_buffer size b buffer ≡ some b')
      × IsValid size b'
      × (contents size b' ≡ contents size b ++ contents size buffer)
unfolding append_buffer
append_buffer_lem size {b} {buffer} v vo fits =
    let (b', e, v', c) =
      from_lem (buffer.write_buffer - buffer.read_buffer) b buffer.read_pos v
        (omega (arith, vo.read_first)) vo.read_pos_in
        (λ z. pos-le size vo (omega (arith, z, vo.read_first)))
        (omega (
          arith,
          length-contents size vo,
          ap (λ j. length (held_from size vo.can_write j buffer.read_pos)) at_read,
        )) in
    (
      b',
      e,
      v',
      c ∙ ap (λ j. contents size b ++ held_from size vo.can_write j buffer.read_pos) at_read,
    )
  where
    cw : CanWrite size buffer
    cw = vo.can_write

    at_read : buffer.write_buffer - (buffer.write_buffer - buffer.read_buffer) ≡ buffer.read_buffer
    at_read = omega (arith, vo.read_first)

    from_lem :
        (k : ℕ) (b : ChainBuffer) (pos : ℕ)
        → IsValid size b
        → k ≤ buffer.write_buffer
        → pos < size
        → (k ≡ 0 → pos ≤ buffer.write_pos)
        → b.readable_bytes + length (held_from size cw (buffer.write_buffer - k) pos) < 2 ^ 64
        → (b' : ChainBuffer) × (append_from size k buffer b pos ≡ some b')
          × IsValid size b'
          × (contents size b' ≡ contents size b ++ held_from size cw (buffer.write_buffer - k) pos)
    from_lem zero b pos v h p q f =
        let here : buffer.write_buffer - 0 ≡ buffer.write_buffer = omega arith in
        let last = ap (λ j. held_from size cw j pos) here ∙ held_last size cw pos (q refl) in
        let (b', e, v', c) = append_lem size {b = b} _ v (omega (arith, f, ap length last)) in
        (b', e, v', c ∙ ap (λ l. contents size b ++ l) (sym last))
    from_lem (suc k) b pos v h p q f =
        let i = buffer.write_buffer - suc k in
        let block = drop pos (get_or buffer.buffers i []) in
        let front = held_block size cw i pos (omega arith) p in
        let next : suc i ≡ buffer.write_buffer - k = omega arith in
        let all = front ∙ ap (λ j. block ++ held_from size cw j 0) next in
        let len =
          ap length all ∙ length-append block (held_from size cw (buffer.write_buffer - k) 0) in
        let (b₁, e₁, v₁, c₁) = append_lem size {b = b} block v (omega (arith, f, len)) in
        let count = ap length c₁ ∙ length-append (contents size b) block in
        let (b', e, v', c) =
          from_lem k b₁ 0 v₁ (omega arith) (omega arith) (λ _. omega arith)
            (omega (arith, f, len, count, length-contents size v, length-contents size v₁)) in
        (
          b',
          ap (and_then size (λ b'. append_from size k buffer b' 0)) e₁ ∙ e,
          v',
          c
              ∙ ap (λ l. l ++ held_from size cw (buffer.write_buffer - k) 0) c₁
              ∙ append_assoc (contents size b) block (held_from size cw (buffer.write_buffer - k) 0)
              ∙ ap (λ l. contents size b ++ l) (sym all),
        )
