-- ===== src/ChainBuffer/Peek.antt =====
-- PeekAsString() reads the front of the buffer and leaves it as it is.
use muzi.Prelude.{
  ℕ, zero, suc, ◌+◌, ◌-◌, ◌*◌, ◌≤◌, ◌<◌, ◌≡◌, refl, sym, ap, ◌∙◌, inl, inr, List, [], ◌∷◌, ◌++◌,
  some, arith, length, get_or, take, drop, ltb, Bool-cases, le→leb, length-drop, take_all,
  take-append_le,
}
use mathlib.Core.List.{append-nil}
use muzi.ChainBuffer.{
  ChainBuffer, peek_loop, peek_as_string, peek_all_as_string, retrive_as_string,
  retrive_all_as_string, retrive_all,
}
use muzi.ChainBuffer.Bytes.{
  concat, Uniform, drop-drop, drop-append_add, take-append_add, take-drop, drop-concat,
}
use muzi.ChainBuffer.Invariant.{
  write_offset, read_offset, contents, IsValid, write_offset-lt, length-contents,
  retrive_all-IsValid,
}
use muzi.ChainBuffer.Retrive.{retrive_lem}

pub take-take : (k n : ℕ) (xs : List ℕ) → k ≤ n → take k (take n xs) ≡ take k xs
take-take zero n xs h = refl
take-take (suc k) zero xs h = absurd (omega arith)
take-take (suc k) (suc n) [] h = refl
take-take (suc k) (suc n) (x ∷ xs) h = ap (λ l. x ∷ l) (take-take k n xs (omega arith))

pub length-block :
    (size : ℕ) (blocks : List (List ℕ)) (i : ℕ)
    → Uniform size blocks
    → i < length blocks
    → length (get_or blocks i []) ≡ size
length-block size [] i u h = absurd (omega arith)
length-block size (b ∷ bs) zero u h = u.0
length-block size (b ∷ bs) (suc i) u h = length-block size bs i u.1 (omega arith)

module _ (size : ℕ) (blocks : List (List ℕ)) (u : Uniform size blocks) where
  -- The bytes from offset `pos` of block `i` on.
  abbrev pub from : ℕ → ℕ → List ℕ
  from i pos = drop (i * size + pos) (concat blocks)

  module _ (i pos len : ℕ) (in_list : i < length blocks) (in_block : pos < size) where
    pub split_block : from i pos ≡ drop pos (get_or blocks i []) ++ concat (drop (suc i) blocks)
    split_block = drop-concat size blocks i pos u in_list (omega arith)

    pub length-rest : length (drop pos (get_or blocks i [])) ≡ size - pos
    length-rest =
        omega (arith, length-drop pos (get_or blocks i []), length-block size blocks i u in_list)

    pub peek_near :
        len < size - pos → take len (drop pos (get_or blocks i [])) ≡ take len (from i pos)
    peek_near h = sym (
        ap (take len) split_block
        ∙ take-append_le len _ (concat (drop (suc i) blocks)) (omega (arith, length-rest)))

    pub peek_far :
        size - pos ≤ len
        → take (size - pos) (drop pos (get_or blocks i []))
            ++ take (len - (size - pos)) (from (suc i) 0)
          ≡ take len (from i pos)
    peek_far h =
        let block = drop pos (get_or blocks i []) in
        let rest = concat (drop (suc i) blocks) in
        let next : from (suc i) 0 ≡ rest =
          sym (
            drop-drop (size - pos) (i * size + pos) (suc i * size + 0) (concat blocks)
              (omega arith))
          ∙ ap (drop (size - pos)) split_block
          ∙ drop-append_add (size - pos) 0 (size - pos) block rest length-rest (omega arith) in
        ap (λ l. l ++ take (len - (size - pos)) (from (suc i) 0))
          (take_all (size - pos) block (omega (arith, length-rest)))
        ∙ ap (λ l. block ++ take (len - (size - pos)) l) next
        ∙ sym (
            ap (take len) split_block
            ∙ take-append_add (size - pos) (len - (size - pos)) len block rest length-rest
                (omega arith))

  peek_loop-zero : (fuel i pos : ℕ) → 0 < fuel → peek_loop size fuel blocks i pos 0 ≡ some []
  unfolding peek_loop
  peek_loop-zero zero i pos h = absurd (omega arith)
  peek_loop-zero (suc fuel) i pos h = refl

  peek_loop_lem :
      (fuel i pos len : ℕ)
      → pos < size
      → i * size + pos + len ≤ length blocks * size
      → len < fuel
      → peek_loop size fuel blocks i pos len ≡ some (take len (from i pos))
  unfolding peek_loop
  peek_loop_lem zero i pos len p h k = absurd (omega arith)
  peek_loop_lem (suc fuel) i pos zero p h k = refl
  peek_loop_lem (suc fuel) i pos (suc len) p h k =
      let in_list : i < length blocks = grind arith in
      elim (Bool-cases (ltb (suc len) (size - pos))) [
        | inl near ↦
            rw (near, peek_loop-zero fuel i pos (omega arith))
              (ap some (append-nil _ ∙ peek_near i pos (suc len) in_list p (ground arith)))
        | inr far ↦
            rw
              (
                far,
                peek_loop_lem fuel (suc i) 0 (suc len - (size - pos)) (omega arith) (ground arith)
                    (ground arith),
              )
              (ap some (peek_far i pos (suc len) in_list p (ground arith)))
      ]

-- PeekAsString() of at most the readable bytes ends, with the first `len` bytes of the buffer.
pub peek_as_string_lem :
    (size : ℕ) {b : ChainBuffer} (len : ℕ)
    → IsValid size b
    → len ≤ b.readable_bytes
    → peek_as_string size b len ≡ some (take len (contents size b))
unfolding peek_as_string
peek_as_string_lem size {b} len v h =
    let r = read_offset size b in
    let w = write_offset size b in
    let total = concat b.buffers in
    let reaches : r + len ≤ w = grind (arith, v.read_first, v.counted) in
    rw (le→leb len b.readable_bytes h) (
      peek_loop_lem size b.buffers v.can_write.uniform (len + 2) b.read_buffer b.read_pos len
        v.read_pos_in (omega (arith, write_offset-lt size v.can_write)) (omega arith)
      ∙ ap some (
          take-drop len r (r + len) total refl
          ∙ sym (
              take-drop len r (r + len) (take w total) refl
              ∙ ap (drop r) (take-take (r + len) w total reaches))))

-- RetriveAsString() hands out the first `len` bytes, and leaves a valid buffer with those behind.
pub retrive_as_string_lem :
    (size : ℕ) {b : ChainBuffer} (len : ℕ)
    → IsValid size b
    → len ≤ b.readable_bytes
    → (b' : ChainBuffer) × (retrive_as_string size b len ≡ some (take len (contents size b), b'))
      × IsValid size b'
      × (contents size b' ≡ drop len (contents size b))
unfolding retrive_as_string
retrive_as_string_lem size {b} len v h =
    let (b', e, v', c) = retrive_lem size len v h in
    (b', ground (arith, peek_as_string_lem size len v h, e), v', c)

-- RetriveAllAsString() hands out all bytes of the buffer, and leaves a valid, empty one.
pub retrive_all_as_string_lem :
    (size : ℕ) {b : ChainBuffer}
    → IsValid size b
    → (retrive_all_as_string size b ≡ some (contents size b, retrive_all size b))
      × IsValid size (retrive_all size b)
      × (contents size (retrive_all size b) ≡ [])
unfolding retrive_all_as_string peek_all_as_string
retrive_all_as_string_lem size {b} v =
    let (v', e) = retrive_all-IsValid size v in
    let all : take b.readable_bytes (contents size b) ≡ contents size b =
      take_all b.readable_bytes (contents size b) (omega (arith, length-contents size v)) in
    (ground (arith, peek_as_string_lem size b.readable_bytes v (omega arith), all), v', e)
