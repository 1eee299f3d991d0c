-- ===== src/ChainBuffer/Trim.antt =====
-- Shrink(), which gives up blocks behind the write position, and UnWrite(), which takes it back.
use native.Mathlib.Decide.{dec_lt}
use native.Mathlib.Nat.{mul-mod_left, zero-mod}
use muzi.Prelude.{
  ℕ, zero, suc, ◌+◌, ◌-◌, ◌*◌, ◌%◌, ◌≤◌, ◌<◌, ◌≡◌, ◌≢◌, ◌⊎◌, inl, inr, refl, sym, ap, ◌∙◌, List, [],
  ◌∷◌, none, some, arith, length, take, drop, le→leb, length-take, take-append_le, take-append-drop,
}
use muzi.ChainBuffer.{
  ChainBuffer, before_begin, backward, unwrite, shrink, writable_bytes, sub_size,
}
use muzi.ChainBuffer.Bytes.{concat, Uniform, length-concat, concat-append, take-drop}
use muzi.ChainBuffer.Invariant.{write_offset, read_offset, contents, IsValid, write_offset-lt}
use muzi.ChainBuffer.Peek.{take-take}
use muzi.ChainBuffer.Iterators.{
  forward_lem, backward_lem, backward-before_begin, index-lt, write_offset-add-writable_bytes,
}

Uniform-take :
    (size n : ℕ) (blocks : List (List ℕ)) → Uniform size blocks → Uniform size (take n blocks)
Uniform-take size zero blocks u = tt
Uniform-take size (suc n) [] u = tt
Uniform-take size (suc n) (b ∷ bs) u = (u.0, Uniform-take size n bs u.1)

-- Giving up blocks behind the first `n` changes nothing before their end.
take-concat-take :
    (size n k : ℕ) (blocks : List (List ℕ))
    → Uniform size blocks
    → n ≤ length blocks
    → k ≤ n * size
    → take k (concat (take n blocks)) ≡ take k (concat blocks)
take-concat-take size n k blocks u h le = sym (
    ap (λ l. take k (concat l)) (sym (take-append-drop n blocks))
    ∙ ap (take k) (concat-append (take n blocks) (drop n blocks))
    ∙ take-append_le k (concat (take n blocks)) _ (
        grind (
          arith,
          length-concat size (take n blocks) (Uniform-take size n blocks u),
          length-take n blocks,
        )))

module _ (size : ℕ) {b : ChainBuffer} (v : IsValid size b) where
  -- The blocks up to that of a later position are a valid buffer with the same bytes.
  module _ (i pos : ℕ) (later : write_offset size b ≤ i * size + pos) (byte : pos < size)
      (inside : i < length b.buffers) where
    abbrev cut : ChainBuffer
    cut = record b { buffers = take (suc i) b.buffers }

    length-cut : length cut.buffers ≡ suc i
    length-cut = omega (arith, length-take (suc i) b.buffers)

    cut-IsValid : IsValid size cut
    cut-IsValid = record {
      can_write = record {
        uniform = Uniform-take size (suc i) b.buffers v.can_write.uniform;
        write_in =
            let w : b.write_buffer < suc i =
              index-lt size b.write_buffer b.write_pos (suc i) (omega arith) in
            omega (arith, length-cut);
        write_pos_in = v.can_write.write_pos_in;
      };
      read_first = v.read_first;
      read_pos_in = v.read_pos_in;
      counted = v.counted;
      fits = v.fits;
    }

    contents-cut : contents size cut ≡ contents size b
    contents-cut = ap (drop (read_offset size b)) (
        take-concat-take size (suc i) (write_offset size b) b.buffers v.can_write.uniform inside
          (omega arith))

    writable_bytes-cut : write_offset size b + writable_bytes size cut ≡ suc i * size
    writable_bytes-cut =
        write_offset-add-writable_bytes size cut-IsValid.can_write ∙ ap (λ k. k * size) length-cut

-- Shrink() keeps the bytes and the invariant. It leaves more than `reserve` writable bytes, by at
-- most one block, if there were more before, and otherwise as many as there were.
pub shrink_lem :
    (size : ℕ) {b : ChainBuffer} (reserve : ℕ)
    → IsValid size b
    → (b' : ChainBuffer) × (shrink size b reserve ≡ some b')
      × IsValid size b'
      × (contents size b' ≡ contents size b)
      × ((writable_bytes size b ≤ reserve) × (writable_bytes size b' ≡ writable_bytes size b)
          ⊎ (reserve < writable_bytes size b')
            × (writable_bytes size b' ≤ reserve + size)
            × (writable_bytes size b' ≤ writable_bytes size b))
unfolding shrink
shrink_lem size {b} reserve v = elim (dec_lt reserve (writable_bytes size b)) [
  | no few ↦
      let le : writable_bytes size b ≤ reserve = omega arith in
      (b, rw (le→leb (writable_bytes size b) reserve le), v, refl, inl (le, refl))
  | yes many ↦
      let (i, pos, e, o, q) =
        forward_lem size (reserve + 2) b.write_buffer b.write_pos reserve v.can_write.write_pos_in
          (omega arith) in
      let room = write_offset-add-writable_bytes size v.can_write in
      let later : write_offset size b ≤ i * size + pos = omega (arith, o) in
      let inside : i < length b.buffers =
        index-lt size i pos (length b.buffers) (omega (arith, o, room)) in
      let w = writable_bytes-cut size v i pos later q inside in
      let more : suc i * size ≤ length b.buffers * size = grind arith in
      (
        cut size v i pos later q inside,
        ground (arith, e),
        cut-IsValid size v i pos later q inside,
        contents-cut size v i pos later q inside,
        inr (omega (arith, w, o), omega (arith, w, o), omega (arith, w, room, more)),
      )
]

unwrite_room : (size w len : ℕ) → (w - len) % size ≢ 0 → len < w
unwrite_room size w len border = elim (dec_lt len w) [
  | yes p ↦ p
  | no p ↦
      let e : w - len ≡ 0 = omega arith in absurd (border (ap (λ k. k % size) e ∙ zero-mod size))
]

not_border :
    (size i pos : ℕ) → pos ≤ size → (o : ℕ) → i * size + pos ≡ o → o % size ≢ 0 → pos < size
not_border size i pos q o e border = elim (dec_lt pos size) [
  | yes p ↦ p
  | no p ↦
      let f : o ≡ suc i * size = omega arith in
      absurd (border (ap (λ k. k % size) f ∙ mul-mod_left (suc i) size))
]

-- UnWrite() ends with a valid buffer that has lost its last `len` bytes, if the new end does not
-- fall on the border of two blocks.
pub unwrite_lem :
    (size : ℕ) {b : ChainBuffer} (len : ℕ)
    → IsValid size b
    → len ≤ b.readable_bytes
    → (write_offset size b - len) % size ≢ 0
    → (b' : ChainBuffer) × (unwrite size b len ≡ some b')
      × IsValid size b'
      × (contents size b' ≡ take (b.readable_bytes - len) (contents size b))
unfolding unwrite
unwrite_lem size {b} len v h border =
    let w = write_offset size b in
    let r = read_offset size b in
    let total = concat b.buffers in
    let before : len < w = unwrite_room size w len border in
    let (i, pos, e, o, q) =
      backward_lem size (suc len) b.write_buffer b.write_pos len v.can_write.write_pos_in before
        (omega arith) in
    let byte : pos < size = not_border size i pos q (w - len) (omega (arith, o)) border in
    let inside : i < length b.buffers =
      index-lt size i pos (length b.buffers) (omega (arith, o, write_offset-lt size v.can_write)) in
    let start : r ≡ b.read_pos = ap (λ k. k * size + b.read_pos) v.read_first ∙ omega arith in
    let n = b.readable_bytes - len in
    (
      record b {
        readable_bytes = sub_size b.readable_bytes len;
        write_buffer = i;
        write_pos = pos;
      },
      ground (arith, e, le→leb len b.readable_bytes h),
      record {
        can_write = record {
          uniform = v.can_write.uniform;
          write_in = inside;
          write_pos_in = byte;
        };
        read_first = v.read_first;
        read_pos_in = v.read_pos_in;
        counted = omega (arith, o, v.counted, v.fits);
        fits = omega (arith, v.fits);
      },
      sym (
          take-drop n r (i * size + pos) (take w total) (omega (arith, start, o, v.counted))
          ∙ ap (drop r) (take-take (i * size + pos) w total (omega (arith, o)))),
    )

-- UnWrite() of all the bytes of a buffer steps before begin(), and so fails, whenever the first
-- block has not been read from: in a buffer that is only written to, for one.
pub unwrite_before_begin :
    (size : ℕ) {b : ChainBuffer}
    → IsValid size b
    → 0 < b.readable_bytes
    → b.read_pos ≡ 0
    → (backward size (suc (suc b.readable_bytes)) b.write_buffer b.write_pos b.readable_bytes
        ≡ before_begin)
      × (unwrite size b b.readable_bytes ≡ none)
unfolding unwrite
unwrite_before_begin size {b} v h start =
    let e =
      backward-before_begin size (suc b.readable_bytes) b.write_buffer b.write_pos b.readable_bytes
        v.can_write.write_pos_in h (omega (arith, v.counted)) (omega arith) in
    (e, ground (arith, e))
