-- ===== src/OldBuffer/Space.antt =====
-- A valid buffer and the bytes that it holds, and the blocks that ExtendSpace() swaps.
use native.Mathlib.Nat.{div-add-mod', mod-lt, lt_of_mul-lt-mul_right}
use muzi.Prelude.{
  ℕ, zero, suc, ◌+◌, ◌-◌, ◌*◌, ◌/◌, ◌%◌, ◌≤◌, ◌<◌, ◌≡◌, refl, sym, ap, ◌∙◌, true, false, List,
  arith, ◌==◌, le→leb,
}
use muzi.OldBuffer.{
  Iterator, OldBuffer, minus, to_size, but_one, swapped, readable_bytes, writable_bytes,
  swap_blocks,
}
use muzi.OldBuffer.Iterators.{position, IsIn, position-in, difference_lem}
use muzi.OldBuffer.Flat.{at, slice, at-position}

module _ (size : ℕ) where
  -- Both indices are in the blocks, in their order.
  pub record IsValid (b : OldBuffer) : Type 0 where
    pub read_in : IsIn size b.count b.read_index
    pub write_in : IsIn size b.count b.write_index
    pub in_order : position size b.read_index ≤ position size b.write_index

  -- The bytes between the indices.
  abbrev pub held : OldBuffer → ℕ
  held b = position size b.write_index - position size b.read_index

  abbrev pub contents : OldBuffer → List ℕ
  contents b = slice size b.memory (position size b.read_index) (held b)

  pub readable_bytes_lem : {b : OldBuffer} → IsValid b → readable_bytes size b ≡ held b
  unfolding readable_bytes
  readable_bytes_lem {b} v =
      let e = difference_lem size b.write_index b.read_index (omega (arith, v.read_in.cur_in)) in
      let on = le→leb (position size b.read_index) (position size b.write_index) v.in_order in
      ap to_size e ∙ rw on refl

  pub writable_bytes_lem :
      {b : OldBuffer}
      → IsValid b
      → writable_bytes size b + suc (position size b.write_index) ≡ b.count * size
  unfolding writable_bytes
  writable_bytes_lem {b} v =
      let last : Iterator = record { buffer_it = b.count; cur = 0 } in
      let e = difference_lem size last b.write_index (omega (arith, v.write_in.cur_in)) in
      let l = position-in size b.count v.write_in in
      let on = le→leb (position size b.write_index) (position size last) (omega (arith, l)) in
      let w : but_one (minus (position size last) (position size b.write_index))
          ≡ position size last - position size b.write_index - 1 =
        rw on refl in
      omega (arith, ap but_one e, w, l)

  -- The swapped blocks.
  swap_blocks_before :
      (n left idle : ℕ) (memory : ℕ → ℕ → ℕ) (i : ℕ)
      → i < idle
      → idle ≤ left
      → swap_blocks size n left idle memory i ≡ memory i
  swap_blocks_before zero left idle memory i h l = refl
  swap_blocks_before (suc n) left idle memory i h l =
      let a : (i == left) ≡ false = ground (arith, h, l) in
      let c : (i == idle) ≡ false = ground (arith, h) in
      swap_blocks_before n (suc left) (suc idle) (swapped left idle memory) i (omega (arith, h))
        (omega (arith, l))
      ∙ rw (a, c) refl

  swap_blocks_lem :
      (n left idle : ℕ) (memory : ℕ → ℕ → ℕ) (k : ℕ)
      → k < n
      → idle + n ≤ left
      → swap_blocks size n left idle memory (idle + k) ≡ memory (left + k)
  swap_blocks_lem zero left idle memory k h l = absurd (omega (arith, h))
  swap_blocks_lem (suc n) left idle memory zero h l =
      let a : (idle + 0 == left) ≡ false = ground (arith, l) in
      let c : (idle + 0 == idle) ≡ true = ground arith in
      let e : left ≡ left + 0 = omega arith in
      swap_blocks_before n (suc left) (suc idle) (swapped left idle memory) (idle + 0) (omega arith)
        (omega (arith, l))
      ∙ rw (a, c) (ap memory e)
  swap_blocks_lem (suc n) left idle memory (suc k) h l =
      let a : (suc left + k == left) ≡ false = ground arith in
      let c : (suc left + k == idle) ≡ false = ground (arith, l) in
      let there : idle + suc k ≡ suc idle + k = omega arith in
      let e : suc left + k ≡ left + suc k = omega arith in
      ap (swap_blocks size n (suc left) (suc idle) (swapped left idle memory)) there
      ∙ swap_blocks_lem n (suc left) (suc idle) (swapped left idle memory) k (omega (arith, h))
          (omega (arith, l))
      ∙ rw (a, c) (ap memory e)

  -- The byte `j` bytes behind an offset of the first block, before and behind the swaps.
  pub swapped_at :
      (n left idle : ℕ) (memory : ℕ → ℕ → ℕ) (j : ℕ)
      → 0 < size
      → j < n * size
      → idle + n ≤ left
      → at size (swap_blocks size n left idle memory) (idle * size + j)
        ≡ at size memory (left * size + j)
  swapped_at n left idle memory j pos_size h l =
      let k = j / size in
      let c = j % size in
      let e = div-add-mod' j size in
      let m : c < size = mod-lt j pos_size in
      let in_swap : k < n = lt_of_mul-lt-mul_right size (omega (arith, e, h)) in
      let new : (idle + k) * size + c ≡ idle * size + j = omega (arith, e) in
      let old : (left + k) * size + c ≡ left * size + j = omega (arith, e) in
      let memory' = swap_blocks size n left idle memory in
      let it : Iterator = record { buffer_it = idle + k; cur = c } in
      let it' : Iterator = record { buffer_it = left + k; cur = c } in
      ap (at size memory') (sym new)
      ∙ at-position size memory' it m
      ∙ ap (λ f. f c) (swap_blocks_lem n left idle memory k in_swap l)
      ∙ sym (ap (at size memory) (sym old) ∙ at-position size memory it' m)
