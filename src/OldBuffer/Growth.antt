-- ===== src/OldBuffer/Growth.antt =====
-- EnsureWritableBytes() and ExtendSpace() on a valid buffer.
use native.Mathlib.Nat.{lt_of_mul-lt-mul_right}
use muzi.Prelude.{
  ℕ, zero, suc, ◌+◌, ◌-◌, ◌*◌, ◌/◌, ◌≤◌, ◌<◌, ◌≡◌, refl, ap, ◌∙◌, inl, inr, Bool, true, false, some,
  arith, ltb, leb, if◌then◌else◌, Bool-cases,
}
use muzi.OldBuffer.{
  OldBuffer, cheap_prepend, writable_bytes, swap_blocks, extend_space, ensure_writable_bytes,
}
use muzi.OldBuffer.Iterators.{position, position-in}
use muzi.OldBuffer.Flat.{at, slice, slice-cong}
use muzi.OldBuffer.Space.{IsValid, held, contents, writable_bytes_lem, swapped_at}

module _ (size : ℕ) where
  -- What ExtendSpace() does.
  pub record IsExtended (b b' : OldBuffer) : Type 0 where
    pub valid : IsValid size b'
    pub same : contents size b' ≡ contents size b
    pub more : writable_bytes size b < writable_bytes size b'

  doubled : {b : OldBuffer} → IsValid size b → IsExtended b (record b { count = b.count * 2 })
  doubled {b} v =
      let more_blocks : b.count < b.count * 2 = omega (arith, v.read_in.block_in) in
      let b' : OldBuffer = record b { count = b.count * 2 } in
      let v' : IsValid size b' = record {
        read_in = record {
          block_in = omega (arith, v.read_in.block_in);
          cur_in = v.read_in.cur_in;
        };
        write_in = record {
          block_in = omega (arith, v.write_in.block_in);
          cur_in = v.write_in.cur_in;
        };
        in_order = v.in_order;
      } in
      record {
        valid = v';
        same = refl;
        more = omega (
          arith,
          writable_bytes_lem size v,
          writable_bytes_lem size v',
          position-in size b.count v.read_in,
        );
      }

  moved :
      {b : OldBuffer} (idle add : ℕ)
      → IsValid size b
      → idle ≤ 1
      → 2 * ((b.count - b.read_index.buffer_it) + suc add) < b.count
      → IsExtended b (record b {
        memory =
            swap_blocks size
              (suc (b.write_index.buffer_it - b.read_index.buffer_it))
              b.read_index.buffer_it
              idle
              b.memory;
        read_index = record b.read_index { buffer_it = idle };
        write_index = record b.write_index {
          buffer_it = idle + (b.write_index.buffer_it - b.read_index.buffer_it);
        };
      })
  moved {b} idle add v i h =
      let left = b.read_index.buffer_it in
      let right = b.write_index.buffer_it in
      let offset = right - left in
      let ordered : left < suc right =
        lt_of_mul-lt-mul_right size (omega (arith, v.in_order, v.write_in.cur_in)) in
      let behind : right ≡ left + offset = omega (arith, ordered) in
      let behind_size : right * size ≡ left * size + offset * size =
        omega (arith, ap (λ k. k * size) behind) in
      let apart : idle + suc offset ≤ left = omega (arith, v.write_in.block_in, h, i, behind) in
      let before : left ≡ suc idle + (left - suc idle) = omega (arith, apart) in
      let before_size : left * size ≡ idle * size + size + (left - suc idle) * size =
        omega (arith, ap (λ k. k * size) before) in
      let b' : OldBuffer = record b {
        memory = swap_blocks size (suc offset) left idle b.memory;
        read_index = record b.read_index { buffer_it = idle };
        write_index = record b.write_index { buffer_it = idle + offset };
      } in
      let v' : IsValid size b' = record {
        read_in = record {
          block_in = omega (arith, v.read_in.block_in, apart);
          cur_in = v.read_in.cur_in;
        };
        write_in = record {
          block_in = omega (arith, v.read_in.block_in, apart);
          cur_in = v.write_in.cur_in;
        };
        in_order = omega (arith, v.in_order, behind_size);
      } in
      let same_held : held size b' ≡ held size b = omega (arith, behind_size) in
      let same_bytes : (k : ℕ)
          → k < held size b
          → at size b'.memory (position size b'.read_index + k)
            ≡ at size b.memory (position size b.read_index + k) =
        λ k l.
          let j = b.read_index.cur + k in
          let new : position size b'.read_index + k ≡ idle * size + j = omega arith in
          let old : left * size + j ≡ position size b.read_index + k = omega arith in
          ap (at size b'.memory) new
          ∙ swapped_at size (suc offset) left idle b.memory j (omega (arith, v.read_in.cur_in))
              (omega (arith, l, behind_size, v.write_in.cur_in)) apart
          ∙ ap (at size b.memory) old in
      record {
        valid = v';
        same =
            ap (slice size b'.memory (position size b'.read_index)) same_held
            ∙ slice-cong size (held size b) b'.memory b.memory (position size b'.read_index)
                (position size b.read_index) same_bytes;
        more = omega (
          arith,
          writable_bytes_lem size v,
          writable_bytes_lem size v',
          before_size,
          behind_size,
          v.read_in.cur_in,
        );
      }

  extend_space_lem :
      {b : OldBuffer} (len : ℕ) → IsValid size b → IsExtended b (extend_space size b len)
  unfolding extend_space
  extend_space_lem {b} len v =
      let left = b.read_index.buffer_it in
      let add = (len - 1) / size in
      elim (Bool-cases (ltb (2 * ((b.count - left) + suc add)) b.count)) [
        | inl on ↦ rw on (
            moved (if leb cheap_prepend b.read_index.cur then 0 else 1) add v
              (at_most_one (leb cheap_prepend b.read_index.cur)) (ground (arith, on)))
        | inr off ↦ rw off (doubled v)
      ]
    where
      at_most_one : (c : Bool) → (if c then 0 else 1) ≤ 1
      at_most_one true = omega arith
      at_most_one false = omega arith

  -- EnsureWritableBytes() ends, with room for `len` bytes and the bytes held as they were.
  pub ensure_writable_bytes_lem :
      (fuel : ℕ) {b : OldBuffer} (len : ℕ)
      → IsValid size b
      → len ≤ writable_bytes size b + fuel
      → (b' : OldBuffer) × (ensure_writable_bytes size fuel b len ≡ some b')
        × IsValid size b'
        × (contents size b' ≡ contents size b)
        × (len ≤ writable_bytes size b')
  ensure_writable_bytes_lem zero {b} len v h =
      let on : ltb (writable_bytes size b) len ≡ false = ground (arith, h) in
      rw on (b, refl, v, refl, omega (arith, h))
  ensure_writable_bytes_lem (suc fuel) {b} len v h =
      let x = extend_space_lem (len - writable_bytes size b) v in
      elim (Bool-cases (ltb (writable_bytes size b) len)) [
        | inl on ↦
            let (b', e, v', c, room) =
              ensure_writable_bytes_lem fuel len x.valid (omega (arith, h, x.more)) in
            rw on (b', e, v', c ∙ x.same, room)
        | inr off ↦ rw off (b, refl, v, refl, ground (arith, off))
      ]
