-- ===== src/ChainBuffer/Invariant.antt =====
-- The invariant of a chain buffer, and the bytes that it holds.
use muzi.Prelude.{
  ℕ, ◌+◌, ◌*◌, ◌^◌, ◌<◌, ◌≡◌, List, arith, length, take, drop, length-take, length-drop,
  length-replicate, [],
}
use muzi.ChainBuffer.{ChainBuffer, init, retrive_all}
use muzi.ChainBuffer.Bytes.{concat, Uniform, length-concat}

-- The offset of a position in the blocks end to end.
abbrev pub write_offset : ℕ → ChainBuffer → ℕ
write_offset size b = b.write_buffer * size + b.write_pos

abbrev pub read_offset : ℕ → ChainBuffer → ℕ
read_offset size b = b.read_buffer * size + b.read_pos

-- The bytes between the two iterators.
abbrev pub contents : ℕ → ChainBuffer → List ℕ
contents size b = drop (read_offset size b) (take (write_offset size b) (concat b.buffers))

-- Where the write position may stand, whatever the count of readable bytes says.
pub record CanWrite (size : ℕ) (b : ChainBuffer) : Type 0 where
  pub uniform : Uniform size b.buffers
  pub write_in : b.write_buffer < length b.buffers
  pub write_pos_in : b.write_pos < size

-- The blocks are of one size, the first is the one being read, both positions stand on a byte, and
-- readable_bytes_ is the distance between them.
pub record IsValid (size : ℕ) (b : ChainBuffer) : Type 0 where
  pub can_write : CanWrite size b
  pub read_first : b.read_buffer ≡ 0
  pub read_pos_in : b.read_pos < size
  pub counted : b.read_pos + b.readable_bytes ≡ write_offset size b
  pub fits : b.readable_bytes < 2 ^ 64

pub write_offset-lt :
    (size : ℕ) {b : ChainBuffer} → CanWrite size b → write_offset size b < length b.buffers * size
write_offset-lt size v = grind arith

pub length-contents :
    (size : ℕ) {b : ChainBuffer} → IsValid size b → length (contents size b) ≡ b.readable_bytes
length-contents size {b} v =
    let all = concat b.buffers in
    let w = write_offset size b in
    grind (
      arith,
      length-drop (read_offset size b) (take w all),
      length-take w all,
      length-concat size b.buffers v.can_write.uniform,
      write_offset-lt size v.can_write,
    )

pub init-IsValid : (size : ℕ) → 0 < size → IsValid size (init size)
unfolding init
init-IsValid size h = grind (arith, length-replicate {A = ℕ} size 0)

pub retrive_all-IsValid :
    (size : ℕ) {b : ChainBuffer}
    → IsValid size b
    → IsValid size (retrive_all size b) × (contents size (retrive_all size b) ≡ [])
unfolding retrive_all
retrive_all-IsValid size {b} v = let e : 0 * size + 0 ≡ 0 = omega arith in (grind arith, rw e)
