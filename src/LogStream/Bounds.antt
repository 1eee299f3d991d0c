-- ===== src/LogStream/Bounds.antt =====
-- Integers are written within the array.
use muzi.Prelude.{
  ◌^◌, ◌<◌, ◌≡◌, refl, ◌++◌, some, arith, leb, ℤ, magnitude, Bool-cases, inl, inr, if◌then◌else◌,
}
use muzi.FixedBuffer.{FixedBuffer, get_avail}
use muzi.FixedBuffer.Bounds.{Fits, add_lem}
use muzi.LogStream.{convert_integer, put_integer, small_buff_size, max_numeric_size}
use muzi.LogStream.Decimal.{length-convert_integer}

-- operator<< for a 64-bit integer adds its whole text where the buffer has the room that is asked
-- for, else nothing; it never writes past the array and keeps the byte for the '\0'.
pub put_integer_lem :
    (b : FixedBuffer) (i : ℤ)
    → Fits small_buff_size b
    → magnitude i < 2 ^ 64
    → (b' : FixedBuffer) × (put_integer b i ≡ some b')
      × Fits small_buff_size b'
      × (b'.bytes ≡ (
          if leb max_numeric_size (get_avail small_buff_size b)
          then b.bytes ++ convert_integer i
          else b.bytes))
unfolding put_integer
put_integer_lem b i fits small =
    elim (Bool-cases (leb max_numeric_size (get_avail small_buff_size b))) [
      | inl room ↦
          let short = length-convert_integer i small in
          let (e, f) =
            add_lem small_buff_size b (omega arith) fits (convert_integer i)
              (ground (arith, room)) in
          (record b { bytes = b.bytes ++ convert_integer i }, rw room e, f, rw room refl)
      | inr none_left ↦ (b, rw none_left refl, fits, rw none_left refl)
    ]
