-- ===== src/LogStream/Examples.antt =====
-- Tests of the log stream, and its theorems at concrete buffers.
use native.Mathlib.Decide.{dec_lt}
use muzi.Prelude.{◌≡◌, refl, true, [], ◌∷◌, replicate, pos, negsuc, lt_wf}
use muzi.FixedBuffer.{FixedBuffer}
use muzi.LogStream.{integer_loop, convert_integer, hex_loop, convert_hex}
use muzi.LogStream.Decimal.{is_integer, read_integer, read_integer-convert_integer}

-- "-120"
convert_integer_negative : convert_integer (negsuc 119) ≡ 45 ∷ 49 ∷ 50 ∷ 48 ∷ []
unfolding convert_integer integer_loop dec_lt lt_wf
convert_integer_negative = refl

-- "0x1F"
convert_hex_small : convert_hex 31 ≡ 48 ∷ 120 ∷ 49 ∷ 70 ∷ []
unfolding convert_hex hex_loop dec_lt lt_wf
convert_hex_small = refl

read_integer-convert_integer_example :
    (is_integer (convert_integer (pos 0)) ≡ true) × (read_integer (convert_integer (pos 0)) ≡ pos 0)
read_integer-convert_integer_example = read_integer-convert_integer (pos 0)

-- A buffer with room for 8 characters.
abbrev nearly_full : FixedBuffer
nearly_full = record { bytes = replicate 4087 32 }
