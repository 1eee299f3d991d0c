-- ===== src/LogStream.antt =====
-- muzi/base/log_stream.h and log_stream.cc: text and numbers written to a FixedBuffer of
-- kSmallBuffSize bytes. A conversion is the list of the characters it leaves in the buffer; an
-- integer of any of the source's types is a ℤ. `none` is a write past the array.
pub mod Decimal
pub mod Hex
pub mod Bounds
mod Examples
use mathlib.Core.Logic.{dite}
use mathlib.Core.WellFounded.{Acc}
use native.Mathlib.Decide.{dec_lt}
use muzi.Prelude.{
  ℕ, zero, suc, ◌+◌, ◌-◌, ◌*◌, ◌/◌, ◌%◌, ◌<◌, ◌≡◌, refl, Bool, true, false, List, [], ◌∷◌, ◌++◌,
  Option, some, none, arith, leb, get_or, if◌then◌else◌, ℤ, pos, negsuc, magnitude, negative, lt_wf,
}
use muzi.FixedBuffer.{FixedBuffer, get_avail, add, append}

-- config::kSmallBuffSize, kMaxNumericSize and kMaxHexSize.
abbrev pub small_buff_size : ℕ
small_buff_size = 4096

abbrev pub max_numeric_size : ℕ
max_numeric_size = 48

abbrev pub max_hex_size : ℕ
max_hex_size = 8

-- kDigits, of which kZero is the tenth character, and kDigitsHex.
abbrev pub digits : List ℕ
digits =
    57 ∷ 56 ∷ 55 ∷ 54 ∷ 53 ∷ 52 ∷ 51 ∷ 50 ∷ 49 ∷ 48 ∷ 49 ∷ 50 ∷ 51 ∷ 52 ∷ 53 ∷ 54 ∷ 55 ∷ 56 ∷ 57
    ∷ []

abbrev pub digits_hex : List ℕ
digits_hex = 48 ∷ 49 ∷ 50 ∷ 51 ∷ 52 ∷ 53 ∷ 54 ∷ 55 ∷ 56 ∷ 57 ∷ 65 ∷ 66 ∷ 67 ∷ 68 ∷ 69 ∷ 70 ∷ []

-- std::reverse
abbrev pub reverse : List ℕ → List ℕ
reverse [] = []
reverse (x ∷ xs) = reverse xs ++ x ∷ []

-- kZero[i % 10] and i / 10, which C rounds towards 0.
abbrev pub last_digit : ℤ → ℕ
last_digit (pos n) = get_or digits (9 + n % 10) 0
last_digit (negsuc n) = get_or digits (9 - suc n % 10) 0

abbrev pub div_ten : ℤ → ℤ
div_ten (pos n) = pos (n / 10)
div_ten (negsuc n) = negative (suc n / 10)

magnitude-negative : (n : ℕ) → magnitude (negative n) < suc n
magnitude-negative zero = omega arith
magnitude-negative (suc n) = omega arith

div_ten_shrinks : (i : ℤ) → 0 < magnitude (div_ten i) → magnitude (div_ten i) < magnitude i
div_ten_shrinks (pos n) h = omega arith
div_ten_shrinks (negsuc n) h = omega (arith, magnitude-negative (suc n / 10))

-- The loop of ConvertIneger(): the digits from the last one on.
pub integer_loop : (m : ℕ) → Acc ◌<◌ m → (i : ℤ) → magnitude i ≡ m → List ℕ
integer_loop m (Acc.intro _ smaller) i e =
    dite (dec_lt 0 (magnitude (div_ten i)))
      (λ more.
        last_digit i
        ∷ integer_loop (magnitude (div_ten i))
            (smaller _ (omega (arith, e, div_ten_shrinks i more))) (div_ten i) refl)
      (λ _. last_digit i ∷ [])

abbrev pub sign : ℤ → List ℕ
sign (pos n) = []
sign (negsuc n) = 45 ∷ []

pub convert_integer : ℤ → List ℕ
convert_integer i =
    reverse (integer_loop (magnitude i) (lt_wf.apply (magnitude i)) i refl ++ sign i)

-- ConvertHex() of a uintptr_t.
div_shrinks : (n : ℕ) → 0 < n / 16 → n / 16 < n
div_shrinks n h = omega arith

pub hex_loop : (n : ℕ) → Acc ◌<◌ n → List ℕ
hex_loop n (Acc.intro _ smaller) =
    dite (dec_lt 0 (n / 16))
      (λ more. get_or digits_hex (n % 16) 0 ∷ hex_loop (n / 16) (smaller _ (div_shrinks n more)))
      (λ _. get_or digits_hex (n % 16) 0 ∷ [])

pub convert_hex : ℕ → List ℕ
convert_hex n = reverse (hex_loop n (lt_wf.apply n) ++ 120 ∷ 48 ∷ [])

-- operator<< for an integer, for text, and for a pointer to the number `n`.
pub put_integer : FixedBuffer → ℤ → Option FixedBuffer
put_integer b i =
    if leb max_numeric_size (get_avail small_buff_size b)
    then add small_buff_size b (convert_integer i)
    else some b

pub put_text : FixedBuffer → List ℕ → Option FixedBuffer
put_text b text = append small_buff_size b text

pub put_hex : FixedBuffer → ℕ → Option FixedBuffer
put_hex b n =
    if leb max_hex_size (get_avail small_buff_size b)
    then add small_buff_size b (convert_hex n)
    else some b
