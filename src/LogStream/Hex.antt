-- ===== src/LogStream/Hex.antt =====
-- Pointers come out in hexadecimal, and may not fit into the room that is asked for.
use mathlib.Core.WellFounded.{Acc}
use native.Mathlib.Decide.{dec_lt}
use native.Mathlib.Nat.{pow-suc}
use muzi.Prelude.{
  ℕ, zero, suc, ◌-◌, ◌*◌, ◌/◌, ◌^◌, ◌≤◌, ◌<◌, ◌≡◌, List, [], ◌∷◌, ◌++◌, none, arith, length,
  length-append, dite_ind, lt_wf,
}
use muzi.FixedBuffer.{FixedBuffer, get_avail, add}
use muzi.LogStream.{div_shrinks, hex_loop, convert_hex, put_hex, small_buff_size}
use muzi.LogStream.Decimal.{length-reverse}

one-le-pow : (k : ℕ) → 1 ≤ 16 ^ k
one-le-pow zero = omega arith
one-le-pow (suc k) = omega (arith, one-le-pow k, pow-suc 16 k)

-- A number of 16 ^ k or more has more than `k` digits.
length-hex_loop : (n : ℕ) (a : Acc ◌<◌ n) (k : ℕ) → 16 ^ k ≤ n → suc k ≤ length (hex_loop n a)
unfolding hex_loop
length-hex_loop n (Acc.intro _ smaller) zero h =
    dite_ind (λ (l : List ℕ). 1 ≤ length l) (dec_lt 0 (n / 16)) (λ more. omega arith)
      (λ stop. omega arith)
length-hex_loop n (Acc.intro _ smaller) (suc k) h =
    let step : 16 ^ suc k ≡ 16 ^ k * 16 = pow-suc 16 k in
    dite_ind (λ (l : List ℕ). suc (suc k) ≤ length l) (dec_lt 0 (n / 16))
      (λ more.
        omega
          (arith, length-hex_loop (n / 16) (smaller (n / 16) (div_shrinks n more)) k (omega arith)))
      (λ stop. absurd (omega (arith, stop, one-le-pow k)))

length-convert_hex : (n : ℕ) → 16 ^ 7 ≤ n → 10 ≤ length (convert_hex n)
unfolding convert_hex
length-convert_hex n big = omega (
  arith,
  length-hex_loop n (lt_wf.apply n) 7 big,
  length-append (hex_loop n (lt_wf.apply n)) (120 ∷ 48 ∷ []),
  length-reverse (hex_loop n (lt_wf.apply n) ++ 120 ∷ 48 ∷ []),
)

-- operator<< for a pointer asks for room for 8 characters only: where there is no more and the
-- number takes 8 digits or more it writes past the array.
pub put_hex-overrun :
    (b : FixedBuffer) (n : ℕ)
    → length b.bytes ≡ small_buff_size - 9
    → 16 ^ 7 ≤ n
    → put_hex b n ≡ none
unfolding put_hex get_avail add
put_hex-overrun b n full big = let long = length-convert_hex n big in ground (arith, full)
