-- ===== src/LogStream/Decimal.antt =====
-- Integers come out in decimal, and their text can be read back.
use mathlib.Core.WellFounded.{Acc}
use mathlib.Core.Path.{subst}
use native.Mathlib.Decide.{dec_lt}
use native.Mathlib.Nat.{pow-suc}
use mathlib.Core.List.{append-nil}
use muzi.Prelude.{
  ℕ, zero, suc, ◌+◌, ◌-◌, ◌*◌, ◌/◌, ◌%◌, ◌^◌, ◌≤◌, ◌<◌, ◌≡◌, refl, ap, ◌∙◌, true, false, List, [],
  ◌∷◌, ◌++◌, arith, get_or, length, length-append, if◌then◌else◌, ℤ, pos, negsuc, magnitude,
  negative, lt_wf, ◌==◌, ◌&&◌, ◌||◌, not, Bool, Bool-cases, inl, inr, ltb, leb, all_below,
  all_below_lem, dite_ind,
}
use muzi.LogStream.{
  digits, reverse, last_digit, div_ten, div_ten_shrinks, integer_loop, sign, convert_integer,
}

-- The number that decimal digits stand for, from the left, and the integer of a text with a sign.
abbrev pub read_digits : ℕ → List ℕ → ℕ
read_digits n [] = n
read_digits n (c ∷ cs) = read_digits (n * 10 + (c - 48)) cs

abbrev pub read_integer : List ℕ → ℤ
read_integer [] = pos 0
read_integer (c ∷ cs) =
    if c == 45 then negative (read_digits 0 cs) else pos (read_digits 0 (c ∷ cs))

-- Decimal digits: at least one, and none is a leading zero.
abbrev pub all_digits : List ℕ → Bool
all_digits [] = true
all_digits (c ∷ cs) = leb 48 c && (leb c 57 && all_digits cs)

abbrev pub is_decimal : List ℕ → Bool
is_decimal xs =
    all_digits xs && (ltb 0 (length xs) && (length xs == 1 || not (get_or xs 0 0 == 48)))

-- Behind a minus sign there are digits as well.
abbrev pub is_integer : List ℕ → Bool
is_integer [] = false
is_integer (c ∷ cs) = if c == 45 then is_decimal cs else is_decimal (c ∷ cs)

all_digits-append :
    (c : ℕ) (xs : List ℕ)
    → all_digits xs ≡ true
    → 48 ≤ c
    → c ≤ 57
    → all_digits (xs ++ c ∷ []) ≡ true
all_digits-append c [] h l u = ground (arith, l, u)
all_digits-append c (x ∷ xs) h l u =
    let rest = all_digits-append c xs (ground (arith, h)) l u in ground (arith, h, rest)

read_digits-append :
    (n c : ℕ) (cs : List ℕ) → read_digits n (cs ++ c ∷ []) ≡ read_digits n cs * 10 + (c - 48)
read_digits-append n c [] = refl
read_digits-append n c (x ∷ xs) = read_digits-append (n * 10 + (x - 48)) c xs

-- The table has the ten digits on both sides of the zero.
digit_right : (r : ℕ) → r < 10 → get_or digits (9 + r) 0 ≡ 48 + r
digit_right r h =
    let table : all_below 10 (λ x. get_or digits (9 + x) 0 == (48 + x)) ≡ true = refl in
    ground (arith, all_below_lem 10 (λ x. get_or digits (9 + x) 0 == (48 + x)) r table h)

digit_left : (r : ℕ) → r < 10 → get_or digits (9 - r) 0 ≡ 48 + r
digit_left r h =
    let table : all_below 10 (λ x. get_or digits (9 - x) 0 == (48 + x)) ≡ true = refl in
    ground (arith, all_below_lem 10 (λ x. get_or digits (9 - x) 0 == (48 + x)) r table h)

last_digit_lem : (i : ℤ) → last_digit i ≡ 48 + magnitude i % 10
last_digit_lem (pos n) = digit_right (n % 10) (omega arith)
last_digit_lem (negsuc n) = digit_left (suc n % 10) (omega arith)

magnitude-negative : (n : ℕ) → magnitude (negative n) ≡ n
magnitude-negative zero = refl
magnitude-negative (suc n) = refl

magnitude-div_ten : (i : ℤ) → magnitude (div_ten i) ≡ magnitude i / 10
magnitude-div_ten (pos n) = refl
magnitude-div_ten (negsuc n) = magnitude-negative (suc n / 10)

-- What the loop leaves: the digits of the magnitude, at most `k` of them below 10 ^ k.
record Decimal (m : ℕ) (ds : List ℕ) : Type 0 where
  reads : read_digits 0 (reverse ds) ≡ m
  no_sign : (get_or (reverse ds) 0 0 == 45) ≡ false
  decimal : all_digits (reverse ds) ≡ true
  no_zero : 0 < m → (get_or (reverse ds) 0 0 == 48) ≡ false
  one_zero : m ≡ 0 → length ds ≡ 1
  some_digit : 0 < length ds
  short : (k : ℕ) → m < 10 ^ suc k → length ds ≤ suc k

pub length-reverse : (xs : List ℕ) → length (reverse xs) ≡ length xs
length-reverse [] = refl
length-reverse (x ∷ xs) = omega (arith, length-append (reverse xs) (x ∷ []), length-reverse xs)

get_or-append : (c : ℕ) (xs ys : List ℕ) → 0 < length xs → get_or (xs ++ ys) 0 c ≡ get_or xs 0 c
get_or-append c [] ys h = absurd (omega arith)
get_or-append c (x ∷ xs) ys h = refl

one-Decimal : (i : ℤ) → magnitude i < 10 → Decimal (magnitude i) (last_digit i ∷ [])
one-Decimal i small = record {
  reads = omega (arith, last_digit_lem i);
  no_sign = ground (arith, last_digit_lem i);
  decimal = ground (arith, last_digit_lem i, small);
  no_zero = λ h. ground (arith, last_digit_lem i, small, h);
  one_zero = λ h. omega arith;
  some_digit = omega arith;
  short = λ k h. omega arith;
}

more-Decimal :
    (i : ℤ) (ds : List ℕ)
    → 0 < magnitude i / 10
    → Decimal (magnitude i / 10) ds
    → Decimal (magnitude i) (last_digit i ∷ ds)
more-Decimal i ds big d = record {
  reads =
      read_digits-append 0 (last_digit i) (reverse ds) ∙ omega (arith, d.reads, last_digit_lem i);
  no_sign =
      ap (λ x. x == 45)
        (get_or-append 0 (reverse ds) (last_digit i ∷ [])
          (omega (arith, length-reverse ds, d.some_digit)))
      ∙ d.no_sign;
  decimal =
      all_digits-append (last_digit i) (reverse ds) d.decimal (omega (arith, last_digit_lem i))
        (omega (arith, last_digit_lem i));
  no_zero = λ h.
      ap (λ x. x == 48)
        (get_or-append 0 (reverse ds) (last_digit i ∷ [])
          (omega (arith, length-reverse ds, d.some_digit)))
      ∙ d.no_zero big;
  one_zero = λ h. absurd (omega (arith, h, big));
  some_digit = omega arith;
  short = short_more;
}
  where
    short_more : (k : ℕ) → magnitude i < 10 ^ suc k → suc (length ds) ≤ suc k
    short_more zero h = absurd (omega arith)
    short_more (suc k) h = omega (arith, d.short k (omega (arith, h, pow-suc 10 (suc k))))

integer_loop-Decimal :
    (m : ℕ) (a : Acc ◌<◌ m) (i : ℤ) (e : magnitude i ≡ m) → Decimal m (integer_loop m a i e)
unfolding integer_loop
integer_loop-Decimal m (Acc.intro _ smaller) i e =
    dite_ind (Decimal m) (dec_lt 0 (magnitude (div_ten i)))
      (λ more.
        let m' = magnitude (div_ten i) in
        let below : m' < m = omega (arith, e, div_ten_shrinks i more) in
        let ds = integer_loop m' (smaller m' below) (div_ten i) refl in
        let rest = integer_loop-Decimal m' (smaller m' below) (div_ten i) refl in
        subst (λ n. Decimal n (last_digit i ∷ ds)) e
          (more-Decimal i ds (omega (arith, more, magnitude-div_ten i))
            (subst (λ n. Decimal n ds) (magnitude-div_ten i) rest)))
      (λ stop.
        subst (λ n. Decimal n (last_digit i ∷ [])) e
          (one-Decimal i (omega (arith, stop, magnitude-div_ten i))))

read_integer_unsigned :
    (xs : List ℕ)
    → 0 < length xs
    → (get_or xs 0 0 == 45) ≡ false
    → read_integer xs ≡ pos (read_digits 0 xs)
read_integer_unsigned [] l h = absurd (omega arith)
read_integer_unsigned (x ∷ xs) l h = rw h refl

reverse-append : (c : ℕ) (xs : List ℕ) → reverse (xs ++ c ∷ []) ≡ c ∷ reverse xs
reverse-append c [] = refl
reverse-append c (x ∷ xs) = ap (λ l. l ++ x ∷ []) (reverse-append c xs)

-- The digits of an integer.
abbrev loop_of : ℤ → List ℕ
loop_of i = integer_loop (magnitude i) (lt_wf.apply (magnitude i)) i refl

loop_of-Decimal : (i : ℤ) → Decimal (magnitude i) (loop_of i)
loop_of-Decimal i = integer_loop-Decimal (magnitude i) (lt_wf.apply (magnitude i)) i refl

loop_of-is_decimal : (i : ℤ) → is_decimal (reverse (loop_of i)) ≡ true
loop_of-is_decimal i = elim (Bool-cases (ltb 0 (magnitude i))) [
  | inl more ↦
      let z = d.no_zero (ground (arith, more)) in ground (arith, len, z, d.decimal, d.some_digit)
  | inr small ↦ let one = d.one_zero (ground (arith, small)) in ground (arith, len, one, d.decimal)
]
  where
    d : Decimal (magnitude i) (loop_of i)
    d = loop_of-Decimal i

    len : length (reverse (loop_of i)) ≡ length (loop_of i)
    len = length-reverse (loop_of i)

is_integer_unsigned :
    (xs : List ℕ) → (get_or xs 0 0 == 45) ≡ false → is_decimal xs ≡ true → is_integer xs ≡ true
is_integer_unsigned [] h d = absurd (ground (arith, d))
is_integer_unsigned (x ∷ xs) h d = rw h d

-- The text of an integer is its decimal digits: at least one, without leading zeros, and behind a
-- minus sign if it is negative. It reads back as the integer.
pub read_integer-convert_integer :
    (i : ℤ) → (is_integer (convert_integer i) ≡ true) × (read_integer (convert_integer i) ≡ i)
unfolding convert_integer
read_integer-convert_integer (pos n) =
    let d = loop_of-Decimal (pos n) in
    let no_sign = append-nil (loop_of (pos n)) in
    (
      ap (λ l. is_integer (reverse l)) no_sign
          ∙ is_integer_unsigned (reverse (loop_of (pos n))) d.no_sign (loop_of-is_decimal (pos n)),
      ap (λ l. read_integer (reverse l)) no_sign
          ∙ read_integer_unsigned (reverse (loop_of (pos n)))
              (omega (arith, length-reverse (loop_of (pos n)), d.some_digit)) d.no_sign
          ∙ ap pos d.reads,
    )
read_integer-convert_integer (negsuc n) =
    let signed = reverse-append 45 (loop_of (negsuc n)) in
    (
      ap is_integer signed ∙ loop_of-is_decimal (negsuc n),
      ap read_integer signed ∙ ap negative (loop_of-Decimal (negsuc n)).reads,
    )

length-sign : (i : ℤ) → length (sign i) ≤ 1
length-sign (pos n) = omega arith
length-sign (negsuc n) = omega arith

-- No 64-bit integer takes more than 21 characters.
pub length-convert_integer : (i : ℤ) → magnitude i < 2 ^ 64 → length (convert_integer i) ≤ 21
unfolding convert_integer
length-convert_integer i h =
    let short = (loop_of-Decimal i).short 19 (omega (arith, h)) in
    omega (
      arith,
      length-reverse (loop_of i ++ sign i),
      length-append (loop_of i) (sign i),
      length-sign i,
      short,
    )
