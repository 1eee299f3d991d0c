-- ===== src/OldBuffer/Iterators.antt =====
-- The iterator as a position in the bytes of all blocks, one after the other.
use native.Mathlib.Nat.{div-add-mod', mod-lt, lt_of_mul-lt-mul_right, mul-le-mul_right}
use muzi.Prelude.{
  ℕ, zero, suc, ◌+◌, ◌-◌, ◌*◌, ◌/◌, ◌%◌, ◌≤◌, ◌<◌, ◌≡◌, refl, ap, ◌∙◌, inl, inr, true, false,
  Option, some, arith, ltb, leb, ◌==◌, Bool-cases, pos, negative, lt→ltb, le→leb,
}
use muzi.OldBuffer.{
  Iterator, minus, plus, times, difference, move_buffer, skip_to, skip, skip_back, next,
}

abbrev pub position : ℕ → Iterator → ℕ
position size it = it.buffer_it * size + it.cur

-- An iterator into one of the blocks.
pub record IsIn (size count : ℕ) (it : Iterator) : Type 0 where
  pub block_in : it.buffer_it < count
  pub cur_in : it.cur < size

module _ (size count : ℕ) where
  -- The iterator at a position.
  abbrev pub Reaches : Option Iterator → ℕ → Type 0
  Reaches r p = (it : Iterator) × (r ≡ some it) × IsIn size count it × (position size it ≡ p)

  block_below : (i c p : ℕ) → i * size + c ≡ p → p < count * size → i < count
  block_below i c p e h = lt_of_mul-lt-mul_right size (omega (arith, e, h))

  move_buffer_lem :
      (i c p : ℕ)
      → c < size
      → i * size + c ≡ p
      → p < count * size
      → Reaches (move_buffer size count i c) p
  move_buffer_lem i c p h e q =
      let l = block_below i c p e q in
      rw (lt→ltb i count l)
        (record { buffer_it = i; cur = c }, refl, record { block_in = l; cur_in = h }, e)

  pub position-in : {it : Iterator} → IsIn size count it → position size it < count * size
  position-in v = omega (arith, v.cur_in, mul-le-mul_right size v.block_in)

  -- operator+= by `n` goes on by `n` bytes, over any number of blocks.
  pub skip_lem :
      (it : Iterator) (n : ℕ)
      → IsIn size count it
      → position size it + n < count * size
      → Reaches (skip size count it n) (position size it + n)
  unfolding skip
  skip_lem it n v h =
      let k = n + it.cur in
      let e = div-add-mod' k size in
      let m : k % size < size = mod-lt k (omega (arith, v.cur_in)) in
      elim (Bool-cases (ltb k size)) [
        | inl on ↦ rw on (
          record it { cur = k },
          refl,
          record { block_in = v.block_in; cur_in = ground (arith, on) },
          omega arith,
        )
        | inr off ↦ rw off (
            move_buffer_lem (it.buffer_it + k / size) (k - k / size * size) (position size it + n)
              (omega (arith, e, m)) (omega (arith, e)) h)
      ]

  -- operator-= by `n` goes back by `n` bytes.
  pub skip_back_lem :
      (it : Iterator) (n : ℕ)
      → IsIn size count it
      → n ≤ position size it
      → Reaches (skip_back size count it n) (position size it - n)
  unfolding skip_back
  skip_back_lem it n v h = elim (Bool-cases (leb n it.cur)) [
    | inl on ↦
        let le : n ≤ it.cur = ground (arith, on) in
        let l : it.cur - n < size = omega (arith, v.cur_in) in
        rw (on, lt→ltb (it.cur - n) size l)
          (
            record it { cur = it.cur - n },
            refl,
            record { block_in = v.block_in; cur_in = l },
            omega (arith, le),
          )
    | inr off ↦ rw off (back (n - it.cur) refl (ground (arith, off)))
  ]
    where
      back :
          (d : ℕ)
          → n - it.cur ≡ d
          → it.cur < n
          → Reaches (skip_to size count it (negative d)) (position size it - n)
      back zero e l = absurd (omega (arith, e, l))
      back (suc k) e l =
          let f = div-add-mod' k size in
          let m : k % size < size = mod-lt k (omega (arith, v.cur_in)) in
          let q = suc (k / size) in
          let room : k / size * size < it.buffer_it * size = omega (arith, e, f, h) in
          let le : q ≤ it.buffer_it = lt_of_mul-lt-mul_right size room in
          let parts : it.buffer_it ≡ (it.buffer_it - q) + q = omega (arith, le) in
          let whole : it.buffer_it * size ≡ (it.buffer_it - q) * size + q * size =
            omega (arith, ap (λ i. i * size) parts) in
          rw (le→leb q it.buffer_it le) (
            move_buffer_lem (it.buffer_it - q) (q * size - suc k) (position size it - n)
              (omega (arith, f, m)) (omega (arith, e, f, m, l, whole))
              (omega (arith, position-in v)))

  -- operator++ goes on by one byte.
  pub next_lem :
      (it : Iterator)
      → IsIn size count it
      → suc (position size it) < count * size
      → Reaches (next size count it) (suc (position size it))
  unfolding next
  next_lem it v h = elim (Bool-cases (suc it.cur == size)) [
    | inl on ↦
        let e : suc it.cur ≡ size = ground (arith, on) in
        rw on (
          move_buffer_lem (suc it.buffer_it) 0 (suc (position size it)) (omega (arith, e))
            (omega (arith, e)) h)
    | inr off ↦ rw off (
      record it { cur = suc it.cur },
      refl,
      record { block_in = v.block_in; cur_in = ground (arith, off, v.cur_in) },
      omega arith,
    )
  ]

minus-shift : (m n p q : ℕ) → m + q ≡ p + n → minus m n ≡ minus p q
minus-shift m n p q e = elim (Bool-cases (leb n m)) [
  | inl on ↦
      let on' : leb q p ≡ true = ground (arith, on, e) in
      rw (on, on') (ap pos (ground (arith, on, e)))
  | inr off ↦
      let off' : leb q p ≡ false = ground (arith, off, e) in
      rw (off, off') (ap negative (ground (arith, off, e)))
]

pos-minus : (n : ℕ) → pos n ≡ minus n 0
pos-minus n = let e : leb 0 n ≡ true = ground arith in rw e (ap pos (omega arith))

negative-minus : (n : ℕ) → negative n ≡ minus 0 n
negative-minus zero = pos-minus 0
negative-minus (suc n) =
    let e : leb (suc n) 0 ≡ false = ground arith in
    let f : suc n ≡ suc n - 0 = omega arith in rw e (ap negative f)

times-negative : (k n : ℕ) → times k (negative n) ≡ minus 0 (k * n)
times-negative k zero = pos-minus (k * 0) ∙ minus-shift (k * 0) 0 0 (k * 0) (omega arith)
times-negative k (suc n) = negative-minus (k * suc n)

times-minus : (k m n : ℕ) → times k (minus m n) ≡ minus (k * m) (k * n)
times-minus k m n = elim (Bool-cases (leb n m)) [
  | inl on ↦
      let parts : m ≡ (m - n) + n = ground (arith, on) in
      rw on (
        pos-minus (k * (m - n))
        ∙ minus-shift (k * (m - n)) 0 (k * m) (k * n) (omega (arith, ap (λ x. k * x) parts)))
  | inr off ↦
      let parts : n ≡ (n - m) + m = ground (arith, off) in
      rw off (
        times-negative k (n - m)
        ∙ minus-shift 0 (k * (n - m)) (k * m) (k * n) (omega (arith, ap (λ x. k * x) parts)))
]

plus-negative : (m n : ℕ) → plus (negative m) n ≡ minus n m
plus-negative zero n = pos-minus (0 + n) ∙ minus-shift (0 + n) 0 n 0 (omega arith)
plus-negative (suc m) n = refl

plus-minus : (m n k : ℕ) → plus (minus m n) k ≡ minus (m + k) n
plus-minus m n k = elim (Bool-cases (leb n m)) [
  | inl on ↦
      rw on (pos-minus (m - n + k) ∙ minus-shift (m - n + k) 0 (m + k) n (ground (arith, on)))
  | inr off ↦
      rw off (plus-negative (n - m) k ∙ minus-shift k (n - m) (m + k) n (ground (arith, off)))
]

-- operator- is the difference of the positions, also from the end of the vector.
pub difference_lem :
    (size : ℕ) (lhs rhs : Iterator)
    → rhs.cur ≤ size
    → difference size lhs rhs ≡ minus (position size lhs) (position size rhs)
unfolding difference
difference_lem size lhs rhs h =
    let c = lhs.cur + (size - rhs.cur) in
    ap (λ z. plus z c) (times-minus size lhs.buffer_it (suc rhs.buffer_it))
    ∙ plus-minus (size * lhs.buffer_it) (size * suc rhs.buffer_it) c
    ∙ minus-shift (size * lhs.buffer_it + c) (size * suc rhs.buffer_it) (position size lhs)
        (position size rhs) (omega (arith, h))
