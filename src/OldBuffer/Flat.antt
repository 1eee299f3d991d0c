-- ===== src/OldBuffer/Flat.antt =====
-- The bytes of the blocks by their positions, and the loops that copy to an iterator and read from
-- one.
use native.Mathlib.Nat.{div-add-mod', mod-lt, lt_of_mul-lt-mul_right}
use muzi.Prelude.{
  ℕ, zero, suc, ◌+◌, ◌-◌, ◌*◌, ◌/◌, ◌%◌, ◌≤◌, ◌<◌, ◌≡◌, refl, sym, ap, ◌∙◌, inl, inr, Bool, true,
  false, ◌&&◌, List, [], ◌∷◌, ◌++◌, some, arith, pos, length, take, drop, ltb, leb, ◌==◌, ◌||◌,
  Bool-cases,
}
use muzi.OldBuffer.{Iterator, difference, skip, skip_back, and_then, store, copy_to, read_from}
use muzi.OldBuffer.Iterators.{position, IsIn, next_lem, skip_lem, skip_back_lem, difference_lem}

abbrev Memory : Type 0
Memory = ℕ → ℕ → ℕ

module _ (size : ℕ) where
  abbrev pub at : Memory → ℕ → ℕ
  at memory p = memory (p / size) (p % size)

  -- The bytes from the position `p` on.
  abbrev pub slice : Memory → ℕ → ℕ → List ℕ
  slice memory p zero = []
  slice memory p (suc n) = at memory p ∷ slice memory (suc p) n

  pub slice-cong :
      (n : ℕ) (memory memory' : Memory) (p p' : ℕ)
      → ((k : ℕ) → k < n → at memory (p + k) ≡ at memory' (p' + k))
      → slice memory p n ≡ slice memory' p' n
  slice-cong zero memory memory' p p' h = refl
  slice-cong (suc n) memory memory' p p' h =
      let start : at memory p ≡ at memory' p' =
        ap (at memory) (omega arith) ∙ h 0 (omega arith) ∙ ap (at memory') (omega arith) in
      rw start (
        ap (λ xs. at memory' p' ∷ xs)
          (slice-cong n memory memory' (suc p) (suc p') (λ k l.
            ap (at memory) (omega arith)
            ∙ h (suc k) (omega (arith, l))
            ∙ ap (at memory') (omega arith))))

  pub slice-append :
      (m n : ℕ) (memory : Memory) (p : ℕ)
      → slice memory p (m + n) ≡ slice memory p m ++ slice memory (p + m) n
  slice-append zero n memory p =
      let none_before : 0 + n ≡ n = omega arith in
      let here : p ≡ p + 0 = omega arith in
      ap (λ k. slice memory p k) none_before ∙ ap (λ q. slice memory q n) here
  slice-append (suc m) n memory p =
      let one_more : suc m + n ≡ suc (m + n) = omega arith in
      ap (λ k. slice memory p k) one_more
      ∙ ap (λ xs. at memory p ∷ xs)
          (slice-append m n memory (suc p)
            ∙ ap (λ q. slice memory (suc p) m ++ slice memory q n) (omega arith))

  -- The block and the offset of a position.
  pub block_lem : (i c : ℕ) → c < size → (i * size + c) / size ≡ i
  block_lem i c h =
      let p = i * size + c in
      let e = div-add-mod' p size in
      let m : p % size < size = mod-lt p (omega (arith, h)) in
      let above : i < suc (p / size) = lt_of_mul-lt-mul_right size (omega (arith, e, m)) in
      let below : p / size < suc i = lt_of_mul-lt-mul_right size (omega (arith, e, h)) in
      omega (arith, above, below)

  pub offset_lem : (i c : ℕ) → c < size → (i * size + c) % size ≡ c
  offset_lem i c h =
      let p = i * size + c in
      let e = div-add-mod' p size in
      let b = block_lem i c h in omega (arith, e, ap (λ k. k * size) b)

  pub at-position :
      (memory : Memory) (it : Iterator)
      → it.cur < size
      → at memory (position size it) ≡ memory it.buffer_it it.cur
  at-position memory it h =
      rw (block_lem it.buffer_it it.cur h, offset_lem it.buffer_it it.cur h) refl

  pub at-store :
      (memory : Memory) (it : Iterator) (x : ℕ)
      → it.cur < size
      → at (store size memory it x) (position size it) ≡ x
  at-store memory it x h =
      let block : (it.buffer_it == it.buffer_it) ≡ true = ground arith in
      let cur : (it.cur == it.cur) ≡ true = ground arith in
      at-position (store size memory it x) it h ∙ rw (block, cur) refl

  pub at-store_other :
      (memory : Memory) (it : Iterator) (x p : ℕ)
      → it.cur < size
      → (p == position size it) ≡ false
      → at (store size memory it x) p ≡ at memory p
  at-store_other memory it x p h l =
      elim (Bool-cases (p / size == it.buffer_it && p % size == it.cur)) [
        | inl on ↦
            let b : p / size ≡ it.buffer_it = ground (arith, on) in
            let c : p % size ≡ it.cur = ground (arith, on) in
            let same : p ≡ position size it =
              omega (arith, div-add-mod' p size, ap (λ k. k * size) b, c) in
            absurd (ground (arith, same, l))
        | inr off ↦ rw off refl
      ]

  -- A position outside the `n` ones from `q` on.
  abbrev pub outside : ℕ → ℕ → ℕ → Bool
  outside q n p = ltb p q || leb (q + n) p

  -- std::copy() stores its bytes from the iterator on and leaves all others.
  pub copy_to_lem :
      (count : ℕ) (it : Iterator) (xs : List ℕ) (memory : Memory)
      → IsIn size count it
      → position size it + length xs < count * size
      → (memory' : Memory) × (copy_to size count it xs memory ≡ some memory')
        × ((p : ℕ) → outside (position size it) (length xs) p ≡ true → at memory' p ≡ at memory p)
        × (slice memory' (position size it) (length xs) ≡ xs)
  copy_to_lem count it [] memory v h = (memory, refl, λ p l. refl, refl)
  copy_to_lem count it (x ∷ xs) memory v h =
      let (it', e, v', q) = next_lem size count it v (omega (arith, h)) in
      let (memory', f, others, s) =
        copy_to_lem count it' xs (store size memory it x) v' (omega (arith, q, h)) in
      let here : at memory' (position size it) ≡ x =
        others (position size it) (ground (arith, q)) ∙ at-store memory it x v.cur_in in
      (
        memory',
        ap (λ r. and_then r (λ it'. copy_to size count it' xs (store size memory it x))) e ∙ f,
        λ p l.
            others p (ground (arith, q, l))
            ∙ at-store_other memory it x p v.cur_in (ground (arith, l)),
        ap (λ y. y ∷ slice memory' (suc (position size it)) (length xs)) here
            ∙ ap (λ ys. x ∷ ys) (ap (λ p. slice memory' p (length xs)) (sym q) ∙ s),
      )

  -- A string of the bytes from an iterator on.
  pub read_from_lem :
      (n count : ℕ) (memory : Memory) (it : Iterator)
      → IsIn size count it
      → position size it + n < count * size
      → read_from size n count memory it ≡ some (slice memory (position size it) n)
  read_from_lem zero count memory it v h = refl
  read_from_lem (suc n) count memory it v h =
      let (it', e, v', q) = next_lem size count it v (omega (arith, h)) in
      let rest = read_from_lem n count memory it' v' (omega (arith, q, h)) in
      ap
        (λ r. and_then r (λ it'.
          and_then (read_from size n count memory it')
            (λ xs. some (memory it.buffer_it it.cur ∷ xs))))
        e
      ∙ ap (λ r. and_then r (λ xs. some (memory it.buffer_it it.cur ∷ xs))) rest
      ∙ ap (λ y. some (y ∷ slice memory (position size it') n))
          (sym (at-position memory it v.cur_in))
      ∙ ap (λ p. some (at memory (position size it) ∷ slice memory p n)) q

  pub length-slice : (n : ℕ) (memory : Memory) (p : ℕ) → length (slice memory p n) ≡ n
  length-slice zero memory p = refl
  length-slice (suc n) memory p = ap suc (length-slice n memory (suc p))

  pub take-slice :
      (k n : ℕ) (memory : Memory) (p : ℕ) → k ≤ n → take k (slice memory p n) ≡ slice memory p k
  take-slice zero n memory p h = refl
  take-slice (suc k) zero memory p h = absurd (omega (arith, h))
  take-slice (suc k) (suc n) memory p h =
      ap (λ xs. at memory p ∷ xs) (take-slice k n memory (suc p) (omega (arith, h)))

  pub drop-slice :
      (k n : ℕ) (memory : Memory) (p : ℕ)
      → k ≤ n
      → drop k (slice memory p n) ≡ slice memory (p + k) (n - k)
  drop-slice zero n memory p h =
      let same : p ≡ p + 0 = omega arith in
      let all : n ≡ n - 0 = omega arith in
      ap (λ q. slice memory q n) same ∙ ap (slice memory (p + 0)) all
  drop-slice (suc k) zero memory p h = absurd (omega (arith, h))
  drop-slice (suc k) (suc n) memory p h =
      let there : suc p + k ≡ p + suc k = omega arith in
      let rest : n - k ≡ suc n - suc k = omega arith in
      drop-slice k n memory (suc p) (omega (arith, h))
      ∙ ap (λ q. slice memory q (n - k)) there
      ∙ ap (slice memory (p + suc k)) rest

  position-injective :
      (a b : Iterator) → a.cur < size → b.cur < size → position size a ≡ position size b → a ≡ b
  position-injective a b h k e =
      let blocks : a.buffer_it ≡ b.buffer_it =
        sym (block_lem a.buffer_it a.cur h)
        ∙ ap (λ p. p / size) e
        ∙ block_lem b.buffer_it b.cur k in
      let curs : a.cur ≡ b.cur =
        sym (offset_lem a.buffer_it a.cur h)
        ∙ ap (λ p. p % size) e
        ∙ offset_lem b.buffer_it b.cur k in
      ap (λ i. record { buffer_it = i; cur = a.cur }) blocks
      ∙ ap (λ c. record { buffer_it = b.buffer_it; cur = c }) curs

  -- operator+= of `n` bytes that end within the blocks goes on to an iterator whose operator- to the
  -- old one is `n`, and operator-= of `n` bytes goes back from it to the old one.
  pub skip-skip_back :
      (count n : ℕ) (it : Iterator)
      → IsIn size count it
      → position size it + n < count * size
      → (it' : Iterator) × (skip size count it n ≡ some it')
        × (difference size it' it ≡ pos n)
        × (skip_back size count it' n ≡ some it)
  skip-skip_back count n it v h =
      let (it', e, v', q) = skip_lem size count it n v h in
      let (it'', f, v'', r) = skip_back_lem size count it' n v' (omega (arith, q)) in
      let same : it'' ≡ it = position-injective it'' it v''.cur_in v.cur_in (omega (arith, q, r)) in
      let d = difference_lem size it' it (omega (arith, v.cur_in)) in
      let le : leb (position size it) (position size it') ≡ true = ground (arith, q) in
      let diff : position size it' - position size it ≡ n = omega (arith, q) in
      (it', e, d ∙ rw le (ap pos diff), f ∙ ap some same)
