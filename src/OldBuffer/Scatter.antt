-- ===== src/OldBuffer/Scatter.antt =====
-- muzi/net/old_buffer.cc: ReadFd() over readv(2). What the call reads is an argument; that it fills
-- the vectors in their order is what its manual says.
use mathlib.Core.Path.{subst}
use muzi.Prelude.{
  ℕ, zero, suc, ◌+◌, ◌-◌, ◌*◌, ◌≤◌, ◌<◌, ◌≡◌, ◌⊎◌, refl, sym, ap, ◌∙◌, inl, inr, true, List, [],
  ◌∷◌, ◌++◌, Option, none, some, arith, length, take, drop, leb, ◌==◌, if◌then◌else◌, Bool-cases,
  length-take, length-append, take_all, drop_all,
}
use muzi.ChainBuffer.Vectors.{Iovec, Received, received, failed}
use muzi.OldBuffer.{Iterator, OldBuffer, and_then, skip, store, append, writable_bytes}
use muzi.OldBuffer.Flat.{at, slice, slice-append, slice-cong, outside, at-store, at-store_other}

-- The bytes that the vectors have room for.
abbrev pub total : List Iovec → ℕ
total [] = 0
total (v ∷ vs) = v.iov_len + total vs

module _ (size : ℕ) where
  -- The bytes of one vector, and of vectors in turn.
  abbrev pub put_bytes : (ℕ → ℕ → ℕ) → ℕ → ℕ → List ℕ → ℕ → ℕ → ℕ
  put_bytes memory i c [] = memory
  put_bytes memory i c (x ∷ xs) =
      put_bytes (store size memory (record { buffer_it = i; cur = c }) x) i (suc c) xs

  abbrev pub scatter : List Iovec → List ℕ → (ℕ → ℕ → ℕ) → ℕ → ℕ → ℕ
  scatter [] xs memory = memory
  scatter (v ∷ vs) xs memory =
      scatter vs (drop v.iov_len xs) (put_bytes memory v.block v.iov_pos (take v.iov_len xs))

  -- The vectors of ReadFd() in `k` blocks behind the first one; the last one is a byte shorter.
  abbrev pub free_vec : ℕ → ℕ → ℕ → List Iovec
  free_vec zero i c = record { block = i; iov_pos = c; iov_len = size - c - 1 } ∷ []
  free_vec (suc k) i c =
      record { block = i; iov_pos = c; iov_len = size - c } ∷ free_vec k (suc i) 0

  abbrev pub move_write : OldBuffer → ℕ → Option OldBuffer
  move_write b n =
      and_then (skip size b.count b.write_index n) (λ it. some (record b { write_index = it }))

  -- ReadFd() of `xs`.
  unfoldable pub read_fd : OldBuffer → Received → Option OldBuffer
  read_fd b failed = some b
  read_fd b (received xs) =
      let n = length xs in
      let at = b.write_index in
      let vec = free_vec (b.count - suc at.buffer_it) at.buffer_it at.cur in
      let writable = total vec in
      let b' = record b { memory = scatter vec xs b.memory } in
      let over = and_then (move_write b' writable) (λ b. append size b (drop writable xs)) in
      if writable == writable_bytes size b
      then (if leb n writable then move_write b' n else over)
      else none

  pub total-free_vec : (k i c : ℕ) → c < size → total (free_vec k i c) + suc c ≡ suc k * size
  total-free_vec zero i c h = omega (arith, h)
  total-free_vec (suc k) i c h =
      let rest = total-free_vec k (suc i) 0 (omega (arith, h)) in omega (arith, h, rest)

  -- Stored bytes lie in their order from a position on, and all others stay.
  abbrev pub Stores : (ℕ → ℕ → ℕ) → (ℕ → ℕ → ℕ) → ℕ → List ℕ → Type 0
  Stores memory memory' p xs =
      (slice size memory' p (length xs) ≡ xs)
      × ((q : ℕ) → outside size p (length xs) q ≡ true → at size memory' q ≡ at size memory q)

  put_bytes-Stores :
      (xs : List ℕ) (memory : ℕ → ℕ → ℕ) (i c : ℕ)
      → c + length xs ≤ size
      → Stores memory (put_bytes memory i c xs) (i * size + c) xs
  put_bytes-Stores [] memory i c h = (refl, λ q o. refl)
  put_bytes-Stores (x ∷ xs) memory i c h =
      let it : Iterator = record { buffer_it = i; cur = c } in
      let memory' = put_bytes memory i c (x ∷ xs) in
      let l : c < size = omega (arith, h) in
      let there : i * size + suc c ≡ suc (i * size + c) = omega arith in
      let (s, others) = put_bytes-Stores xs (store size memory it x) i (suc c) (omega (arith, h)) in
      let here : at size memory' (i * size + c) ≡ x =
        others (i * size + c) (ground arith) ∙ at-store size memory it x l in
      (
        ap (λ y. y ∷ slice size memory' (suc (i * size + c)) (length xs)) here
            ∙ ap (λ ys. x ∷ ys) (ap (λ p. slice size memory' p (length xs)) (sym there) ∙ s),
        λ q o.
            others q (ground (arith, o)) ∙ at-store_other size memory it x q l (ground (arith, o)),
      )

  -- Bytes that are stored one piece behind the other.
  Stores-append :
      (memory memory₁ memory₂ : ℕ → ℕ → ℕ) (p : ℕ) (xs ys : List ℕ)
      → Stores memory memory₁ p xs
      → Stores memory₁ memory₂ (p + length xs) ys
      → Stores memory memory₂ p (xs ++ ys)
  Stores-append memory memory₁ memory₂ p xs ys (s₁, o₁) (s₂, o₂) =
      let n = length-append xs ys in
      (
        ap (slice size memory₂ p) n
            ∙ slice-append size (length xs) (length ys) memory₂ p
            ∙ ap (λ zs. zs ++ slice size memory₂ (p + length xs) (length ys))
                (slice-cong size (length xs) memory₂ memory₁ p p
                    (λ k l. o₂ (p + k) (ground (arith, l)))
                  ∙ s₁)
            ∙ ap (λ zs. xs ++ zs) s₂,
        λ q o. o₂ q (ground (arith, o, n)) ∙ o₁ q (ground (arith, o, n)),
      )

  take-plus : (m n : ℕ) (xs : List ℕ) → take (m + n) xs ≡ take m xs ++ take n (drop m xs)
  take-plus zero n xs = let e : 0 + n ≡ n = omega arith in ap (λ k. take k xs) e
  take-plus (suc m) n [] =
      let e : suc m + n ≡ suc (m + n) = omega arith in
      ap (λ k. take k []) e ∙ sym (take_all n [] (omega arith))
  take-plus (suc m) n (x ∷ xs) =
      let e : suc m + n ≡ suc (m + n) = omega arith in
      ap (λ k. take k (x ∷ xs)) e ∙ ap (λ ys. x ∷ ys) (take-plus m n xs)

  pub append_assoc : (xs ys zs : List ℕ) → (xs ++ ys) ++ zs ≡ xs ++ (ys ++ zs)
  append_assoc [] ys zs = refl
  append_assoc (x ∷ xs) ys zs = ap (λ l. x ∷ l) (append_assoc xs ys zs)

  -- No bytes are stored anywhere.
  Stores-move :
      (memory memory' : ℕ → ℕ → ℕ) (p p' : ℕ) (ys : List ℕ)
      → (ys ≡ []) ⊎ (p ≡ p')
      → Stores memory memory' p ys
      → Stores memory memory' p' ys
  Stores-move memory memory' p p' ys (inr e) s = subst (λ q. Stores memory memory' q ys) e s
  Stores-move memory memory' p p' ys (inl e) (s, others) =
      let n : length ys ≡ 0 = ap length e in
      (ap (slice size memory' p') n ∙ sym e, λ q o. others q (ground (arith, n)))

  -- The bytes behind a vector begin with the next block, if there are any.
  apart :
      (a t : ℕ) (xs : List ℕ) (i c : ℕ)
      → c < size
      → a ≡ size - c
      → (take t (drop a xs) ≡ []) ⊎ (suc i * size + 0 ≡ i * size + c + length (take a xs))
  apart a t xs i c h e = elim (Bool-cases (leb a (length xs))) [
    | inl on ↦
        let n : length (take a xs) ≡ a = ground (arith, on, length-take a xs) in
        inr (omega (arith, n, e, h))
    | inr off ↦
        inl (ap (take t) (drop_all a xs (ground (arith, off))) ∙ take_all t [] (omega arith))
  ]

  -- What fits the vectors lies behind the write index.
  pub scatter-Stores :
      (k : ℕ) (xs : List ℕ) (memory : ℕ → ℕ → ℕ) (i c : ℕ)
      → c < size
      → Stores memory
          (scatter (free_vec k i c) xs memory)
          (i * size + c)
          (take (total (free_vec k i c)) xs)
  scatter-Stores zero xs memory i c h =
      let m = size - c - 1 in
      let one : m ≡ m + 0 = omega arith in
      subst (λ n. Stores memory (put_bytes memory i c (take m xs)) (i * size + c) (take n xs)) one
        (put_bytes-Stores (take m xs) memory i c (omega (arith, length-take m xs, h)))
  scatter-Stores (suc k) xs memory i c h =
      let a = size - c in
      let rest = free_vec k (suc i) 0 in
      let memory₁ = put_bytes memory i c (take a xs) in
      let memory₂ = scatter rest (drop a xs) memory₁ in
      let first = put_bytes-Stores (take a xs) memory i c (omega (arith, length-take a xs, h)) in
      let later = scatter-Stores k (drop a xs) memory₁ (suc i) 0 (omega (arith, h)) in
      let here =
        Stores-move memory₁ memory₂ (suc i * size + 0) (i * size + c + length (take a xs))
          (take (total rest) (drop a xs)) (apart a (total rest) xs i c h refl) later in
      subst (Stores memory memory₂ (i * size + c)) (sym (take-plus a (total rest) xs)) (
        Stores-append memory memory₁ memory₂ (i * size + c) (take a xs)
          (take (total rest) (drop a xs)) first here)
