-- ===== src/ChainBuffer/Scatter.antt =====
-- What readv(2) stores in the vectors of ReadFd(), as one write to the blocks end to end.
use muzi.Prelude.{
  ℕ, zero, suc, ◌+◌, ◌-◌, ◌*◌, ◌≤◌, ◌≡◌, refl, sym, ap, ◌∙◌, inl, inr, List, [], ◌∷◌, ◌++◌, arith,
  length, take, drop, ltb, leb, Bool-cases, min, length-take, take_all, drop_all,
}
use muzi.ChainBuffer.Bytes.{
  overwrite, poke, concat, Uniform, length-poke, Uniform-poke, concat-poke, take_add,
}
use muzi.ChainBuffer.Vectors.{Iovec, total, scatter, free_vec}

pub overwrite-nil : (p : ℕ) (xs : List ℕ) → overwrite p [] xs ≡ xs
overwrite-nil p [] = refl
overwrite-nil zero (x ∷ xs) = refl
overwrite-nil (suc p) (x ∷ xs) = ap (λ l. x ∷ l) (overwrite-nil p xs)

-- Two writes, the second behind the first.
overwrite-overwrite :
    (p q : ℕ) (cs bs xs : List ℕ)
    → q ≡ p + length cs
    → overwrite q bs (overwrite p cs xs) ≡ overwrite p (cs ++ bs) xs
overwrite-overwrite p q cs bs [] e = refl
overwrite-overwrite zero zero [] bs (x ∷ xs) e = refl
overwrite-overwrite zero (suc q) [] bs (x ∷ xs) e = absurd (omega arith)
overwrite-overwrite zero zero (a ∷ cs) bs (x ∷ xs) e = absurd (omega arith)
overwrite-overwrite zero (suc q) (a ∷ cs) bs (x ∷ xs) e =
    ap (λ l. a ∷ l) (overwrite-overwrite zero q cs bs xs (omega arith))
overwrite-overwrite (suc p) zero cs bs (x ∷ xs) e = absurd (omega arith)
overwrite-overwrite (suc p) (suc q) cs bs (x ∷ xs) e =
    ap (λ l. x ∷ l) (overwrite-overwrite p q cs bs xs (omega arith))

pub take_before-overwrite : (p : ℕ) (bs xs : List ℕ) → take p (overwrite p bs xs) ≡ take p xs
take_before-overwrite zero bs xs = refl
take_before-overwrite (suc p) bs [] = refl
take_before-overwrite (suc p) bs (x ∷ xs) = ap (λ l. x ∷ l) (take_before-overwrite p bs xs)

pub take-drop-overwrite :
    (p : ℕ) (bs xs : List ℕ)
    → p + length bs ≤ length xs
    → take (length bs) (drop p (overwrite p bs xs)) ≡ bs
take-drop-overwrite zero [] xs h = refl
take-drop-overwrite zero (b ∷ bs) [] h = absurd (omega arith)
take-drop-overwrite zero (b ∷ bs) (x ∷ xs) h =
    ap (λ l. b ∷ l) (take-drop-overwrite zero bs xs (omega arith))
take-drop-overwrite (suc p) [] xs h = refl
take-drop-overwrite (suc p) (b ∷ bs) [] h = absurd (omega arith)
take-drop-overwrite (suc p) (b ∷ bs) (x ∷ xs) h = take-drop-overwrite p (b ∷ bs) xs (omega arith)

take-nil : (n : ℕ) → take {A = ℕ} n [] ≡ []
take-nil zero = refl
take-nil (suc n) = refl

module _ (size : ℕ) where
  pub scatter-length :
      (vs : List Iovec) (xs : List ℕ) (bs : List (List ℕ)) → length (scatter vs xs bs) ≡ length bs
  scatter-length [] xs bs = refl
  scatter-length (v ∷ vs) xs bs =
      scatter-length vs (drop v.iov_len xs) (poke bs v.block v.iov_pos (take v.iov_len xs))
      ∙ length-poke bs v.block v.iov_pos (take v.iov_len xs)

  pub scatter-Uniform :
      (vs : List Iovec) (xs : List ℕ) (bs : List (List ℕ))
      → Uniform size bs
      → Uniform size (scatter vs xs bs)
  scatter-Uniform [] xs bs u = u
  scatter-Uniform (v ∷ vs) xs bs u =
      scatter-Uniform vs (drop v.iov_len xs) _
        (Uniform-poke size bs v.block v.iov_pos (take v.iov_len xs) u)

  -- What the vectors of ReadFd() take is written from their start on.
  pub scatter-overwrite :
      (k n i pos : ℕ) (xs : List ℕ) (bs : List (List ℕ))
      → Uniform size bs
      → length bs ≡ n
      → pos ≤ size
      → concat (scatter (free_vec size k n i pos) xs bs)
        ≡ overwrite (i * size + pos) (take (total (free_vec size k n i pos)) xs) (concat bs)
  scatter-overwrite zero n i pos xs bs u l p = sym (overwrite-nil (i * size + pos) (concat bs))
  scatter-overwrite (suc k) n i pos xs bs u l p = elim (Bool-cases (ltb i n)) [
    | inr out ↦ rw out (sym (overwrite-nil (i * size + pos) (concat bs)))
    | inl in_list ↦
        let m = size - pos in
        let cs = take m xs in
        let t = total (free_vec size k n (suc i) 0) in
        let len : length cs ≡ min m (length xs) = length-take m xs in
        let next =
          scatter-overwrite k n (suc i) 0 (drop m xs) (poke bs i pos cs)
            (Uniform-poke size bs i pos cs u) (length-poke bs i pos cs ∙ l) (omega arith) in
        let here = concat-poke size bs i pos cs u (ground (arith, l)) (omega (arith, len)) in
        rw in_list (
          next
          ∙ ap (overwrite (suc i * size + 0) (take t (drop m xs))) here
          ∙ adjacent m t (omega (arith, p)))
  ]
    where
      adjacent :
          (m t : ℕ)
          → suc i * size + 0 ≡ i * size + pos + m
          → overwrite
              (suc i * size + 0)
              (take t (drop m xs))
              (overwrite (i * size + pos) (take m xs) (concat bs))
            ≡ overwrite (i * size + pos) (take (m + t) xs) (concat bs)
      adjacent m t e = elim (Bool-cases (leb m (length xs))) [
        | inl enough ↦
            let h : m ≤ length xs = ground arith in
            overwrite-overwrite (i * size + pos) (suc i * size + 0) (take m xs) (take t (drop m xs))
              (concat bs) (omega (arith, e, length-take m xs, h))
            ∙ ap (λ l. overwrite (i * size + pos) l (concat bs))
                (sym (take_add m t (m + t) xs refl))
        | inr short ↦
            let gone : drop m xs ≡ [] = drop_all m xs (ground arith) in
            ap
              (λ l.
                overwrite (suc i * size + 0) l (overwrite (i * size + pos) (take m xs) (concat bs)))
              (ap (take t) gone ∙ take-nil t)
            ∙ overwrite-nil (suc i * size + 0) (overwrite (i * size + pos) (take m xs) (concat bs))
            ∙ ap (λ l. overwrite (i * size + pos) l (concat bs))
                (take_all m xs (ground arith) ∙ sym (take_all (m + t) xs (ground arith)))
      ]
