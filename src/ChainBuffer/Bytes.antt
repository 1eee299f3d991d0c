-- ===== src/ChainBuffer/Bytes.antt =====
-- Blocks of bytes: what memcpy does to a block, and the blocks end to end.
use muzi.Prelude.{
  ℕ, zero, suc, ◌+◌, ◌-◌, ◌*◌, ◌≤◌, ◌<◌, ◌≡◌, refl, sym, ap, ◌∙◌, List, [], ◌∷◌, ◌++◌, arith,
  length, get_or, set, take, drop, length-append, length-set,
}
use mathlib.Core.List.{append_assoc}

-- memcpy of `bs` to offset `p` of a block. A byte past its end is not written (in the source that
-- is out of bounds).
abbrev pub overwrite : ℕ → List ℕ → List ℕ → List ℕ
overwrite p bs [] = []
overwrite zero [] (x ∷ xs) = x ∷ xs
overwrite zero (b ∷ bs) (x ∷ xs) = b ∷ overwrite zero bs xs
overwrite (suc p) bs (x ∷ xs) = x ∷ overwrite p bs xs

abbrev pub poke : List (List ℕ) → ℕ → ℕ → List ℕ → List (List ℕ)
poke blocks i p bs = set blocks i (overwrite p bs (get_or blocks i []))

abbrev pub concat : List (List ℕ) → List ℕ
concat [] = []
concat (b ∷ bs) = b ++ concat bs

-- Every block has `size` bytes.
abbrev pub Uniform : ℕ → List (List ℕ) → Type 0
Uniform size [] = Unit {0}
Uniform size (b ∷ bs) = (length b ≡ size) × Uniform size bs

pub length-overwrite : (p : ℕ) (bs xs : List ℕ) → length (overwrite p bs xs) ≡ length xs
length-overwrite p bs [] = refl
length-overwrite zero [] (x ∷ xs) = refl
length-overwrite zero (b ∷ bs) (x ∷ xs) = ap suc (length-overwrite zero bs xs)
length-overwrite (suc p) bs (x ∷ xs) = ap suc (length-overwrite p bs xs)

pub length-poke :
    (blocks : List (List ℕ)) (i p : ℕ) (bs : List ℕ) → length (poke blocks i p bs) ≡ length blocks
length-poke blocks i p bs = length-set blocks i (overwrite p bs (get_or blocks i []))

pub Uniform-poke :
    (size : ℕ) (blocks : List (List ℕ)) (i p : ℕ) (bs : List ℕ)
    → Uniform size blocks
    → Uniform size (poke blocks i p bs)
Uniform-poke size [] i p bs u = tt
Uniform-poke size (b ∷ blocks) zero p bs u = (length-overwrite p bs b ∙ u.0, u.1)
Uniform-poke size (b ∷ blocks) (suc i) p bs u = (u.0, Uniform-poke size blocks i p bs u.1)

pub Uniform-append :
    (size : ℕ) (xs ys : List (List ℕ)) → Uniform size xs → Uniform size ys → Uniform size (xs ++ ys)
Uniform-append size [] ys u v = v
Uniform-append size (x ∷ xs) ys u v = (u.0, Uniform-append size xs ys u.1 v)

pub length-concat :
    (size : ℕ) (blocks : List (List ℕ))
    → Uniform size blocks
    → length (concat blocks) ≡ length blocks * size
length-concat size [] u = omega arith
length-concat size (b ∷ bs) u =
    omega (arith, length-append b (concat bs), length-concat size bs u.1, u.0)

-- Writing inside the first part of a list, and past it.
overwrite-append_left :
    (p : ℕ) (bs xs ys : List ℕ)
    → p + length bs ≤ length xs
    → overwrite p bs (xs ++ ys) ≡ overwrite p bs xs ++ ys
overwrite-append_left zero [] [] [] h = refl
overwrite-append_left zero [] [] (y ∷ ys) h = refl
overwrite-append_left zero [] (x ∷ xs) ys h = refl
overwrite-append_left zero (b ∷ bs) [] ys h = absurd (omega arith)
overwrite-append_left zero (b ∷ bs) (x ∷ xs) ys h =
    ap (λ l. b ∷ l) (overwrite-append_left zero bs xs ys (omega arith))
overwrite-append_left (suc p) bs [] ys h = absurd (omega arith)
overwrite-append_left (suc p) bs (x ∷ xs) ys h =
    ap (λ l. x ∷ l) (overwrite-append_left p bs xs ys (omega arith))

overwrite-append_right :
    (n p q : ℕ) (bs xs ys : List ℕ)
    → length xs ≡ n
    → q ≡ n + p
    → overwrite q bs (xs ++ ys) ≡ xs ++ overwrite p bs ys
overwrite-append_right n p q bs [] ys h e = ap (λ k. overwrite k bs ys) (omega arith)
overwrite-append_right n p zero bs (x ∷ xs) ys h e = absurd (omega arith)
overwrite-append_right n p (suc q) bs (x ∷ xs) ys h e =
    ap (λ l. x ∷ l) (overwrite-append_right (n - 1) p q bs xs ys (omega arith) (omega arith))

-- A write to one block is a write to the blocks end to end.
pub concat-poke :
    (size : ℕ) (blocks : List (List ℕ)) (i p : ℕ) (bs : List ℕ)
    → Uniform size blocks
    → i < length blocks
    → p + length bs ≤ size
    → concat (poke blocks i p bs) ≡ overwrite (i * size + p) bs (concat blocks)
concat-poke size [] i p bs u h k = absurd (omega arith)
concat-poke size (b ∷ blocks) zero p bs u h k = sym (
    ap (λ q. overwrite q bs (b ++ concat blocks)) (omega arith)
    ∙ overwrite-append_left p bs b (concat blocks) (omega (arith, u.0)))
concat-poke size (b ∷ blocks) (suc i) p bs u h k =
    ap (λ l. b ++ l) (concat-poke size blocks i p bs u.1 (omega arith) k)
    ∙ sym (
        overwrite-append_right size (i * size + p) (suc i * size + p) bs b (concat blocks) u.0
          (omega arith))

pub concat-append : (xs ys : List (List ℕ)) → concat (xs ++ ys) ≡ concat xs ++ concat ys
concat-append [] ys = refl
concat-append (x ∷ xs) ys = ap (λ l. x ++ l) (concat-append xs ys) ∙ sym (append_assoc x _ _)

-- What stands before the end of a write: the old bytes up to its start, then the new ones.
pub take-overwrite :
    (p m : ℕ) (bs xs : List ℕ)
    → m ≡ p + length bs
    → m ≤ length xs
    → take m (overwrite p bs xs) ≡ take p xs ++ bs
take-overwrite zero zero [] xs e h = refl
take-overwrite zero zero (b ∷ bs) xs e h = absurd (omega arith)
take-overwrite zero (suc m) [] xs e h = absurd (omega arith)
take-overwrite zero (suc m) (b ∷ bs) [] e h = absurd (omega arith)
take-overwrite zero (suc m) (b ∷ bs) (x ∷ xs) e h =
    ap (λ l. b ∷ l) (take-overwrite zero m bs xs (omega arith) (omega arith))
take-overwrite (suc p) zero bs xs e h = absurd (omega arith)
take-overwrite (suc p) (suc m) bs [] e h = absurd (omega arith)
take-overwrite (suc p) (suc m) bs (x ∷ xs) e h =
    ap (λ l. x ∷ l) (take-overwrite p m bs xs (omega arith) (omega arith))

pub drop-append_le : (n : ℕ) (xs ys : List ℕ) → n ≤ length xs → drop n (xs ++ ys) ≡ drop n xs ++ ys
drop-append_le zero xs ys h = refl
drop-append_le (suc n) [] ys h = absurd (omega arith)
drop-append_le (suc n) (x ∷ xs) ys h = drop-append_le n xs ys (omega arith)

pub drop-append_add :
    (n k m : ℕ) (xs ys : List ℕ) → length xs ≡ n → m ≡ n + k → drop m (xs ++ ys) ≡ drop k ys
drop-append_add n k m [] ys h e = ap (λ j. drop j ys) (omega arith)
drop-append_add n k zero (x ∷ xs) ys h e = absurd (omega arith)
drop-append_add n k (suc m) (x ∷ xs) ys h e =
    drop-append_add (n - 1) k m xs ys (omega arith) (omega arith)

pub take-append_add :
    (n k m : ℕ) (xs ys : List ℕ) → length xs ≡ n → m ≡ n + k → take m (xs ++ ys) ≡ xs ++ take k ys
take-append_add n k m [] ys h e = ap (λ j. take j ys) (omega arith)
take-append_add n k zero (x ∷ xs) ys h e = absurd (omega arith)
take-append_add n k (suc m) (x ∷ xs) ys h e =
    ap (λ l. x ∷ l) (take-append_add (n - 1) k m xs ys (omega arith) (omega arith))

pub drop-drop : (n m k : ℕ) (xs : List ℕ) → k ≡ m + n → drop n (drop m xs) ≡ drop k xs
drop-drop n zero k xs e = ap (λ j. drop j xs) (omega arith)
drop-drop n (suc m) zero xs e = absurd (omega arith)
drop-drop zero (suc m) (suc k) [] e = refl
drop-drop (suc n) (suc m) (suc k) [] e = refl
drop-drop n (suc m) (suc k) (x ∷ xs) e = drop-drop n m k xs (omega arith)

pub take-drop : (n m k : ℕ) (xs : List ℕ) → k ≡ m + n → take n (drop m xs) ≡ drop m (take k xs)
take-drop n zero k xs e = ap (λ j. take j xs) (omega arith)
take-drop n (suc m) zero xs e = absurd (omega arith)
take-drop zero (suc m) (suc k) [] e = refl
take-drop (suc n) (suc m) (suc k) [] e = refl
take-drop n (suc m) (suc k) (x ∷ xs) e = take-drop n m k xs (omega arith)

-- A part of one block is a part of the blocks end to end.
pub drop-concat :
    (size : ℕ) (blocks : List (List ℕ)) (i p : ℕ)
    → Uniform size blocks
    → i < length blocks
    → p ≤ size
    → drop (i * size + p) (concat blocks)
      ≡ drop p (get_or blocks i []) ++ concat (drop (suc i) blocks)
drop-concat size [] i p u h k = absurd (omega arith)
drop-concat size (b ∷ bs) zero p u h k =
    ap (λ q. drop q (b ++ concat bs)) e ∙ drop-append_le p b (concat bs) (omega (arith, u.0))
  where
    e : zero * size + p ≡ p
    e = omega arith
drop-concat size (b ∷ bs) (suc i) p u h k =
    drop-append_add size (i * size + p) (suc i * size + p) b (concat bs) u.0 (omega arith)
    ∙ drop-concat size bs i p u.1 (omega arith) k

pub take_add : (n k m : ℕ) (xs : List ℕ) → m ≡ n + k → take m xs ≡ take n xs ++ take k (drop n xs)
take_add zero k m xs e = ap (λ j. take j xs) (omega arith)
take_add (suc n) k zero xs e = absurd (omega arith)
take_add (suc n) zero (suc m) [] e = refl
take_add (suc n) (suc k) (suc m) [] e = refl
take_add (suc n) k (suc m) (x ∷ xs) e = ap (λ l. x ∷ l) (take_add n k m xs (omega arith))
