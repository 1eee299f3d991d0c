-- ===== src/TcpClient/Current.antt =====
-- What is to hold of each connection of a client, by whether it is the one of connection_.
use mathlib.Core.Path.{subst}
use muzi.Prelude.{
  ℕ, suc, ◌≤◌, ◌<◌, ◌≡◌, refl, sym, ap, Bool, true, false, not, ◌&&◌, List, [], ◌∷◌, Option, none,
  some, arith, length, leb, ◌==◌, if◌then◌else◌, Bool-cases, inl, inr,
}
use muzi.TcpConnection.{TcpConnection, connecting, is}
use muzi.TcpConnection.Lifecycle.{down}
use muzi.TcpConnection.Owner.{owned, same}
use muzi.TcpClient.{is_connection, at_number, replace}

abbrev pub fine : Bool → TcpConnection → Bool
fine current c =
    owned c
    && (not (is c connecting)
        && (same c.in_poller current && (down c == (if current then 0 else 1))))

abbrev pub all_fine : Option ℕ → List TcpConnection → Bool
all_fine current [] = true
all_fine current (c ∷ cs) = fine (is_connection current (length cs)) c && all_fine current cs

-- No connection of the list has the number of connection_.
abbrev pub outside : Option ℕ → ℕ → Bool
outside none k = true
outside (some n) k = leb k n

is_connection-outside :
    (current : Option ℕ) (k : ℕ) → outside current (suc k) ≡ true → is_connection current k ≡ false
is_connection-outside none k h = refl
is_connection-outside (some n) k h = ground arith

outside-suc :
    (current : Option ℕ) (k : ℕ) → outside current (suc k) ≡ true → outside current k ≡ true
outside-suc none k h = refl
outside-suc (some n) k h = ground arith

pub all_fine-outside :
    (current current' : Option ℕ) (cs : List TcpConnection)
    → outside current (length cs) ≡ true
    → outside current' (length cs) ≡ true
    → all_fine current cs ≡ true
    → all_fine current' cs ≡ true
all_fine-outside current current' [] o o' h = refl
all_fine-outside current current' (c ∷ cs) o o' h =
    let e = is_connection-outside current (length cs) o in
    let e' = is_connection-outside current' (length cs) o' in
    let f : fine false c ≡ true = rw (sym e) (ground arith) in
    rw (e', f)
      (all_fine-outside current current' cs (outside-suc current (length cs) o)
        (outside-suc current' (length cs) o') (ground arith))

abbrev fine_found : Bool → Option TcpConnection → Bool
fine_found b none = true
fine_found b (some c) = fine b c

found-fine :
    (n : ℕ) (current : Option ℕ) (cs : List TcpConnection)
    → all_fine current cs ≡ true
    → fine_found (is_connection current n) (at_number n cs) ≡ true
found-fine n current [] h = refl
found-fine n current (d ∷ cs) h = elim (Bool-cases (length cs == n)) [
  | inl on ↦
      let e : length cs ≡ n = ground (arith, on) in
      rw on (subst (λ k. fine (is_connection current k) d ≡ true) e (ground (arith, h)))
  | inr off ↦ rw off (found-fine n current cs (ground (arith, h)))
]

pub at_number-fine :
    (n : ℕ) (current : Option ℕ) (cs : List TcpConnection) {c : TcpConnection}
    → at_number n cs ≡ some c
    → all_fine current cs ≡ true
    → fine (is_connection current n) c ≡ true
at_number-fine n current cs e h =
    subst (λ o. fine_found (is_connection current n) o ≡ true) e (found-fine n current cs h)

pub length-replace :
    (n : ℕ) (c' : TcpConnection) (cs : List TcpConnection) → length (replace n c' cs) ≡ length cs
length-replace n c' [] = refl
length-replace n c' (c ∷ cs) = elim (Bool-cases (length cs == n)) [
  | inl on ↦ rw on refl
  | inr off ↦ rw off (ap suc (length-replace n c' cs))
]

-- A new connection object at its place, where connection_ may be reset but for the others.
pub all_fine-replace :
    (n : ℕ) (current current' : Option ℕ) (c' : TcpConnection) (cs : List TcpConnection)
    → ((k : ℕ) → (k == n) ≡ false → is_connection current k ≡ is_connection current' k)
    → fine (is_connection current' n) c' ≡ true
    → all_fine current cs ≡ true
    → all_fine current' (replace n c' cs) ≡ true
all_fine-replace n current current' c' [] same_others f h = refl
all_fine-replace n current current' c' (c ∷ cs) same_others f h =
    elim (Bool-cases (length cs == n)) [
      | inl on ↦
          let e : length cs ≡ n = ground (arith, on) in
          let at : fine (is_connection current' (length cs)) c' ≡ true =
            subst (λ k. fine (is_connection current' k) c' ≡ true) (sym e) f in
          rw (on, at) (keep cs (omega (arith, e)) (ground (arith, h)))
      | inr off ↦
          let at : fine (is_connection current' (length cs)) c ≡ true =
            subst (λ b. fine b c ≡ true) (same_others (length cs) off) (ground (arith, h)) in
          rw (off, length-replace n c' cs, at)
            (all_fine-replace n current current' c' cs same_others f (ground (arith, h)))
    ]
  where
    keep :
        (ds : List TcpConnection)
        → length ds ≤ n
        → all_fine current ds ≡ true
        → all_fine current' ds ≡ true
    keep [] l g = refl
    keep (d ∷ ds) l g =
        let at : fine (is_connection current' (length ds)) d ≡ true =
          subst (λ b. fine b d ≡ true) (same_others (length ds) (ground (arith, l)))
            (ground (arith, g)) in
        rw at (keep ds (omega (arith, l)) (ground (arith, g)))

pub replace-replace :
    (n : ℕ) (c' c'' : TcpConnection) (cs : List TcpConnection)
    → replace n c'' (replace n c' cs) ≡ replace n c'' cs
replace-replace n c' c'' [] = refl
replace-replace n c' c'' (c ∷ cs) = elim (Bool-cases (length cs == n)) [
  | inl on ↦ rw (on, on) refl
  | inr off ↦ rw (off, length-replace n c' cs, off, replace-replace n c' c'' cs) refl
]

pub at_number_found :
    (n : ℕ) (cs : List TcpConnection)
    → n < length cs
    → (c : TcpConnection) × (at_number n cs ≡ some c)
at_number_found n [] h = absurd (omega (arith, h))
at_number_found n (c ∷ cs) h = elim (Bool-cases (length cs == n)) [
  | inl on ↦ (c, rw on refl)
  | inr off ↦ rw off (at_number_found n cs (ground (arith, h, off)))
]
