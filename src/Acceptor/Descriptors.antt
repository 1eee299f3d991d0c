-- ===== src/Acceptor/Descriptors.antt =====
-- What becomes of the descriptors that an acceptor opens.
use muzi.Prelude.{
  ℕ, suc, zero, ◌+◌, ◌≡◌, refl, true, List, [], ◌∷◌, arith, ℤ, pos, negsuc, ap, ◌∙◌, ◌==◌,
  if◌then◌else◌, Bool-cases, inl, inr,
}
use muzi.Acceptor.{
  Accepted, connection, emfile, eagain, eintr, econnaborted, Effect, handed, closed, Acceptor,
  deliver, second_fd, handle_read,
}

-- 1 if the descriptor is `n`.
abbrev pub is_fd : ℕ → ℤ → ℕ
is_fd n (pos m) = if m == n then 1 else 0
is_fd n (negsuc m) = 0

-- How often `n` is opened up to the end of the loop.
abbrev pub opened : ℕ → List Accepted → ℕ
opened n [] = 0
opened n (connection zero ∷ rest) = is_fd n (pos zero)
opened n (connection (suc m) ∷ rest) = is_fd n (pos (suc m)) + opened n rest
opened n (emfile second idle_fd ∷ rest) =
    is_fd n (second_fd second) + (is_fd n (pos idle_fd) + opened n rest)
opened n (eagain ∷ rest) = 0
opened n (eintr ∷ rest) = opened n rest
opened n (econnaborted ∷ rest) = opened n rest

-- The descriptor 0 of a connection ends the loop, and is neither handed over nor closed.
abbrev pub left_open : ℕ → List Accepted → ℕ
left_open n [] = 0
left_open n (connection zero ∷ rest) = is_fd n (pos zero)
left_open n (connection (suc m) ∷ rest) = left_open n rest
left_open n (emfile second idle_fd ∷ rest) = left_open n rest
left_open n (eagain ∷ rest) = 0
left_open n (eintr ∷ rest) = left_open n rest
left_open n (econnaborted ∷ rest) = left_open n rest

-- How often `n` is handed over or closed.
abbrev pub disposed : ℕ → List Effect → ℕ
disposed n [] = 0
disposed n (handed fd ∷ es) = is_fd n fd + disposed n es
disposed n (closed fd ∷ es) = is_fd n fd + disposed n es

disposed-deliver :
    (n : ℕ) (a : Acceptor) (fd : ℤ) (es : List Effect)
    → disposed n (deliver a fd ∷ es) ≡ is_fd n fd + disposed n es
disposed-deliver n a fd es = elim (Bool-cases a.has_callback) [
  | inl on ↦ rw on refl
  | inr off ↦ rw off refl
]

-- Whatever the calls answer, HandleRead() closes no descriptor twice and loses none but the descriptor
-- 0 of a connection, which ends the loop: each one that it opens, or holds as the idle file, is handed
-- to the callback, closed, held at the end, or this 0, as often as it was opened.
pub handle_read_lem :
    (answers : List Accepted) (a : Acceptor) (n : ℕ)
    → is_fd n a.dummy_fd + opened n answers
      ≡ disposed n (handle_read answers a).1
        + (is_fd n (handle_read answers a).0.dummy_fd + left_open n answers)
unfolding handle_read
handle_read_lem [] a n = omega arith
handle_read_lem (connection zero ∷ rest) a n = omega arith
handle_read_lem (connection (suc m) ∷ rest) a n =
    omega
      (arith, handle_read_lem rest a n, disposed-deliver n a (pos (suc m)) (handle_read rest a).1)
handle_read_lem (emfile second idle_fd ∷ rest) a n =
    omega (arith, handle_read_lem rest (record a { dummy_fd = pos idle_fd }) n)
handle_read_lem (eagain ∷ rest) a n = omega arith
handle_read_lem (eintr ∷ rest) a n =
    omega (arith, handle_read_lem rest a n, disposed-deliver n a (negsuc 0) (handle_read rest a).1)
handle_read_lem (econnaborted ∷ rest) a n =
    omega (arith, handle_read_lem rest a n, disposed-deliver n a (negsuc 0) (handle_read rest a).1)

-- Calls of the callback with -1, and the answers that make them.
abbrev pub bad_calls : List Effect → ℕ
bad_calls [] = 0
bad_calls (handed (pos n) ∷ es) = bad_calls es
bad_calls (handed (negsuc n) ∷ es) = suc (bad_calls es)
bad_calls (closed fd ∷ es) = bad_calls es

abbrev pub failures : List Accepted → ℕ
failures [] = 0
failures (connection zero ∷ rest) = 0
failures (connection (suc m) ∷ rest) = failures rest
failures (emfile second idle_fd ∷ rest) = failures rest
failures (eagain ∷ rest) = 0
failures (eintr ∷ rest) = suc (failures rest)
failures (econnaborted ∷ rest) = suc (failures rest)

bad_calls-deliver :
    (a : Acceptor) (es : List Effect) (m : ℕ)
    → a.has_callback ≡ true
    → (bad_calls (deliver a (pos m) ∷ es) ≡ bad_calls es)
      × (bad_calls (deliver a (negsuc m) ∷ es) ≡ suc (bad_calls es))
bad_calls-deliver a es m h = (rw h refl, rw h refl)

-- The callback is called with -1 for each EINTR and ECONNABORTED before the loop ends.
pub bad_calls-handle_read :
    (answers : List Accepted) (a : Acceptor)
    → a.has_callback ≡ true
    → bad_calls (handle_read answers a).1 ≡ failures answers
unfolding handle_read
bad_calls-handle_read [] a h = refl
bad_calls-handle_read (connection zero ∷ rest) a h = refl
bad_calls-handle_read (connection (suc m) ∷ rest) a h =
    (bad_calls-deliver a (handle_read rest a).1 (suc m) h).0 ∙ bad_calls-handle_read rest a h
bad_calls-handle_read (emfile second idle_fd ∷ rest) a h =
    bad_calls-handle_read rest (record a { dummy_fd = pos idle_fd }) h
bad_calls-handle_read (eagain ∷ rest) a h = refl
bad_calls-handle_read (eintr ∷ rest) a h =
    (bad_calls-deliver a (handle_read rest a).1 0 h).1 ∙ ap suc (bad_calls-handle_read rest a h)
bad_calls-handle_read (econnaborted ∷ rest) a h =
    (bad_calls-deliver a (handle_read rest a).1 0 h).1 ∙ ap suc (bad_calls-handle_read rest a h)
