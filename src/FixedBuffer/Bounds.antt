-- ===== src/FixedBuffer/Bounds.antt =====
-- Append() stays within the array.
use muzi.Prelude.{
  ℕ, suc, ◌+◌, ◌-◌, ◌^◌, ◌≤◌, ◌<◌, ◌≡◌, refl, ap, ◌∙◌, List, ◌++◌, some, arith, length, take, min,
  leb, Bool-cases, inl, inr, take_all, sym, length-append, length-take, le→leb,
}
use muzi.FixedBuffer.{FixedBuffer, get_avail, add, append}

-- A byte is left for the '\0'.
abbrev pub Fits : ℕ → FixedBuffer → Type 0
Fits size b = length b.bytes < size

module _ (size : ℕ) (b : FixedBuffer) (small : size < 2 ^ 64) (fits : Fits size b) where
  pub get_avail_lem : get_avail size b ≡ size - suc (length b.bytes)
  unfolding get_avail
  get_avail_lem = omega arith

  pub add_lem :
      (more : List ℕ)
      → length more ≤ get_avail size b
      → (add size b more ≡ some (record b { bytes = b.bytes ++ more }))
        × Fits size (record b { bytes = b.bytes ++ more })
  unfolding add
  add_lem more h =
      let room = get_avail_lem in
      let sum = length-append b.bytes more in
      (rw (le→leb (length b.bytes + length more) size (omega arith)) refl, omega arith)

take-min : (n : ℕ) (xs : List ℕ) → take (min n (length xs)) xs ≡ take n xs
take-min n xs = elim (Bool-cases (leb n (length xs))) [
  | inl le ↦ ap (λ m. take m xs) (ground arith)
  | inr gt ↦ take_all (min n (length xs)) xs (ground arith) ∙ sym (take_all n xs (ground arith))
]

-- Append() never writes past the array and keeps the byte for the '\0': it adds as much of the
-- front of the message as there is room for.
pub append-Fits :
    (size : ℕ) (b : FixedBuffer) (msg : List ℕ)
    → size < 2 ^ 64
    → Fits size b
    → let b' = record b { bytes = b.bytes ++ take (size - suc (length b.bytes)) msg } in
      (append size b msg ≡ some b') × Fits size b'
unfolding append
append-Fits size b msg small fits =
    let avail = get_avail_lem size b small fits in
    let cut : take (min (get_avail size b) (length msg)) msg
        ≡ take (size - suc (length b.bytes)) msg =
      take-min (get_avail size b) msg ∙ ap (λ n. take n msg) avail in
    let (e, f) =
      add_lem size b small fits (take (size - suc (length b.bytes)) msg)
        (omega (arith, length-take (size - suc (length b.bytes)) msg)) in
    (ap (add size b) cut ∙ e, f)

-- A message for which there is room is appended whole.
pub append_whole :
    (size : ℕ) (b : FixedBuffer) (msg : List ℕ)
    → size < 2 ^ 64
    → length b.bytes + length msg < size
    → append size b msg ≡ some (record b { bytes = b.bytes ++ msg })
append_whole size b msg small room =
    let (e, _) = append-Fits size b msg small (omega arith) in
    e
    ∙ ap (λ m. some (record b { bytes = b.bytes ++ m }))
        (take_all (size - suc (length b.bytes)) msg (omega arith))
