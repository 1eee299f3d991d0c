-- ===== src/OldBuffer/Replaced.antt =====
-- The operations of a Buffer and of the ChainBuffer by which buffer.h has replaced it, compared.
use mathlib.Core.Path.{subst}
use muzi.Prelude.{
  ℕ, ◌+◌, ◌-◌, ◌^◌, ◌≤◌, ◌<◌, ◌≡◌, refl, sym, ap, ◌∙◌, inl, inr, List, [], ◌∷◌, ◌++◌, Option, none,
  some, arith, length, take, drop, ltb, leb, Bool, true, false, Bool-cases, if◌then◌else◌, drop_all,
}
use muzi.ChainBuffer.{ChainBuffer}
use muzi.ChainBuffer.Invariant.{contents as chain_contents, IsValid as IsValidChain}
use muzi.ChainBuffer.Vectors.{received}
use muzi.ChainBuffer.Queue.{
  Op, put, receive, skip, take_out, reserve, take_all, clear, Step, queue_step, buffer_step, run,
  FollowsStep, run_follows, run_lem,
}
use muzi.OldBuffer.{
  OldBuffer, cheap_prepend, readable_bytes, append, retrive, retrive_as_string,
  retrive_all_as_string, reset_index, ensure_writable_bytes,
}
use muzi.OldBuffer.Growth.{ensure_writable_bytes_lem}
use muzi.OldBuffer.Space.{IsValid, contents, readable_bytes_lem}
use muzi.OldBuffer.Bytes.{
  Leaves, length-contents, reset_index_lem, retrive-drop, append-contents, retrive_as_string-take,
}
use muzi.OldBuffer.Scatter.{read_fd}
use muzi.OldBuffer.Sockets.{read_fd-contents}

-- Nothing comes out.
abbrev pub in_silence : Option OldBuffer → Step OldBuffer
in_silence none = none
in_silence (some b) = some ([], b)

-- The same operations of a Buffer; what Shrink() makes room for, EnsureWritableBytes() does.
abbrev pub old_step : ℕ → Op → OldBuffer → Step OldBuffer
old_step size (put xs) b = in_silence (append size b xs)
old_step size (receive xs) b = in_silence (read_fd size b (received xs))
old_step size (skip n) b = in_silence (retrive size b n)
old_step size (take_out n) b = retrive_as_string size b n
old_step size (reserve n) b = in_silence (ensure_writable_bytes size n b n)
old_step size take_all b = retrive_all_as_string size b
old_step size clear b = in_silence (reset_index size b)

module _ (size : ℕ) (big : cheap_prepend < size) (b : OldBuffer) (v : IsValid size b) where
  quiet :
      (r : Option OldBuffer) (q : List ℕ)
      → Leaves size r q
      → FollowsStep (IsValid size) (contents size) (in_silence r) (some ([], q))
  quiet r q (b', e, w, c) = (b', ap in_silence e, w, c)

  step_follows :
      (o : Op)
      → FollowsStep
          (IsValid size)
          (contents size)
          (old_step size o b)
          (queue_step o (contents size b))
  unfolding retrive_all_as_string
  step_follows (put xs) = elim (Bool-cases (ltb (length (contents size b) + length xs) (2 ^ 64))) [
    | inl fits ↦
        rw fits (quiet (append size b xs) (contents size b ++ xs) (append-contents size xs v))
    | inr over ↦ rw over tt
  ]
  step_follows (receive xs) =
      elim (Bool-cases (ltb (length (contents size b) + length xs) (2 ^ 64))) [
        | inl fits ↦ rw fits (
            quiet (read_fd size b (received xs)) (contents size b ++ xs)
              (read_fd-contents size xs v))
        | inr over ↦ rw over tt
      ]
  step_follows (skip n) = elim (Bool-cases (leb n (length (contents size b)))) [
    | inl on ↦ rw on (
        quiet (retrive size b n) (drop n (contents size b))
          (retrive-drop size n big v (ground (arith, on))))
    | inr over ↦ rw over tt
  ]
  step_follows (take_out n) = elim (Bool-cases (leb n (length (contents size b)))) [
    | inl on ↦ rw on (retrive_as_string-take size n big v (ground (arith, on)))
    | inr over ↦ rw over tt
  ]
  step_follows (reserve n) =
      let (b', e, w, c, room) = ensure_writable_bytes_lem size n n v (omega arith) in
      quiet (ensure_writable_bytes size n b n) (contents size b) (b', e, w, c)
  step_follows take_all =
      let n : readable_bytes size b ≡ length (contents size b) =
        readable_bytes_lem size v ∙ sym (length-contents size v) in
      let (b', e, w, c) =
        retrive_as_string-take size (readable_bytes size b) big v (omega (arith, n)) in
      (
        b',
        e ∙ ap (λ xs. some (xs, b')) (whole n),
        w,
        c ∙ drop_all (readable_bytes size b) (contents size b) (omega (arith, n)),
      )
    where
      whole :
          readable_bytes size b ≡ length (contents size b)
          → take (readable_bytes size b) (contents size b) ≡ contents size b
      whole n = muzi.Prelude.take_all (readable_bytes size b) (contents size b) (omega (arith, n))
  step_follows clear =
      quiet (reset_index size b) [] (reset_index_lem size b big (omega (arith, v.read_in.block_in)))

-- A Buffer and a ChainBuffer that hold the same bytes give out the same bytes over any sequence of
-- operations that a queue of bytes allows, and hold the same bytes behind it. The blocks of the
-- Buffer are longer than kCheapPrepend.
pub replaced_lem :
    (size chain_size : ℕ) (ops : List Op) {b : OldBuffer} {c : ChainBuffer} {out q : List ℕ}
    → cheap_prepend < size
    → IsValid size b
    → IsValidChain chain_size c
    → contents size b ≡ chain_contents chain_size c
    → run queue_step ops (contents size b) ≡ some (out, q)
    → (b' : OldBuffer) × (c' : ChainBuffer) × (run (old_step size) ops b ≡ some (out, b'))
      × (run (buffer_step chain_size) ops c ≡ some (out, c'))
      × (contents size b' ≡ chain_contents chain_size c')
replaced_lem size chain_size ops {b} {c} {out} {q} big v w e allowed =
    let follows =
      run_follows (IsValid size) (contents size) (old_step size)
        (λ o b v. step_follows size big b v o) ops b v in
    let (b', f, v', g) =
      subst (FollowsStep (IsValid size) (contents size) (run (old_step size) ops b)) allowed
        follows in
    let same = ap (run queue_step ops) (sym e) ∙ allowed in
    let (c', h, w', k) = run_lem chain_size ops w same in (b', c', f, h, g ∙ sym k)
