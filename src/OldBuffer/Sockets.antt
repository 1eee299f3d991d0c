-- ===== src/OldBuffer/Sockets.antt =====
-- muzi/net/old_buffer.cc: ReadFd() on the bytes that a buffer holds.
use mathlib.Core.Path.{subst}
use muzi.Prelude.{
  ℕ, suc, ◌+◌, ◌-◌, ◌*◌, ◌≤◌, ◌<◌, ◌≡◌, sym, ap, ◌∙◌, inl, inr, true, List, ◌++◌, Option, some,
  arith, length, take, drop, leb, ◌==◌, Bool-cases, length-take, take-append-drop, take_all,
}
use muzi.ChainBuffer.Vectors.{received}
use muzi.OldBuffer.{Iterator, OldBuffer, and_then, append, writable_bytes}
use muzi.OldBuffer.Iterators.{position, skip_lem}
use muzi.OldBuffer.Flat.{slice, slice-append, slice-cong}
use muzi.OldBuffer.Space.{IsValid, held, contents, writable_bytes_lem}
use muzi.OldBuffer.Bytes.{Leaves, append-contents}
use muzi.OldBuffer.Scatter.{
  total, free_vec, scatter, move_write, read_fd, Stores, total-free_vec, scatter-Stores,
  append_assoc,
}

module _ (size : ℕ) where
  -- A write index behind bytes that have been stored there.
  move_write_lem :
      {b : OldBuffer} (memory : ℕ → ℕ → ℕ) (ys : List ℕ)
      → IsValid size b
      → Stores size b.memory memory (position size b.write_index) ys
      → position size b.write_index + length ys < b.count * size
      → Leaves size
          (move_write size (record b { memory = memory }) (length ys))
          (contents size b ++ ys)
  move_write_lem {b} memory ys v (s, others) h =
      let (it, e, v', q) = skip_lem size b.count b.write_index (length ys) v.write_in h in
      let r = position size b.read_index in
      let more : position size it - r ≡ held size b + length ys = omega (arith, q, v.in_order) in
      let next : r + held size b ≡ position size b.write_index = omega (arith, v.in_order) in
      let old : slice size memory r (held size b) ≡ contents size b =
        slice-cong size (held size b) memory b.memory r r
          (λ k l. others (r + k) (ground (arith, l, next))) in
      (
        record b { memory = memory; write_index = it },
        ap (λ r. and_then r moves) e,
        record { read_in = v.read_in; write_in = v'; in_order = omega (arith, q, v.in_order) },
        ap (slice size memory r) more
            ∙ slice-append size (held size b) (length ys) memory r
            ∙ ap (λ zs. zs ++ slice size memory (r + held size b) (length ys)) old
            ∙ ap (λ p. contents size b ++ slice size memory p (length ys)) next
            ∙ ap (λ zs. contents size b ++ zs) s,
      )
    where
      moves : Iterator → Option OldBuffer
      moves it = some (record b { memory = memory; write_index = it })

  -- ReadFd() of bytes, however many: it fails no assertion and puts them behind those held.
  pub read_fd-contents :
      {b : OldBuffer} (xs : List ℕ)
      → IsValid size b
      → Leaves size (read_fd size b (received xs)) (contents size b ++ xs)
  unfolding read_fd
  read_fd-contents {b} xs v =
      let w = b.write_index in
      let k = b.count - suc w.buffer_it in
      let vec = free_vec size k w.buffer_it w.cur in
      let memory = scatter size vec xs b.memory in
      let blocks : b.count ≡ suc w.buffer_it + k = omega (arith, v.write_in.block_in) in
      let room : total vec + suc (position size w) ≡ b.count * size = omega (
        arith,
        total-free_vec size k w.buffer_it w.cur v.write_in.cur_in,
        ap (λ n. n * size) blocks,
      ) in
      let asserted : (total vec == writable_bytes size b) ≡ true =
        ground (arith, room, writable_bytes_lem size v) in
      let stored = scatter-Stores size k xs b.memory w.buffer_it w.cur v.write_in.cur_in in
      elim (Bool-cases (leb (length xs) (total vec))) [
        | inl on ↦
            let le : length xs ≤ total vec = ground (arith, on) in
            rw (asserted, on)
              (move_write_lem memory xs v
                (subst (Stores size b.memory memory (position size w)) (take_all (total vec) xs le)
                  stored)
                (omega (arith, le, room)))
        | inr off ↦
            let n : length (take (total vec) xs) ≡ total vec =
              ground (arith, off, length-take (total vec) xs) in
            let (b₁, e, v₁, c) =
              move_write_lem memory (take (total vec) xs) v stored (omega (arith, n, room)) in
            let (b₂, f, v₂, d) = append-contents size (drop (total vec) xs) v₁ in
            let e' = ap (λ n. move_write size (record b { memory = memory }) n) (sym n) ∙ e in
            rw (asserted, off)
              (
                b₂,
                ap (λ r. and_then r (λ b. append size b (drop (total vec) xs))) e' ∙ f,
                v₂,
                d
                    ∙ ap (λ zs. zs ++ drop (total vec) xs) c
                    ∙ append_assoc size (contents size b) (take (total vec) xs)
                        (drop (total vec) xs)
                    ∙ ap (λ zs. contents size b ++ zs) (take-append-drop (total vec) xs),
              )
      ]
