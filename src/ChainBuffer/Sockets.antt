-- ===== src/ChainBuffer/Sockets.antt =====
-- ReadFd() puts what it reads behind the bytes held.
use muzi.Prelude.{
  ℕ, zero, suc, ◌+◌, ◌*◌, ◌^◌, ◌≤◌, ◌<◌, ◌≡◌, refl, sym, ap, ◌∙◌, inl, inr, List, [], ◌∷◌, ◌++◌,
  some, arith, length, take, drop, ltb, leb, ◌==◌, true, Bool-cases, length-append, length-take,
  length-drop, length-replicate, take-append-drop, take-append_le, take_all,
}
use mathlib.Core.List.{append_assoc}
use muzi.ChainBuffer.{ChainBuffer, fresh, add_size, append, has_write}
use muzi.ChainBuffer.Bytes.{
  overwrite, concat, length-overwrite, Uniform-append, length-concat, concat-append, take-overwrite,
  drop-append_le, take-append_add,
}
use muzi.ChainBuffer.Invariant.{write_offset, read_offset, contents, CanWrite, IsValid}
use muzi.ChainBuffer.Append.{append_lem}
use muzi.ChainBuffer.Iterators.{has_write_lem, write_offset-add-writable_bytes, read_offset-le}
use muzi.ChainBuffer.Peek.{take-take}
use muzi.ChainBuffer.Vectors.{Iovec, received, total, scatter, free_vec, free_end, fill, read_fd}
use muzi.ChainBuffer.Scatter.{
  take_before-overwrite, take-drop-overwrite, scatter-length, scatter-Uniform, scatter-overwrite,
}

module _ (size : ℕ) where
  -- Where the loop of ReadFd() ends: at the start of a block, behind its vectors.
  free_end_lem :
      (k n i : ℕ)
      → i ≤ n
      → (i' : ℕ) × (free_end size k n i 0 ≡ (i', 0))
        × (i' ≤ n)
        × (i' * size ≡ i * size + total (free_vec size k n i 0))
  free_end_lem zero n i h = (i, refl, h, omega arith)
  free_end_lem (suc k) n i h = elim (Bool-cases (ltb i n)) [
    | inl in_list ↦
        let (i', e, le, o) = free_end_lem k n (suc i) (ground arith) in
        (i', rw in_list e, le, rw in_list (omega (arith, o)))
    | inr out ↦ (i, rw out refl, h, rw out (omega arith))
  ]

  module _ {b : ChainBuffer} (xs : List ℕ) (v : IsValid size b)
      (fits : b.readable_bytes + length xs < 2 ^ 64) where
    abbrev vectors : List Iovec
    vectors = free_vec size 15 (length b.buffers) b.write_buffer b.write_pos

    abbrev scattered : ChainBuffer
    scattered = record b { buffers = scatter vectors xs b.buffers }

    scattered_bytes :
        concat scattered.buffers
        ≡ overwrite (write_offset size b) (take (total vectors) xs) (concat b.buffers)
    scattered_bytes =
        scatter-overwrite size 15 (length b.buffers) b.write_buffer b.write_pos xs b.buffers
          v.can_write.uniform refl (omega (arith, v.can_write.write_pos_in))

    scattered-IsValid : IsValid size scattered
    scattered-IsValid = record {
      can_write = record {
        uniform = scatter-Uniform size vectors xs b.buffers v.can_write.uniform;
        write_in = omega (arith, scatter-length size vectors xs b.buffers, v.can_write.write_in);
        write_pos_in = v.can_write.write_pos_in;
      };
      read_first = v.read_first;
      read_pos_in = v.read_pos_in;
      counted = v.counted;
      fits = v.fits;
    }

    stop :
        (i' : ℕ) × (free_end size 15 (length b.buffers) b.write_buffer b.write_pos ≡ (i', 0))
        × (i' ≤ length b.buffers)
        × (i' * size ≡ write_offset size b + total vectors)
    stop =
        let (i', e, le, o) =
          free_end_lem 14 (length b.buffers) (suc b.write_buffer) v.can_write.write_in in
        let in_list : ltb b.write_buffer (length b.buffers) ≡ true =
          ground (arith, v.can_write.write_in) in
        (i', rw in_list e, le, rw in_list (omega (arith, o, v.can_write.write_pos_in)))

    abbrev held : ℕ → List ℕ
    held r = drop r (take (write_offset size b) (concat b.buffers))

    room : write_offset size b + total vectors ≤ length (concat b.buffers)
    room =
        let (i', e, le, o) = stop in
        let len = length-concat size b.buffers v.can_write.uniform in grind arith

    -- What stands before the end of `m` bytes of the message.
    written_before :
        (m : ℕ)
        → m ≤ total vectors
        → m ≤ length xs
        → take (write_offset size b + m) (concat scattered.buffers)
          ≡ take (write_offset size b) (concat b.buffers) ++ take m xs
    written_before m h k =
        let w = write_offset size b in
        let ys = take (total vectors) xs in
        let len = length-take (total vectors) xs in
        let longer = length-overwrite w ys (concat b.buffers) in
        ap (take (w + m)) scattered_bytes
        ∙ sym (
            take-take (w + m) (w + length ys) (overwrite w ys (concat b.buffers))
              (omega (arith, len)))
        ∙ ap (take (w + m))
            (take-overwrite w (w + length ys) ys (concat b.buffers) refl (omega (arith, len, room)))
        ∙ take-append_add w m (w + m) (take w (concat b.buffers)) ys
            (omega (arith, length-take w (concat b.buffers), room)) refl
        ∙ ap (λ l. take w (concat b.buffers) ++ l) (take-take m (total vectors) xs h)

    contents_with :
        (ys : List ℕ)
        → drop (read_offset size b) (take (write_offset size b) (concat b.buffers) ++ ys)
          ≡ contents size b ++ ys
    contents_with ys =
        drop-append_le (read_offset size b) (take (write_offset size b) (concat b.buffers)) ys
          (read_offset-le size v)

    -- Fewer bytes than the vectors take.
    part_read :
        length xs < total vectors
        → (b' : ChainBuffer) × (has_write size scattered (length xs) ≡ some b')
          × IsValid size b'
          × (contents size b' ≡ contents size b ++ xs)
    part_read h =
        let w = write_offset size b in
        let all : take (total vectors) xs ≡ xs = take_all (total vectors) xs (omega arith) in
        let bytes = scattered_bytes ∙ ap (λ l. overwrite w l (concat b.buffers)) all in
        let free = write_offset-add-writable_bytes size scattered-IsValid.can_write in
        let len = length-concat size scattered.buffers scattered-IsValid.can_write.uniform in
        let same = ap length bytes ∙ length-overwrite w xs (concat b.buffers) in
        let (b', e, v', c) =
          has_write_lem size {b = scattered} (length xs) scattered-IsValid fits
            (omega (arith, room)) in
        (
          b',
          e,
          v',
          c
              ∙ ap (λ l. drop (read_offset size b) (take w l) ++ take (length xs) (drop w l)) bytes
              ∙ ap
                  (λ l.
                    drop (read_offset size b) l
                    ++ take (length xs) (drop w (overwrite w xs (concat b.buffers))))
                  (take_before-overwrite w xs (concat b.buffers))
              ∙ ap (λ l. contents size b ++ l)
                  (take-drop-overwrite w xs (concat b.buffers) (omega (arith, room))),
        )

    -- The buffer before the bytes of extra_buf are appended, from what the two branches share.
    filled_lem :
        (b₂ : ChainBuffer)
        → CanWrite size b₂
        → b₂.read_buffer ≡ b.read_buffer
        → b₂.read_pos ≡ b.read_pos
        → b₂.readable_bytes ≡ add_size b.readable_bytes (total vectors)
        → write_offset size b₂ ≡ write_offset size b + total vectors
        → take (write_offset size b + total vectors) (concat b₂.buffers)
          ≡ take (write_offset size b + total vectors) (concat scattered.buffers)
        → total vectors ≤ length xs
        → (b' : ChainBuffer) × (append size b₂ (drop (total vectors) xs) ≡ some b')
          × IsValid size b'
          × (contents size b' ≡ contents size b ++ xs)
    filled_lem b₂ cw rb rp n o c h =
        let t = total vectors in
        let w = write_offset size b in
        let v₂ : IsValid size b₂ = record {
          can_write = cw;
          read_first = rb ∙ v.read_first;
          read_pos_in = omega (arith, rp, v.read_pos_in);
          counted = omega (arith, rp, n, o, v.counted);
          fits = omega (arith, n);
        } in
        let here : contents size b₂ ≡ contents size b ++ take t xs =
          ap (λ k. drop (k * size + b₂.read_pos) (take (write_offset size b₂) (concat b₂.buffers)))
            rb
          ∙ ap
              (λ k.
                drop (b.read_buffer * size + k) (take (write_offset size b₂) (concat b₂.buffers)))
              rp
          ∙ ap (λ k. drop (read_offset size b) (take k (concat b₂.buffers))) o
          ∙ ap (drop (read_offset size b)) (c ∙ written_before t (omega arith) h)
          ∙ contents_with (take t xs) in
        let (b', e, v', c') =
          append_lem size {b = b₂} (drop t xs) v₂ (omega (arith, n, length-drop t xs)) in
        (
          b',
          e,
          v',
          c'
              ∙ ap (λ l. l ++ drop t xs) here
              ∙ append_assoc (contents size b) (take t xs) (drop t xs)
              ∙ ap (λ l. contents size b ++ l) (take-append-drop t xs),
        )

    full_read :
        total vectors ≤ length xs
        → (b' : ChainBuffer) × (fill size scattered xs
              (total vectors)
              (free_end size 15 (length b.buffers) b.write_buffer b.write_pos)
            ≡ some b')
          × IsValid size b'
          × (contents size b' ≡ contents size b ++ xs)
    full_read h =
        let (i', e, le, o) = stop in
        let bs = scattered.buffers in
        let n = scatter-length size vectors xs b.buffers in
        let len = length-concat size bs scattered-IsValid.can_write.uniform in
        elim (Bool-cases (i' == length bs)) [
          | inl out ↦
              let at_end : length bs * size ≡ write_offset size b + total vectors =
                ap (λ k. k * size) {y = i'} (ground arith) ∙ o in
              let (b', a, v', c) =
                filled_lem
                  (record scattered {
                    buffers = bs ++ fresh size ∷ [];
                    write_buffer = length bs;
                    write_pos = 0;
                    readable_bytes = add_size b.readable_bytes (total vectors);
                  })
                  (record {
                    uniform =
                        Uniform-append size bs (fresh size ∷ []) scattered-IsValid.can_write.uniform
                          (length-replicate {A = ℕ} size 0, tt);
                    write_in = omega (arith, length-append bs (fresh size ∷ []));
                    write_pos_in = omega (arith, v.read_pos_in);
                  })
                  refl refl refl (omega (arith, at_end))
                  (ap (take (write_offset size b + total vectors))
                      (concat-append bs (fresh size ∷ []))
                    ∙ take-append_le (write_offset size b + total vectors) (concat bs)
                        (concat (fresh size ∷ [])) (omega (arith, at_end, len)))
                  h in
              (b', ap (fill size scattered xs (total vectors)) e ∙ rw out a, v', c)
          | inr in_list ↦
              let (b', a, v', c) =
                filled_lem
                  (record scattered {
                    write_buffer = i';
                    write_pos = 0;
                    readable_bytes = add_size b.readable_bytes (total vectors);
                  })
                  (record {
                    uniform = scattered-IsValid.can_write.uniform;
                    write_in = ground (arith, le, n, in_list);
                    write_pos_in = omega (arith, v.read_pos_in);
                  })
                  refl refl refl (omega (arith, o)) refl h in
              (b', ap (fill size scattered xs (total vectors)) e ∙ rw in_list a, v', c)
        ]

-- ReadFd() of any bytes by which the buffer stays below 2^64 bytes ends, with a valid buffer that
-- holds the old bytes followed by the ones read: whether they fit the free blocks or not.
pub read_fd_lem :
    (size : ℕ) {b : ChainBuffer} (xs : List ℕ)
    → IsValid size b
    → b.readable_bytes + length xs < 2 ^ 64
    → (b' : ChainBuffer) × (read_fd size b (received xs) ≡ some b')
      × IsValid size b'
      × (contents size b' ≡ contents size b ++ xs)
unfolding read_fd
read_fd_lem size {b} xs v fits =
    elim (Bool-cases (leb (total (vectors size xs v fits)) (length xs))) [
      | inl full ↦
          let (b', e, v', c) = full_read size xs v fits (ground arith) in (b', rw full e, v', c)
      | inr part ↦
          let (b', e, v', c) = part_read size xs v fits (ground arith) in (b', rw part e, v', c)
    ]
