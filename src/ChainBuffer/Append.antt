-- ===== src/ChainBuffer/Append.antt =====
-- Append() puts its bytes behind those that the buffer holds.
use muzi.Prelude.{
  ℕ, zero, suc, ◌+◌, ◌-◌, ◌*◌, ◌^◌, ◌≤◌, ◌<◌, ◌≡◌, refl, sym, ap, ◌∙◌, inl, inr, List, [], ◌∷◌,
  ◌++◌, some, arith, length, take, drop, ltb, ◌==◌, if◌then◌else◌, Bool-cases, length-append,
  length-take, length-drop, length-replicate, take-append-drop, take-append_le,
}
use mathlib.Core.List.{append_assoc, append-nil}
use muzi.ChainBuffer.{ChainBuffer, fresh, add_size, append_step, append_loop, append}
use muzi.ChainBuffer.Bytes.{
  poke, concat, Uniform, length-poke, Uniform-poke, Uniform-append, length-concat, concat-poke,
  concat-append, take-overwrite, drop-append_le,
}
use muzi.ChainBuffer.Invariant.{
  write_offset, read_offset, contents, CanWrite, IsValid, write_offset-lt,
}

-- The bytes before the write position.
abbrev pub written : ℕ → ChainBuffer → List ℕ
written size b = take (write_offset size b) (concat b.buffers)

-- What a piece of Append() does: some of `bytes` are behind the old ones, `rest` is left.
pub record Wrote (size : ℕ) (b : ChainBuffer) (bytes : List ℕ) (b' : ChainBuffer) (rest : List ℕ)
    : Type 0 where
  pub can_write : CanWrite size b'
  pub bytes_in : written size b' ++ rest ≡ written size b ++ bytes
  pub moved : write_offset size b' + length rest ≡ write_offset size b + length bytes
  pub same_count : b'.readable_bytes ≡ b.readable_bytes
  pub same_read_buffer : b'.read_buffer ≡ b.read_buffer
  pub same_read_pos : b'.read_pos ≡ b.read_pos

take-concat-poke :
    (size m : ℕ) (blocks : List (List ℕ)) (i p : ℕ) (bs : List ℕ)
    → Uniform size blocks
    → i < length blocks
    → p + length bs ≤ size
    → m ≡ i * size + p + length bs
    → take m (concat (poke blocks i p bs)) ≡ take (i * size + p) (concat blocks) ++ bs
take-concat-poke size m blocks i p bs u h k e =
    ap (take m) (concat-poke size blocks i p bs u h k)
    ∙ take-overwrite (i * size + p) m bs (concat blocks) e
        (grind (arith, length-concat size blocks u))

-- The list of blocks, with one more if the write position stands in the last.
abbrev grown : ℕ → ChainBuffer → List (List ℕ)
grown size b =
    if suc b.write_buffer == length b.buffers then b.buffers ++ fresh size ∷ [] else b.buffers

record Grown (size : ℕ) (b : ChainBuffer) (blocks : List (List ℕ)) : Type 0 where
  uniform : Uniform size blocks
  room : suc b.write_buffer < length blocks
  same : take (write_offset size b) (concat blocks) ≡ written size b

grown-Grown : (size : ℕ) {b : ChainBuffer} → CanWrite size b → Grown size b (grown size b)
grown-Grown size {b} v = elim (Bool-cases (suc b.write_buffer == length b.buffers)) [
  | inl last ↦ rw last (record {
    uniform =
        Uniform-append size b.buffers (fresh size ∷ []) v.uniform
          (length-replicate {A = ℕ} size 0, tt);
    room = ground (arith, length-append b.buffers (fresh size ∷ []));
    same =
        ap (take (write_offset size b)) (concat-append b.buffers (fresh size ∷ []))
        ∙ take-append_le (write_offset size b) (concat b.buffers) _
            (omega (arith, write_offset-lt size v, length-concat size b.buffers v.uniform));
  })
  | inr more ↦ rw more (record {
    uniform = v.uniform;
    room = let h : suc b.write_buffer ≤ length b.buffers = v.write_in in ground arith;
    same = refl;
  })
]

module _ (size : ℕ) {b : ChainBuffer} (bytes : List ℕ) (v : CanWrite size b) where
  write_near :
      length bytes < size - b.write_pos
      → Wrote size b bytes
          (record b {
            buffers = poke b.buffers b.write_buffer b.write_pos bytes;
            write_pos = b.write_pos + length bytes;
          })
          []
  write_near h = record {
    can_write = record {
      uniform = Uniform-poke size b.buffers b.write_buffer b.write_pos bytes v.uniform;
      write_in = omega (arith, length-poke b.buffers b.write_buffer b.write_pos bytes, v.write_in);
      write_pos_in = omega arith;
    };
    bytes_in =
        append-nil _
        ∙ take-concat-poke size _ b.buffers b.write_buffer b.write_pos bytes v.uniform v.write_in
            (omega arith) (omega arith);
    moved = omega arith;
    same_count = refl;
    same_read_buffer = refl;
    same_read_pos = refl;
  }

  write_far :
      (blocks : List (List ℕ))
      → Grown size b blocks
      → size - b.write_pos ≤ length bytes
      → Wrote size b bytes
          (record b {
            buffers = poke blocks b.write_buffer b.write_pos (take (size - b.write_pos) bytes);
            write_buffer = suc b.write_buffer;
            write_pos = 0;
          })
          (drop (size - b.write_pos) bytes)
  write_far blocks g h =
      let m = size - b.write_pos in
      let full : length (take m bytes) ≡ m = omega (arith, length-take m bytes) in
      record {
        can_write = record {
          uniform = Uniform-poke size blocks b.write_buffer b.write_pos (take m bytes) g.uniform;
          write_in =
              omega (arith, length-poke blocks b.write_buffer b.write_pos (take m bytes), g.room);
          write_pos_in = omega (arith, v.write_pos_in);
        };
        bytes_in =
            ap (λ l. l ++ drop m bytes)
              (take-concat-poke size (suc b.write_buffer * size + 0) blocks b.write_buffer
                  b.write_pos (take m bytes) g.uniform (omega (arith, g.room)) (omega arith)
                  (omega (arith, v.write_pos_in))
                ∙ ap (λ l. l ++ take m bytes) g.same)
            ∙ append_assoc (written size b) (take m bytes) (drop m bytes)
            ∙ ap (λ l. written size b ++ l) (take-append-drop m bytes);
        moved = omega (arith, length-drop m bytes, v.write_pos_in);
        same_count = refl;
        same_read_buffer = refl;
        same_read_pos = refl;
      }

  append_step-Wrote : let (b', rest) = append_step size b bytes in Wrote size b bytes b' rest
  unfolding append_step
  append_step-Wrote = elim (Bool-cases (ltb (length bytes) (size - b.write_pos))) [
    | inl near ↦ rw near (write_near (ground arith))
    | inr far ↦ rw far (write_far (grown size b) (grown-Grown size v) (ground arith))
  ]

  -- A round makes progress.
  append_step_shorter : 0 < length bytes → length (append_step size b bytes).1 < length bytes
  unfolding append_step
  append_step_shorter h =
      let m = size - b.write_pos in ground (arith, length-drop m bytes, v.write_pos_in)

Wrote-trans :
    {size : ℕ} {a b c : ChainBuffer} {bytes rest : List ℕ}
    → Wrote size a bytes b rest
    → Wrote size b rest c []
    → Wrote size a bytes c []
Wrote-trans v w = record {
  can_write = w.can_write;
  bytes_in = w.bytes_in ∙ v.bytes_in;
  moved = omega (arith, w.moved, v.moved);
  same_count = w.same_count ∙ v.same_count;
  same_read_buffer = w.same_read_buffer ∙ v.same_read_buffer;
  same_read_pos = w.same_read_pos ∙ v.same_read_pos;
}

append_loop-Wrote :
    (size fuel : ℕ) {b : ChainBuffer} (bytes : List ℕ)
    → CanWrite size b
    → length bytes < fuel
    → (b' : ChainBuffer) × (append_loop size fuel b bytes ≡ some b') × Wrote size b bytes b' []
unfolding append_loop
append_loop-Wrote size zero bytes v h = absurd (omega arith)
append_loop-Wrote size (suc fuel) {b} [] v h = (
  b,
  refl,
  record {
    can_write = v;
    bytes_in = refl;
    moved = refl;
    same_count = refl;
    same_read_buffer = refl;
    same_read_pos = refl;
  },
)
append_loop-Wrote size (suc fuel) {b} (x ∷ xs) v h =
    let step = append_step size b (x ∷ xs) in
    let w = append_step-Wrote size (x ∷ xs) v in
    let (b', e, w') =
      append_loop-Wrote size fuel step.1 w.can_write
        (omega (arith, append_step_shorter size (x ∷ xs) v (omega arith))) in
    (b', e, Wrote-trans w w')

contents-Wrote :
    (size : ℕ) {b b' : ChainBuffer} {bytes : List ℕ}
    → CanWrite size b
    → read_offset size b ≤ write_offset size b
    → Wrote size b bytes b' []
    → contents size b' ≡ contents size b ++ bytes
contents-Wrote size {b} {b'} {bytes} v h w =
    let total = concat b.buffers in
    ap (λ k. drop k (written size b'))
      (ap (λ k. k * size + b'.read_pos) w.same_read_buffer
        ∙ ap (λ k. b.read_buffer * size + k) w.same_read_pos)
    ∙ ap (drop (read_offset size b)) (sym (append-nil _) ∙ w.bytes_in)
    ∙ drop-append_le (read_offset size b) (written size b) bytes (
        omega (
          arith,
          length-take (write_offset size b) total,
          length-concat size b.buffers v.uniform,
          write_offset-lt size v,
        ))

-- Append() of `bytes` to a valid buffer that stays below 2^64 bytes ends, with a valid buffer that
-- holds the old bytes followed by the new ones.
pub append_lem :
    (size : ℕ) {b : ChainBuffer} (bytes : List ℕ)
    → IsValid size b
    → b.readable_bytes + length bytes < 2 ^ 64
    → (b' : ChainBuffer) × (append size b bytes ≡ some b')
      × IsValid size b'
      × (contents size b' ≡ contents size b ++ bytes)
unfolding append
append_lem size {b} bytes v h =
    let start = record b { readable_bytes = add_size b.readable_bytes (length bytes) } in
    let (b', e, w) =
      append_loop-Wrote size (length bytes + 2) {b = start} bytes
        (record {
          uniform = v.can_write.uniform;
          write_in = v.can_write.write_in;
          write_pos_in = v.can_write.write_pos_in;
        })
        (omega arith) in
    (
      b',
      e,
      record {
        can_write = w.can_write;
        read_first = w.same_read_buffer ∙ v.read_first;
        read_pos_in = omega (arith, w.same_read_pos, v.read_pos_in);
        counted = omega (arith, w.same_count, w.same_read_pos, w.moved, v.counted);
        fits = omega (arith, w.same_count);
      },
      contents-Wrote size {b = start}
          (record {
            uniform = v.can_write.uniform;
            write_in = v.can_write.write_in;
            write_pos_in = v.can_write.write_pos_in;
          })
          (grind (arith, v.read_first, v.counted)) w,
    )
