-- ===== src/ChainBuffer/Retrive.antt =====
-- Retrive() takes bytes off the front; a block that has been read to its end goes behind the rest.
use mathlib.Core.Path.{subst}
use native.Mathlib.Decide.{dec_lt}
use muzi.Prelude.{
  ℕ, zero, suc, ◌+◌, ◌-◌, ◌*◌, ◌≤◌, ◌<◌, ◌≡◌, refl, sym, ap, ◌∙◌, inl, inr, List, [], ◌∷◌, ◌++◌,
  some, arith, length, take, drop, ltb, Bool-cases, le→leb, length-append, take-append_le,
}
use muzi.ChainBuffer.{
  ChainBuffer, splice, spliced_index, sub_size, retrive_step, retrive_loop, retrive,
}
use muzi.ChainBuffer.Bytes.{
  concat, Uniform, Uniform-append, length-concat, concat-append, drop-drop, drop-append_add,
  take-append_add,
}
use muzi.ChainBuffer.Invariant.{write_offset, read_offset, contents, CanWrite, IsValid}

-- What a piece of Retrive() does: `len` bytes are to go, `rest` are left to go. The count of
-- readable bytes is ahead of the positions by `len`.
pub record Reads (size : ℕ) (b : ChainBuffer) (len : ℕ) : Type 0 where
  pub can_write : CanWrite size b
  pub read_first : b.read_buffer ≡ 0
  pub read_pos_in : b.read_pos < size
  pub counted : b.read_pos + (b.readable_bytes + len) ≡ write_offset size b

pub record Took (size : ℕ) (b : ChainBuffer) (len : ℕ) (b' : ChainBuffer) (rest : ℕ) : Type 0 where
  pub reads : Reads size b' rest
  pub bytes_out : drop rest (contents size b') ≡ drop len (contents size b)
  pub same_count : b'.readable_bytes ≡ b.readable_bytes

module _ (size : ℕ) where
  take_near :
      {b : ChainBuffer} (len : ℕ)
      → Reads size b len
      → len < size - b.read_pos
      → Took size b len (record b { read_pos = b.read_pos + len }) 0
  take_near {b} len v h = record {
    reads = record {
      can_write = record {
        uniform = v.can_write.uniform;
        write_in = v.can_write.write_in;
        write_pos_in = v.can_write.write_pos_in;
      };
      read_first = v.read_first;
      read_pos_in = omega arith;
      counted = omega (arith, v.counted);
    };
    bytes_out = sym (
        drop-drop len (read_offset size b) _ (take (write_offset size b) (concat b.buffers))
          (omega arith));
    same_count = refl;
  }

  -- Where a block is read to its end the write position stands in a later one.
  later_block :
      {b : ChainBuffer} {len : ℕ} → Reads size b len → size - b.read_pos ≤ len → 0 < b.write_buffer
  later_block {b} v h = elim (dec_lt 0 b.write_buffer) [
    | yes p ↦ p
    | no p ↦
        let e : b.write_buffer ≡ 0 = omega arith in
        let f : b.write_buffer * size ≡ 0 = ap (λ k. k * size) e ∙ omega arith in
        absurd (omega (arith, v.counted, v.can_write.write_pos_in, v.read_pos_in))
  ]

  -- The block that is done with, `first`, goes behind `others`.
  module _ {b b' : ChainBuffer} (len : ℕ) (first : List ℕ) (others : List (List ℕ))
      (blocks : b.buffers ≡ first ∷ others) (v : Reads size b len) (h : size - b.read_pos ≤ len)
      (blocks' : b'.buffers ≡ others ++ first ∷ [])
      (write_buffer' : b'.write_buffer ≡ b.write_buffer - 1)
      (write_pos' : b'.write_pos ≡ b.write_pos) (read_buffer' : b'.read_buffer ≡ 0)
      (read_pos' : b'.read_pos ≡ 0) (readable' : b'.readable_bytes ≡ b.readable_bytes) where
    later : 0 < b.write_buffer
    later = later_block v h

    back_one : write_offset size b' + size ≡ write_offset size b
    back_one =
        let e : b.write_buffer ≡ suc (b.write_buffer - 1) = omega (arith, later) in
        let f : b.write_buffer * size ≡ suc (b.write_buffer - 1) * size = ap (λ k. k * size) e in
        let g : b'.write_buffer * size ≡ (b.write_buffer - 1) * size =
          ap (λ k. k * size) write_buffer' in
        omega arith

    blocks-Uniform : Uniform size (first ∷ others)
    blocks-Uniform = subst (Uniform size) blocks v.can_write.uniform

    inside : write_offset size b' ≤ length (concat others)
    inside =
        let w : b.write_buffer < suc (length others) =
          omega (arith, v.can_write.write_in, ap length blocks) in
        grind (
          arith,
          length-concat size others blocks-Uniform.1,
          write_buffer',
          write_pos',
          v.can_write.write_pos_in,
          later,
        )

    contents_after : contents size b' ≡ take (write_offset size b') (concat others)
    contents_after =
        let e : b'.read_buffer * size + b'.read_pos ≡ 0 =
          ap (λ k. k * size + b'.read_pos) read_buffer' ∙ omega arith in
        ap (λ k. drop k (take (write_offset size b') (concat b'.buffers))) e
        ∙ ap (λ l. take (write_offset size b') (concat l)) blocks'
        ∙ ap (take (write_offset size b')) (concat-append others (first ∷ []))
        ∙ take-append_le (write_offset size b') (concat others) _ inside

    contents_before :
        contents size b ≡ drop b.read_pos (first ++ take (write_offset size b') (concat others))
    contents_before =
        let e : b.read_buffer * size + b.read_pos ≡ b.read_pos =
          ap (λ k. k * size + b.read_pos) v.read_first ∙ omega arith in
        ap (λ k. drop k (take (write_offset size b) (concat b.buffers))) e
        ∙ ap (λ l. drop b.read_pos (take (write_offset size b) (concat l))) blocks
        ∙ ap (drop b.read_pos) (
            take-append_add size (write_offset size b') (write_offset size b) first (concat others)
              blocks-Uniform.0 (omega (arith, back_one)))

    far_Took : Took size b len b' (len - (size - b.read_pos))
    far_Took = record {
      reads = record {
        can_write = record {
          uniform =
              subst (Uniform size) (sym blocks')
                (Uniform-append size others (first ∷ []) blocks-Uniform.1 (blocks-Uniform.0, tt));
          write_in = omega (
            arith,
            ap length blocks,
            ap length blocks',
            length-append others (first ∷ []),
            v.can_write.write_in,
            later,
          );
          write_pos_in = omega (arith, v.can_write.write_pos_in);
        };
        read_first = read_buffer';
        read_pos_in = omega (arith, v.read_pos_in);
        counted = omega (arith, back_one, v.counted, v.read_pos_in);
      };
      bytes_out =
          ap (drop (len - (size - b.read_pos))) contents_after
          ∙ sym (
              ap (drop len) contents_before
              ∙ drop-drop len b.read_pos (b.read_pos + len) _ refl
              ∙ drop-append_add size (len - (size - b.read_pos)) (b.read_pos + len) first _
                  blocks-Uniform.0 (omega (arith, v.read_pos_in)));
      same_count = readable';
    }

  take_far :
      {b : ChainBuffer} (len : ℕ) (blocks : List (List ℕ))
      → b.buffers ≡ blocks
      → Reads size b len
      → size - b.read_pos ≤ len
      → Took size b len
          (record b {
            buffers = splice b.read_buffer b.buffers;
            write_buffer = spliced_index b.read_buffer (length b.buffers) b.write_buffer;
            read_buffer = spliced_index b.read_buffer (length b.buffers) (suc b.read_buffer);
            read_pos = 0;
          })
          (len - (size - b.read_pos))
  take_far {b} len [] e v h = absurd (omega (arith, v.can_write.write_in, ap length e))
  take_far {b} len (first ∷ others) e v h =
      far_Took len first others e v h (ap (λ r. splice r b.buffers) v.read_first ∙ ap (splice 0) e)
        (ground (arith, later_block v h, v.read_first, v.can_write.write_in)) refl
        (ground (arith, later_block v h, v.read_first, v.can_write.write_in)) refl refl

  retrive_step-Took :
      {b : ChainBuffer} (len : ℕ)
      → Reads size b len
      → let (b', rest) = retrive_step size b len in Took size b len b' rest
  unfolding retrive_step
  retrive_step-Took {b} len v = elim (Bool-cases (ltb len (size - b.read_pos))) [
    | inl near ↦ rw near (take_near len v (ground arith))
    | inr far ↦ rw far (take_far len b.buffers refl v (ground arith))
  ]

  -- A round makes progress.
  retrive_step_less :
      {b : ChainBuffer} (len : ℕ) → Reads size b (suc len) → (retrive_step size b (suc len)).1 ≤ len
  unfolding retrive_step
  retrive_step_less len v = ground (arith, v.read_pos_in)

  retrive_loop-Took :
      (fuel : ℕ) {b : ChainBuffer} (len : ℕ)
      → Reads size b len
      → len < fuel
      → (b' : ChainBuffer) × (retrive_loop size fuel b len ≡ some b') × Took size b len b' 0
  unfolding retrive_loop
  retrive_loop-Took zero len v h = absurd (omega arith)
  retrive_loop-Took (suc fuel) {b} zero v h =
      (b, refl, record { reads = v; bytes_out = refl; same_count = refl })
  retrive_loop-Took (suc fuel) {b} (suc len) v h =
      let step = retrive_step size b (suc len) in
      let t = retrive_step-Took (suc len) v in
      let (b', e, t') =
        retrive_loop-Took fuel step.1 t.reads (omega (arith, retrive_step_less len v)) in
      (
        b',
        e,
        record {
          reads = t'.reads;
          bytes_out = t'.bytes_out ∙ t.bytes_out;
          same_count = t'.same_count ∙ t.same_count;
        },
      )

-- Retrive() of at most the readable bytes ends, with a valid buffer that holds the bytes behind
-- the first `len`.
pub retrive_lem :
    (size : ℕ) {b : ChainBuffer} (len : ℕ)
    → IsValid size b
    → len ≤ b.readable_bytes
    → (b' : ChainBuffer) × (retrive size b len ≡ some b')
      × IsValid size b'
      × (contents size b' ≡ drop len (contents size b))
unfolding retrive
retrive_lem size {b} len v h =
    let left = sub_size b.readable_bytes len in
    let fits : left + len ≡ b.readable_bytes = omega (arith, v.fits) in
    let (b', e, t) =
      retrive_loop-Took size (len + 2) {b = record b { readable_bytes = left }} len
        (record {
          can_write = record {
            uniform = v.can_write.uniform;
            write_in = v.can_write.write_in;
            write_pos_in = v.can_write.write_pos_in;
          };
          read_first = v.read_first;
          read_pos_in = v.read_pos_in;
          counted = omega (arith, v.counted);
        })
        (omega arith) in
    (
      b',
      rw (le→leb len b.readable_bytes h) e,
      record {
        can_write = t.reads.can_write;
        read_first = t.reads.read_first;
        read_pos_in = t.reads.read_pos_in;
        counted = omega (arith, t.reads.counted);
        fits = omega (arith, t.same_count, v.fits);
      },
      t.bytes_out,
    )
