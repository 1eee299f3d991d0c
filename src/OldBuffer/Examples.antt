-- ===== src/OldBuffer/Examples.antt =====
-- Tests of the buffer with blocks of ten bytes, and its theorems at concrete buffers.
use muzi.Prelude.{ℕ, ◌+◌, ◌-◌, ◌*◌, ◌≡◌, refl, List, [], ◌∷◌, Option, none, some, arith, pos}
use muzi.OldBuffer.{
  Iterator, OldBuffer, and_then, difference, skip, skip_back, next, previous, readable_bytes,
  writable_bytes, reset_index, init, retrive, extend_space, append, retrive_as_string,
}
use muzi.OldBuffer.Flat.{skip-skip_back}
use muzi.OldBuffer.Space.{IsValid, contents}
use muzi.OldBuffer.Vectors.{write_fd}
use muzi.OldBuffer.Replaced.{old_step, replaced_lem}
use muzi.ChainBuffer.{ChainBuffer}
use muzi.ChainBuffer.Invariant.{contents as chain_contents, IsValid as IsValidChain}
use muzi.ChainBuffer.Vectors.{written}
use muzi.ChainBuffer.Queue.{Op, put, receive, skip as skip_op, take_out, reserve, run, buffer_step}

abbrev blank : ℕ → ℕ → ℕ
blank i o = 0

abbrev fifth : Iterator
fifth = record { buffer_it = 0; cur = 4 }

abbrev out : Option (List ℕ × OldBuffer) → List ℕ
out none = []
out (some (xs, b)) = xs

-- Five bytes do not fit behind the eight that are kept free in a block of ten.
append-five :
    out (
      and_then
        (init 10 1 blank)
        (λ b. and_then (append 10 b (1 ∷ 2 ∷ 3 ∷ 4 ∷ 5 ∷ [])) (λ b. retrive_as_string 10 b 4)))
    ≡ 1 ∷ 2 ∷ 3 ∷ 4 ∷ []
unfolding init reset_index skip append extend_space writable_bytes difference next retrive_as_string
    retrive readable_bytes
append-five = refl

-- operator-- stays where it is, but at the first byte of a block.
previous-fifth : previous 10 2 fifth ≡ some fifth
unfolding previous
previous-fifth = refl

skip-skip_back_example :
    (it : Iterator) × (skip 10 2 fifth 9 ≡ some it)
    × (difference 10 it fifth ≡ pos 9)
    × (skip_back 10 2 it 9 ≡ some fifth)
skip-skip_back_example =
    skip-skip_back 10 2 9 fifth (record { block_in = omega arith; cur_in = omega arith })
      (omega arith)

-- Six bytes in a Buffer and in a ChainBuffer.
abbrev six : OldBuffer
six = record {
  count = 2;
  memory = λ i o. i * 10 + o - 6;
  read_index = record { buffer_it = 0; cur = 8 };
  write_index = record { buffer_it = 1; cur = 4 };
}

abbrev six_chained : ChainBuffer
six_chained = record {
  buffers = (1 ∷ 2 ∷ 3 ∷ 4 ∷ []) ∷ (5 ∷ 6 ∷ 7 ∷ 0 ∷ []) ∷ [];
  readable_bytes = 6;
  write_buffer = 1;
  read_buffer = 0;
  write_pos = 3;
  read_pos = 1;
}

six-IsValid : IsValid 10 six
six-IsValid = record {
  read_in = record { block_in = omega arith; cur_in = omega arith };
  write_in = record { block_in = omega arith; cur_in = omega arith };
  in_order = omega arith;
}

six_chained-IsValid : IsValidChain 4 six_chained
six_chained-IsValid = omega arith

abbrev busy : List Op
busy = put (8 ∷ 9 ∷ []) ∷ take_out 3 ∷ receive (10 ∷ []) ∷ reserve 1 ∷ skip_op 1 ∷ []

replaced_lem_example :
    (b : OldBuffer) × (c : ChainBuffer) × (run (old_step 10) busy six ≡ some (2 ∷ 3 ∷ 4 ∷ [], b))
    × (run (buffer_step 4) busy six_chained ≡ some (2 ∷ 3 ∷ 4 ∷ [], c))
    × (contents 10 b ≡ chain_contents 4 c)
replaced_lem_example =
    replaced_lem 10 4 busy (omega arith) six-IsValid six_chained-IsValid refl refl

-- The kernel takes four of them.
write_fd-six : out (write_fd 10 six (written 4)) ≡ 2 ∷ 3 ∷ 4 ∷ 5 ∷ []
unfolding write_fd skip difference
write_fd-six = refl
