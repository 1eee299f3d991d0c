-- ===== src/ChainBuffer/Examples.antt =====
-- Tests of the chain buffer, and its theorems at concrete buffers of small blocks.
use muzi.Prelude.{◌≡◌, refl, List, [], ◌∷◌, none, some, arith}
use muzi.ChainBuffer.{
  ChainBuffer, buffer_size, init, append_step, append_loop, append, retrive_step, retrive_loop,
  retrive, peek_loop, peek_as_string, backward, unwrite,
}
use muzi.ChainBuffer.Invariant.{contents, IsValid, init-IsValid}
use muzi.ChainBuffer.Vectors.{received, written, read_fd, write_fd, append_buffer}
use muzi.ChainBuffer.Pieces.{write_fd_lem, append_buffer_lem}
use muzi.ChainBuffer.Queue.{Op, put, receive, skip, take_out, reserve, run, buffer_step, run_lem}

-- Seven bytes in blocks of four, one of which has been read.
abbrev seven : ChainBuffer
seven = record {
  buffers = (1 ∷ 2 ∷ 3 ∷ 4 ∷ []) ∷ (5 ∷ 6 ∷ 7 ∷ 0 ∷ []) ∷ [];
  readable_bytes = 6;
  write_buffer = 1;
  read_buffer = 0;
  write_pos = 3;
  read_pos = 1;
}

abbrev unread : ChainBuffer
unread = record seven { readable_bytes = 7; read_pos = 0 }

seven-IsValid : IsValid 4 seven
seven-IsValid = omega arith

unread-IsValid : IsValid 4 unread
unread-IsValid = omega arith

append_from_init : append 4 (init 4) (1 ∷ 2 ∷ 3 ∷ 4 ∷ 5 ∷ 6 ∷ 7 ∷ []) ≡ some unread
unfolding append append_loop append_step init
append_from_init = refl

retrive_moves_block :
    retrive 4 seven 5
    ≡ some (record {
      buffers = (5 ∷ 6 ∷ 7 ∷ 0 ∷ []) ∷ (1 ∷ 2 ∷ 3 ∷ 4 ∷ []) ∷ [];
      readable_bytes = 1;
      write_buffer = 0;
      read_buffer = 0;
      write_pos = 3;
      read_pos = 2;
    })
unfolding retrive retrive_loop retrive_step
retrive_moves_block = refl

peek-seven : peek_as_string 4 seven 4 ≡ some (2 ∷ 3 ∷ 4 ∷ 5 ∷ [])
unfolding peek_as_string peek_loop
peek-seven = refl

unwrite-hello :
    unwrite 8
      (record unread {
        buffers = (1 ∷ 2 ∷ 3 ∷ 4 ∷ 5 ∷ 6 ∷ 7 ∷ 0 ∷ []) ∷ [];
        write_buffer = 0;
        write_pos = 7;
      })
      7
    ≡ none
unfolding unwrite backward
unwrite-hello = refl

init-IsValid_example : IsValid buffer_size (init buffer_size)
init-IsValid_example = init-IsValid buffer_size (omega arith)

abbrev roomy : ChainBuffer
roomy = record seven {
  buffers = (1 ∷ 2 ∷ 3 ∷ 4 ∷ []) ∷ (5 ∷ 6 ∷ 7 ∷ 8 ∷ []) ∷ (9 ∷ 0 ∷ 0 ∷ 0 ∷ []) ∷ [];
}

roomy-IsValid : IsValid 4 roomy
roomy-IsValid = omega arith

-- One byte fits the free block, and three go through extra_buf.
read_fd-seven :
    read_fd 4 seven (received (8 ∷ 9 ∷ 10 ∷ 11 ∷ []))
    ≡ some (record {
      buffers = (1 ∷ 2 ∷ 3 ∷ 4 ∷ []) ∷ (5 ∷ 6 ∷ 7 ∷ 8 ∷ []) ∷ (9 ∷ 10 ∷ 11 ∷ 0 ∷ []) ∷ [];
      readable_bytes = 10;
      write_buffer = 2;
      read_buffer = 0;
      write_pos = 3;
      read_pos = 1;
    })
unfolding read_fd append append_loop append_step
read_fd-seven = refl

write_fd_lem_example :
    (b' : ChainBuffer) × (write_fd 4 seven (written 4) ≡ some (2 ∷ 3 ∷ 4 ∷ 5 ∷ [], b'))
    × IsValid 4 b'
    × (contents 4 b' ≡ 6 ∷ 7 ∷ [])
write_fd_lem_example = write_fd_lem 4 4 seven-IsValid (omega arith)

append_buffer_lem_example :
    (b' : ChainBuffer) × (append_buffer 4 unread seven ≡ some b')
    × IsValid 4 b'
    × (contents 4 b' ≡ 1 ∷ 2 ∷ 3 ∷ 4 ∷ 5 ∷ 6 ∷ 7 ∷ 2 ∷ 3 ∷ 4 ∷ 5 ∷ 6 ∷ 7 ∷ [])
append_buffer_lem_example = append_buffer_lem 4 unread-IsValid seven-IsValid (omega arith)

-- Bytes come in and go out, and five are left at the end.
abbrev busy : List Op
busy = put (8 ∷ 9 ∷ []) ∷ take_out 3 ∷ receive (10 ∷ []) ∷ reserve 1 ∷ skip 1 ∷ []

run_lem_example :
    (b' : ChainBuffer) × (run (buffer_step 4) busy seven ≡ some (2 ∷ 3 ∷ 4 ∷ [], b'))
    × IsValid 4 b'
    × (contents 4 b' ≡ 6 ∷ 7 ∷ 8 ∷ 9 ∷ 10 ∷ [])
run_lem_example = run_lem 4 busy seven-IsValid refl
