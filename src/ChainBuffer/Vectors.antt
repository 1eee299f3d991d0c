-- ===== src/ChainBuffer/Vectors.antt =====
-- muzi/net/chain_buffer.cc: ReadFd() and WriteFd() over readv(2) and writev(2), and
-- Append(const ChainBuffer &) of chain_buffer.h. What the calls return is an argument; that they
-- fill and empty the vectors in their order is what their manual says.
use muzi.Prelude.{
  ℕ, zero, suc, ◌+◌, ◌-◌, List, [], ◌∷◌, ◌++◌, Option, none, some, length, get_or, take, drop, ltb,
  leb, ◌==◌, if◌then◌else◌,
}
use muzi.ChainBuffer.{ChainBuffer, fresh, add_size, append, retrive, has_write}
use muzi.ChainBuffer.Bytes.{poke}

-- MaxVecSize
abbrev pub max_vec_size : ℕ
max_vec_size = 16

-- `iov_len` bytes from the offset `iov_pos` of a block.
pub record Iovec : Type 0 where
  pub block : ℕ
  pub iov_pos : ℕ
  pub iov_len : ℕ

-- The results of readv(2), with the bytes read, and of writev(2).
pub data Received : Type 0 where
  received : List ℕ → Received
  failed : Received

pub data Written : Type 0 where
  written : ℕ → Written
  failed : Written

abbrev pub total : List Iovec → ℕ
total [] = 0
total (v ∷ vs) = v.iov_len + total vs

-- readv(2) stores what it has read in the vectors in turn; what is left goes to extra_buf.
abbrev pub scatter : List Iovec → List ℕ → List (List ℕ) → List (List ℕ)
scatter [] xs bs = bs
scatter (v ∷ vs) xs bs =
    scatter vs (drop v.iov_len xs) (poke bs v.block v.iov_pos (take v.iov_len xs))

-- writev(2) takes bytes from the vectors in turn.
abbrev pub gather : List Iovec → List (List ℕ) → List ℕ
gather [] bs = []
gather (v ∷ vs) bs = take v.iov_len (drop v.iov_pos (get_or bs v.block [])) ++ gather vs bs

module _ (size : ℕ) where
  -- The vectors of ReadFd() for `n` blocks, from the offset `pos` of block `i` on, and where its
  -- loop ends. The last vector is left for extra_buf.
  abbrev pub free_vec : ℕ → ℕ → ℕ → ℕ → List Iovec
  free_vec zero n i pos = []
  free_vec (suc k) n i pos =
      let rest = free_vec k n (suc i) 0 in
      if ltb i n then record { block = i; iov_pos = pos; iov_len = size - pos } ∷ rest else []

  abbrev pub free_end : ℕ → ℕ → ℕ → ℕ → ℕ × ℕ
  free_end zero n i pos = (i, pos)
  free_end (suc k) n i pos = let rest = free_end k n (suc i) 0 in if ltb i n then rest else (i, pos)

  -- ReadFd() of `xs` when they fill the vectors that end at block `i` and offset `pos`.
  abbrev pub fill : ChainBuffer → List ℕ → ℕ → ℕ × ℕ → Option ChainBuffer
  fill b xs writable (i, pos) =
      let b' =
        if i == length b.buffers
        then record b {
          buffers = b.buffers ++ fresh size ∷ [];
          write_buffer = length b.buffers;
          write_pos = 0;
        }
        else record b { write_buffer = i; write_pos = pos } in
      append size (record b' { readable_bytes = add_size b.readable_bytes writable })
        (drop writable xs)

  unfoldable pub read_fd : ChainBuffer → Received → Option ChainBuffer
  read_fd b failed = some b
  read_fd b (received xs) =
      let n = length b.buffers in
      let vec = free_vec (max_vec_size - 1) n b.write_buffer b.write_pos in
      let stop = free_end (max_vec_size - 1) n b.write_buffer b.write_pos in
      let b' = record b { buffers = scatter vec xs b.buffers } in
      let full = fill b' xs (total vec) stop in
      let part = has_write size b' (length xs) in if leb (total vec) (length xs) then full else part

  -- The vectors of WriteFd(), from the offset `pos` of block `i` to the write position.
  abbrev pub used_vec : ℕ → ChainBuffer → ℕ → ℕ → List Iovec
  used_vec zero b i pos = []
  used_vec (suc k) b i pos =
      let rest = used_vec k b (suc i) 0 in
      if i == b.write_buffer
      then record { block = i; iov_pos = pos; iov_len = b.write_pos - pos } ∷ []
      else record { block = i; iov_pos = pos; iov_len = size - pos } ∷ rest

  abbrev pub with_sent : List ℕ → Option ChainBuffer → Option (List ℕ × ChainBuffer)
  with_sent sent none = none
  with_sent sent (some b) = some (sent, b)

  -- WriteFd(), with the bytes that the kernel takes.
  unfoldable pub write_fd : ChainBuffer → Written → Option (List ℕ × ChainBuffer)
  write_fd b failed = some ([], b)
  write_fd b (written n) =
      let vec = used_vec max_vec_size b b.read_buffer b.read_pos in
      with_sent (take n (gather vec b.buffers)) (retrive size b n)

  abbrev pub and_then : (ChainBuffer → Option ChainBuffer) → Option ChainBuffer → Option ChainBuffer
  and_then f none = none
  and_then f (some b) = f b

  -- The loop of Append(const ChainBuffer &), with `k` blocks before the one written to.
  abbrev pub append_from : ℕ → ChainBuffer → ChainBuffer → ℕ → Option ChainBuffer
  append_from zero buffer b pos =
      append size b
        (take (buffer.write_pos - pos) (drop pos (get_or buffer.buffers buffer.write_buffer [])))
  append_from (suc k) buffer b pos =
      and_then (λ b'. append_from k buffer b' 0)
        (append size b (drop pos (get_or buffer.buffers (buffer.write_buffer - suc k) [])))

  -- Append(const ChainBuffer &), of another buffer.
  unfoldable pub append_buffer : ChainBuffer → ChainBuffer → Option ChainBuffer
  append_buffer b buffer =
      append_from (buffer.write_buffer - buffer.read_buffer) buffer b buffer.read_pos
