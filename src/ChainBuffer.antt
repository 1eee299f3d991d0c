-- ===== src/ChainBuffer.antt =====
-- muzi/net/chain_buffer.h, the byte queue of a connection: a std::list of arrays of kBufferSize
-- bytes with a read and a write position. An iterator of the list is the index of its node
-- (`length buffers` for end()), a position in an array its offset from begin(). `none` is a failed
-- assertion, a step before begin(), or fuel that has run out.
pub mod Bytes
pub mod Invariant
pub mod Append
pub mod Retrive
pub mod Peek
pub mod Iterators
pub mod Trim
pub mod Vectors
pub mod Scatter
pub mod Sockets
pub mod Pieces
pub mod Queue
mod Examples
use muzi.Prelude.{
  ℕ, zero, suc, ◌+◌, ◌-◌, ◌*◌, ◌%◌, ◌^◌, List, [], ◌∷◌, ◌++◌, Option, none, some, length, get_or,
  take, drop, replicate, ltb, leb, ◌==◌, if◌then◌else◌,
}
use Bytes.{poke}

-- kBufferSize. The functions below take the size of a block as a parameter.
abbrev pub buffer_size : ℕ
buffer_size = 4096

pub record ChainBuffer : Type 0 where
  pub buffers : List (List ℕ)
  pub readable_bytes : ℕ
  pub write_buffer : ℕ
  pub read_buffer : ℕ
  pub write_pos : ℕ
  pub read_pos : ℕ

-- size_t arithmetic
abbrev pub add_size : ℕ → ℕ → ℕ
add_size a b = (a + b) % 2 ^ 64

abbrev pub sub_size : ℕ → ℕ → ℕ
sub_size a b = (a + 2 ^ 64 - b) % 2 ^ 64

-- buffers_.splice(buffers_.end(), buffers_, it): the node at index `i` goes to the end.
abbrev pub splice : ℕ → List (List ℕ) → List (List ℕ)
splice i bs = take i bs ++ (drop (suc i) bs ++ take 1 (drop i bs))

-- Where the node of index `k` of `n` nodes stands after the node `i` has gone to the end.
abbrev pub spliced_index : ℕ → ℕ → ℕ → ℕ
spliced_index i n k = if ltb k i then k else if k == i then n - 1 else if ltb k n then k - 1 else k

-- Where BackWard() ends: at a block and an offset, or with a step before begin().
pub data Walk : Type 0 where
  stands : ℕ → ℕ → Walk
  before_begin no_fuel : Walk

module _ (size : ℕ) where
  -- One array, as value initialisation leaves it.
  abbrev pub fresh : List ℕ
  fresh = replicate size 0

  pub init : ChainBuffer
  init = record {
    buffers = fresh ∷ [];
    readable_bytes = 0;
    write_buffer = 0;
    read_buffer = 0;
    write_pos = 0;
    read_pos = 0;
  }

  -- Differences of iterators are written with the minuend's terms first; under the invariant no
  -- subtraction here goes below 0.
  pub slow_readable_bytes : ChainBuffer → ℕ
  slow_readable_bytes b = (b.write_buffer - b.read_buffer) * size + b.write_pos - b.read_pos

  pub writable_bytes : ChainBuffer → ℕ
  writable_bytes b = (length b.buffers - b.write_buffer) * size - b.write_pos

  -- One round of the loop of Append(const char *, size_t), and the bytes it leaves.
  pub append_step : ChainBuffer → List ℕ → ChainBuffer × List ℕ
  append_step b bytes =
      let m = size - b.write_pos in
      if ltb (length bytes) m
      then (
        record b {
          buffers = poke b.buffers b.write_buffer b.write_pos bytes;
          write_pos = b.write_pos + length bytes;
        },
        [],
      )
      else (
        record b {
          buffers =
              poke
                (if suc b.write_buffer == length b.buffers
                  then b.buffers ++ fresh ∷ []
                  else b.buffers)
                b.write_buffer b.write_pos (take m bytes);
          write_buffer = suc b.write_buffer;
          write_pos = 0;
        },
        drop m bytes,
      )

  pub append_loop : ℕ → ChainBuffer → List ℕ → Option ChainBuffer
  append_loop zero b bytes = none
  append_loop (suc fuel) b [] = some b
  append_loop (suc fuel) b (x ∷ xs) =
      let (b', rest) = append_step b (x ∷ xs) in append_loop fuel b' rest

  pub append : ChainBuffer → List ℕ → Option ChainBuffer
  append b bytes =
      append_loop (length bytes + 2)
        (record b { readable_bytes = add_size b.readable_bytes (length bytes) }) bytes

  -- One round of the loop of Retrive(), and the length it leaves.
  pub retrive_step : ChainBuffer → ℕ → ChainBuffer × ℕ
  retrive_step b len =
      let m = size - b.read_pos in
      if ltb len m
      then (record b { read_pos = b.read_pos + len }, 0)
      else let n = length b.buffers in
        (
          record b {
            buffers = splice b.read_buffer b.buffers;
            write_buffer = spliced_index b.read_buffer n b.write_buffer;
            read_buffer = spliced_index b.read_buffer n (suc b.read_buffer);
            read_pos = 0;
          },
          len - m,
        )

  pub retrive_loop : ℕ → ChainBuffer → ℕ → Option ChainBuffer
  retrive_loop zero b len = none
  retrive_loop (suc fuel) b zero = some b
  retrive_loop (suc fuel) b (suc len) =
      let (b', rest) = retrive_step b (suc len) in retrive_loop fuel b' rest

  pub retrive : ChainBuffer → ℕ → Option ChainBuffer
  retrive b len =
      if leb len b.readable_bytes
      then retrive_loop (len + 2) (record b { readable_bytes = sub_size b.readable_bytes len }) len
      else none

  pub retrive_all : ChainBuffer → ChainBuffer
  retrive_all b = record b {
    readable_bytes = 0;
    write_buffer = 0;
    read_buffer = 0;
    write_pos = 0;
    read_pos = 0;
  }

  -- The loop of PeekAsString(): the bytes from offset `pos` of block `i` on.
  pub peek_loop : ℕ → List (List ℕ) → ℕ → ℕ → ℕ → Option (List ℕ)
  peek_loop zero bs i pos len = none
  peek_loop (suc fuel) bs i pos zero = some []
  peek_loop (suc fuel) bs i pos (suc len) =
      let m = size - pos in
      let block = drop pos (get_or bs i []) in
      let last = peek_loop fuel bs i pos 0 in
      let more = peek_loop fuel bs (suc i) 0 (suc len - m) in
      if ltb (suc len) m
      then elim last [ none ↦ none | some out ↦ some (take (suc len) block ++ out) ]
      else elim more [ none ↦ none | some out ↦ some (take m block ++ out) ]

  pub peek_as_string : ChainBuffer → ℕ → Option (List ℕ)
  peek_as_string b len =
      if leb len b.readable_bytes
      then peek_loop (len + 2) b.buffers b.read_buffer b.read_pos len
      else none

  pub peek_all_as_string : ChainBuffer → Option (List ℕ)
  peek_all_as_string b = peek_as_string b b.readable_bytes

  pub retrive_as_string : ChainBuffer → ℕ → Option (List ℕ × ChainBuffer)
  retrive_as_string b len = elim (peek_as_string b len) [
    | none ↦ none
    | some ret ↦ elim (retrive b len) [ none ↦ none | some b' ↦ some (ret, b') ]
  ]

  pub retrive_all_as_string : ChainBuffer → Option (List ℕ × ChainBuffer)
  retrive_all_as_string b = elim (peek_all_as_string b) [
    | none ↦ none
    | some ret ↦ some (ret, retrive_all b)
  ]

  -- Forward(): `len` bytes on from offset `pos` of block `i`.
  pub forward : ℕ → ℕ → ℕ → ℕ → Option (ℕ × ℕ)
  forward zero i pos len = none
  forward (suc fuel) i pos zero = some (i, pos)
  forward (suc fuel) i pos (suc len) =
      let m = size - pos in
      let near = forward fuel i (pos + suc len) 0 in
      let far = forward fuel (suc i) 0 (suc len - m) in if ltb (suc len) m then near else far

  -- BackWard(): `len` bytes back. `--buffer_it` is undefined at begin().
  pub backward : ℕ → ℕ → ℕ → ℕ → Walk
  backward zero i pos len = no_fuel
  backward (suc fuel) i pos zero = stands i pos
  backward (suc fuel) i pos (suc len) =
      let near = backward fuel i (pos - suc len) 0 in
      let far = backward fuel (i - 1) size (suc len - pos) in
      if ltb (suc len) pos then near else if i == 0 then before_begin else far

  pub unwrite : ChainBuffer → ℕ → Option ChainBuffer
  unwrite b len =
      if leb len b.readable_bytes
      then elim (backward (suc (suc len)) b.write_buffer b.write_pos len) [
        | stands i pos ↦ some (record b {
          readable_bytes = sub_size b.readable_bytes len;
          write_buffer = i;
          write_pos = pos;
        })
        | _ ↦ none
      ]
      else none

  pub has_write : ChainBuffer → ℕ → Option ChainBuffer
  has_write b len =
      if leb len (writable_bytes b)
      then elim (forward (len + 2) b.write_buffer b.write_pos len) [
        | none ↦ none
        | some (i, pos) ↦ some (record b {
          readable_bytes = add_size b.readable_bytes len;
          write_buffer = i;
          write_pos = pos;
        })
      ]
      else none

  pub shrink : ChainBuffer → ℕ → Option ChainBuffer
  shrink b reserve =
      if leb (writable_bytes b) reserve
      then some b
      else elim (forward (reserve + 2) b.write_buffer b.write_pos reserve) [
        | none ↦ none
        | some (i, pos) ↦ some (record b { buffers = take (suc i) b.buffers })
      ]
