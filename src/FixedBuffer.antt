-- ===== src/FixedBuffer.antt =====
-- muzi/base/fixed_buffer.h: an array of `size` bytes that is filled from the front. The buffer is
-- the list of the bytes before end_; `none` is a write past the end of the array.
pub mod Bounds
use muzi.Prelude.{
  ℕ, suc, ◌+◌, ◌-◌, ◌%◌, ◌^◌, Bool, List, [], ◌++◌, Option, some, none, length, take, leb, min,
  if◌then◌else◌,
}

pub record FixedBuffer : Type 0 where
  pub bytes : List ℕ

unfoldable pub init : FixedBuffer
init = record { bytes = [] }

unfoldable pub clear : FixedBuffer → FixedBuffer
clear b = record b { bytes = [] }

module _ (size : ℕ) where
  -- The room, less one byte for the '\0', as a size_t.
  unfoldable pub get_avail : FixedBuffer → ℕ
  get_avail b = (size + 2 ^ 64 - suc (length b.bytes)) % 2 ^ 64

  -- Bytes written at end(), and Add() of their number.
  unfoldable pub add : FixedBuffer → List ℕ → Option FixedBuffer
  add b more =
      if leb (length b.bytes + length more) size
      then some (record b { bytes = b.bytes ++ more })
      else none

  unfoldable pub append : FixedBuffer → List ℕ → Option FixedBuffer
  append b msg = add b (take (min (get_avail b) (length msg)) msg)
