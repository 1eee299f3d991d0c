-- ===== src/MemPool.antt =====
-- muzi/net/mem_pool.h and mem_pool.cc: a pool of blocks of one size, cut from chunks. A pointer is
-- its address, 0 the null pointer; idle_nodes_ is the list of the blocks that are linked through
-- their first word. What malloc(3) answers is an argument.
pub mod Blocks
mod Examples
use muzi.Prelude.{
  ℕ, ◌+◌, ◌-◌, ◌*◌, ◌/◌, Bool, true, false, List, [], ◌∷◌, Option, none, some, ltb, if◌then◌else◌,
  ◌==◌,
}

-- BLOCKSIZE, CHUNKSIZE, ALIGIN, and the size of the three pointers of a Chunk.
abbrev pub block_size : ℕ
block_size = 4096

abbrev pub chunk_size : ℕ
chunk_size = 49152

abbrev pub alignment : ℕ
alignment = 8

abbrev pub header_size : ℕ
header_size = 24

pub record Chunk : Type 0 where
  pub base : ℕ
  pub last : ℕ
  pub end : ℕ

pub record MemPool : Type 0 where
  pub chunks : List Chunk
  pub idle_nodes : List ℕ

-- ptr_aligin()
abbrev pub ptr_align : ℕ → ℕ
ptr_align p = (p + (alignment - 1)) / alignment * alignment

abbrev pub new_chunk : ℕ → Chunk
new_chunk p = record { base = p; last = p + header_size; end = p + chunk_size }

-- AllocChunk()
unfoldable pub alloc_chunk : Option ℕ → MemPool → MemPool
alloc_chunk none m = m
alloc_chunk (some p) m = record m { chunks = new_chunk p ∷ m.chunks }

unfoldable pub init : Option ℕ → MemPool
init answer = alloc_chunk answer (record { chunks = []; idle_nodes = [] })

-- `chunks_->last = ret + block_size_`, and the return of `ret`. Without a chunk it is a null pointer
-- that is used.
abbrev pub take_block : ℕ → List Chunk → MemPool → Option (ℕ × MemPool)
take_block ret [] m = none
take_block ret (c ∷ cs) m =
    some (ret, record m { chunks = record c { last = ret + block_size } ∷ cs })

-- The part of Alloc() behind the first chunk: whether the block fits is tested for the first chunk,
-- and the block stays where it is when another chunk is put before it.
abbrev pub alloc_from : Option ℕ → List Chunk → MemPool → Option (ℕ × MemPool)
alloc_from answer [] m = some (0, m)
alloc_from answer (c ∷ cs) m =
    let ret = ptr_align c.last in
    let m' = if ltb c.end (ret + block_size) then alloc_chunk answer m else m in
    take_block ret m'.chunks m'

abbrev pub alloc_idle : Option ℕ → Option ℕ → List ℕ → MemPool → Option (ℕ × MemPool)
alloc_idle first second (p ∷ ps) m = some (p, record m { idle_nodes = ps })
alloc_idle first second [] m =
    let m' = alloc_chunk first m in
    elim m.chunks [ [] ↦ alloc_from second m'.chunks m' | c ∷ cs ↦ alloc_from second (c ∷ cs) m ]

-- Alloc(), with the answers for a first chunk and for another one.
unfoldable pub alloc : Option ℕ → Option ℕ → MemPool → Option (ℕ × MemPool)
alloc first second m = alloc_idle first second m.idle_nodes m

-- Release()
unfoldable pub release : ℕ → MemPool → MemPool
release p m = if p == 0 then m else record m { idle_nodes = p ∷ m.idle_nodes }
