-- ===== src/MemPool/Examples.antt =====
-- Tests of the pool, and its theorem at a concrete pool.
use muzi.Prelude.{◌<◌, ◌≡◌, refl, [], ◌∷◌, none, some}
use muzi.MemPool.{init, alloc, alloc_chunk, new_chunk}
use muzi.MemPool.Blocks.{pool, used, allocs, alloc-alloc_chunk}

-- The first chunk lies at 65536; the first block begins behind its header.
alloc-init :
    alloc none none (init (some 65536))
    ≡ some (65560, pool (record (new_chunk 65536) { last = 69656 }) [])
unfolding alloc init alloc_chunk
alloc-init = refl

-- Malloc(3) answers 65536 and 131072.
alloc-alloc_chunk_example :
    (allocs 11 (init (some 65536)) ≡ some (pool (used 65536 11) []))
    × (alloc none (some 131072) (pool (used 65536 11) [])
        ≡ some (110616, pool (record (new_chunk 131072) { last = 114712 }) (used 65536 11 ∷ [])))
    × (110616 < 114688)
    × (114688 < 114712)
alloc-alloc_chunk_example = alloc-alloc_chunk 65536 131072 refl
