-- ===== src/MemPool/Blocks.antt =====
-- Which memory a pool hands out.
use muzi.Prelude.{
  ℕ, zero, suc, ◌+◌, ◌*◌, ◌%◌, ◌<◌, ◌≤◌, ◌≡◌, ◌≢◌, refl, sym, ap, ◌∙◌, true, false, List, [], ◌∷◌,
  Option, none, some, arith, ltb, ◌==◌,
}
use muzi.MemPool.{
  MemPool, Chunk, init, header_size, alignment, block_size, ptr_align, new_chunk, alloc_chunk,
  alloc, release,
}

-- A block that is released is the next one to be handed out, and the pool is as before.
pub alloc-release :
    (p : ℕ) (m : MemPool) (first second : Option ℕ)
    → p ≢ 0
    → alloc first second (release p m) ≡ some (p, m)
unfolding alloc release
alloc-release p m first second h = let no : (p == 0) ≡ false = ground (arith, h) in rw no refl

-- A pool without idle blocks whose first chunk is `c`.
abbrev pub pool : Chunk → List Chunk → MemPool
pool c cs = record { chunks = c ∷ cs; idle_nodes = [] }

-- While the first chunk has room, Alloc() hands out a block of it that lies behind all blocks that
-- it has handed out of it, and the chunk's mark is the end of the block.
pub alloc_inside :
    (c : Chunk) (cs : List Chunk) (first second : Option ℕ)
    → ptr_align c.last + block_size ≤ c.end
    → (ret : ℕ) × (alloc first second (pool c cs)
        ≡ some (ret, pool (record c { last = ret + block_size }) cs))
      × (c.last ≤ ret)
      × (ret + block_size ≤ c.end)
unfolding alloc
alloc_inside c cs first second room =
    let ret = ptr_align c.last in
    let fits : ltb c.end (ret + block_size) ≡ false = ground arith in
    (ret, rw fits refl, omega arith, room)

-- `n` calls of Alloc(), with what the last one leaves.
abbrev pub and_next : (MemPool → Option MemPool) → Option (ℕ × MemPool) → Option MemPool
and_next f none = none
and_next f (some (ret, m)) = f m

abbrev pub allocs : ℕ → MemPool → Option MemPool
allocs zero m = some m
allocs (suc n) m = and_next (allocs n) (alloc none none m)

-- The chunk at `p` behind `k` blocks.
abbrev pub used : ℕ → ℕ → Chunk
used p k = record (new_chunk p) { last = p + header_size + k * block_size }

align-used : (p k : ℕ) → p % alignment ≡ 0 → ptr_align (used p k).last ≡ (used p k).last
align-used p k h = omega (arith, h)

alloc-used :
    (p k : ℕ)
    → p % alignment ≡ 0
    → k < 11
    → alloc none none (pool (used p k) []) ≡ some ((used p k).last, pool (used p (suc k)) [])
unfolding alloc
alloc-used p k h l =
    let e = align-used p k h in
    let fits : ltb (used p k).end ((used p k).last + block_size) ≡ false = ground (arith, l) in
    let mark : (used p k).last + block_size ≡ (used p (suc k)).last = omega arith in
    rw (e, fits) (ap (λ n. some ((used p k).last, pool (record (used p k) { last = n }) [])) mark)

allocs-used :
    (p n k : ℕ)
    → p % alignment ≡ 0
    → k + n ≤ 11
    → allocs n (pool (used p k) []) ≡ some (pool (used p (k + n)) [])
allocs-used p zero k h l = let e : k ≡ k + 0 = omega arith in ap (λ j. some (pool (used p j) [])) e
allocs-used p (suc n) k h l =
    let e : suc k + n ≡ k + suc n = omega arith in
    ap (and_next (allocs n)) (alloc-used p k h (omega (arith, l)))
    ∙ allocs-used p n (suc k) h (omega (arith, l))
    ∙ ap (λ j. some (pool (used p j) [])) e

-- The twelfth block of a pool. With its first chunk at any aligned address `p`, and whatever address
-- `q` malloc(3) gives for another one, eleven calls of Alloc() fill the chunk up to the mark
-- p + 45080, and the twelfth returns that address: the block begins in the old chunk and ends behind
-- it, and the mark of the chunk at `q` is set to the end of that block.
pub alloc-alloc_chunk :
    (p q : ℕ)
    → p % alignment ≡ 0
    → (allocs 11 (init (some p)) ≡ some (pool (used p 11) []))
      × (alloc none (some q) (pool (used p 11) [])
          ≡ some (p + 45080, pool (record (new_chunk q) { last = p + 49176 }) (used p 11 ∷ [])))
      × (p + 45080 < (used p 11).end)
      × ((used p 11).end < p + 49176)
unfolding alloc alloc_chunk init
alloc-alloc_chunk p q h =
    let start : p + header_size ≡ (used p 0).last = omega arith in
    let e = align-used p 11 h in
    let over : ltb (used p 11).end ((used p 11).last + block_size) ≡ true = ground arith in
    let ret : (used p 11).last ≡ p + 45080 = omega arith in
    let mark : (used p 11).last + block_size ≡ p + 49176 = omega arith in
    (
      ap (λ n. allocs 11 (pool (record (new_chunk p) { last = n }) [])) start
          ∙ allocs-used p 11 0 h (omega arith),
      rw (e, over)
          (ap
              (λ r.
                some (r, pool (record (new_chunk q) { last = r + block_size }) (used p 11 ∷ [])))
              ret
            ∙ ap (λ n. some (p + 45080, pool (record (new_chunk q) { last = n }) (used p 11 ∷ [])))
                (ap (λ r. r + block_size) (sym ret) ∙ mark)),
      omega arith,
      omega arith,
    )
