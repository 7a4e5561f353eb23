-- ===== src/MemoryPool/Pool/Handed.antt =====
-- memory_pool.cpp: the chunks that the pool hands out.
use cpp_library.Base.{ℕ, ◌≤◌, ◌≡◌, refl, List, [], ◌∷◌, arith}
use cpp_library.MemoryPool.Chunk
use cpp_library.MemoryPool.Chunk.{Chunk, new_chunk}
use cpp_library.MemoryPool.Chunk.Laws.{new_chunk-IsValid}
use cpp_library.MemoryPool.Pool.{MemPool, chunk, take_chunk, alloc_chunk}
use cpp_library.MemoryPool.Pool.Laws.{Sys, Inv}
use cpp_library.MemoryPool.Pool.Runs.{alloc_cases, take_chunk-cons}

-- A chunk that the pool hands out.
pub record Fits (n : ℕ) (c : Chunk) : Type 0 where
  pub large : n ≤ c.capacity
  pub empty : c.len ≡ 0
  pub front : c.head ≡ 0
  pub valid : Chunk.IsValid c

Fits-new :
    (fill k n : ℕ) (old : MemPool) (c : Chunk) (m : MemPool)
    → n ≤ k
    → take_chunk fill k [] old ≡ chunk c m
    → Fits n c
unfolding take_chunk
Fits-new fill k n old c m le h = rw same (record {
  large = unfold new_chunk in le;
  empty = unfold new_chunk in refl;
  front = unfold new_chunk in refl;
  valid = new_chunk-IsValid fill k;
})
  where
    same : c ≡ new_chunk fill k
    same = ground arith

-- In such a state a successful `alloc_chunk` returns an empty, well-formed chunk with room for the
-- request.
pub alloc_chunk-Fits :
    (fill n : ℕ) (s : Sys) (c : Chunk) (m : MemPool)
    → Inv s
    → alloc_chunk fill n s.pool ≡ chunk c m
    → Fits n c
alloc_chunk-Fits fill n s c m inv h =
    let (k, cls, le, taken) = alloc_cases fill n s.pool m c h in go k le (s.pool.chain k) refl taken
  where
    go :
        (k : ℕ)
        → n ≤ k
        → (l : List Chunk) → s.pool.chain k ≡ l
        → take_chunk fill k (s.pool.chain k) s.pool ≡ chunk c m
        → Fits n c
    go k le [] e t = Fits-new fill k n s.pool c m le (rw e at t)
    go k le (x ∷ rest) e t =
        let head = rw e at (inv.free k) in
        let f = take_chunk-cons fill k s.pool x rest c m (rw e at t) in
        rw f.same
          (record { large = omega (arith, head.0); empty = head.1; front = head.2; valid = head.3 })
