-- ===== src/MemoryPool/Pool/Laws.antt =====
-- The size classes, and the accounting of the pool over every run of allocations and returns.
use cpp_library.Base.{
  ℕ, zero, suc, ◌+◌, ◌*◌, ◌/◌, ◌≤◌, ◌<◌, ◌≡◌, refl, inl, inr, true, none, some, List, [], ◌∷◌, ◌==◌,
  arith, ◌↔◌, ◌++◌, ==_iff, Bool-cases,
}
use cpp_library.MemoryPool.Chunk
use cpp_library.MemoryPool.Chunk.{Chunk, new_chunk}
use cpp_library.MemoryPool.Chunk.Laws.{new_chunk-IsValid}
use cpp_library.MemoryPool.Pool.{
  max_pool_size, mem_up, MemPool, update, chunks, new_pool, class_of, chunk, alloc_chunk, retrieve,
  is_class,
}

-- A request is refused exactly above MEM_UP; otherwise it gets the smallest class that holds it.
pub class_of_lem :
    (n : ℕ)
    → ((class_of n ≡ none) ↔ (mem_up < n))
      × ((k : ℕ)
          → class_of n ≡ some k
          → (is_class k ≡ true) × (n ≤ k) × ((j : ℕ) → is_class j ≡ true → n ≤ j → k ≤ j))
unfolding class_of
class_of_lem n = (
  (λ h. ground arith, λ h. ground arith),
  λ k h. (ground arith, ground arith, λ j c l. ground arith),
)

-- The kilobytes of a chain, and of the free chunks of every class.
abbrev pub kb : List Chunk → ℕ
kb [] = 0
kb (c ∷ cs) = c.capacity / 1024 + kb cs

abbrev pub free_kb : (ℕ → List Chunk) → ℕ
free_kb f =
    kb (f 4096) + kb (f 16384) + kb (f 65536) + kb (f 262144) + kb (f 1048576) + kb (f 4194304)

-- Free chunks are empty and stand under their own size.
abbrev pub AllFree : ℕ → List Chunk → Type 0
AllFree k [] = Unit {0}
AllFree k (c ∷ cs) = (c.capacity ≡ k) × (c.len ≡ 0) × (c.head ≡ 0) × Chunk.IsValid c × AllFree k cs

abbrev pub AllClasses : List Chunk → Type 0
AllClasses [] = Unit {0}
AllClasses (c ∷ cs) = (is_class c.capacity ≡ true) × AllClasses cs

-- The pool and the chunks that it has handed out.
pub record Sys : Type 0 where
  pub pool : MemPool
  pub out : List Chunk

-- A caller allocates, or gives a chunk back that it may have filled but not resized.
pub data Step (s : Sys) : Sys → Type 0 where
  allocate :
      (fill n : ℕ) (c : Chunk) (m : MemPool)
      → alloc_chunk fill n s.pool ≡ chunk c m
      → Step s (record { pool = m; out = c ∷ s.out })
  give_back :
      (before : List Chunk) (c c' : Chunk) (after : List Chunk)
      → s.out ≡ before ++ c ∷ after
      → c'.capacity ≡ c.capacity
      → Chunk.IsValid c'
      → Step s (record { pool = retrieve c' s.pool; out = before ++ after })

pub data Reach (fill : ℕ) : Sys → Type 0 where
  start : Reach fill (record { pool = new_pool fill; out = [] })
  step : {s t : Sys} → Reach fill s → Step s t → Reach fill t

-- Free chunks are where they belong, and the two counters are exact.
pub record Inv (s : Sys) : Type 0 where
  pub free : (k : ℕ) → AllFree k (s.pool.chain k)
  pub left : s.pool.left_kb ≡ free_kb s.pool.chain
  pub total : s.pool.total_kb ≡ s.pool.left_kb + kb s.out
  pub bound : s.pool.total_kb < max_pool_size
  pub classes : AllClasses s.out

pub free_kb-update :
    (f : ℕ → List Chunk) (k : ℕ) (l : List Chunk)
    → is_class k ≡ true
    → free_kb (update f k l) + kb (f k) ≡ free_kb f + kb l
free_kb-update f k l h = ground arith

pub AllFree-update :
    (f : ℕ → List Chunk) (k : ℕ) (l : List Chunk)
    → ((j : ℕ) → AllFree j (f j))
    → AllFree k l
    → (j : ℕ) → AllFree j (update f k l j)
AllFree-update f k l h a j = elim (Bool-cases (k == j)) [
  | inl e ↦ let same : k ≡ j = (==_iff k j).0 e in rw e (rw same at a)
  | inr e ↦ rw e (h j)
]

pub kb-chunks : (fill size n : ℕ) → kb (chunks fill size n) ≡ size / 1024 * n
unfolding new_chunk
kb-chunks fill size zero = omega arith
kb-chunks fill size (suc n) = let ih = kb-chunks fill size n in grind arith

pub AllFree-chunks : (fill size n : ℕ) → AllFree size (chunks fill size n)
unfolding new_chunk
AllFree-chunks fill size zero = tt
AllFree-chunks fill size (suc n) =
    (refl, refl, refl, new_chunk-IsValid fill size, AllFree-chunks fill size n)
