-- ===== src/MemoryPool/Pool.antt =====
-- MemoryPool/memory_pool.h and memory_pool.cpp: the free chunks, chained by size class. The mutex
-- makes each method atomic, so a method is one function on the pool.
pub mod Laws
pub mod Runs
pub mod Handed
use cpp_library.Base.{
  ℕ, zero, suc, ◌+◌, ◌-◌, ◌*◌, ◌/◌, ◌%◌, ◌^◌, ◌||◌, Bool, true, false, Option, none, some, List, [],
  ◌∷◌, leb, ◌==◌, if◌then◌else◌,
}
use cpp_library.MemoryPool.Chunk.{Chunk, new_chunk}

-- `MEM_CAP_MULTI_POWER`, `MAX_MEM_POOL_SIZE` and the ends of `enum MemCap`.
abbrev pub multi_power : ℕ
multi_power = 4

abbrev pub max_pool_size : ℕ
max_pool_size = 4 * 1024 * 1024

abbrev pub mem_low : ℕ
mem_low = 4096

abbrev pub mem_up : ℕ
mem_up = 4194304

-- `chain k` is the list of free chunks under the key `k` of the map; a missing key is `[]`, as
-- `operator[]` makes it.
pub record MemPool : Type 0 where
  pub chain : ℕ → List Chunk
  pub total_kb : ℕ
  pub left_kb : ℕ

abbrev pub update : (ℕ → List Chunk) → ℕ → List Chunk → ℕ → List Chunk
update f k l j = if k == j then l else f j

abbrev pub chunks : ℕ → ℕ → ℕ → List Chunk
chunks fill size zero = []
chunks fill size (suc n) = new_chunk fill size ∷ chunks fill size n

-- `MemPool::mem_init`; a failing `new` ends the program and is left out
unfoldable pub mem_init : ℕ → ℕ → ℕ → MemPool → MemPool
mem_init fill size n m = record m {
  chain = update m.chain size (chunks fill size n);
  total_kb = (m.total_kb + size / 1024 * n) % 2 ^ 64;
}

abbrev pub empty_pool : MemPool
empty_pool = record { chain = λ k. []; total_kb = 0; left_kb = 0 }

-- `MemPool::MemPool`
unfoldable pub new_pool : ℕ → MemPool
unfolding mem_init
new_pool fill =
    let m = mem_init fill 4194304 10 (
      mem_init fill 1048576 25 (
        mem_init fill 262144 100
          (mem_init fill 65536 250 (mem_init fill 16384 500 (mem_init fill 4096 4 empty_pool))))) in
    record m { left_kb = m.total_kb }

-- The search of `alloc_chunk` for the first class that holds `n` bytes; six rounds reach MEM_UP.
unfoldable pub find_class : ℕ → ℕ → ℕ → Option ℕ
find_class zero index n = none
find_class (suc rounds) index n =
    let next = find_class rounds (index * multi_power) n in
    if leb index mem_up then if leb n index then some index else next else none

unfoldable pub class_of : ℕ → Option ℕ
unfolding find_class
class_of n = find_class 7 mem_low n

-- What `alloc_chunk` comes to: a chunk and the pool after, the null pointer, or `exit(1)`.
pub data Alloc : Type 0 where
  chunk : Chunk → MemPool → Alloc
  null : Alloc
  exit : Alloc

-- `alloc_chunk` once the class `index` is found and the lock is held.
unfoldable pub take_chunk : ℕ → ℕ → List Chunk → MemPool → Alloc
take_chunk fill index [] m =
    if leb max_pool_size ((m.total_kb + index / 1024) % 2 ^ 64)
    then exit
    else chunk (new_chunk fill index) (record m { total_kb = (m.total_kb + index / 1024) % 2 ^ 64 })
take_chunk fill index (target ∷ rest) m = chunk target (record m {
  chain = update m.chain index rest;
  left_kb = (m.left_kb + 2 ^ 64 - index / 1024) % 2 ^ 64;
})

-- `MemPool::alloc_chunk`
unfoldable pub alloc_chunk : ℕ → ℕ → MemPool → Alloc
alloc_chunk fill n m = elim (class_of n) [
  | none ↦ null
  | some index ↦ take_chunk fill index (m.chain index) m
]

-- `MemPool::retrieve`; its assertion, that the capacity is one of the sizes below, is left out: what
-- callers give back they have from `alloc_chunk`.
unfoldable pub retrieve : Chunk → MemPool → MemPool
retrieve c m =
    let back = record c { len = 0; head = 0 } in
    record m {
      chain = update m.chain c.capacity (back ∷ m.chain c.capacity);
      left_kb = (m.left_kb + c.capacity / 1024) % 2 ^ 64;
    }

-- The sizes of `enum MemCap`.
abbrev pub is_class : ℕ → Bool
is_class k =
    k == 4096 || (k == 16384 || (k == 65536 || (k == 262144 || (k == 1048576 || k == 4194304))))

abbrev pub total_capacity : List Chunk → ℕ
total_capacity [] = 0
total_capacity (c ∷ cs) = c.capacity + total_capacity cs

-- `MemPool::get_list_size_byte` of a key that is in the map; `int` wraps at 32 bits
unfoldable pub get_list_size_byte : ℕ → MemPool → ℕ
get_list_size_byte index m = if is_class index then total_capacity (m.chain index) % 2 ^ 32 else 0
