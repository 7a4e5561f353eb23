-- ===== src/MemoryPool/Examples.antt =====
-- MemoryPool: each theorem on the pool and its buffers at a concrete input.
use cpp_library.Base.{
  ℕ, ◌+◌, ◌-◌, ◌%◌, ◌^◌, ◌<◌, ◌≤◌, ◌≡◌, ◌↔◌, refl, true, none, some, [], ◌∷◌, ◌++◌, take, arith,
}
use cpp_library.MemoryPool.Chunk
use cpp_library.MemoryPool.Chunk.{Chunk, new_chunk, content, write_at}
use cpp_library.MemoryPool.Pool.{
  mem_up, MemPool, empty_pool, new_pool, update, chunks, mem_init, find_class, class_of, chunk,
  alloc_chunk, take_chunk, is_class,
}
use cpp_library.MemoryPool.Pool.Laws.{class_of_lem, start, step, allocate, Inv}
use cpp_library.MemoryPool.Pool.Runs.{Reach-Inv}
use cpp_library.MemoryPool.Buffer.Queues.{
  Output, writes, sends, Output-queue, Input, opened, reads, pops, Input-queue, Valid,
}
use cpp_library.MemoryPool.Buffer.{
  ok, write_to_fd, pop, pop_chunk, reserve, reserve_at, write_to_buf, read_from_fd,
}
use cpp_library.MemoryPool.Buffer.Rooms.{held_by, Ready}
use cpp_library.MemoryPool.Buffer.Laws.{holding}

abbrev no_error : ℕ
no_error = 0

abbrev two_bytes : ℕ
two_bytes = 2

class_of_lem_example :
    ((class_of 5000 ≡ none) ↔ (mem_up < 5000))
    × ((k : ℕ)
        → class_of 5000 ≡ some k
        → (is_class k ≡ true) × (5000 ≤ k) × ((j : ℕ) → is_class j ≡ true → 5000 ≤ j → k ≤ j))
class_of_lem_example = class_of_lem 5000

-- The first pool after a request of 100 bytes: one of its four smallest chunks is out.
abbrev lent_pool : MemPool
lent_pool = record (new_pool 0) {
  chain = update (new_pool 0).chain 4096 (chunks 0 4096 3);
  left_kb = ((new_pool 0).left_kb + 2 ^ 64 - 4) % 2 ^ 64;
}

lent : alloc_chunk 0 100 (new_pool 0) ≡ chunk (new_chunk 0 4096) lent_pool
unfolding alloc_chunk class_of find_class take_chunk new_pool mem_init
lent = refl

Reach-Inv_example : Inv (record { pool = lent_pool; out = new_chunk 0 4096 ∷ [] })
Reach-Inv_example =
    Reach-Inv {fill = 0} {s = record { pool = lent_pool; out = new_chunk 0 4096 ∷ [] }}
      (step start (allocate 0 100 (new_chunk 0 4096) lent_pool lent))

empty-Inv : Inv (record { pool = empty_pool; out = [] })
empty-Inv = record { free = λ k. tt; left = refl; total = refl; bound = omega arith; classes = tt }

abbrev grown_pool : MemPool
grown_pool = record empty_pool { total_kb = 4 }

allocated : alloc_chunk 0 100 empty_pool ≡ chunk (new_chunk 0 4096) grown_pool
unfolding alloc_chunk class_of find_class take_chunk
allocated = refl

-- Eight bytes with the first two in use, and after 9 and 10 are written behind them
abbrev front : Chunk
front = record { capacity = 8; len = 2; head = 0; bytes = 1 ∷ 2 ∷ 3 ∷ 4 ∷ 5 ∷ 6 ∷ 7 ∷ 8 ∷ [] }

abbrev filled : Chunk
filled = record { capacity = 8; len = 4; head = 0; bytes = 1 ∷ 2 ∷ 9 ∷ 10 ∷ 5 ∷ 6 ∷ 7 ∷ 8 ∷ [] }

front-Ready : Ready (some front)
front-Ready = (record { sized = refl; within = omega arith }, refl)

written : write_to_buf 0 (9 ∷ 10 ∷ []) (holding front empty_pool) ≡ ok 0 (holding filled empty_pool)
unfolding write_to_buf reserve reserve_at
written = refl

received :
    read_from_fd 0 (some 2) (some (9 ∷ 10 ∷ [])) (holding front empty_pool)
    ≡ ok 0 (holding filled empty_pool)
unfolding read_from_fd reserve reserve_at
received = refl

-- Two bytes in a chunk from an empty pool
abbrev two_in : Chunk
two_in = record (new_chunk 0 4096) {
  bytes = write_at 0 (9 ∷ 10 ∷ []) (new_chunk 0 4096).bytes;
  len = 2;
}

two_written : Output (some two_in) (9 ∷ 10 ∷ []) []
unfolding write_to_buf reserve reserve_at alloc_chunk class_of find_class take_chunk new_chunk
two_written =
    writes 0 0 (9 ∷ 10 ∷ []) empty_pool [] (holding two_in grown_pool) opened empty-Inv refl

two_received : Input (some two_in) (9 ∷ 10 ∷ []) []
unfolding read_from_fd reserve reserve_at alloc_chunk class_of find_class take_chunk new_chunk
two_received =
    reads 0 0 2 (some (9 ∷ 10 ∷ [])) empty_pool [] (holding two_in grown_pool) opened empty-Inv refl

abbrev one_left : Chunk
one_left = Chunk.adjust (Chunk.pop 1 two_in)

one_sent : Output (some one_left) (9 ∷ 10 ∷ []) ([] ++ take 1 (content two_in))
unfolding write_to_fd new_chunk
one_sent = sends 1 1 grown_pool (holding one_left grown_pool) two_written (omega arith) refl

one_popped : Input (some (Chunk.pop 1 two_in)) (9 ∷ 10 ∷ []) ([] ++ take 1 (content two_in))
unfolding pop pop_chunk Chunk.pop new_chunk
one_popped =
    pops 1 0 grown_pool (holding (Chunk.pop 1 two_in) grown_pool) two_received (omega arith) refl

Output-queue_example :
    (([] ++ take 1 (content two_in)) ++ held_by (some one_left) ≡ 9 ∷ 10 ∷ [])
    × Ready (some one_left)
Output-queue_example =
    Output-queue (some one_left) (9 ∷ 10 ∷ []) ([] ++ take 1 (content two_in)) one_sent

Input-queue_example :
    (([] ++ take 1 (content two_in)) ++ held_by (some (Chunk.pop 1 two_in)) ≡ 9 ∷ 10 ∷ [])
    × Valid (some (Chunk.pop 1 two_in))
Input-queue_example =
    Input-queue (some (Chunk.pop 1 two_in)) (9 ∷ 10 ∷ []) ([] ++ take 1 (content two_in)) one_popped
