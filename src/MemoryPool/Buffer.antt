-- ===== src/MemoryPool/Buffer.antt =====
-- MemoryPool/data_buf.h and data_buf.cpp: buffers over one chunk of the pool. What `ioctl`, `read`
-- and `write` return is an argument.
pub mod Rooms
pub mod Laws
pub mod Queues
use cpp_library.Base.{
  ℕ, ◌+◌, ◌-◌, ◌≤◌, Bool, true, false, Option, none, some, List, [], ◌==◌, leb, ltb, if◌then◌else◌,
  length, take, drop,
}
use cpp_library.MemoryPool.Chunk
use cpp_library.MemoryPool.Chunk.{Chunk, content, write_at}
use cpp_library.MemoryPool.Pool.{MemPool, Alloc, chunk, null, exit, alloc_chunk, retrieve}

-- `BufferBase::data_buf` and the pool that all buffers share.
pub record Buffers : Type 0 where
  pub buf : Option Chunk
  pub pool : MemPool

-- `ok` is 0 or the byte count returned, `failed` is -1; `fault` is a failed assertion, or a write
-- behind the end of the chunk's array.
pub data Result : Type 0 where
  ok : ℕ → Buffers → Result
  failed : Buffers → Result
  exited fault : Result

-- `BufferBase::length`
unfoldable pub buf_length : Buffers → ℕ
buf_length b = elim b.buf [ none ↦ 0 | some c ↦ c.len ]

-- `BufferBase::pop`
unfoldable pub pop_chunk : ℕ → Chunk → MemPool → Buffers
pop_chunk n c m =
    let c' = Chunk.pop n c in
    if c'.len == 0
    then record { buf = none; pool = retrieve c' m }
    else record { buf = some c'; pool = m }

unfoldable pub pop : ℕ → Buffers → Result
pop n b = elim b.buf [
  | none ↦ fault
  | some c ↦ if leb n c.len then ok 0 (pop_chunk n c b.pool) else fault
]

-- `BufferBase::clear`
unfoldable pub clear : Buffers → Buffers
clear b = elim b.buf [ none ↦ b | some c ↦ record { buf = none; pool = retrieve c b.pool } ]

-- What a call of `alloc_chunk` is used for: the chunk and the pool, or the buffer's way out.
abbrev with_chunk : Alloc → Buffers → (Chunk → MemPool → Result) → Result
with_chunk (chunk c m) b k = k c m
with_chunk null b k = failed b
with_chunk exit b k = exited

-- The part that `read_from_fd` and `write_to_buf` share: a chunk with room for `n` more bytes, the
-- old content in front; `k` goes on with it.
unfoldable pub reserve_at : Option Chunk → ℕ → ℕ → Buffers → (Chunk → MemPool → Result) → Result
reserve_at none fill n b k = with_chunk (alloc_chunk fill n b.pool) b k
reserve_at (some c) fill n b k =
    if c.head == 0
    then if ltb (c.capacity - c.len) n
      then with_chunk (alloc_chunk fill (n + c.len) b.pool) b
          (λ c' m. k (Chunk.copy c c') (retrieve c m))
      else k c b.pool
    else fault

unfoldable pub reserve : ℕ → ℕ → Buffers → (Chunk → MemPool → Result) → Result
unfolding reserve_at
reserve fill n b k = reserve_at b.buf fill n b k

-- `OutputBuffer::write_to_buf`
unfoldable pub write_to_buf : ℕ → List ℕ → Buffers → Result
write_to_buf fill src b = reserve fill (length src) b λ c m.
    let c' = record c { bytes = write_at c.len src c.bytes; len = c.len + length src } in
    ok 0 (record { buf = some c'; pool = m })

-- `InputBuffer::read_from_fd` where `ioctl` reports `need` bytes, or fails, and the `read` that is
-- not interrupted returns `got`, or an error. With 0 reported it asks for 4096 bytes, for which
-- nothing has made room.
unfoldable pub read_from_fd : ℕ → Option ℕ → Option (List ℕ) → Buffers → Result
read_from_fd fill none got b = failed b
read_from_fd fill (some need) none b =
    reserve fill need b λ c m. ok 0 (record { buf = some c; pool = m })
read_from_fd fill (some need) (some []) b =
    reserve fill need b λ c m. ok 0 (record { buf = some c; pool = m })
read_from_fd fill (some need) (some got) b = reserve fill need b λ c m.
    let c' = record c { bytes = write_at c.len got c.bytes; len = c.len + length got } in
    let read = ok 0 (record { buf = some c'; pool = m }) in
    if ltb c.capacity (c.len + length got)
    then fault
    else if need == 0
    then read
    else if length got == need
    then read
    else fault

-- `InputBuffer::get_from_buf`: the bytes from the pointer on.
unfoldable pub get_from_buf : Buffers → Option (List ℕ)
get_from_buf b = elim b.buf [ none ↦ none | some c ↦ some (drop c.head c.bytes) ]

-- `InputBuffer::adjust`
unfoldable pub adjust : Buffers → Buffers
adjust b = elim b.buf [ none ↦ b | some c ↦ record b { buf = some (Chunk.adjust c) } ]

-- What `write` came to when it was not interrupted: bytes written, EAGAIN, or another error.
pub data Written : Type 0 where
  wrote : ℕ → Written
  again error : Written

-- `OutputBuffer::write_to_fd`
unfoldable pub write_to_fd : Written → Buffers → Result
write_to_fd w b = elim b.buf [
  | none ↦ fault
  | some c ↦
      if c.head == 0
      then elim w [
        | wrote n ↦
            if n == 0 then ok 0 b else ok n (record b { buf = some (Chunk.adjust (Chunk.pop n c)) })
        | again ↦ ok 0 b
        | error ↦ failed b
      ]
      else fault
]
