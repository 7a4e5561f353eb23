-- ===== src/MemoryPool/Chunk.antt =====
-- MemoryPool/chunk.h and chunk.cpp: a block of `capacity` bytes of which `length` are in use,
-- from the offset `head` on.
pub mod Laws
use cpp_library.Base.{
  ℕ, ◌+◌, ◌-◌, ◌≡◌, ◌≤◌, Bool, List, ◌++◌, ◌==◌, if◌then◌else◌, length, take, drop, replicate,
}

-- `data` is the whole array; the chain `next` is the list that a chunk stands in.
pub record Chunk : Type 0 where
  pub capacity : ℕ
  pub len : ℕ
  pub head : ℕ
  pub bytes : List ℕ

-- `Chunk::Chunk`; `fill` stands for the indeterminate bytes of `new char[size]`
unfoldable pub new_chunk : ℕ → ℕ → Chunk
new_chunk fill size = record { capacity = size; len = 0; head = 0; bytes = replicate size fill }

-- What is in use.
abbrev pub content : Chunk → List ℕ
content c = take c.len (drop c.head c.bytes)

-- `memcpy(data + offset, src, n)` of the bytes `src`
abbrev pub write_at : ℕ → List ℕ → List ℕ → List ℕ
write_at offset src bytes = take offset bytes ++ (src ++ drop (offset + length src) bytes)

-- `Chunk::clear`
unfoldable pub clear : Chunk → Chunk
clear c = record c { len = 0; head = 0 }

-- `Chunk::adjust`: the content moves to the front.
unfoldable pub adjust : Chunk → Chunk
adjust c =
    let moved = if c.len == 0 then c.bytes else write_at 0 (content c) c.bytes in
    record c { bytes = if c.head == 0 then c.bytes else moved; head = 0 }

-- `Chunk::copy`
unfoldable pub copy : Chunk → Chunk → Chunk
copy other c = record c { bytes = write_at 0 (content other) c.bytes; head = 0; len = other.len }

-- `Chunk::pop`
unfoldable pub pop : ℕ → Chunk → Chunk
pop n c = record c { len = c.len - n; head = c.head + n }

-- The content lies within the array, whose size is the capacity.
pub record IsValid (c : Chunk) : Type 0 where
  pub sized : length c.bytes ≡ c.capacity
  pub within : c.head + c.len ≤ c.capacity
