-- ===== src/MemoryPool.antt =====
-- MemoryPool: chunks of bytes, a pool of free chunks by size, and the buffers that use them.
pub mod Chunk
pub mod Pool
pub mod Buffer
mod Examples
