-- ===== src/MemoryPool/Buffer/Rooms.antt =====
-- MemoryPool/data_buf.cpp: the chunk with room for more bytes that a read or a write starts from.
use cpp_library.Base.{
  ℕ, ◌+◌, ◌-◌, ◌≤◌, ◌≡◌, refl, inl, inr, true, Option, none, some, List, [], ltb, ◌==◌, arith,
  ==_iff, Bool-cases,
}
use cpp_library.MemoryPool.Chunk
use cpp_library.MemoryPool.Chunk.{Chunk, content, write_at}
use cpp_library.MemoryPool.Chunk.Laws.{content-copy}
use cpp_library.MemoryPool.Pool.{MemPool, Alloc, chunk, null, exit, alloc_chunk, retrieve}
use cpp_library.MemoryPool.Pool.Laws.{Inv}
use cpp_library.MemoryPool.Pool.Handed.{Fits, alloc_chunk-Fits}
use cpp_library.MemoryPool.Buffer.{Buffers, Result, ok, reserve, reserve_at, with_chunk}

-- The bytes that a buffer holds.
abbrev pub held_by : Option Chunk → List ℕ
held_by none = []
held_by (some c) = content c

-- The buffer has no chunk, or a well-formed one whose content starts at the front.
abbrev pub Ready : Option Chunk → Type 0
Ready none = Unit {0}
Ready (some c) = Chunk.IsValid c × (c.head ≡ 0)

-- A chunk with room for `n` more bytes behind the bytes `held`.
pub record Room (n : ℕ) (held : List ℕ) (c : Chunk) : Type 0 where
  pub valid : Chunk.IsValid c
  pub front : c.head ≡ 0
  pub room : c.len + n ≤ c.capacity
  pub same : content c ≡ held

pub content-empty : (c : Chunk) → c.len ≡ 0 → content c ≡ []
content-empty c h = rw h

Room-fresh : (n : ℕ) (c : Chunk) → Fits n c → Room n [] c
Room-fresh n c f = record {
  valid = f.valid;
  front = f.front;
  room = omega (arith, f.large, f.empty);
  same = content-empty c f.empty;
}

Room-copy :
    (n : ℕ) (c c' : Chunk)
    → Chunk.IsValid c
    → Fits (n + c.len) c'
    → Room n (content c) (Chunk.copy c c')
unfolding Chunk.copy
Room-copy n c c' v f =
    let (same, valid) = content-copy c c' v f.valid (omega (arith, f.large)) in
    record { valid = valid; front = refl; room = omega (arith, f.large); same = same }

with_chunk-ok :
    (a : Alloc) (b : Buffers) (k : Chunk → MemPool → Result) (r : ℕ) (b' : Buffers)
    → with_chunk a b k ≡ ok r b'
    → (c : Chunk) × (m : MemPool) × (a ≡ chunk c m) × (k c m ≡ ok r b')
with_chunk-ok (chunk c m) b k r b' h = (c, m, refl, h)
with_chunk-ok null b k r b' h = cc
with_chunk-ok exit b k r b' h = cc

-- Whatever `reserve` passes on has room, so a result comes from its continuation at such a chunk.
module _ (fill n r : ℕ) (b b' : Buffers) (out : List Chunk) (k : Chunk → MemPool → Result)
    (inv : Inv (record { pool = b.pool; out = out })) where
  abbrev pub Passed : List ℕ → Type 0
  Passed held = (c : Chunk) × (m : MemPool) × Room n held c × (k c m ≡ ok r b')

  reserve-none : with_chunk (alloc_chunk fill n b.pool) b k ≡ ok r b' → Passed []
  reserve-none h =
      let (c, m, made, done) = with_chunk-ok (alloc_chunk fill n b.pool) b k r b' h in
      (
        c,
        m,
        Room-fresh n c (alloc_chunk-Fits fill n (record { pool = b.pool; out = out }) c m inv made),
        done,
      )

  reserve-grow :
      (c : Chunk)
      → Chunk.IsValid c
      → with_chunk
          (alloc_chunk fill (n + c.len) b.pool)
          b
          (λ c' m. k (Chunk.copy c c') (retrieve c m))
        ≡ ok r b'
      → Passed (content c)
  reserve-grow c v h =
      let (c', m, made, done) =
        with_chunk-ok (alloc_chunk fill (n + c.len) b.pool) b
          (λ c' m. k (Chunk.copy c c') (retrieve c m)) r b' h in
      let fits =
        alloc_chunk-Fits fill (n + c.len) (record { pool = b.pool; out = out }) c' m inv made in
      (Chunk.copy c c', retrieve c m, Room-copy n c c' v fits, done)

  pub reserve-Room : Ready b.buf → reserve fill n b k ≡ ok r b' → Passed (held_by b.buf)
  unfolding reserve
  reserve-Room ready h = go b.buf ready h
    where
      go : (o : Option Chunk) → Ready o → reserve_at o fill n b k ≡ ok r b' → Passed (held_by o)
      go none ready h = reserve-none h
      go (some c) ready h =
          let front : (c.head == 0) ≡ true = (==_iff c.head 0).1 ready.1 in
          elim (Bool-cases (ltb (c.capacity - c.len) n)) [
            | inl full ↦ reserve-grow c ready.0 (ground arith)
            | inr fits ↦ (
              c,
              b.pool,
              record {
                valid = ready.0;
                front = ready.1;
                room = ground (arith, ready.0);
                same = refl;
              },
              ground arith,
            )
          ]
