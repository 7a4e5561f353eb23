-- ===== src/MemoryPool/Buffer/Queues.antt =====
-- MemoryPool/data_buf.cpp: what goes into a buffer comes out of it in order, over any sequence of
-- calls. Between two calls the pool, which other buffers share, may be in any state that keeps its
-- invariant.
use mathlib.Core.Path.{subst}
use cpp_library.Base.{
  ℕ, ◌≤◌, ◌≡◌, refl, sym, ap, ◌∙◌, Option, none, some, List, [], ◌∷◌, ◌++◌, take, append_assoc,
  take-append-drop, ◌==◌, ==_iff, Bool-cases, inl, inr, false,
}
use cpp_library.MemoryPool.Chunk
use cpp_library.MemoryPool.Chunk.{Chunk, content}
use cpp_library.MemoryPool.Chunk.Laws.{content-adjust, adjust-IsValid, content-pop}
use cpp_library.MemoryPool.Pool.{MemPool}
use cpp_library.MemoryPool.Pool.Laws.{Inv}
use cpp_library.MemoryPool.Buffer.{
  Buffers, ok, pop, pop_chunk, adjust, reserve, reserve_at, write_to_buf, read_from_fd, write_to_fd,
  wrote,
}
use cpp_library.MemoryPool.Buffer.Rooms.{held_by, Ready}
use cpp_library.MemoryPool.Buffer.Laws.{
  holding, bytes_of, fault≢ok, write_to_buf-appends, read_from_fd-appends, pop-drops,
  write_to_fd-drops,
}

abbrev pub with_pool : Option Chunk → MemPool → Buffers
with_pool o p = record { buf = o; pool = p }

-- A sequence of calls on an output buffer, with the bytes that were written into it and the bytes
-- that `write` took from the front of its chunk
pub data Output : Option Chunk → List ℕ → List ℕ → Type 0 where
  opened : Output none [] []
  writes :
      {o : Option Chunk} {written sent : List ℕ} (fill r : ℕ) (src : List ℕ) (p : MemPool)
      (out : List Chunk) (b : Buffers)
      → Output o written sent
      → Inv (record { pool = p; out = out })
      → write_to_buf fill src (with_pool o p) ≡ ok r b
      → Output b.buf (written ++ src) sent
  sends :
      {c : Chunk} {written sent : List ℕ} (n r : ℕ) (p : MemPool) (b : Buffers)
      → Output (some c) written sent
      → n ≤ c.len
      → write_to_fd (wrote n) (holding c p) ≡ ok r b
      → Output b.buf written (sent ++ take n (content c))

ok-injective : {n m : ℕ} {b c : Buffers} → ok n b ≡ ok m c → b ≡ c
ok-injective e = cc

-- An output buffer is a queue of bytes: the bytes sent, followed by those that it holds, are the
-- bytes written, in order, and its content stands at the front of a well-formed chunk.
pub Output-queue :
    (o : Option Chunk) (written sent : List ℕ)
    → Output o written sent
    → (sent ++ held_by o ≡ written) × Ready o
Output-queue o written sent opened = (refl, tt)
Output-queue o _ sent (writes {o = before} {written} fill r src p out b calls inv e) =
    let (q, ready) = Output-queue before written sent calls in
    let (_, held, ready') =
      write_to_buf-appends fill r src (with_pool before p) b out inv ready e in
    (
      ap (λ l. sent ++ l) held
          ∙ sym (append_assoc sent (held_by before) src)
          ∙ ap (λ l. l ++ src) q,
      ready',
    )
Output-queue o written _ (sends {c} {sent = gone} n r p b calls le e) =
    let (q, ready) = Output-queue (some c) written gone calls in
    let (c', result, held, ready') = write_to_fd-drops n c p ready le in
    let same : b.buf ≡ some c' = ap (λ x. x.buf) (ok-injective (sym e ∙ result)) in
    (
      rw same (
          append_assoc gone (take n (content c)) (content c')
          ∙ ap (λ l. gone ++ (take n (content c) ++ l)) held
          ∙ ap (λ l. gone ++ l) (take-append-drop n (content c))
          ∙ q),
      rw same ready',
    )

-- The buffer has no chunk, or a well-formed one.
abbrev pub Valid : Option Chunk → Type 0
Valid none = Unit {0}
Valid (some c) = Chunk.IsValid c

-- A sequence of calls on an input buffer, with the bytes that `read` put into it and the bytes that
-- were popped from the front of its content
pub data Input : Option Chunk → List ℕ → List ℕ → Type 0 where
  opened : Input none [] []
  reads :
      {o : Option Chunk} {received popped : List ℕ} (fill r need : ℕ) (got : Option (List ℕ))
      (p : MemPool) (out : List Chunk) (b : Buffers)
      → Input o received popped
      → Inv (record { pool = p; out = out })
      → read_from_fd fill (some need) got (with_pool o p) ≡ ok r b
      → Input b.buf (received ++ bytes_of got) popped
  pops :
      {c : Chunk} {received popped : List ℕ} (n r : ℕ) (p : MemPool) (b : Buffers)
      → Input (some c) received popped
      → n ≤ c.len
      → pop n (holding c p) ≡ ok r b
      → Input b.buf received (popped ++ take n (content c))
  adjusts :
      {o : Option Chunk} {received popped : List ℕ} (p : MemPool)
      → Input o received popped
      → Input (adjust (with_pool o p)).buf received popped

-- A read that returns 0 found the content at the front of the chunk.
reads-Ready :
    (o : Option Chunk) (fill r need : ℕ) (got : Option (List ℕ)) (p : MemPool) (b : Buffers)
    → Valid o
    → read_from_fd fill (some need) got (with_pool o p) ≡ ok r b
    → Ready o
unfolding read_from_fd reserve reserve_at
reads-Ready none fill r need got p b v e = tt
reads-Ready (some c) fill r need got p b v e = elim (Bool-cases (c.head == 0)) [
  | inl h ↦ (v, (==_iff c.head 0).0 h)
  | inr h ↦ absurd (at_fault got e h)
]
  where
    at_fault :
        (got : Option (List ℕ))
        → read_from_fd fill (some need) got (with_pool (some c) p) ≡ ok r b
        → (c.head == 0) ≡ false
        → ⊥
    at_fault none e h = fault≢ok (rw h at e)
    at_fault (some []) e h = fault≢ok (rw h at e)
    at_fault (some (x ∷ got)) e h = fault≢ok (rw h at e)

pops-Valid :
    (n : ℕ) (c : Chunk) (p : MemPool) → Chunk.IsValid c → n ≤ c.len → Valid (pop_chunk n c p).buf
unfolding pop_chunk
pops-Valid n c p v le = elim (Bool-cases ((Chunk.pop n c).len == 0)) [
  | inl e ↦ rw e tt
  | inr e ↦ rw e (content-pop n c v le).1
]

adjusts-held :
    (o : Option Chunk) (p : MemPool)
    → Valid o
    → (held_by (adjust (with_pool o p)).buf ≡ held_by o) × Valid (adjust (with_pool o p)).buf
unfolding adjust
adjusts-held none p v = (refl, tt)
adjusts-held (some c) p v = ((content-adjust c v).0, adjust-IsValid c v)

Ready-Valid : (o : Option Chunk) → Ready o → Valid o
Ready-Valid none r = tt
Ready-Valid (some c) r = r.0

-- Over any calls of pop and adjust, and any calls of read_from_fd that return 0 and in which no read
-- runs over the end of the chunk's array: the bytes popped, followed by those that the buffer holds,
-- are the bytes received, in order, and its chunk is well formed. A read of no bytes and one that
-- fails count as receiving nothing.
pub Input-queue :
    (o : Option Chunk) (received popped : List ℕ)
    → Input o received popped
    → (popped ++ held_by o ≡ received) × Valid o
Input-queue o received popped opened = (refl, tt)
Input-queue o _ popped (reads {o = before} {received} fill r need got p out b calls inv e) =
    let (q, v) = Input-queue before received popped calls in
    let ready = reads-Ready before fill r need got p b v e in
    let (_, held, ready') =
      read_from_fd-appends fill r need got (with_pool before p) b out inv ready e in
    (
      ap (λ l. popped ++ l) held
          ∙ sym (append_assoc popped (held_by before) (bytes_of got))
          ∙ ap (λ l. l ++ bytes_of got) q,
      Ready-Valid b.buf ready',
    )
Input-queue o received _ (pops {c} {popped = gone} n r p b calls le e) =
    let (q, v) = Input-queue (some c) received gone calls in
    let (result, held, _) = (pop-drops n c p v).0 le in
    let same : b.buf ≡ (pop_chunk n c p).buf = ap (λ x. x.buf) (ok-injective (sym e ∙ result)) in
    (
      ap (λ x. (gone ++ take n (content c)) ++ held_by x) same
          ∙ append_assoc gone (take n (content c)) (held_by (pop_chunk n c p).buf)
          ∙ ap (λ l. gone ++ (take n (content c) ++ l)) held
          ∙ ap (λ l. gone ++ l) (take-append-drop n (content c))
          ∙ q,
      subst Valid (sym same) (pops-Valid n c p v le),
    )
Input-queue o received popped (adjusts {o = before} p calls) =
    let (q, v) = Input-queue before received popped calls in
    let (held, v') = adjusts-held before p v in (ap (λ l. popped ++ l) held ∙ q, v')
