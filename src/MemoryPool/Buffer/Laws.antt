-- ===== src/MemoryPool/Buffer/Laws.antt =====
-- What the buffers hold after each operation.
use cpp_library.Base.{
  ℕ, ◌+◌, ◌≤◌, ◌<◌, ◌≡◌, ◌≢◌, ◌↔◌, refl, ap, sym, ◌∙◌, inl, inr, true, false, Option, none, some,
  List, [], ◌∷◌, ◌++◌, ltb, ◌==◌, if◌then◌else◌, length, take, drop, arith, ==_iff, Bool-cases,
  append-nil,
}
use cpp_library.MemoryPool.Chunk
use cpp_library.MemoryPool.Chunk.{Chunk, content, write_at}
use cpp_library.MemoryPool.Chunk.Laws.{
  content-adjust, adjust-IsValid, content-pop, content-write_at, length-write_at,
}
use cpp_library.MemoryPool.Pool.{MemPool}
use cpp_library.MemoryPool.Pool.Laws.{Inv}
use cpp_library.MemoryPool.Buffer.Rooms.{held_by, Ready, Room, content-empty, reserve-Room}
use cpp_library.MemoryPool.Buffer.{
  Buffers, ok, fault, pop, pop_chunk, write_to_buf, read_from_fd, write_to_fd, wrote,
}

-- The chunk after the bytes `src` were written behind its content.
abbrev filled : List ℕ → Chunk → Chunk
filled src c = record c { bytes = write_at c.len src c.bytes; len = c.len + length src }

filled-holds :
    (src held : List ℕ) (c : Chunk)
    → Room (length src) held c
    → (content (filled src c) ≡ held ++ src) × Ready (some (filled src c))
filled-holds src held c room = (bytes, (valid, room.front))
  where
    old : take c.len c.bytes ≡ held
    old = sym (ap (λ h. take c.len (drop h c.bytes)) room.front) ∙ room.same

    bytes : content (filled src c) ≡ held ++ src
    bytes =
        ap (λ h. take (c.len + length src) (drop h (write_at c.len src c.bytes))) room.front
        ∙ content-write_at c src room.valid room.front room.room
        ∙ ap (λ l. l ++ src) old

    valid : Chunk.IsValid (filled src c)
    valid = record {
      sized =
          length-write_at c.len src c.bytes (omega (arith, room.valid.sized, room.room))
          ∙ room.valid.sized;
      within = omega (arith, room.front, room.room);
    }

-- What a result of such a write says of the buffer after it.
filled-result :
    (src held : List ℕ) (c : Chunk) (m : MemPool) (r : ℕ) (b' : Buffers)
    → Room (length src) held c
    → ok 0 (record { buf = some (filled src c); pool = m }) ≡ ok r b'
    → (r ≡ 0) × (held_by b'.buf ≡ held ++ src) × Ready b'.buf
filled-result src held c m r b' room e =
    let (bytes, ready) = filled-holds src held c room in
    let same : b'.buf ≡ some (filled src c) = ground arith in
    (ground arith, ap held_by same ∙ bytes, rw same ready)

-- In a pool that keeps its invariant, `write_to_buf` on a buffer whose content starts at the front
-- appends the bytes, within the chunk's array, whenever it returns.
pub write_to_buf-appends :
    (fill r : ℕ) (src : List ℕ) (b b' : Buffers) (out : List Chunk)
    → Inv (record { pool = b.pool; out = out })
    → Ready b.buf
    → write_to_buf fill src b ≡ ok r b'
    → (r ≡ 0) × (held_by b'.buf ≡ held_by b.buf ++ src) × Ready b'.buf
unfolding write_to_buf
write_to_buf-appends fill r src b b' out inv ready h =
    let (c, m, room, done) = reserve-Room fill (length src) r b b' out _ inv ready h in
    filled-result src (held_by b.buf) c m r b' room done

pub fault≢ok : {n : ℕ} {b : Buffers} → fault ≢ ok n b
fault≢ok e = absurd cc

read_within :
    (need r : ℕ) (got : List ℕ) (c : Chunk) (m : MemPool) (b' : Buffers)
    → (if ltb c.capacity (c.len + length got)
        then fault
        else if need == 0
        then ok 0 (record { buf = some (filled got c); pool = m })
        else if length got == need
        then ok 0 (record { buf = some (filled got c); pool = m })
        else fault)
      ≡ ok r b'
    → (c.len + length got ≤ c.capacity)
      × (ok 0 (record { buf = some (filled got c); pool = m }) ≡ ok r b')
read_within need r got c m b' h = elim (Bool-cases (ltb c.capacity (c.len + length got))) [
  | inl e ↦ absurd (fault≢ok (rw e at h))
  | inr e ↦ elim (Bool-cases (need == 0)) [
    | inl z ↦ (ground arith, rw (e, z) at h)
    | inr z ↦ elim (Bool-cases (length got == need)) [
      | inl f ↦ (ground arith, rw (e, z, f) at h)
      | inr f ↦ absurd (fault≢ok (rw (e, z, f) at h))
    ]
  ]
]

-- What `read` put behind the content: nothing where it failed
abbrev pub bytes_of : Option (List ℕ) → List ℕ
bytes_of none = []
bytes_of (some got) = got

-- A result that only made room
reserved-result :
    (n r : ℕ) (held : List ℕ) (c : Chunk) (m : MemPool) (b' : Buffers)
    → Room n held c
    → ok 0 (record { buf = some c; pool = m }) ≡ ok r b'
    → (r ≡ 0) × (held_by b'.buf ≡ held ++ []) × Ready b'.buf
reserved-result n r held c m b' room e =
    let same : b'.buf ≡ some c = ground arith in
    (
      ground arith,
      ap held_by same ∙ room.same ∙ sym (append-nil held),
      rw same (room.valid, room.front),
    )

-- A `read_from_fd` that returns 0 appends exactly the bytes that `read` returned, within the
-- chunk's array.
pub read_from_fd-appends :
    (fill r need : ℕ) (got : Option (List ℕ)) (b b' : Buffers) (out : List Chunk)
    → Inv (record { pool = b.pool; out = out })
    → Ready b.buf
    → read_from_fd fill (some need) got b ≡ ok r b'
    → (r ≡ 0) × (held_by b'.buf ≡ held_by b.buf ++ bytes_of got) × Ready b'.buf
unfolding read_from_fd
read_from_fd-appends fill r need none b b' out inv ready h =
    let (c, m, room, done) = reserve-Room fill need r b b' out _ inv ready h in
    reserved-result need r (held_by b.buf) c m b' room done
read_from_fd-appends fill r need (some []) b b' out inv ready h =
    let (c, m, room, done) = reserve-Room fill need r b b' out _ inv ready h in
    reserved-result need r (held_by b.buf) c m b' room done
read_from_fd-appends fill r need (some (x ∷ got)) b b' out inv ready h =
    let (c, m, room, done) = reserve-Room fill need r b b' out _ inv ready h in
    let (fits, last) = read_within need r (x ∷ got) c m b' done in
    let room' : Room (length (x ∷ got)) (held_by b.buf) c = record {
      valid = room.valid;
      front = room.front;
      room = fits;
      same = room.same;
    } in
    filled-result (x ∷ got) (held_by b.buf) c m r b' room' last

abbrev pub holding : Chunk → MemPool → Buffers
holding c m = record { buf = some c; pool = m }

pop_chunk-held :
    (n : ℕ) (c : Chunk) (m : MemPool)
    → Chunk.IsValid c
    → n ≤ c.len
    → (held_by (pop_chunk n c m).buf ≡ drop n (content c))
      × ((n ≡ c.len) ↔ ((pop_chunk n c m).buf ≡ none))
unfolding pop_chunk
pop_chunk-held n c m v h =
    let (same, valid) = content-pop n c v h in
    elim (Bool-cases ((Chunk.pop n c).len == 0)) [
      | inl e ↦
          let z : (Chunk.pop n c).len ≡ 0 = (==_iff (Chunk.pop n c).len 0).0 e in
          rw e (sym (content-empty (Chunk.pop n c) z) ∙ same, (λ q. refl, λ q. all n c h z))
      | inr e ↦ rw e (same, (λ q. absurd (some_left n c q e), λ q. cc))
    ]
  where
    all : (n : ℕ) (c : Chunk) → n ≤ c.len → (Chunk.pop n c).len ≡ 0 → n ≡ c.len
    all n c h z = unfold Chunk.pop in omega arith

    some_left : (n : ℕ) (c : Chunk) → n ≡ c.len → ((Chunk.pop n c).len == 0) ≡ false → ⊥
    some_left n c q e = unfold Chunk.pop in ground arith

-- `pop` of what is there drops that many bytes, and hands the chunk back exactly when nothing is
-- left; where less is there, or no chunk, its assertion fails.
pub pop-drops :
    (n : ℕ) (c : Chunk) (m : MemPool)
    → Chunk.IsValid c
    → (n ≤ c.len
        → (pop n (holding c m) ≡ ok 0 (pop_chunk n c m))
          × (held_by (pop_chunk n c m).buf ≡ drop n (content c))
          × ((n ≡ c.len) ↔ ((pop_chunk n c m).buf ≡ none)))
      × (c.len < n → pop n (holding c m) ≡ fault)
      × (pop n (record { buf = none; pool = m }) ≡ fault)
unfolding pop
pop-drops n c m v = (
  λ h. let (held, gone) = pop_chunk-held n c m v h in (ground arith, held, gone),
  λ h. ground arith,
  refl,
)

-- A `write` that took `n` of the bytes of a ready buffer, none of them or some, leaves the rest of
-- them, again at the front of the chunk.
pub write_to_fd-drops :
    (n : ℕ) (c : Chunk) (m : MemPool)
    → Ready (some c)
    → n ≤ c.len
    → (c' : Chunk) × (write_to_fd (wrote n) (holding c m) ≡ ok n (holding c' m))
      × (content c' ≡ drop n (content c))
      × Ready (some c')
unfolding write_to_fd
write_to_fd-drops n c m ready h =
    let front : (c.head == 0) ≡ true = (==_iff c.head 0).1 ready.1 in
    let (same, valid) = content-pop n c ready.0 h in
    let rest = Chunk.pop n c in
    let (moved, head) = content-adjust rest valid in
    elim (Bool-cases (n == 0)) [
      | inl e ↦
          let z : n ≡ 0 = (==_iff n 0).0 e in
          (c, ground arith, ap (λ k. drop k (content c)) (sym z), ready)
      | inr e ↦ (Chunk.adjust rest, ground arith, moved ∙ same, (adjust-IsValid rest valid, head))
    ]
