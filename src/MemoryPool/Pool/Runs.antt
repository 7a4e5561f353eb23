-- ===== src/MemoryPool/Pool/Runs.antt =====
-- The invariant of the pool on every run.
use cpp_library.Base.{
  ℕ, ◌+◌, ◌-◌, ◌/◌, ◌%◌, ◌^◌, ◌≤◌, ◌<◌, ◌≡◌, refl, ap, sym, ◌∙◌, inl, inr, true, List, [], ◌∷◌,
  ◌++◌, arith, Option-cases,
}
use cpp_library.MemoryPool.Chunk
use cpp_library.MemoryPool.Chunk.{Chunk, new_chunk}
use cpp_library.MemoryPool.Pool.{
  max_pool_size, MemPool, update, chunks, new_pool, class_of, chunk, take_chunk, alloc_chunk,
  retrieve, is_class,
}
use cpp_library.MemoryPool.Pool.Laws.{
  class_of_lem, kb, free_kb, AllFree, AllClasses, Sys, allocate, give_back, Reach, start, step, Inv,
  free_kb-update, AllFree-update, kb-chunks, AllFree-chunks,
}

new_pool-AllFree : (fill k : ℕ) → AllFree k ((new_pool fill).chain k)
unfolding new_pool
new_pool-AllFree fill =
    AllFree-update _ 4194304 (chunks fill 4194304 10)
      (AllFree-update _ 1048576 (chunks fill 1048576 25)
        (AllFree-update _ 262144 (chunks fill 262144 100)
          (AllFree-update _ 65536 (chunks fill 65536 250)
            (AllFree-update _ 16384 (chunks fill 16384 500)
              (AllFree-update _ 4096 (chunks fill 4096 4) (λ j. tt) (AllFree-chunks fill 4096 4))
              (AllFree-chunks fill 16384 500))
            (AllFree-chunks fill 65536 250))
          (AllFree-chunks fill 262144 100))
        (AllFree-chunks fill 1048576 25))
      (AllFree-chunks fill 4194304 10)

new_pool-kb : (fill : ℕ) → free_kb (new_pool fill).chain ≡ 116176
unfolding new_pool
new_pool-kb fill = omega (
  arith,
  kb-chunks fill 4096 4,
  kb-chunks fill 16384 500,
  kb-chunks fill 65536 250,
  kb-chunks fill 262144 100,
  kb-chunks fill 1048576 25,
  kb-chunks fill 4194304 10,
)

Inv-start : (fill : ℕ) → Inv (record { pool = new_pool fill; out = [] })
unfolding new_pool
Inv-start fill = record {
  free = new_pool-AllFree fill;
  left = total_is fill ∙ sym (new_pool-kb fill);
  total = unfold new_pool in refl;
  bound = omega (arith, total_is fill);
  classes = tt;
}
  where
    total_is : (fill : ℕ) → (new_pool fill).left_kb ≡ 116176
    total_is fill = unfold new_pool in refl

    bound_is : (fill : ℕ) → (new_pool fill).total_kb ≡ 116176
    bound_is fill = unfold new_pool in refl

-- What a successful `alloc_chunk` does: it takes the head of the chain of a class that holds the
-- request, or makes a new chunk where that chain is empty.
pub alloc_cases :
    (fill n : ℕ) (m m' : MemPool) (c : Chunk)
    → alloc_chunk fill n m ≡ chunk c m'
    → (k : ℕ) × (is_class k ≡ true) × (n ≤ k) × (take_chunk fill k (m.chain k) m ≡ chunk c m')
unfolding alloc_chunk
alloc_cases fill n m m' c h = elim (Option-cases (class_of n)) [
  | inl e ↦ absurd (ground arith)
  | inr (k, e) ↦ let (cls, le, least) = (class_of_lem n).1 k e in (k, cls, le, ground arith)
]

kb-append : (xs ys : List Chunk) → kb (xs ++ ys) ≡ kb xs + kb ys
kb-append [] ys = omega arith
kb-append (x ∷ xs) ys = omega (arith, kb-append xs ys)

AllClasses-remove :
    (xs : List Chunk) (c : Chunk) (ys : List Chunk)
    → AllClasses (xs ++ c ∷ ys)
    → (is_class c.capacity ≡ true) × AllClasses (xs ++ ys)
AllClasses-remove [] c ys h = h
AllClasses-remove (x ∷ xs) c ys h =
    let (cls, rest) = AllClasses-remove xs c ys h.1 in (cls, (h.0, rest))

record Made (k : ℕ) (old : MemPool) (c : Chunk) (m : MemPool) : Type 0 where
  size : c.capacity ≡ k
  chain : m.chain ≡ old.chain
  left : m.left_kb ≡ old.left_kb
  total : m.total_kb ≡ old.total_kb + k / 1024
  bound : m.total_kb < max_pool_size

take_chunk-nil :
    (fill k : ℕ) (old : MemPool) (c : Chunk) (m : MemPool)
    → is_class k ≡ true
    → old.total_kb < max_pool_size
    → take_chunk fill k [] old ≡ chunk c m
    → Made k old c m
unfolding take_chunk new_chunk
take_chunk-nil fill k old c m cls b h = record {
  size = ground arith;
  chain = ground arith;
  left = ground arith;
  total = ground arith;
  bound = ground arith;
}

Inv-new :
    (k : ℕ) (s : Sys) (c : Chunk) (m : MemPool)
    → Inv s
    → is_class k ≡ true
    → Made k s.pool c m
    → Inv (record { pool = m; out = c ∷ s.out })
Inv-new k s c m inv cls f = record {
  free = λ j. rw f.chain (inv.free j);
  left = f.left ∙ inv.left ∙ ap free_kb (sym f.chain);
  total = omega (arith, f.left, f.total, inv.total, ap (λ (x : ℕ). x / 1024) f.size);
  bound = f.bound;
  classes = (rw f.size cls, inv.classes);
}

pub record Reused (k : ℕ) (old : MemPool) (x : Chunk) (rest : List Chunk) (c : Chunk) (m : MemPool)
    : Type 0 where
  pub same : c ≡ x
  pub chain : m.chain ≡ update old.chain k rest
  pub left : m.left_kb ≡ (old.left_kb + 2 ^ 64 - k / 1024) % 2 ^ 64
  pub total : m.total_kb ≡ old.total_kb

pub take_chunk-cons :
    (fill k : ℕ) (old : MemPool) (x : Chunk) (rest : List Chunk) (c : Chunk) (m : MemPool)
    → take_chunk fill k (x ∷ rest) old ≡ chunk c m
    → Reused k old x rest c m
unfolding take_chunk
take_chunk-cons fill k old x rest c m h = record {
  same = ground arith;
  chain = ground arith;
  left = ground arith;
  total = ground arith;
}

Inv-reuse :
    (k : ℕ) (s : Sys) (x c : Chunk) (rest : List Chunk) (m : MemPool)
    → Inv s
    → is_class k ≡ true
    → s.pool.chain k ≡ x ∷ rest
    → Reused k s.pool x rest c m
    → Inv (record { pool = m; out = c ∷ s.out })
Inv-reuse k s x c rest m inv cls e f = record {
  free = λ j. rw f.chain (AllFree-update s.pool.chain k rest inv.free head.4 j);
  left = omega (arith, f.left, left_is, kept, ap free_kb f.chain);
  total =
      omega
        (arith, f.left, f.total, inv.total, inv.left, kept, left_is, ap (λ (x : ℕ). x / 1024) size);
  bound = omega (arith, f.total, inv.bound);
  classes = (rw size cls, inv.classes);
}
  where
    head : AllFree k (x ∷ rest)
    head = rw e at (inv.free k)

    size : c.capacity ≡ k
    size = ap (λ (y : Chunk). y.capacity) f.same ∙ head.0

    kept : free_kb (update s.pool.chain k rest) + k / 1024 ≡ free_kb s.pool.chain
    kept =
        omega
          (arith, free_kb-update s.pool.chain k rest cls, ap kb e, ap (λ (y : ℕ). y / 1024) head.0)

    left_is : (s.pool.left_kb + 2 ^ 64 - k / 1024) % 2 ^ 64 ≡ s.pool.left_kb - k / 1024
    left_is = omega (arith, kept, inv.left, inv.total, inv.bound)

Inv-give_back :
    (s : Sys) (before : List Chunk) (c c' : Chunk) (after : List Chunk)
    → Inv s
    → s.out ≡ before ++ c ∷ after
    → c'.capacity ≡ c.capacity
    → Chunk.IsValid c'
    → Inv (record { pool = retrieve c' s.pool; out = before ++ after })
unfolding retrieve
Inv-give_back s before c c' after inv e same v = record {
  free =
      AllFree-update s.pool.chain c'.capacity
        (record c' { len = 0; head = 0 } ∷ s.pool.chain c'.capacity) inv.free
        (refl, refl, refl, record { sized = v.sized; within = omega arith }, inv.free c'.capacity);
  left = omega (arith, wrap, grown, inv.left);
  total = omega (arith, wrap, shrunk, inv.total);
  bound = inv.bound;
  classes = removed.1;
}
  where
    removed : (is_class c.capacity ≡ true) × AllClasses (before ++ after)
    removed = AllClasses-remove before c after (rw e at inv.classes)

    cls : is_class c'.capacity ≡ true
    cls = rw same removed.0

    grown :
        free_kb (
          update s.pool.chain c'.capacity
            (record c' { len = 0; head = 0 } ∷ s.pool.chain c'.capacity))
        ≡ free_kb s.pool.chain + c'.capacity / 1024
    grown = omega (
      arith,
      free_kb-update s.pool.chain c'.capacity
          (record c' { len = 0; head = 0 } ∷ s.pool.chain c'.capacity) cls,
    )

    shrunk : kb s.out ≡ kb (before ++ after) + c'.capacity / 1024
    shrunk = omega (
      arith,
      ap kb e,
      kb-append before (c ∷ after),
      kb-append before after,
      ap (λ (y : ℕ). y / 1024) same,
    )

    wrap : (s.pool.left_kb + c'.capacity / 1024) % 2 ^ 64 ≡ s.pool.left_kb + c'.capacity / 1024
    wrap = omega (arith, shrunk, inv.total, inv.bound)

Inv-allocate :
    (fill n : ℕ) (s : Sys) (c : Chunk) (m : MemPool)
    → Inv s
    → alloc_chunk fill n s.pool ≡ chunk c m
    → Inv (record { pool = m; out = c ∷ s.out })
Inv-allocate fill n s c m inv h =
    let (k, cls, le, taken) = alloc_cases fill n s.pool m c h in
    go k cls (s.pool.chain k) refl taken
  where
    go :
        (k : ℕ)
        → is_class k ≡ true
        → (l : List Chunk) → s.pool.chain k ≡ l
        → take_chunk fill k (s.pool.chain k) s.pool ≡ chunk c m
        → Inv (record { pool = m; out = c ∷ s.out })
    go k cls [] e t =
        Inv-new k s c m inv cls (take_chunk-nil fill k s.pool c m cls inv.bound (rw e at t))
    go k cls (x ∷ rest) e t =
        Inv-reuse k s x c rest m inv cls e (take_chunk-cons fill k s.pool x rest c m (rw e at t))

-- In every state that callers reach by allocating and giving chunks back, free chunks are empty
-- and chained under their size, `m_left_size_kb_` is the size of the free chunks,
-- `m_total_size_kb_` that of all chunks, and the total stays below the limit.
pub Reach-Inv : {fill : ℕ} {s : Sys} → Reach fill s → Inv s
Reach-Inv {fill} start = Inv-start fill
Reach-Inv (step {s} r (allocate fill n c m h)) = Inv-allocate fill n s c m (Reach-Inv r) h
Reach-Inv (step {s} r (give_back before c c' after e same v)) =
    Inv-give_back s before c c' after (Reach-Inv r) e same v
