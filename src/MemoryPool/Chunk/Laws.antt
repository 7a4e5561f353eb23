-- ===== src/MemoryPool/Chunk/Laws.antt =====
-- MemoryPool/chunk.cpp: what the operations of a chunk do to its content.
use cpp_library.Base.{
  ℕ, zero, suc, ◌+◌, ◌-◌, ◌≡◌, ◌≤◌, refl, ap, sym, ◌∙◌, inl, inr, List, [], ◌∷◌, ◌++◌, ◌==◌, length,
  take, drop, replicate, arith, length-take, length-drop, length-append, Bool-cases,
}
use cpp_library.MemoryPool.Chunk.{Chunk, new_chunk, content, write_at, adjust, copy, pop, IsValid}

length-replicate : (n x : ℕ) → length (replicate n x) ≡ n
length-replicate zero x = refl
length-replicate (suc n) x = ap suc (length-replicate n x)

pub new_chunk-IsValid : (fill n : ℕ) → IsValid (new_chunk fill n)
unfolding new_chunk
new_chunk-IsValid fill n = record { sized = length-replicate n fill; within = omega arith }

pub length-write_at :
    (offset : ℕ) (src bytes : List ℕ)
    → offset + length src ≤ length bytes
    → length (write_at offset src bytes) ≡ length bytes
length-write_at offset src bytes h = omega (
  arith,
  length-append (take offset bytes) (src ++ drop (offset + length src) bytes),
  length-append src (drop (offset + length src) bytes),
  length-take offset bytes,
  length-drop (offset + length src) bytes,
)

pub length-content : (c : Chunk) → IsValid c → length (content c) ≡ c.len
length-content c v =
    omega (
      arith,
      v.sized,
      v.within,
      length-take c.len (drop c.head c.bytes),
      length-drop c.head c.bytes,
    )

take-append : (n : ℕ) (xs ys : List ℕ) → length xs ≡ n → take n (xs ++ ys) ≡ xs
take-append zero [] ys h = refl
take-append zero (x ∷ xs) ys h = absurd (omega arith)
take-append (suc n) [] ys h = absurd (omega arith)
take-append (suc n) (x ∷ xs) ys h = ap (◌∷◌ x) (take-append n xs ys (omega arith))

take-all : (n : ℕ) (xs : List ℕ) → length xs ≤ n → take n xs ≡ xs
take-all zero [] h = refl
take-all zero (x ∷ xs) h = absurd (omega arith)
take-all (suc n) [] h = refl
take-all (suc n) (x ∷ xs) h = ap (◌∷◌ x) (take-all n xs (omega arith))

take-length-zero : (n : ℕ) (xs : List ℕ) → n ≡ 0 → take n xs ≡ []
take-length-zero zero xs h = refl
take-length-zero (suc n) xs h = absurd (omega arith)

-- `adjust` moves the content to the front and changes nothing of it.
pub content-adjust :
    (c : Chunk) → IsValid c → (content (adjust c) ≡ content c) × ((adjust c).head ≡ 0)
unfolding adjust
content-adjust c v = (same, refl)
  where
    same : content (adjust c) ≡ content c
    same = elim (Bool-cases (c.head == 0)) [
      | inl e ↦ let z : c.head ≡ 0 = ground arith in rw (e, z)
      | inr e ↦ elim (Bool-cases (c.len == 0)) [
        | inl f ↦
            let z : c.len ≡ 0 = ground arith in
            take-length-zero c.len _ z ∙ sym (take-length-zero c.len _ z)
        | inr f ↦ rw (e, f) (take-append c.len (content c) _ (length-content c v))
      ]
    ]

pub adjust-IsValid : (c : Chunk) → IsValid c → IsValid (adjust c)
unfolding adjust
adjust-IsValid c v = record { sized = sized; within = omega (arith, v.within) }
  where
    written : length (write_at 0 (content c) c.bytes) ≡ c.capacity
    written =
        length-write_at 0 (content c) c.bytes (omega (arith, length-content c v, v.sized, v.within))
        ∙ v.sized

    sized : length (adjust c).bytes ≡ c.capacity
    sized = ground (arith, written, v.sized)

-- `copy` into a chunk that is large enough takes the content over.
pub content-copy :
    (other c : Chunk)
    → IsValid other
    → IsValid c
    → other.len ≤ c.capacity
    → (content (copy other c) ≡ content other) × IsValid (copy other c)
unfolding copy
content-copy other c vo v h =
    let len = length-content other vo in
    (
      take-append other.len (content other) _ len,
      record {
        sized = length-write_at 0 (content other) c.bytes (omega (arith, len, v.sized)) ∙ v.sized;
        within = omega arith;
      },
    )

drop-drop : (n m : ℕ) (xs : List ℕ) → drop (n + m) xs ≡ drop m (drop n xs)
drop-drop zero m xs = let e : zero + m ≡ m = omega arith in ap (λ k. drop k xs) e
drop-drop (suc n) zero [] = let e : suc n + zero ≡ suc n = omega arith in rw e
drop-drop (suc n) (suc m) [] = let e : suc n + suc m ≡ suc (n + suc m) = omega arith in rw e
drop-drop (suc n) m (x ∷ xs) =
    let e : suc n + m ≡ suc (n + m) = omega arith in rw e (drop-drop n m xs)

take-drop : (n m : ℕ) (xs : List ℕ) → take (m - n) (drop n xs) ≡ drop n (take m xs)
take-drop zero m xs = let e : m - zero ≡ m = omega arith in ap (λ k. take k xs) e
take-drop (suc n) zero xs = take-length-zero (zero - suc n) _ (omega arith)
take-drop (suc n) (suc m) [] = take-all (suc m - suc n) [] (omega arith)
take-drop (suc n) (suc m) (x ∷ xs) =
    let e : suc m - suc n ≡ m - n = omega arith in ap (λ k. take k (drop n xs)) e ∙ take-drop n m xs

-- `pop` takes `n` bytes off the front of the content.
pub content-pop :
    (n : ℕ) (c : Chunk)
    → IsValid c
    → n ≤ c.len
    → (content (pop n c) ≡ drop n (content c)) × IsValid (pop n c)
unfolding pop
content-pop n c v h = (
  ap (take (c.len - n)) (drop-drop c.head n c.bytes) ∙ take-drop n c.len (drop c.head c.bytes),
  record { sized = v.sized; within = omega (arith, v.within) },
)

take-append_add :
    (k n : ℕ) (xs ys : List ℕ) → length xs ≡ k → take (k + n) (xs ++ ys) ≡ xs ++ take n ys
take-append_add zero n [] ys h = let e : zero + n ≡ n = omega arith in ap (λ m. take m ys) e
take-append_add zero n (x ∷ xs) ys h = absurd (omega arith)
take-append_add (suc k) n [] ys h = absurd (omega arith)
take-append_add (suc k) n (x ∷ xs) ys h =
    let e : suc k + n ≡ suc (k + n) = omega arith in
    rw e (ap (◌∷◌ x) (take-append_add k n xs ys (omega arith)))

-- Bytes written behind the content of a chunk that starts at the front are appended to it.
pub content-write_at :
    (c : Chunk) (src : List ℕ)
    → IsValid c
    → c.head ≡ 0
    → c.len + length src ≤ c.capacity
    → take (c.len + length src) (write_at c.len src c.bytes) ≡ take c.len c.bytes ++ src
content-write_at c src v z h =
    let front : length (take c.len c.bytes) ≡ c.len =
      omega (arith, length-take c.len c.bytes, v.sized) in
    take-append_add c.len (length src) (take c.len c.bytes) _ front
    ∙ ap (◌++◌ (take c.len c.bytes)) (take-append (length src) src _ refl)
