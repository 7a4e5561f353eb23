-- ===== src/Json/Buffer/Laws.antt =====
-- `lept_context_push` and `lept_context_pop`: room on the stack, and the one after the other.
use cpp_library.Json.Buffer.{Buffer, top, init_size, grow, grown, push, pop}
use cpp_library.Base.{
  ℕ, zero, suc, ◌+◌, ◌/◌, ◌≤◌, ◌<◌, ◌-◌, ◌≡◌, refl, ap, ◌∙◌, true, ◌⊎◌, inl, inr, some, List, ◌++◌,
  arith, leb, ◌==◌, length, length-append, take-length_append, drop-length_append, Bool-cases,
}

-- The buffer is unallocated or has room for one byte more.
pub record IsValid (b : Buffer) : Type 0 where
  pub sized : (b.size ≡ 0) ⊎ (2 ≤ b.size)
  pub fits : top b ≤ b.size

-- Each round adds at least one, since the size is never below 2.
grow_total :
    (f need size : ℕ)
    → 2 ≤ size
    → need < size + f
    → (s : ℕ) × (grow (suc f) need size ≡ some s) × (need < s) × (size ≤ s)
unfolding grow
grow_total zero need size h k = (size, ground arith, omega arith, omega arith)
grow_total (suc f) need size h k = elim (Bool-cases (leb size need)) [
  | inl more ↦
      let (s, e, l, m) = grow_total f need (size + size / 2) (ground arith) (ground arith) in
      (s, rw (more, grow) e, l, omega arith)
  | inr done ↦ (size, rw (done, grow), ground arith, omega arith)
]

grown_total :
    (fuel need size : ℕ)
    → (size ≡ 0) ⊎ (2 ≤ size)
    → need < fuel
    → (s : ℕ) × (grown fuel need size ≡ some s) × (need < s) × (size ≤ s)
unfolding grown
grown_total zero need size h k = elim k [ ]
grown_total (suc f) need size h k = elim (Bool-cases (leb size need)) [
  | inr done ↦ (size, rw (done, grown), ground arith, omega arith)
  | inl more ↦ elim (Bool-cases (size == 0)) [
    | inl new ↦
        let (s, e, l, m) = grow_total f need init_size (omega arith) (omega arith) in
        (s, rw (more, new, grown) e, l, ground arith)
    | inr old ↦
        let (s, e, l, m) = grow_total f need size (ground arith) (ground arith) in
        (s, rw (more, old, grown) e, l, m)
  ]
]

push_total :
    (fuel : ℕ) (bs : List ℕ) (b : Buffer)
    → IsValid b
    → 0 < length bs
    → top b + length bs < fuel
    → (s : ℕ) × (push fuel bs b ≡ some (record { bytes = b.bytes ++ bs; size = s }))
      × (top b + length bs < s)
      × (b.size ≤ s)
unfolding push
push_total fuel bs b v p h =
    let (s, e, l, m) = grown_total fuel (top b + length bs) b.size v.sized h in
    (s, ground arith, l, m)

-- With fuel above the bytes in use a push succeeds: it appends its bytes, leaves at least one
-- byte of room behind them, never shrinks the buffer and keeps it well formed.
pub push-IsValid :
    (fuel : ℕ) (bs : List ℕ) (b : Buffer)
    → IsValid b
    → 0 < length bs
    → top b + length bs < fuel
    → (b' : Buffer) × (push fuel bs b ≡ some b')
      × (b'.bytes ≡ b.bytes ++ bs)
      × (top b' < b'.size)
      × (b.size ≤ b'.size)
      × IsValid b'
push-IsValid fuel bs b v p h =
    let (s, e, l, m) = push_total fuel bs b v p h in
    let a = length-append b.bytes bs in
    (
      record { bytes = b.bytes ++ bs; size = s },
      e,
      refl,
      omega (arith, a),
      m,
      record { sized = inr (omega arith); fits = omega (arith, a) },
    )

push-bytes :
    (fuel : ℕ) (bs : List ℕ) (b b' : Buffer) → push fuel bs b ≡ some b' → b'.bytes ≡ b.bytes ++ bs
unfolding push
push-bytes fuel bs b b' e = ground arith

-- A pop takes exactly the bytes of the last push and gives the stack before it back.
pub pop-push :
    (fuel : ℕ) (bs : List ℕ) (b b' : Buffer)
    → push fuel bs b ≡ some b'
    → pop (length bs) b' ≡ some (bs, record b' { bytes = b.bytes })
unfolding push pop
pop-push fuel bs b b' e =
    let bytes : b'.bytes ≡ b.bytes ++ bs = push-bytes fuel bs b b' e in
    let len : length b'.bytes ≡ length b.bytes + length bs =
      ap length bytes ∙ length-append b.bytes bs in
    let room : leb (length bs) (length b'.bytes) ≡ true = ground arith in
    let rest : length b'.bytes - length bs ≡ length b.bytes = omega arith in
    rw (room, rest, bytes, take-length_append, drop-length_append)
