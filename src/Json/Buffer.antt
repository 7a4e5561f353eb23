-- ===== src/Json/Buffer.antt =====
-- MyJson/tutorial08/leptjson.cpp, `lept_context_push` and `lept_context_pop`: the growing stack.
pub mod Laws
use mathlib.Core.Option
use cpp_library.Base.{
  ℕ, zero, suc, ◌+◌, ◌-◌, ◌/◌, Option, none, some, List, ◌++◌, leb, ◌==◌, if◌then◌else◌, length,
  take, drop,
}

-- `stack`, `size` and `top` of `lept_context`: the bytes in use, first pushed first, so that
-- `top` is their number.
pub record Buffer : Type 0 where
  pub bytes : List ℕ
  pub size : ℕ

abbrev pub top : Buffer → ℕ
top b = length b.bytes

abbrev pub init_size : ℕ
init_size = 256

-- `while (top + n >= size) size += size >> 1`; `none` when the fuel ran out
unfoldable pub grow : ℕ → ℕ → ℕ → Option ℕ
grow zero need size = none
grow (suc f) need size =
    let more = grow f need (size + size / 2) in if leb size need then more else some size

-- The size after a push of `n` bytes.
unfoldable pub grown : ℕ → ℕ → ℕ → Option ℕ
unfolding grow
grown fuel need size =
    if leb size need then grow fuel need (if size == 0 then init_size else size) else some size

-- `lept_context_push` and the copy into the place that it returns; `none` also where
-- `assert(size > 0)` fails.
unfoldable pub push : ℕ → List ℕ → Buffer → Option Buffer
unfolding grown
push fuel bs b =
    if length bs == 0
    then none
    else Option.map (λ size. record { bytes = b.bytes ++ bs; size = size })
        (grown fuel (top b + length bs) b.size)

-- `lept_context_pop`: the last `n` bytes; `none` where the assertion fails.
unfoldable pub pop : ℕ → Buffer → Option (List ℕ × Buffer)
pop n b =
    if leb n (top b)
    then some (drop (top b - n) b.bytes, record b { bytes = take (top b - n) b.bytes })
    else none
