-- ===== src/Json/Run.antt =====
-- MyJson/tutorial08/leptjson.cpp, `struct lept_context` as the parser uses it, and what a parsing
-- function returns. `top` counts the bytes on the context's stack; what lies above the `head` of a
-- running function are its own pushes, which the models of those functions carry in an argument.
use cpp_library.Base.{ℕ, ◌+◌, ◌-◌, ◌<◌, ◌≡◌, List, length, leb, if◌then◌else◌, ◌==◌}
use cpp_library.Json.Syntax.{ParseResult}
use cpp_library.Json.Scan.{peek, advance}

pub record Context : Type 0 where
  pub json : List ℕ
  pub top : ℕ

-- `ok` is LEPT_PARSE_OK with the value that is handed out, `err` another result code; `fault` is a
-- failed assertion, and `out_of_fuel` has no counterpart in the program.
pub data Run {ℓ} (A : Type ℓ) : Type ℓ where
  ok : A → Context → Run A
  err : ParseResult → Context → Run A
  fault out_of_fuel : Run A

abbrev pub bind {ℓ κ} : {A : Type ℓ} {B : Type κ} → Run A → (A → Context → Run B) → Run B
bind (ok a c) f = f a c
bind (err r c) f = err r c
bind fault f = fault
bind out_of_fuel f = out_of_fuel

-- EXPECT: the byte asserted, and behind it.
abbrev pub expect {ℓ} : {A : Type ℓ} → ℕ → Context → (Context → Run A) → Run A
expect ch c f = if peek c.json == ch then f (record c { json = advance c.json }) else fault

-- `lept_context_pop` of `n` bytes, with its assertion.
abbrev pub pop {ℓ} : {A : Type ℓ} → ℕ → Context → (Context → Run A) → Run A
pop n c f = if leb n c.top then f (record c { top = c.top - n }) else fault

abbrev pub push : ℕ → Context → Context
push n c = record c { top = c.top + n }

-- The call came to an end without a failed assertion, with the stack `t` bytes high, and a
-- success has left fewer than `n` bytes of the text.
pub data Ends {ℓ} {A : Type ℓ} (t n : ℕ) : Run A → Type ℓ where
  done : {a : A} {c : Context} → c.top ≡ t → length c.json < n → Ends t n (ok a c)
  failed : {r : ParseResult} {c : Context} → c.top ≡ t → Ends t n (err r c)

-- The call ended with the stack as high as before it, and a success has read something.
abbrev pub Settles {ℓ} : {A : Type ℓ} → Context → Run A → Type ℓ
Settles c r = Ends c.top (length c.json) r
