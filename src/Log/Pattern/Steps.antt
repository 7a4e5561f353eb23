-- ===== src/Log/Pattern/Steps.antt =====
-- log.cpp, `LogFormatter::init`: what the two loops do on one piece of a pattern, and that every
-- pattern is read to its end.
use cpp_library.Base.{
  ℕ, zero, suc, ◌≤◌, Bool, true, false, ◌≡◌, ◌⊎◌, inl, inr, refl, sym, ap, ◌∙◌, ◌&&◌, ◌||◌, not,
  some, List, [], ◌∷◌, ◌++◌, append_assoc, append-nil, ◌==◌, Bool-cases, length, arith,
}
use cpp_library.Log.Pattern.{
  Part, Parts, is_alpha, Parsed, item, unclosed, format_loop, name_loop, literal, flush,
  pattern_error, starts_percent, scan,
}

-- No byte of a text is `b`.
pub data Without (b : ℕ) : List ℕ → Type 0 where
  empty : Without b []
  add : {c : ℕ} {cs : List ℕ} → (c == b) ≡ false → Without b cs → Without b (c ∷ cs)

-- A text that ends the name of an item in front of it
pub data Ends : List ℕ → Type 0 where
  at_end : Ends []
  at_byte :
      {c : ℕ} {cs : List ℕ}
      → is_alpha c ≡ false
      → (c == b'{') ≡ false
      → (c == b'}') ≡ false
      → Ends (c ∷ cs)

pub format_loop-reads :
    (str acc fmt rest : List ℕ)
    → Without b'}' fmt
    → format_loop str acc (fmt ++ b'}' ∷ rest) ≡ item str (acc ++ fmt) rest
unfolding format_loop
format_loop-reads str acc [] rest empty = ap (λ l. item str l rest) (sym (append-nil acc))
format_loop-reads str acc (c ∷ fmt) rest (add h w) = rw h (
    format_loop-reads str (acc ++ c ∷ []) fmt rest w
    ∙ ap (λ l. item str l rest) (append_assoc acc (c ∷ []) fmt))

-- A letter is neither a percent sign nor a brace.
alpha_lem :
    (c : ℕ)
    → is_alpha c ≡ true
    → ((c == b'%') ≡ false) × ((c == b'{') ≡ false) × ((c == b'}') ≡ false)
alpha_lem c h = (ground arith, ground arith, ground arith)

pub name_loop-plain :
    (c : ℕ) (rest : List ℕ)
    → is_alpha c ≡ true
    → Ends rest
    → name_loop [] (c ∷ rest) ≡ item (c ∷ []) [] rest
unfolding name_loop
name_loop-plain c [] a at_end = let (p, o, q) = alpha_lem c a in rw (a, o) refl
name_loop-plain c (d ∷ rest) a (at_byte h k l) =
    let (p, o, q) = alpha_lem c a in rw (a, o) (rw (h, k, l) refl)

pub name_loop-braced :
    (c : ℕ) (fmt rest : List ℕ)
    → is_alpha c ≡ true
    → Without b'}' fmt
    → name_loop [] (c ∷ b'{' ∷ (fmt ++ b'}' ∷ rest)) ≡ item (c ∷ []) fmt rest
unfolding name_loop
name_loop-braced c fmt rest a w =
    let (p, o, q) = alpha_lem c a in rw (a, o) (format_loop-reads (c ∷ []) [] fmt rest w)

pub scan-item :
    (fuel : ℕ) (nstr : List ℕ) (vec : List Part) (failed : Bool) (c : ℕ)
    (rest str fmt left : List ℕ)
    → is_alpha c ≡ true
    → name_loop [] (c ∷ rest) ≡ item str fmt left
    → scan (suc fuel) nstr vec failed (b'%' ∷ c ∷ rest)
      ≡ scan fuel []
          (flush nstr vec ++ record { text = str; format = fmt; is_item = true } ∷ [])
          failed
          left
unfolding scan
scan-item fuel nstr vec failed c rest str fmt left a e =
    let (p, o, q) = alpha_lem c a in rw (p, scan) (rw (e, scan) refl)

pub scan-text :
    (fuel : ℕ) (nstr : List ℕ) (vec : List Part) (failed : Bool) (cs rest : List ℕ)
    → Without b'%' cs
    → length (cs ++ rest) ≤ fuel
    → (fuel' : ℕ) × (length rest ≤ fuel')
      × (scan fuel nstr vec failed (cs ++ rest) ≡ scan fuel' (nstr ++ cs) vec failed rest)
unfolding scan
scan-text fuel nstr vec failed [] rest empty h =
    (fuel, h, ap (λ l. scan fuel l vec failed rest) (sym (append-nil nstr)))
scan-text zero nstr vec failed (c ∷ cs) rest (add p w) h = absurd (omega arith)
scan-text (suc fuel) nstr vec failed (c ∷ cs) rest (add p w) h =
    let (fuel', l, e) = scan-text fuel (nstr ++ c ∷ []) vec failed cs rest w (omega arith) in
    (
      fuel',
      l,
      rw (p, scan) (e ∙ ap (λ s. scan fuel' s vec failed rest) (append_assoc nstr (c ∷ []) cs)),
    )

Parsed-cases :
    (p : Parsed)
    → (p ≡ unclosed) ⊎ ((str : List ℕ) × (fmt : List ℕ) × (left : List ℕ) × (p ≡ item str fmt left))
Parsed-cases unclosed = inl refl
Parsed-cases (item str fmt left) = inr (str, fmt, left, refl)

-- What the inner loop leaves is no longer than what it was given.
parsed_left : Parsed → List ℕ
parsed_left (item str fmt left) = left
parsed_left unclosed = []

format_loop-left :
    (str acc rest : List ℕ) → length (parsed_left (format_loop str acc rest)) ≤ length rest
unfolding format_loop parsed_left
format_loop-left str acc [] = omega arith
format_loop-left str acc (c ∷ rest) = elim (Bool-cases (c == b'}')) [
  | inl h ↦ rw h (omega arith)
  | inr h ↦ let k = format_loop-left str (acc ++ c ∷ []) rest in rw h (omega arith)
]

name_loop-left : (str rest : List ℕ) → length (parsed_left (name_loop str rest)) ≤ length rest
unfolding name_loop parsed_left
name_loop-left str [] = omega arith
name_loop-left str (c ∷ rest) =
    elim (Bool-cases (not (is_alpha c) && not (c == b'{') && not (c == b'}'))) [
      | inl h ↦ rw h (omega arith)
      | inr h ↦ elim (Bool-cases (c == b'{')) [
        | inl k ↦ let m = format_loop-left str [] rest in rw (h, k) (omega arith)
        | inr k ↦ let m = name_loop-left (str ++ c ∷ []) rest in rw (h, k) (omega arith)
      ]
    ]

left_lem :
    (seen rest : List ℕ) {str fmt left : List ℕ}
    → name_loop seen rest ≡ item str fmt left
    → length left ≤ length rest
unfolding parsed_left
left_lem seen rest {str} {fmt} {left} e =
    let same : length (parsed_left (name_loop seen rest)) ≡ length left =
      ap (λ p. length (parsed_left p)) e in
    omega (arith, same, name_loop-left seen rest)

-- With fuel for each byte, `scan` comes to the end of every pattern.
pub scan_total :
    (fuel : ℕ) (nstr : List ℕ) (vec : List Part) (failed : Bool) (rest : List ℕ)
    → length rest ≤ fuel
    → (r : Parts) × (scan fuel nstr vec failed rest ≡ some r)
unfolding scan
scan_total fuel nstr vec failed [] h = ((flush nstr vec, failed), refl)
scan_total zero nstr vec failed (c ∷ rest) h = absurd (omega arith)
scan_total (suc fuel) nstr vec failed (c ∷ rest) h =
    elim (Bool-cases (not (c == b'%') || starts_percent rest)) [
      | inl p ↦
          let (r, e) = scan_total fuel (nstr ++ c ∷ []) vec failed rest (omega arith) in
          (r, rw (p, scan) e)
      | inr p ↦ elim (Parsed-cases (name_loop [] rest)) [
        | inl e ↦
            let (r, f) =
              scan_total fuel nstr (vec ++ literal pattern_error ∷ []) true rest (omega arith) in
            (r, rw (p, scan) (rw (e, scan) f))
        | inr (str, fmt, left, e) ↦
            let shorter : length left ≤ length rest = left_lem [] rest e in
            let vec' = flush nstr vec ++ record { text = str; format = fmt; is_item = true } ∷ [] in
            let (r, f) = scan_total fuel [] vec' failed left (omega arith) in
            (r, rw (p, scan) (rw (e, scan) f))
      ]
    ]
