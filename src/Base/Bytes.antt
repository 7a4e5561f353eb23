-- ===== src/Base/Bytes.antt =====
-- The comparison of two strings.
use Prim.Native.Nat.{ℕ}
use mathlib.Core.Path.{◌≡◌, refl}
use mathlib.Core.Bool.{Bool, true, false, ◌&&◌}
use mathlib.Core.List.{List, [], ◌∷◌}
use cpp_library.Base.Tests.{◌==◌, ==_refl, ==_iff}

-- `operator==` of two strings
abbrev pub same : List ℕ → List ℕ → Bool
same [] [] = true
same [] (d ∷ ds) = false
same (c ∷ cs) [] = false
same (c ∷ cs) (d ∷ ds) = c == d && same cs ds

pub same_refl : (s : List ℕ) → same s s ≡ true
same_refl [] = refl
same_refl (c ∷ cs) = rw (==_refl c) (same_refl cs)

pub and_both : (a b : Bool) → (a && b) ≡ true → (a ≡ true) × (b ≡ true)
and_both true true e = (refl, refl)
and_both true false e = (refl, e)
and_both false b e = absurd cc

pub same_sound : (s t : List ℕ) → same s t ≡ true → s ≡ t
same_sound [] [] e = refl
same_sound [] (d ∷ ds) e = absurd cc
same_sound (c ∷ cs) [] e = absurd cc
same_sound (c ∷ cs) (d ∷ ds) e =
    let (h, k) = and_both (c == d) (same cs ds) e in rw ((==_iff c d).0 h, same_sound cs ds k) refl
