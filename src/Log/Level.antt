-- ===== src/Log/Level.antt =====
-- log.cpp: the names of the levels.
use cpp_library.Base.{ℕ, Bool, ◌≡◌, refl, List, [], ◌∷◌, if◌then◌else◌, leb, same}

pub data Level : Type 0 where
  unknow debug info warn error fatal : Level

-- The enumeration's values, which `>=` compares
abbrev pub rank : Level → ℕ
rank unknow = 0
rank debug = 1
rank info = 2
rank warn = 3
rank error = 4
rank fatal = 5

abbrev pub at_least : Level → Level → Bool
at_least l m = leb (rank m) (rank l)

abbrev debug_name : List ℕ
debug_name = b'D' ∷ b'E' ∷ b'B' ∷ b'U' ∷ b'G' ∷ []

abbrev info_name : List ℕ
info_name = b'I' ∷ b'N' ∷ b'F' ∷ b'O' ∷ []

abbrev warn_name : List ℕ
warn_name = b'W' ∷ b'A' ∷ b'R' ∷ b'N' ∷ []

abbrev error_name : List ℕ
error_name = b'E' ∷ b'R' ∷ b'R' ∷ b'O' ∷ b'R' ∷ []

abbrev fatal_name : List ℕ
fatal_name = b'F' ∷ b'A' ∷ b'T' ∷ b'A' ∷ b'L' ∷ []

unfoldable pub to_string : Level → List ℕ
to_string debug = debug_name
to_string info = info_name
to_string warn = warn_name
to_string error = error_name
to_string fatal = fatal_name
to_string unknow = b'U' ∷ b'N' ∷ b'K' ∷ b'N' ∷ b'O' ∷ b'W' ∷ []

unfoldable pub level_from_string : List ℕ → Level
level_from_string s =
    if same s (b'd' ∷ b'e' ∷ b'b' ∷ b'u' ∷ b'g' ∷ [])
    then debug
    else if same s (b'i' ∷ b'n' ∷ b'f' ∷ b'o' ∷ [])
    then info
    else if same s (b'w' ∷ b'a' ∷ b'r' ∷ b'n' ∷ [])
    then warn
    else if same s (b'e' ∷ b'r' ∷ b'r' ∷ b'o' ∷ b'r' ∷ [])
    then error
    else if same s (b'f' ∷ b'a' ∷ b't' ∷ b'a' ∷ b'l' ∷ [])
    then fatal
    else if same s debug_name
    then debug
    else if same s info_name
    then info
    else if same s warn_name
    then warn
    else if same s error_name
    then error
    else if same s fatal_name
    then fatal
    else unknow

-- Reading the name of a level gives the level back, also for UNKNOW.
pub level_from_string-to_string : (l : Level) → level_from_string (to_string l) ≡ l
unfolding level_from_string to_string
level_from_string-to_string unknow = refl
level_from_string-to_string debug = refl
level_from_string-to_string info = refl
level_from_string-to_string warn = refl
level_from_string-to_string error = refl
level_from_string-to_string fatal = refl
