-- ===== src/Common/Text.antt =====
-- Text as the code points that the source's regular expressions read.
use Prim.Native.Nat.{ℕ}
use Prim.Native.Char.{code}
use Prim.Native.String.{String, ◌++◌}
use mathlib.Core.Bool.{Bool, true, false, ◌&&◌, ◌||◌}
use mathlib.Core.List.{List, [], ◌∷◌}
use codex_job_orchestrator.Common.Tests.{ltb, leb, ◌==◌, if◌then◌else◌}

abbrev pub codes : String → List ℕ
codes String.[] = []
codes (String.◌∷◌ c s) = code c ∷ codes s

-- `[A-Za-z0-9_-]`.
abbrev pub is_id_char : ℕ → Bool
is_id_char c =
    (leb b'A' c && leb c b'Z')
    || (leb b'a' c && leb c b'z')
    || (leb b'0' c && leb c b'9')
    || c == b'_'
    || c == b'-'

abbrev pub is_empty : String → Bool
is_empty String.[] = true
is_empty (String.◌∷◌ c s) = false

-- `[A-Za-z]`.
abbrev pub is_letter : ℕ → Bool
is_letter c = (leb b'A' c && leb c b'Z') || (leb b'a' c && leb c b'z')

-- `a < b` on lists of code points, then on strings, where it is the source's order for text of the
-- Basic Multilingual Plane.
abbrev pub codes_lt : List ℕ → List ℕ → Bool
codes_lt [] [] = false
codes_lt [] (y ∷ ys) = true
codes_lt (x ∷ xs) [] = false
codes_lt (x ∷ xs) (y ∷ ys) = let rest = codes_lt xs ys in if x == y then rest else ltb x y

abbrev pub text_lt : String → String → Bool
text_lt a b = codes_lt (codes a) (codes b)

-- `[...xs, x].sort()` on an ordered list.
abbrev pub insert_text : String → List String → List String
insert_text x [] = x ∷ []
insert_text x (y ∷ ys) = let rest = y ∷ insert_text x ys in if text_lt x y then x ∷ y ∷ ys else rest

-- `a + b` on strings.
abbrev pub concat : String → String → String
concat a b = a ++ b

abbrev same_codes : List ℕ → List ℕ → Bool
same_codes [] [] = true
same_codes [] (y ∷ ys) = false
same_codes (x ∷ xs) [] = false
same_codes (x ∷ xs) (y ∷ ys) = x == y && same_codes xs ys

abbrev codes_end : List ℕ → List ℕ → Bool
codes_end end [] = same_codes end []
codes_end end (x ∷ xs) = same_codes end (x ∷ xs) || codes_end end xs

-- `s.endsWith(end)`.
abbrev pub ends_with : String → String → Bool
ends_with s end = codes_end (codes end) (codes s)
