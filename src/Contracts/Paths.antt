-- ===== src/Contracts/Paths.antt =====
-- src/contracts-v2.ts: a path inside the work folder, by the rules of its style. Node's `path.win32`
-- and `path.posix` and `toLowerCase` are parameters.
use codex_job_orchestrator.Common.{
  ℕ, String, Bool, true, false, ◌&&◌, ◌||◌, List, [], ◌∷◌, str_eq, any, ◌==◌, if◌then◌else◌, codes,
  is_letter, concat,
}

pub record PathLib : Type 0 where
  pub normalize : String → String
  pub is_absolute : String → Bool
  pub resolve : String → String → String

pub record Paths : Type 0 where
  pub win32 : PathLib
  pub posix : PathLib
  pub lower : String → String

pub data PathStyle : Type 0 where
  win32 posix : PathStyle

-- `\` is 92, `/` 47, `:` 58.
abbrev has_drive_root : List ℕ → Bool
has_drive_root (a ∷ b ∷ c ∷ rest) = is_letter a && b == 58 && (c == 92 || c == 47)
has_drive_root _ = false

unfoldable pub style_of : String → PathStyle
style_of p = if has_drive_root (codes p) || any (λ c. c == 92) (codes p) then win32 else posix

abbrev lib_of : Paths → PathStyle → PathLib
lib_of h win32 = h.win32
lib_of h posix = h.posix

abbrev fold_case : Paths → PathStyle → String → String
fold_case h win32 s = h.lower s
fold_case h posix s = s

unfoldable pub norm : Paths → String → String
unfolding style_of
norm h p = fold_case h (style_of p) ((lib_of h (style_of p)).normalize p)

unfoldable pub is_absolute : Paths → String → Bool
unfolding style_of
is_absolute h p = (lib_of h (style_of p)).is_absolute p

unfoldable pub resolve_inside : Paths → String → String → String
unfolding style_of
resolve_inside h root p = (lib_of h (style_of root)).resolve root p

abbrev pub starts_with : List ℕ → List ℕ → Bool
starts_with [] ys = true
starts_with (x ∷ xs) [] = false
starts_with (x ∷ xs) (y ∷ ys) = x == y && starts_with xs ys

abbrev pub separator : PathStyle → String
separator win32 = "\\"
separator posix = "/"

unfoldable pub is_inside : Paths → String → String → Bool
unfolding norm style_of
is_inside h root p =
    str_eq (norm h p) (norm h root)
    || starts_with (codes (concat (norm h root) (separator (style_of root)))) (codes (norm h p))
