-- ===== src/Contracts/Contained.antt =====
-- src/contracts-v2.ts: a path that passes its check stays inside the work folder.
use codex_job_orchestrator.Common.{
  String, ◌≡◌, refl, ◌⊎◌, inl, inr, Bool, true, false, not, Option, none, some, [], ◌∷◌,
  if◌then◌else◌, is_empty, concat, ends_with, Json, Items, Fields, get, null, bool, number, string,
  array, object, nil, cons, ℕ, List, ◌++◌, codes, ◌==◌, arith, eq_iff, str_eq, Bool-cases,
}
use codex_job_orchestrator.Contracts.Paths.{
  is_absolute, Paths, norm, resolve_inside, is_inside, style_of, separator, starts_with,
}
use codex_job_orchestrator.Contracts.Budgets.{error_if}
use codex_job_orchestrator.Contracts.Entries.{has_nul, glob_errors, cwd_errors}
use codex_job_orchestrator.Contracts.Validate.{deliverable_errors}

-- By the codes of the normalized paths: p is the root, or the root, the separator of its style and
-- something further.
abbrev pub LiesIn : Paths → String → String → Type 0
LiesIn h root p =
    (norm h p ≡ norm h root)
    ⊎ ((rest : List ℕ) × (codes (norm h p)
          ≡ codes (concat (norm h root) (separator (style_of root))) ++ rest))

starts_with-eq_append :
    (xs ys : List ℕ) → starts_with xs ys ≡ true → (rest : List ℕ) × (ys ≡ xs ++ rest)
starts_with-eq_append [] ys e = (ys, refl)
starts_with-eq_append (x ∷ xs) [] e = cc
starts_with-eq_append (x ∷ xs) (y ∷ ys) e = elim (Bool-cases (x == y)) [
  | inl t ↦ let (rest, same) = starts_with-eq_append xs ys (ground arith) in (rest, ground arith)
  | inr f ↦ ground arith
]

is_inside-LiesIn : (h : Paths) (root p : String) → is_inside h root p ≡ true → LiesIn h root p
unfolding is_inside
is_inside-LiesIn h root p e = elim (Bool-cases (str_eq (norm h p) (norm h root))) [
  | inl t ↦ inl ((eq_iff (norm h p) (norm h root)).0 t)
  | inr f ↦ inr (
      starts_with-eq_append (codes (concat (norm h root) (separator (style_of root))))
        (codes (norm h p)) (ground arith))
]

-- A relative path that resolves inside the folder.
abbrev pub IsContained : Paths → String → Option Json → Type 0
IsContained h folder v =
    (s : String) × (v ≡ some (string s))
    × (is_empty s ≡ false)
    × (is_absolute h s ≡ false)
    × LiesIn h folder (resolve_inside h folder s)

abbrev pub EveryItem : (Json → Type 0) → Items → Type 0
EveryItem P nil = Unit
EveryItem P (cons v rest) = P v × EveryItem P rest

abbrev pub EveryOf : (Json → Type 0) → Option Json → Type 0
EveryOf P v = (items : Items) × (v ≡ some (array items)) × EveryItem P items

-- A command is an object whose folder is contained.
abbrev pub RunsInside : Paths → String → Json → Type 0
RunsInside h folder v = (o : Fields) × (v ≡ object o) × IsContained h folder (get "cwdRelative" o)

-- The report is named by an absolute path inside the folder that ends with `.md`, or not at all.
abbrev pub DeliversInside : Paths → String → Option Json → Type 0
DeliversInside h folder v =
    (v ≡ none)
    ⊎ ((s : String) × (v ≡ some (string s))
        × (is_absolute h s ≡ true)
        × LiesIn h folder (resolve_inside h folder s)
        × (ends_with (norm h s) ".md" ≡ true))

module _ (h : Paths) (folder place s : String) where
  glob_errors-string :
      glob_errors h folder place (some (string s)) ≡ [] → IsContained h folder (some (string s))
  unfolding glob_errors
  glob_errors-string e =
      by_tests (is_empty s) (has_nul s) (is_absolute h s)
        (is_inside h folder (resolve_inside h folder s)) refl refl refl e
    where
      by_tests :
          (a b c d : Bool)
          → is_empty s ≡ a
          → is_absolute h s ≡ c
          → is_inside h folder (resolve_inside h folder s) ≡ d
          → (if a
              then concat place " must be a non-empty string" ∷ []
              else if b
              then concat place " must not contain NUL" ∷ []
              else if c
              then concat place " must be a relative path, not absolute" ∷ []
              else error_if (not d) (concat place " must not escape workFolder"))
            ≡ []
          → IsContained h folder (some (string s))
      by_tests true b c d p q r e = cc
      by_tests false true c d p q r e = cc
      by_tests false false true d p q r e = cc
      by_tests false false false true p q r e =
          (s, refl, p, q, is_inside-LiesIn h folder (resolve_inside h folder s) r)
      by_tests false false false false p q r e = cc

  cwd_errors-string :
      cwd_errors h folder place (some (string s)) ≡ [] → IsContained h folder (some (string s))
  unfolding cwd_errors
  cwd_errors-string e =
      by_tests (is_empty s) (is_absolute h s) (is_inside h folder (resolve_inside h folder s)) refl
        refl refl e
    where
      by_tests :
          (a c d : Bool)
          → is_empty s ≡ a
          → is_absolute h s ≡ c
          → is_inside h folder (resolve_inside h folder s) ≡ d
          → (if a
              then concat place " must be a non-empty relative path inside workFolder" ∷ []
              else if c
              then concat place " must be a relative path, not absolute" ∷ []
              else error_if (not d) (concat place " must not escape workFolder"))
            ≡ []
          → IsContained h folder (some (string s))
      by_tests true c d p q r e = cc
      by_tests false true d p q r e = cc
      by_tests false false true p q r e =
          (s, refl, p, q, is_inside-LiesIn h folder (resolve_inside h folder s) r)
      by_tests false false false p q r e = cc

  deliverable_errors-string :
      deliverable_errors h folder (some (string s)) ≡ [] → DeliversInside h folder (some (string s))
  unfolding deliverable_errors
  deliverable_errors-string e =
      by_tests (is_empty s) (is_absolute h s) (is_inside h folder (resolve_inside h folder s))
        (ends_with (norm h s) ".md") refl refl refl e
    where
      by_tests :
          (a c d m : Bool)
          → is_absolute h s ≡ c
          → is_inside h folder (resolve_inside h folder s) ≡ d
          → ends_with (norm h s) ".md" ≡ m
          → (if a
              then "reporting.deliverablePath must be a non-empty string" ∷ []
              else if not c
              then "reporting.deliverablePath must be an absolute path" ∷ []
              else if not d
              then "reporting.deliverablePath must be inside workFolder" ∷ []
              else error_if (not m) "reporting.deliverablePath must end with .md")
            ≡ []
          → DeliversInside h folder (some (string s))
      by_tests true c d m p q r e = cc
      by_tests false false d m p q r e = cc
      by_tests false true false m p q r e = cc
      by_tests false true true false p q r e = cc
      by_tests false true true true p q r e =
          inr (s, refl, p, is_inside-LiesIn h folder (resolve_inside h folder s) q, r)

module _ (h : Paths) (folder : String) where
  pub glob_errors-IsContained :
      (place : String) (v : Option Json)
      → glob_errors h folder place v ≡ []
      → IsContained h folder v
  unfolding glob_errors
  glob_errors-IsContained place (some (string s)) e = glob_errors-string h folder place s e
  glob_errors-IsContained place none e = cc
  glob_errors-IsContained place (some null) e = cc
  glob_errors-IsContained place (some (bool b)) e = cc
  glob_errors-IsContained place (some (number n)) e = cc
  glob_errors-IsContained place (some (array n)) e = cc
  glob_errors-IsContained place (some (object n)) e = cc

  pub cwd_errors-IsContained :
      (place : String) (v : Option Json) → cwd_errors h folder place v ≡ [] → IsContained h folder v
  unfolding cwd_errors
  cwd_errors-IsContained place (some (string s)) e = cwd_errors-string h folder place s e
  cwd_errors-IsContained place none e = cc
  cwd_errors-IsContained place (some null) e = cc
  cwd_errors-IsContained place (some (bool b)) e = cc
  cwd_errors-IsContained place (some (number n)) e = cc
  cwd_errors-IsContained place (some (array n)) e = cc
  cwd_errors-IsContained place (some (object n)) e = cc

  pub deliverable_errors-DeliversInside :
      (v : Option Json) → deliverable_errors h folder v ≡ [] → DeliversInside h folder v
  unfolding deliverable_errors
  deliverable_errors-DeliversInside none e = inl refl
  deliverable_errors-DeliversInside (some (string s)) e = deliverable_errors-string h folder "" s e
  deliverable_errors-DeliversInside (some null) e = cc
  deliverable_errors-DeliversInside (some (bool b)) e = cc
  deliverable_errors-DeliversInside (some (number n)) e = cc
  deliverable_errors-DeliversInside (some (array n)) e = cc
  deliverable_errors-DeliversInside (some (object n)) e = cc
