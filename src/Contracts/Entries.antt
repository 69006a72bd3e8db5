-- ===== src/Contracts/Entries.antt =====
-- src/contracts-v2.ts: the checks of the scope, the acceptance commands, the report and the
-- admission, with the errors that they push. `show` prints a number.
use codex_job_orchestrator.Common.{
  ℕ, suc, String, Bool, true, false, not, ◌&&◌, ◌||◌, Option, some, List, [], ◌∷◌, ◌++◌, length,
  any, all, flat, leb, ◌==◌, if◌then◌else◌, codes, is_id_char, is_empty, concat, Number, Json,
  Items, Fields, get, int, neg_int, non_int, bool, string, array, object, nil, cons,
}
use codex_job_orchestrator.Contracts.Paths.{is_absolute, Paths, resolve_inside, is_inside}
use codex_job_orchestrator.Contracts.Budgets.{
  number_of, holds_number, error_if, is_there, unknown_fields,
}

abbrev pub has_nul : String → Bool
has_nul s = any (λ c. c == 0) (codes s)

unfoldable pub glob_errors : Paths → String → String → Option Json → List String
unfolding is_absolute is_inside resolve_inside
glob_errors h folder place (some (string g)) =
    if is_empty g
    then concat place " must be a non-empty string" ∷ []
    else if has_nul g
    then concat place " must not contain NUL" ∷ []
    else if is_absolute h g
    then concat place " must be a relative path, not absolute" ∷ []
    else error_if (not (is_inside h folder (resolve_inside h folder g)))
        (concat place " must not escape workFolder")
glob_errors h folder place _ = concat place " must be a non-empty string" ∷ []

abbrev pub entry_place : (ℕ → String) → String → ℕ → String
entry_place show f i = concat f (concat "[" (concat (show i) "]"))

unfoldable pub glob_items : Paths → (ℕ → String) → String → String → ℕ → Items → List String
unfolding glob_errors
glob_items h show folder f i nil = []
glob_items h show folder f i (cons g rest) =
    glob_errors h folder (entry_place show f i) (some g) ++ glob_items h show folder f (suc i) rest

unfoldable pub glob_array_errors :
    Paths → (ℕ → String) → String → String → Option Json → List String
unfolding glob_items
glob_array_errors h show folder f (some (array items)) = glob_items h show folder f 0 items
glob_array_errors h show folder f _ = concat f " must be an array" ∷ []

unfoldable pub cwd_errors : Paths → String → String → Option Json → List String
unfolding is_absolute is_inside resolve_inside
cwd_errors h folder f (some (string v)) =
    if is_empty v
    then concat f " must be a non-empty relative path inside workFolder" ∷ []
    else if is_absolute h v
    then concat f " must be a relative path, not absolute" ∷ []
    else error_if (not (is_inside h folder (resolve_inside h folder v)))
        (concat f " must not escape workFolder")
cwd_errors h folder f _ = concat f " must be a non-empty relative path inside workFolder" ∷ []

abbrev required_error : String → Fields → List String
required_error f o = error_if (not (is_there (get f o))) (concat "scope." (concat f " is required"))

unfoldable pub scope_checks : Paths → (ℕ → String) → String → Fields → List (List String)
unfolding glob_array_errors
scope_checks h show folder o =
    (unknown_fields ("readGlobs" ∷ "writeFiles" ∷ "forbiddenGlobs" ∷ []) "unknown scope field '" "'"
      o)
    ∷ (required_error "readGlobs" o)
    ∷ (required_error "writeFiles" o)
    ∷ (required_error "forbiddenGlobs" o)
    ∷ (glob_array_errors h show folder "scope.readGlobs" (get "readGlobs" o))
    ∷ (glob_array_errors h show folder "scope.writeFiles" (get "writeFiles" o))
    ∷ (glob_array_errors h show folder "scope.forbiddenGlobs" (get "forbiddenGlobs" o))
    ∷ []

unfoldable pub scope_errors : Paths → (ℕ → String) → String → Fields → List String
unfolding scope_checks
scope_errors h show folder o = flat (scope_checks h show folder o)

unfoldable pub validate_scope : Paths → (ℕ → String) → String → Option Json → List String
unfolding scope_errors
validate_scope h show folder (some (object o)) = scope_errors h show folder o
validate_scope h show folder _ = "scope must be an object" ∷ []

-- `[A-Za-z0-9._-]`, one to 64 of them.
abbrev matches_id : Option Json → Bool
matches_id (some (string s)) =
    not (is_empty s) && leb (length (codes s)) 64 && all (λ c. is_id_char c || c == b'.') (codes s)
matches_id _ = false

abbrev is_argument : Json → Bool
is_argument (string s) = not (is_empty s) && not (has_nul s)
is_argument _ = false

abbrev all_arguments : Items → Bool
all_arguments nil = true
all_arguments (cons a rest) = is_argument a && all_arguments rest

abbrev is_argv : Option Json → Bool
is_argv (some (array (cons a rest))) = all_arguments (cons a rest)
is_argv _ = false

-- `Number.isInteger(n) && lo <= n && n <= hi`.
abbrev pub between : ℕ → ℕ → Number → Bool
between lo hi (int n) = leb lo n && leb n hi
between lo hi (neg_int n) = false
between lo hi non_int = false

abbrev is_bool : Option Json → Bool
is_bool (some (bool b)) = true
is_bool _ = false

unfoldable pub command_checks : Paths → String → String → Fields → List (List String)
unfolding cwd_errors
command_checks h folder place o =
    (unknown_fields
      ("id" ∷ "argv" ∷ "cwdRelative" ∷ "timeoutSeconds" ∷ "required" ∷ "outputMaxChars" ∷ [])
      (concat "unknown " (concat place " field '")) "'" o)
    ∷ (error_if (not (matches_id (get "id" o)))
        (concat place ".id must match ^[A-Za-z0-9._-]{1,64}$"))
    ∷ (error_if (not (is_argv (get "argv" o)))
        (concat place ".argv must be a non-empty array of non-empty strings without NUL"))
    ∷ (cwd_errors h folder (concat place ".cwdRelative") (get "cwdRelative" o))
    ∷ (error_if (not (holds_number (between 1 3600) (number_of (get "timeoutSeconds" o))))
        (concat place ".timeoutSeconds must be an integer in [1, 3600]"))
    ∷ (error_if (not (is_bool (get "required" o))) (concat place ".required must be a boolean"))
    ∷ (error_if (not (holds_number (between 100 50000) (number_of (get "outputMaxChars" o))))
        (concat place ".outputMaxChars must be an integer in [100, 50000]"))
    ∷ []

unfoldable pub command_errors : Paths → String → String → Fields → List String
unfolding command_checks
command_errors h folder place o = flat (command_checks h folder place o)

unfoldable pub command_item_errors : Paths → String → String → Json → List String
unfolding command_errors
command_item_errors h folder place (object o) = command_errors h folder place o
command_item_errors h folder place _ = concat place " must be an object" ∷ []

unfoldable pub command_items : Paths → (ℕ → String) → String → ℕ → Items → List String
unfolding command_item_errors
command_items h show folder i nil = []
command_items h show folder i (cons c rest) =
    command_item_errors h folder (entry_place show "acceptance" i) c
    ++ command_items h show folder (suc i) rest

unfoldable pub validate_acceptance : Paths → (ℕ → String) → String → Option Json → List String
unfolding command_items
validate_acceptance h show folder (some (array items)) = command_items h show folder 0 items
validate_acceptance h show folder _ = "acceptance must be an array" ∷ []
