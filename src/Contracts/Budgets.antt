-- ===== src/Contracts/Budgets.antt =====
-- src/contracts-v2.ts: `validateBudget`, with the errors that it pushes.
use codex_job_orchestrator.Common.{
  ℕ, max, String, ◌≡◌, refl, Bool, true, false, not, ◌&&◌, ◌||◌, Option, none, some, List, [], ◌∷◌,
  ◌++◌, str_eq, any, flat, ltb, if◌then◌else◌, is_some, concat, Number, is_pos_int, to_nat, Json,
  Fields, get, as_number, int, neg_int, non_int, number, string, object, end, field,
}

-- The number that a property holds; `none` when it is missing or no number.
abbrev pub number_of : Option Json → Option Number
number_of none = none
number_of (some v) = as_number v

abbrev is_nat : Number → Bool
is_nat (int n) = true
is_nat (neg_int n) = false
is_nat non_int = false

abbrev pub holds_number : (Number → Bool) → Option Number → Bool
holds_number p none = false
holds_number p (some n) = p n

unfoldable pub is_positive_integer : Option Json → Bool
is_positive_integer v = holds_number is_pos_int (number_of v)

unfoldable pub is_non_negative_integer : Option Json → Bool
is_non_negative_integer v = holds_number is_nat (number_of v)

-- `Number.isInteger(b) && a > b` for a natural number a.
abbrev pub above : ℕ → Option Number → Bool
above a none = false
above a (some (int b)) = ltb b a
above a (some (neg_int b)) = true
above a (some non_int) = false

abbrev nat_of : Option Json → ℕ
nat_of (some (number n)) = to_nat n
nat_of _ = 0

abbrev pub error_if : Bool → String → List String
error_if true m = m ∷ []
error_if false m = []

pub error_if-eq-nil : (b : Bool) (m : String) → error_if b m ≡ [] → b ≡ false
error_if-eq-nil true m h = cc
error_if-eq-nil false m h = refl

abbrev pub is_there : Option Json → Bool
is_there v = is_some v

-- `Object.keys` with those that are not among the known fields.
abbrev pub unknown_fields : List String → String → String → Fields → List String
unknown_fields known before after end = []
unknown_fields known before after (field k v fs) =
    let rest = unknown_fields known before after fs in
    error_if (not (any (str_eq k) known)) (concat before (concat k after)) ++ rest

abbrev budget_fields : List String
budget_fields =
    "maxRuntimeMinutes" ∷ "reportOnlyAfterMinutes" ∷ "maxFilesRead" ∷ "maxSourceLines"
    ∷ "maxToolCalls" ∷ "maxBashCommands" ∷ "explorationMinutes" ∷ "maxTranscriptBytes"
    ∷ "onExceeded" ∷ []

unfoldable pub runtime_errors : Option Json → List String
unfolding is_positive_integer
runtime_errors max =
    error_if (not (is_positive_integer max)) "budget.maxRuntimeMinutes must be a positive integer"

unfoldable pub report_only_errors : Option Json → Option Json → List String
unfolding is_non_negative_integer
report_only_errors max ro =
    if not (is_there ro)
    then []
    else if not (is_non_negative_integer ro)
    then "budget.reportOnlyAfterMinutes must be a non-negative integer" ∷ []
    else error_if (above (nat_of ro) (number_of max))
        "budget.reportOnlyAfterMinutes must not exceed budget.maxRuntimeMinutes"

unfoldable pub cap_errors : String → Option Json → List String
unfolding is_positive_integer
cap_errors f v =
    error_if (is_there v && not (is_positive_integer v))
      (concat "budget." (concat f " must be a positive integer"))

abbrev is_integer : Option Number → Bool
is_integer (some (int n)) = true
is_integer (some (neg_int n)) = true
is_integer (some non_int) = false
is_integer none = false

unfoldable pub exploration_errors : Option Json → Option Json → Option Json → List String
unfolding is_non_negative_integer
exploration_errors max ro exp =
    if not (is_there exp)
    then []
    else if not (is_non_negative_integer exp)
    then "budget.explorationMinutes must be a non-negative integer" ∷ []
    else if above (nat_of exp) (number_of max)
    then "budget.explorationMinutes must not exceed budget.maxRuntimeMinutes" ∷ []
    else error_if (is_integer (number_of max) && above (nat_of exp) (number_of ro))
        "budget.explorationMinutes must not exceed budget.reportOnlyAfterMinutes"

abbrev pub is_on_exceeded : Option Json → Bool
is_on_exceeded (some (string s)) = str_eq s "report_partial" || str_eq s "fail"
is_on_exceeded _ = false

unfoldable pub budget_checks : Fields → List (List String)
unfolding runtime_errors report_only_errors cap_errors exploration_errors
budget_checks o =
    (unknown_fields budget_fields "unknown budget field '" "'" o)
    ∷ (runtime_errors (get "maxRuntimeMinutes" o))
    ∷ (report_only_errors (get "maxRuntimeMinutes" o) (get "reportOnlyAfterMinutes" o))
    ∷ (cap_errors "maxFilesRead" (get "maxFilesRead" o))
    ∷ (cap_errors "maxSourceLines" (get "maxSourceLines" o))
    ∷ (cap_errors "maxToolCalls" (get "maxToolCalls" o))
    ∷ (cap_errors "maxBashCommands" (get "maxBashCommands" o))
    ∷ (cap_errors "maxTranscriptBytes" (get "maxTranscriptBytes" o))
    ∷ (exploration_errors (get "maxRuntimeMinutes" o) (get "reportOnlyAfterMinutes" o)
        (get "explorationMinutes" o))
    ∷ (error_if (is_there (get "onExceeded" o) && not (is_on_exceeded (get "onExceeded" o)))
        "budget.onExceeded must be report_partial | fail")
    ∷ []

unfoldable pub budget_errors : Fields → List String
unfolding budget_checks
budget_errors o = flat (budget_checks o)

unfoldable pub validate_budget : Option Json → List String
unfolding budget_errors
validate_budget (some (object o)) = budget_errors o
validate_budget _ = "budget must be an object" ∷ []
