-- ===== src/Contracts/Validate.antt =====
-- src/contracts-v2.ts: `validateTaskContractV2`, and `buildLegacyContract` with its contract as the
-- object that it is.
use codex_job_orchestrator.Common.{
  ℕ, min, String, Bool, false, not, ◌||◌, Option, none, some, List, [], ◌∷◌, ◌++◌, str_eq, any,
  flat, if◌then◌else◌, or_default, is_some, is_empty, ends_with, is_int, Json, Fields, get, int,
  number, string, array, object, nil, end, field,
}
use codex_job_orchestrator.Contracts.Paths.{is_absolute, Paths, norm, resolve_inside, is_inside}
use codex_job_orchestrator.Contracts.Budgets.{
  number_of, holds_number, error_if, unknown_fields, validate_budget,
}
use codex_job_orchestrator.Contracts.Entries.{validate_scope, between, validate_acceptance}

unfoldable pub deliverable_errors : Paths → String → Option Json → List String
unfolding norm is_absolute is_inside resolve_inside
deliverable_errors h folder none = []
deliverable_errors h folder (some (string d)) =
    if is_empty d
    then "reporting.deliverablePath must be a non-empty string" ∷ []
    else if not (is_absolute h d)
    then "reporting.deliverablePath must be an absolute path" ∷ []
    else if not (is_inside h folder (resolve_inside h folder d))
    then "reporting.deliverablePath must be inside workFolder" ∷ []
    else error_if (not (ends_with (norm h d) ".md")) "reporting.deliverablePath must end with .md"
deliverable_errors h folder _ = "reporting.deliverablePath must be a non-empty string" ∷ []

unfoldable pub validate_reporting : Paths → String → Option Json → List String
unfolding deliverable_errors
validate_reporting h folder (some (object o)) =
    unknown_fields ("deliverablePath" ∷ []) "unknown reporting field '" "'" o
    ++ deliverable_errors h folder (get "deliverablePath" o)
validate_reporting h folder _ = "reporting must be an object" ∷ []

abbrev pub is_one_of : List String → Option Json → Bool
is_one_of names (some (string s)) = any (str_eq s) names
is_one_of names _ = false

unfoldable pub validate_admission : Option Json → List String
validate_admission (some (object o)) =
    unknown_fields ("resourceClass" ∷ "priority" ∷ []) "unknown admission field '" "'" o
    ++ (error_if (not (is_one_of ("light" ∷ "build" ∷ "heavy" ∷ []) (get "resourceClass" o)))
          "admission.resourceClass must be light | build | heavy"
        ++ error_if (not (holds_number (between 0 3) (number_of (get "priority" o))))
            "admission.priority must be an integer in [0, 3]")
validate_admission _ = "admission must be an object" ∷ []

unfoldable pub contract_checks : Paths → (ℕ → String) → String → Fields → List (List String)
unfolding validate_scope validate_budget validate_acceptance validate_reporting validate_admission
contract_checks h show folder c =
    (unknown_fields
      ("schemaVersion" ∷ "scope" ∷ "writePolicy" ∷ "budget" ∷ "acceptance" ∷ "reporting"
        ∷ "admission" ∷ [])
      "unknown top-level field '" "'" c)
    ∷ (error_if (not (holds_number (is_int 2) (number_of (get "schemaVersion" c))))
        "schemaVersion must be 2")
    ∷ (validate_scope h show folder (get "scope" c))
    ∷ (error_if
        (not (
          is_one_of ("read_only_report" ∷ "listed_writes" ∷ "workspace_legacy" ∷ [])
            (get "writePolicy" c)))
        "writePolicy must be read_only_report | listed_writes | workspace_legacy")
    ∷ (validate_budget (get "budget" c))
    ∷ (validate_acceptance h show folder (get "acceptance" c))
    ∷ (validate_reporting h folder (get "reporting" c))
    ∷ (validate_admission (get "admission" c))
    ∷ []

unfoldable pub contract_errors : Paths → (ℕ → String) → String → Fields → List String
unfolding contract_checks
contract_errors h show folder c = flat (contract_checks h show folder c)

pub data Validation : Type 0 where
  valid : Fields → Validation
  invalid : List String → Validation

abbrev pub verdict_of : Fields → List String → Validation
verdict_of c [] = valid c
verdict_of c (e ∷ es) = invalid (e ∷ es)

unfoldable pub validate_task_contract_v2 : Paths → (ℕ → String) → String → Json → Validation
unfolding contract_errors
validate_task_contract_v2 h show folder (object c) = verdict_of c (contract_errors h show folder c)
validate_task_contract_v2 h show folder _ = invalid ("contract must be an object" ∷ [])

pub record LegacyOptions : Type 0 where
  pub task_type : String
  pub deliverable_path : Option String
  pub max_runtime_minutes : Option ℕ

abbrev pub legacy_policy : LegacyOptions → String
legacy_policy o =
    if str_eq o.task_type "research" || str_eq o.task_type "analysis"
    then (if is_some o.deliverable_path then "read_only_report" else "workspace_legacy")
    else "workspace_legacy"

abbrev pub legacy_reporting : Option String → Fields
legacy_reporting none = end
legacy_reporting (some d) = field "deliverablePath" (string d) end

abbrev nat : ℕ → Json
nat n = number (int n)

unfoldable pub legacy_budget : ℕ → Fields
legacy_budget m = field "maxRuntimeMinutes" (nat m) (
    field "reportOnlyAfterMinutes" (nat m) (
      field "maxFilesRead" (nat 200) (
        field "maxSourceLines" (nat 50000) (
          field "maxToolCalls" (nat 500) (
            field "maxBashCommands" (nat 100) (
              field "explorationMinutes" (nat (min 15 m)) (
                field "maxTranscriptBytes" (nat 4194304)
                  (field "onExceeded" (string "report_partial") end))))))))

unfoldable pub build_legacy_contract : LegacyOptions → Fields
unfolding legacy_budget
build_legacy_contract o = field "schemaVersion" (nat 2) (
    field "scope"
      (object (
        field "readGlobs" (array nil)
          (field "writeFiles" (array nil) (field "forbiddenGlobs" (array nil) end))))
      (field "writePolicy" (string (legacy_policy o)) (
        field "budget" (object (legacy_budget (or_default o.max_runtime_minutes 120))) (
          field "acceptance" (array nil) (
            field "reporting" (object (legacy_reporting o.deliverable_path)) (
              field "admission"
                (object (field "resourceClass" (string "light") (field "priority" (nat 0) end)))
                end))))))
