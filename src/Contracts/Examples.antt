-- ===== src/Contracts/Examples.antt =====
-- src/contracts-v2.ts: a contract of a job of old, and its limits.
use codex_job_orchestrator.Common.{
  ℕ, String, ◌≡◌, refl, some, arith, if◌then◌else◌, codes, concat, Fields, get, object, field, end,
  number, int, string, bool, array, cons, nil, true,
}
use codex_job_orchestrator.Budget.{BudgetSpec, normalize_budget_spec}
use codex_job_orchestrator.Contracts.Paths.{
  PathLib, is_absolute, Paths, style_of, norm, resolve_inside, starts_with, is_inside,
}
use codex_job_orchestrator.Contracts.Budgets.{
  is_positive_integer, is_non_negative_integer, runtime_errors, report_only_errors, cap_errors,
  exploration_errors, budget_checks, budget_errors, validate_budget,
}
use codex_job_orchestrator.Contracts.Entries.{
  glob_errors, glob_items, glob_array_errors, scope_checks, scope_errors, validate_scope,
  cwd_errors, command_checks, command_errors, command_item_errors, command_items,
  validate_acceptance,
}
use codex_job_orchestrator.Contracts.Validate.{
  contract_errors, contract_checks, deliverable_errors, validate_reporting, validate_admission,
  validate_task_contract_v2, LegacyOptions, legacy_budget, build_legacy_contract, valid,
}
use codex_job_orchestrator.Contracts.Contained.{EveryOf, RunsInside}
use codex_job_orchestrator.Contracts.Inside.{ScopeInside, ReportInside, valid_stays_inside}
use codex_job_orchestrator.Contracts.Limits.{read_budget, IsWithin}
use codex_job_orchestrator.Contracts.Within.{IsUsable, validate_budget-IsUsable}
use codex_job_orchestrator.Contracts.Legacy.{legacy_is_valid}

abbrev plain : PathLib
plain = record {
  normalize = λ p. p;
  is_absolute = λ p. starts_with (codes "/") (codes p);
  resolve = λ root p. if starts_with (codes "/") (codes p) then p else concat root (concat "/" p);
}

abbrev paths : Paths
paths = record { win32 = plain; posix = plain; lower = λ s. s }

abbrev digits : ℕ → String
digits n = "0"

abbrev old_job : LegacyOptions
old_job = record {
  task_type = "research";
  deliverable_path = some "/w/r.md";
  max_runtime_minutes = some 5;
}

abbrev OldIsValid : Type 0
OldIsValid =
    validate_task_contract_v2 paths digits "/w" (object (build_legacy_contract old_job))
    ≡ valid (build_legacy_contract old_job)

legacy_is_valid_example : OldIsValid
unfolding is_absolute is_inside resolve_inside norm style_of
legacy_is_valid_example =
    legacy_is_valid paths digits "/w" old_job (omega arith) (refl, refl, refl, refl)

-- A contract with a glob and a command.
abbrev build_contract : Fields
unfolding legacy_budget
build_contract = field "schemaVersion" (number (int 2)) (
    field "scope"
      (object (
        field "readGlobs" (array (cons (string "src/*.ts") nil))
          (field "writeFiles" (array nil) (field "forbiddenGlobs" (array nil) end))))
      (field "writePolicy" (string "read_only_report") (
        field "budget" (object (legacy_budget 60)) (
          field "acceptance" (array (cons (object build_command) nil)) (
            field "reporting" (object (field "deliverablePath" (string "/w/r.md") end)) (
              field "admission"
                (object
                  (field "resourceClass" (string "light") (field "priority" (number (int 0)) end)))
                end))))))
  where
    build_command : Fields
    build_command = field "id" (string "build") (
        field "argv" (array (cons (string "make") nil)) (
          field "cwdRelative" (string "pkg") (
            field "timeoutSeconds" (number (int 60))
              (field "required" (bool true) (field "outputMaxChars" (number (int 1000)) end)))))

build_contract_valid :
    validate_task_contract_v2 paths digits "/w" (object build_contract) ≡ valid build_contract
unfolding validate_task_contract_v2 contract_errors contract_checks validate_scope scope_errors
    scope_checks glob_array_errors glob_items glob_errors validate_budget budget_errors
    budget_checks legacy_budget runtime_errors report_only_errors exploration_errors cap_errors
    is_positive_integer is_non_negative_integer validate_acceptance command_items
    command_item_errors command_errors command_checks cwd_errors validate_reporting
    deliverable_errors validate_admission is_absolute is_inside resolve_inside norm style_of
build_contract_valid = refl

valid_stays_inside_example :
    (object build_contract ≡ object build_contract)
    × ScopeInside paths "/w" digits (get "scope" build_contract)
    × EveryOf (RunsInside paths "/w") (get "acceptance" build_contract)
    × ReportInside paths "/w" digits (get "reporting" build_contract)
valid_stays_inside_example =
    valid_stays_inside paths "/w" digits (object build_contract) build_contract build_contract_valid

validate_budget-IsUsable_example :
    (o : Fields) × (s : BudgetSpec) × (some (object (legacy_budget 5)) ≡ some (object o))
    × (read_budget o ≡ some s)
    × IsWithin s
    × IsUsable (normalize_budget_spec s)
unfolding validate_budget budget_errors budget_checks legacy_budget runtime_errors
    report_only_errors exploration_errors cap_errors is_positive_integer is_non_negative_integer
validate_budget-IsUsable_example = validate_budget-IsUsable (some (object (legacy_budget 5))) refl
