-- ===== src/Contracts/Legacy.antt =====
-- src/contracts-v2.ts: the contract that `buildLegacyContract` makes is a valid one.
use codex_job_orchestrator.Common.{
  ℕ, ◌≤◌, min, String, ◌≡◌, refl, Bool, true, false, ◌||◌, Option, none, some, [], ◌∷◌, arith,
  str_eq, ltb, leb, if◌then◌else◌, or_default, is_some, is_empty, ends_with, string, object,
}
use codex_job_orchestrator.Contracts.Paths.{is_absolute, Paths, norm, resolve_inside, is_inside}
use codex_job_orchestrator.Contracts.Budgets.{
  is_positive_integer, is_non_negative_integer, runtime_errors, report_only_errors, cap_errors,
  exploration_errors, budget_checks, budget_errors, validate_budget,
}
use codex_job_orchestrator.Contracts.Entries.{
  glob_items, glob_array_errors, scope_checks, scope_errors, validate_scope, command_items,
  validate_acceptance,
}
use codex_job_orchestrator.Contracts.Validate.{
  deliverable_errors, validate_reporting, is_one_of, validate_admission, contract_checks,
  contract_errors, validate_task_contract_v2, LegacyOptions, legacy_policy, legacy_reporting,
  legacy_budget, build_legacy_contract, valid,
}

abbrev IsDeliverable : Paths → String → Option String → Type 0
IsDeliverable h folder none = Unit
IsDeliverable h folder (some d) =
    (is_empty d ≡ false)
    × (is_absolute h d ≡ true)
    × (is_inside h folder (resolve_inside h folder d) ≡ true)
    × (ends_with (norm h d) ".md" ≡ true)

legacy_reporting-valid :
    (h : Paths) (folder : String) (d : Option String)
    → IsDeliverable h folder d
    → validate_reporting h folder (some (object (legacy_reporting d))) ≡ []
unfolding validate_reporting deliverable_errors
legacy_reporting-valid h folder none v = refl
legacy_reporting-valid h folder (some d) (a, b, c, e) = rw (a, b, c, e) refl

legacy_budget-valid : (m : ℕ) → 1 ≤ m → validate_budget (some (object (legacy_budget m))) ≡ []
unfolding validate_budget budget_errors budget_checks legacy_budget runtime_errors
    report_only_errors exploration_errors cap_errors is_positive_integer is_non_negative_integer
legacy_budget-valid m h = rw (positive m h, within m, explored m) refl
  where
    positive : (m : ℕ) → 1 ≤ m → leb 1 m ≡ true
    positive m h = ground arith

    within : (m : ℕ) → ltb m m ≡ false
    within m = ground arith

    explored : (m : ℕ) → ltb m (min 15 m) ≡ false
    explored m = ground arith

legacy_policy_known :
    (o : LegacyOptions)
    → is_one_of
        ("read_only_report" ∷ "listed_writes" ∷ "workspace_legacy" ∷ [])
        (some (string (legacy_policy o)))
      ≡ true
legacy_policy_known o =
    by_tests (str_eq o.task_type "research" || str_eq o.task_type "analysis")
      (is_some o.deliverable_path)
  where
    by_tests :
        (a b : Bool)
        → is_one_of ("read_only_report" ∷ "listed_writes" ∷ "workspace_legacy" ∷ []) (
            some (
              string (
                if a
                then (if b then "read_only_report" else "workspace_legacy")
                else "workspace_legacy")))
          ≡ true
    by_tests true true = refl
    by_tests true false = refl
    by_tests false b = refl

-- The contract made for a job of old is found valid, when its runtime is a positive number of
-- minutes and its report, if it has one, is an absolute path inside the work folder ending with
-- `.md`.
pub legacy_is_valid :
    (h : Paths) (show : ℕ → String) (folder : String) (o : LegacyOptions)
    → 1 ≤ or_default o.max_runtime_minutes 120
    → IsDeliverable h folder o.deliverable_path
    → validate_task_contract_v2 h show folder (object (build_legacy_contract o))
      ≡ valid (build_legacy_contract o)
unfolding validate_task_contract_v2 contract_errors contract_checks build_legacy_contract
    validate_scope scope_errors scope_checks glob_array_errors glob_items validate_acceptance
    command_items validate_admission
legacy_is_valid h show folder o m d =
    rw
      (
        legacy_policy_known o,
        legacy_budget-valid (or_default o.max_runtime_minutes 120) m,
        legacy_reporting-valid h folder o.deliverable_path d,
      )
      refl
