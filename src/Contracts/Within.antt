-- ===== src/Contracts/Within.antt =====
-- src/contracts-v2.ts, src/budget.ts: the limits of a valid contract, as the budget resolves them.
use codex_job_orchestrator.Common.{
  ℕ, ◌≤◌, ◌≡◌, refl, ap, subst, not, ◌&&◌, Option, none, some, [], arith, flat-eq-nil, or_default,
  Json, Fields, get, null, bool, number, string, array, object,
}
use codex_job_orchestrator.Budget.{BudgetSpec, ResolvedBudget, normalize_budget_spec}
use codex_job_orchestrator.Contracts.Budgets.{
  error_if-eq-nil, is_there, report_only_errors, exploration_errors, is_on_exceeded, budget_checks,
  budget_errors, validate_budget,
}
use codex_job_orchestrator.Contracts.Limits.{
  required_nat, read_budget, AtLeastOne, IsWithin, runtime_errors_sound, cap_errors_sound,
  report_only_errors_sound, read_back, exploration_errors_sound, on_exceeded_sound, read_budget_of,
}

budget_errors_sound :
    (o : Fields) → budget_errors o ≡ [] → (s : BudgetSpec) × (read_budget o ≡ some s) × IsWithin s
unfolding budget_errors budget_checks read_budget
budget_errors_sound o e =
    let (u, (e1, (e2, (e3, (e4, (e5, (e6, (e7, (e8, (e9, z)))))))))) =
      flat-eq-nil (budget_checks o) e in
    let (m, hm, one) = runtime_errors_sound (get "maxRuntimeMinutes" o) e1 in
    let (r, hr, rm) =
      report_only_errors_sound m (get "reportOnlyAfterMinutes" o)
        (subst (λ v. report_only_errors v (get "reportOnlyAfterMinutes" o) ≡ []) hm e2) in
    let (f, hf, f1) = cap_errors_sound "maxFilesRead" (get "maxFilesRead" o) e3 in
    let (l, hl, l1) = cap_errors_sound "maxSourceLines" (get "maxSourceLines" o) e4 in
    let (t, ht, t1) = cap_errors_sound "maxToolCalls" (get "maxToolCalls" o) e5 in
    let (b, hb, b1) = cap_errors_sound "maxBashCommands" (get "maxBashCommands" o) e6 in
    let (y, hy, y1) = cap_errors_sound "maxTranscriptBytes" (get "maxTranscriptBytes" o) e7 in
    let (x, hx, xm, xr) =
      exploration_errors_sound m r (get "reportOnlyAfterMinutes" o) (get "explorationMinutes" o)
        (read_back (get "reportOnlyAfterMinutes" o) r hr)
        (subst
          (λ v.
            exploration_errors v (get "reportOnlyAfterMinutes" o) (get "explorationMinutes" o) ≡ [])
          hm e8) in
    let (w, hw) = on_exceeded_sound (get "onExceeded" o) (
      error_if-eq-nil (is_there (get "onExceeded" o) && not (is_on_exceeded (get "onExceeded" o)))
        "budget.onExceeded must be report_partial | fail" e9) in
    (
      record {
        max_runtime_minutes = m;
        report_only_after_minutes = r;
        max_files_read = f;
        max_source_lines = l;
        max_tool_calls = t;
        max_bash_commands = b;
        exploration_minutes = x;
        max_transcript_bytes = y;
        on_exceeded = w;
      },
      read_budget_of o m r f l t b x y w (ap required_nat hm) hr hf hl ht hb hx hy hw,
      record {
        runs = one;
        reports = rm;
        explores = xm;
        explores_first = xr;
        files = f1;
        lines = l1;
        calls = t1;
        commands = b1;
        bytes = y1;
      },
    )

-- The limits that `normalizeBudgetSpec` resolves: each cap lets one thing through at least, and both
-- windows open within the runtime.
pub record IsUsable (b : ResolvedBudget) : Type 0 where
  pub runs : 1 ≤ b.max_runtime_minutes
  pub reports : b.report_only_after_minutes ≤ b.max_runtime_minutes
  pub explores : b.exploration_minutes ≤ b.max_runtime_minutes
  pub files : 1 ≤ b.max_files_read
  pub lines : 1 ≤ b.max_source_lines
  pub calls : 1 ≤ b.max_tool_calls
  pub commands : 1 ≤ b.max_bash_commands
  pub bytes : 1 ≤ b.max_transcript_bytes

or_default-AtLeastOne : (o : Option ℕ) (d : ℕ) → AtLeastOne o → 1 ≤ d → 1 ≤ or_default o d
or_default-AtLeastOne none d h i = i
or_default-AtLeastOne (some n) d h i = h

normalize_budget_spec-IsUsable : (s : BudgetSpec) → IsWithin s → IsUsable (normalize_budget_spec s)
unfolding normalize_budget_spec
normalize_budget_spec-IsUsable s v = record {
  runs = v.runs;
  reports = omega arith;
  explores = omega arith;
  files = or_default-AtLeastOne s.max_files_read 200 v.files (omega arith);
  lines = or_default-AtLeastOne s.max_source_lines 50000 v.lines (omega arith);
  calls = or_default-AtLeastOne s.max_tool_calls 500 v.calls (omega arith);
  commands = or_default-AtLeastOne s.max_bash_commands 100 v.commands (omega arith);
  bytes = or_default-AtLeastOne s.max_transcript_bytes 4194304 v.bytes (omega arith);
}

-- A budget that is found valid is an object that reads as a specification: the runtime is at least a
-- minute, the window for the report and the exploration do not exceed it, the exploration does not
-- exceed a window that is given, each cap that is given is at least one; and the limits that
-- `normalizeBudgetSpec` makes of it keep within the runtime and let one thing through at least.
pub validate_budget-IsUsable :
    (v : Option Json)
    → validate_budget v ≡ []
    → (o : Fields) × (s : BudgetSpec) × (v ≡ some (object o))
      × (read_budget o ≡ some s)
      × IsWithin s
      × IsUsable (normalize_budget_spec s)
unfolding validate_budget
validate_budget-IsUsable (some (object o)) e =
    let (s, r, w) = budget_errors_sound o e in
    (o, s, refl, r, w, normalize_budget_spec-IsUsable s w)
validate_budget-IsUsable none e = cc
validate_budget-IsUsable (some null) e = cc
validate_budget-IsUsable (some (bool b)) e = cc
validate_budget-IsUsable (some (number n)) e = cc
validate_budget-IsUsable (some (string n)) e = cc
validate_budget-IsUsable (some (array n)) e = cc
