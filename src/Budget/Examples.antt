-- ===== src/Budget/Examples.antt =====
-- src/budget.ts: a job's calls on a small budget, and the theorems at concrete inputs.
use codex_job_orchestrator.Common.{
  ℕ, ◌≤◌, String, ◌≡◌, refl, ◌↔◌, true, none, some, List, [], ◌∷◌, count_if,
}
use codex_job_orchestrator.Budget.{
  ResolvedBudget, BudgetState, BudgetToolEvent, Paths, create_budget_state, canonical_read_path,
  add_unique_read_file, is_report, violation_code_of, counted, over_caps, evaluate_budget_tool_call,
  active, report_only, failed, report_partial, tool_calls_exceeded, files_read_exceeded,
}
use codex_job_orchestrator.Budget.Calls.{keep, run_calls}
use codex_job_orchestrator.Budget.Accounting.{
  is_counted, is_bash, total_lines, executed_within_budget,
}
use codex_job_orchestrator.Budget.Verdict.{MayPass, allow_iff}

abbrev plain_paths : Paths
plain_paths = record { resolve = λ p. p; lower = λ p. p }

abbrev budget : ResolvedBudget
budget = record {
  max_runtime_minutes = 2;
  report_only_after_minutes = 1;
  max_files_read = 1;
  max_source_lines = 50;
  max_tool_calls = 3;
  max_bash_commands = 1;
  exploration_minutes = 1;
  max_transcript_bytes = 1000;
  on_exceeded = report_partial;
}

abbrev read_call : String → ℕ → BudgetToolEvent
read_call f n = record {
  tool_name = "Read";
  file_path = some f;
  source_lines = some n;
  is_report_write = none;
  now_ms = 10;
}

abbrev report_call : BudgetToolEvent
report_call = record {
  tool_name = "Write";
  file_path = none;
  source_lines = none;
  is_report_write = some true;
  now_ms = 20;
}

abbrev calls : List BudgetToolEvent
calls = read_call "/a" 30 ∷ read_call "/b" 30 ∷ read_call "/a" 1 ∷ report_call ∷ []

abbrev start : BudgetState
start = record {
  started_at_ms = 0;
  last_updated_at_ms = 0;
  mode = active;
  tool_calls = 0;
  bash_commands = 0;
  source_lines = 0;
  unique_read_files = [];
  violation_code = none;
}

-- The second file is one too many, and then only the report passes.
calls_end :
    ((run_calls plain_paths budget calls start).0.mode ≡ report_only)
    × ((run_calls plain_paths budget calls start).1 ≡ read_call "/a" 30 ∷ report_call ∷ [])
unfolding run_calls keep evaluate_budget_tool_call is_report counted over_caps violation_code_of
    add_unique_read_file canonical_read_path
calls_end = (refl, refl)

executed_within_budget_example :
    let ran = (run_calls plain_paths budget calls (create_budget_state 0)).1 in
    (count_if is_counted ran ≤ 3) × (count_if is_bash ran ≤ 1) × (total_lines ran ≤ 50)
executed_within_budget_example = executed_within_budget plain_paths budget calls 0

allow_iff_example :
    ((evaluate_budget_tool_call plain_paths start report_call budget).allow ≡ true)
    ↔ MayPass active plain_paths start report_call budget
allow_iff_example = allow_iff plain_paths start report_call budget

abbrev reporting : BudgetState
reporting = record start { mode = report_only; violation_code = some files_read_exceeded }

abbrev spent : BudgetState
spent = record start { mode = failed; violation_code = some tool_calls_exceeded }
