-- ===== src/Budget/Verdict.antt =====
-- src/budget.ts: which calls are let through.
-- An ordinary call of an active job: with it counted, every cap holds, and the report-only window
-- has not begun.
use codex_job_orchestrator.Common.{
  ◌+◌, ◌*◌, ◌≤◌, ◌<◌, ◌≡◌, refl, ◌↔◌, ◌⊎◌, inl, inr, true, false, not, ◌&&◌, arith, length,
  if_cases,
}
use codex_job_orchestrator.Budget.{
  BudgetMode, OnExceeded, ResolvedBudget, BudgetState, BudgetToolEvent, BudgetDecision, Paths,
  is_report, Over, counted, over_caps, exceeded, is_window_reached, cross, evaluate_in,
  evaluate_budget_tool_call, active, report_only, failed, report_partial, fail,
}

pub record IsAffordable (h : Paths) (s : BudgetState) (e : BudgetToolEvent) (b : ResolvedBudget)
    : Type 0 where
  pub tool_calls : (counted h s e).tool_calls ≤ b.max_tool_calls
  pub bash_commands : (counted h s e).bash_commands ≤ b.max_bash_commands
  pub source_lines : (counted h s e).source_lines ≤ b.max_source_lines
  pub files_read : length (counted h s e).unique_read_files ≤ b.max_files_read
  pub in_time : e.now_ms < s.started_at_ms + b.report_only_after_minutes * 60000

-- A call may pass because it is affordable, or as a report write: in report_only mode, or as the
-- call that crosses a limit of a budget that ends in a partial report.
abbrev pub MayPass : BudgetMode → Paths → BudgetState → BudgetToolEvent → ResolvedBudget → Type 0
MayPass active h s e b =
    IsAffordable h s e b ⊎ ((is_report e ≡ true) × (b.on_exceeded ≡ report_partial))
MayPass report_only h s e b = is_report e ≡ true
MayPass failed h s e b = true ≡ false

affordable :
    (h : Paths) (s : BudgetState) (e : BudgetToolEvent) (b : ResolvedBudget)
    → (not (exceeded (over_caps (counted h s e) b)) && not (is_window_reached s e b)) ≡ true
    → IsAffordable h s e b
unfolding over_caps
affordable h s e b t = record {
  tool_calls = ground arith;
  bash_commands = ground arith;
  source_lines = ground arith;
  files_read = ground arith;
  in_time = ground arith;
}

affordable_test :
    (h : Paths) (s : BudgetState) (e : BudgetToolEvent) (b : ResolvedBudget)
    → IsAffordable h s e b
    → (not (exceeded (over_caps (counted h s e) b)) && not (is_window_reached s e b)) ≡ true
unfolding over_caps
affordable_test h s e b a =
    let x = a.tool_calls in
    let y = a.bash_commands in
    let z = a.source_lines in let u = a.files_read in let v = a.in_time in ground arith

cross_iff :
    (x : OnExceeded) (s : BudgetState) (e : BudgetToolEvent) (o : Over)
    → ((cross x s e o).allow ≡ true) ↔ ((is_report e ≡ true) × (x ≡ report_partial))
cross_iff fail s e o = (λ h. cc, λ h. cc)
cross_iff report_partial s e o = (λ h. (ground arith, refl), λ h. ground arith)

abbrev Agrees :
    BudgetMode → Paths → BudgetState → BudgetToolEvent → ResolvedBudget → BudgetDecision → Type 0
Agrees m h s e b d = (d.allow ≡ true) ↔ MayPass m h s e b

in_iff :
    (m : BudgetMode) (h : Paths) (s : BudgetState) (e : BudgetToolEvent) (b : ResolvedBudget)
    → Agrees m h s e b (evaluate_in m h s e b)
in_iff failed h s e b = (λ x. cc, λ x. cc)
in_iff report_only h s e b = (λ x. ground arith, λ x. ground arith)
in_iff active h s e b =
    if_cases {A = BudgetDecision} (Agrees active h s e b)
      (not (exceeded (over_caps (counted h s e) b)) && not (is_window_reached s e b))
      (λ t. (λ x. inl (affordable h s e b t), λ x. refl))
      (λ f.
        let (i, j) = cross_iff b.on_exceeded s e (over_caps (counted h s e) b) in
        (
          λ x. inr (i x),
          λ x. elim x [ inl a ↦ let x = affordable_test h s e b a in cc | inr r ↦ j r ],
        ))

-- A tool call is let through exactly when the mode allows it: while active, when with it counted
-- every cap holds and the report-only window has not begun, or when it is a report write that
-- crosses a limit of a budget ending in a partial report; in report_only mode, when it is a report
-- write; in failed mode, never.
pub allow_iff :
    (h : Paths) (s : BudgetState) (e : BudgetToolEvent) (b : ResolvedBudget)
    → ((evaluate_budget_tool_call h s e b).allow ≡ true) ↔ MayPass s.mode h s e b
unfolding evaluate_budget_tool_call
allow_iff h s e b = in_iff s.mode h s e b
