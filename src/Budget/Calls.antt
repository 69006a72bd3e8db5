-- ===== src/Budget/Calls.antt =====
-- src/budget.ts: a job's tool calls one after the other, each decided on the state that the one
-- before it left. Modes are one-way.
use codex_job_orchestrator.Common.{
  ◌≡◌, refl, sym, ◌∙◌, subst, Bool, true, false, List, [], ◌∷◌, All, if_cases,
}
use codex_job_orchestrator.Budget.{
  BudgetMode, ResolvedBudget, BudgetState, BudgetToolEvent, BudgetDecision, Paths, is_report,
  evaluate_in, evaluate_budget_tool_call, active, report_only, failed,
}

unfoldable pub keep :
    Bool → BudgetToolEvent → BudgetState × List BudgetToolEvent → BudgetState × List BudgetToolEvent
keep true e (s, es) = (s, e ∷ es)
keep false e (s, es) = (s, es)

-- The state at the end, and the calls that were let through.
unfoldable pub run_calls :
    Paths → ResolvedBudget → List BudgetToolEvent → BudgetState → BudgetState × List BudgetToolEvent
unfolding keep
run_calls h b [] s = (s, [])
run_calls h b (e ∷ es) s =
    let d = evaluate_budget_tool_call h s e b in keep d.allow e (run_calls h b es d.next_state)

abbrev pub IsReportWrite : BudgetToolEvent → Type 0
IsReportWrite e = is_report e ≡ true

-- Nothing but the time stamp has changed.
abbrev pub IsFrozen : BudgetState → BudgetState → Type 0
IsFrozen s t =
    (t.mode ≡ s.mode)
    × (t.tool_calls ≡ s.tool_calls)
    × (t.bash_commands ≡ s.bash_commands)
    × (t.source_lines ≡ s.source_lines)
    × (t.unique_read_files ≡ s.unique_read_files)
    × (t.violation_code ≡ s.violation_code)

abbrev Shut : BudgetMode → BudgetState → BudgetToolEvent → BudgetDecision → Type 0
Shut active s e d = Unit
Shut report_only s e d = IsFrozen s d.next_state × (d.allow ≡ true → IsReportWrite e)
Shut failed s e d = IsFrozen s d.next_state × (d.allow ≡ false)

Shut-step :
    (m : BudgetMode) (h : Paths) (s : BudgetState) (e : BudgetToolEvent) (b : ResolvedBudget)
    → Shut m s e (evaluate_in m h s e b)
Shut-step active h s e b = tt
Shut-step report_only h s e b =
    if_cases {A = BudgetDecision} (Shut report_only s e) (is_report e)
      (λ t. ((refl, refl, refl, refl, refl, refl), λ a. t))
      (λ f. ((refl, refl, refl, refl, refl, refl), λ a. cc))
Shut-step failed h s e b = ((refl, refl, refl, refl, refl, refl), refl)

Shut-call :
    (m : BudgetMode) (h : Paths) (s : BudgetState) (e : BudgetToolEvent) (b : ResolvedBudget)
    → s.mode ≡ m
    → Shut m s e (evaluate_budget_tool_call h s e b)
unfolding evaluate_budget_tool_call
Shut-call m h s e b eq =
    subst (λ n. Shut m s e (evaluate_in n h s e b)) (sym eq) (Shut-step m h s e b)

IsFrozen-trans : (s t u : BudgetState) → IsFrozen s t → IsFrozen t u → IsFrozen s u
IsFrozen-trans s t u (a, b, c, d, e, f) (a', b', c', d', e', f') =
    (a' ∙ a, b' ∙ b, c' ∙ c, d' ∙ d, e' ∙ e, f' ∙ f)

pub keep-state :
    (a : Bool) (e : BudgetToolEvent) (r : BudgetState × List BudgetToolEvent) → (keep a e r).0 ≡ r.0
unfolding keep
keep-state true e r = refl
keep-state false e r = refl

pub keep-All :
    (P : BudgetToolEvent → Type 0) (a : Bool) (e : BudgetToolEvent)
    (r : BudgetState × List BudgetToolEvent)
    → (a ≡ true → P e)
    → All P r.1
    → All P (keep a e r).1
unfolding keep
keep-All P true e r f x = (f refl, x)
keep-All P false e r f x = x

-- In report_only mode, whatever calls follow, the mode, the counters and the violation code stay,
-- and every call that is let through is a report write.
pub run_calls-report_only :
    (h : Paths) (b : ResolvedBudget) (es : List BudgetToolEvent) (s : BudgetState)
    → s.mode ≡ report_only
    → IsFrozen s (run_calls h b es s).0 × All IsReportWrite (run_calls h b es s).1
unfolding run_calls
run_calls-report_only h b [] s m = ((refl, refl, refl, refl, refl, refl), tt)
run_calls-report_only h b (e ∷ es) s m =
    let d = evaluate_budget_tool_call h s e b in
    let (f, g) = Shut-call report_only h s e b m in
    let (i, j) = run_calls-report_only h b es d.next_state (f.0 ∙ m) in
    (
      subst (IsFrozen s) (sym (keep-state d.allow e _))
          (IsFrozen-trans s d.next_state (run_calls h b es d.next_state).0 f i),
      keep-All IsReportWrite d.allow e _ g j,
    )

-- In failed mode, whatever calls follow, none is let through, and the mode, the counters and the
-- violation code stay.
pub run_calls-failed :
    (h : Paths) (b : ResolvedBudget) (es : List BudgetToolEvent) (s : BudgetState)
    → s.mode ≡ failed
    → IsFrozen s (run_calls h b es s).0 × ((run_calls h b es s).1 ≡ [])
unfolding run_calls keep
run_calls-failed h b [] s m = ((refl, refl, refl, refl, refl, refl), refl)
run_calls-failed h b (e ∷ es) s m =
    let d = evaluate_budget_tool_call h s e b in
    let (f, g) = Shut-call failed h s e b m in
    let (i, j) = run_calls-failed h b es d.next_state (f.0 ∙ m) in
    rw g (IsFrozen-trans s d.next_state (run_calls h b es d.next_state).0 f i, j)
