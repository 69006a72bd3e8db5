-- ===== src/Budget/Accounting.antt =====
-- src/budget.ts: what the counters count, and that no cap is passed by what was let through.
use codex_job_orchestrator.Common.{
  ℕ, ◌+◌, ◌≤◌, String, ◌≡◌, refl, sym, subst, subst₂, inl, inr, Bool, true, false, not, ◌&&◌, ◌||◌,
  List, [], ◌∷◌, ◌++◌, arith, str_eq, eq_iff, length, count_if, count_if-append, if◌then◌else◌,
  Bool-cases, or_default, if_cases,
}
use codex_job_orchestrator.Budget.{
  BudgetMode, OnExceeded, ResolvedBudget, BudgetState, BudgetToolEvent, BudgetDecision, Paths,
  create_budget_state, is_report, Over, counted, over_caps, exceeded, is_window_reached, verdict,
  cross, evaluate_in, evaluate_budget_tool_call, active, report_only, failed, report_partial, fail,
  ok,
}
use codex_job_orchestrator.Budget.Calls.{keep, run_calls, keep-state}

abbrev pub is_counted : BudgetToolEvent → Bool
unfolding is_report
is_counted e = not (is_report e)

abbrev pub is_bash : BudgetToolEvent → Bool
is_bash e = str_eq e.tool_name "Bash"

-- The source lines of the calls that are not report writes.
unfoldable pub total_lines : List BudgetToolEvent → ℕ
unfolding is_report
total_lines [] = 0
total_lines (e ∷ es) = (if is_report e then 0 else or_default e.source_lines 0) + total_lines es

abbrev pub IsWithin : ResolvedBudget → BudgetState → Type 0
IsWithin b s =
    (s.tool_calls ≤ b.max_tool_calls)
    × (s.bash_commands ≤ b.max_bash_commands)
    × (s.source_lines ≤ b.max_source_lines)
    × (length s.unique_read_files ≤ b.max_files_read)

-- The counters of t are those of s with the calls `es` added.
abbrev pub Accounts : BudgetState → BudgetState → List BudgetToolEvent → Type 0
Accounts s t es =
    (t.tool_calls ≡ s.tool_calls + count_if is_counted es)
    × (t.bash_commands ≡ s.bash_commands + count_if is_bash es)
    × (t.source_lines ≡ s.source_lines + total_lines es)

is_name : (n m : String) → str_eq n m ≡ true → str_eq m "Bash" ≡ false → str_eq n "Bash" ≡ false
is_name n m h e = subst (λ x. str_eq x "Bash" ≡ false) (sym ((eq_iff n m).0 h)) e

names_report : (n : String) → (str_eq n "Write" || str_eq n "Edit") ≡ true → str_eq n "Bash" ≡ false
names_report n h = elim (Bool-cases (str_eq n "Write")) [
  | inl w ↦ is_name n "Write" w refl
  | inr f ↦ is_name n "Edit" (ground arith) refl
]

report-not_bash : (e : BudgetToolEvent) → is_report e ≡ true → is_bash e ≡ false
unfolding is_report
report-not_bash e h = names_report e.tool_name (ground arith)

-- What one decision does to the counters and the caps.
abbrev Fair : ResolvedBudget → BudgetState → BudgetToolEvent → BudgetDecision → Type 0
Fair b s e d =
    Accounts s d.next_state (if d.allow then e ∷ [] else [])
    × (IsWithin b s → IsWithin b d.next_state)

Fair-cross :
    (x : OnExceeded) (b : ResolvedBudget) (s : BudgetState) (e : BudgetToolEvent) (o : Over)
    → Fair b s e (cross x s e o)
unfolding total_lines
Fair-cross fail b s e o = ((omega arith, omega arith, omega arith), λ w. w)
Fair-cross report_partial b s e o =
    if_cases {A = BudgetDecision} (Fair b s e) (is_report e)
      (λ t. rw (t, report-not_bash e t) ((omega arith, omega arith, omega arith), λ w. w))
      (λ f.
        if_cases {A = BudgetDecision} (Fair b s e) (exceeded o)
          (λ x. ((omega arith, omega arith, omega arith), λ w. w))
          (λ n. ((omega arith, omega arith, omega arith), λ w. w)))

-- None of the four caps is passed.
over-IsWithin :
    (b : ResolvedBudget) (s : BudgetState) → exceeded (over_caps s b) ≡ false → IsWithin b s
unfolding over_caps
over-IsWithin b s h = (ground arith, ground arith, ground arith, ground arith)

Fair-ok :
    (h : Paths) (b : ResolvedBudget) (s : BudgetState) (e : BudgetToolEvent)
    → exceeded (over_caps (counted h s e) b) ≡ false
    → Fair b s e (verdict true ok "within budget" (counted h s e))
unfolding total_lines counted
Fair-ok h b s e n =
    ((ground arith, ground arith, ground arith), λ w. over-IsWithin b (counted h s e) n)

Fair-in :
    (m : BudgetMode) (h : Paths) (b : ResolvedBudget) (s : BudgetState) (e : BudgetToolEvent)
    → Fair b s e (evaluate_in m h s e b)
unfolding total_lines
Fair-in failed h b s e = ((omega arith, omega arith, omega arith), λ w. w)
Fair-in report_only h b s e =
    if_cases {A = BudgetDecision} (Fair b s e) (is_report e)
      (λ t. rw (t, report-not_bash e t) ((omega arith, omega arith, omega arith), λ w. w))
      (λ f. ((omega arith, omega arith, omega arith), λ w. w))
Fair-in active h b s e =
    if_cases {A = BudgetDecision} (Fair b s e)
      (not (exceeded (over_caps (counted h s e) b)) && not (is_window_reached s e b))
      (λ t. Fair-ok h b s e (ground arith))
      (λ f. Fair-cross b.on_exceeded b s e (over_caps (counted h s e) b))

Fair-call :
    (h : Paths) (b : ResolvedBudget) (s : BudgetState) (e : BudgetToolEvent)
    → Fair b s e (evaluate_budget_tool_call h s e b)
unfolding evaluate_budget_tool_call
Fair-call h b s e = Fair-in s.mode h b s e

total_lines-append :
    (es fs : List BudgetToolEvent) → total_lines (es ++ fs) ≡ total_lines es + total_lines fs
unfolding total_lines
total_lines-append [] fs = omega arith
total_lines-append (e ∷ es) fs = omega (arith, total_lines-append es fs)

Accounts-trans :
    (s t u : BudgetState) (es fs : List BudgetToolEvent)
    → Accounts s t es
    → Accounts t u fs
    → Accounts s u (es ++ fs)
Accounts-trans s t u es fs x y = (
  omega (arith, count_if-append is_counted es fs),
  omega (arith, count_if-append is_bash es fs),
  omega (arith, total_lines-append es fs),
)

keep-append :
    (a : Bool) (e : BudgetToolEvent) (r : BudgetState × List BudgetToolEvent)
    → (if a then e ∷ [] else []) ++ r.1 ≡ (keep a e r).1
unfolding keep
keep-append true e r = refl
keep-append false e r = refl

-- The counters at the end are those at the start with the calls that were let through added, each
-- call but the report writes counting once and with its source lines; and caps that hold at the
-- start hold at the end.
pub run_calls-Accounts :
    (h : Paths) (b : ResolvedBudget) (es : List BudgetToolEvent) (s : BudgetState)
    → Accounts s (run_calls h b es s).0 (run_calls h b es s).1
      × (IsWithin b s → IsWithin b (run_calls h b es s).0)
unfolding run_calls total_lines
run_calls-Accounts h b [] s = ((omega arith, omega arith, omega arith), λ w. w)
run_calls-Accounts h b (e ∷ es) s =
    let d = evaluate_budget_tool_call h s e b in
    let r = run_calls h b es d.next_state in
    let (f, g) = Fair-call h b s e in
    let (i, j) = run_calls-Accounts h b es d.next_state in
    (
      subst₂ (Accounts s) (sym (keep-state d.allow e r)) (keep-append d.allow e r)
          (Accounts-trans s d.next_state r.0 (if d.allow then e ∷ [] else []) r.1 f i),
      λ w. subst (IsWithin b) (sym (keep-state d.allow e r)) (j (g w)),
    )

-- From the start of a job on, whatever its calls, those that are let through keep to the budget:
-- at most `max_tool_calls` besides the report writes, at most `max_bash_commands` of Bash, and at
-- most `max_source_lines` source lines in all.
pub executed_within_budget :
    (h : Paths) (b : ResolvedBudget) (es : List BudgetToolEvent) (started : ℕ)
    → let ran = (run_calls h b es (create_budget_state started)).1 in
      (count_if is_counted ran ≤ b.max_tool_calls)
      × (count_if is_bash ran ≤ b.max_bash_commands)
      × (total_lines ran ≤ b.max_source_lines)
unfolding create_budget_state
executed_within_budget h b es started =
    let (a, w) = run_calls-Accounts h b es (create_budget_state started) in
    let k = w (omega arith, omega arith, omega arith, omega arith) in
    (omega arith, omega arith, omega arith)
