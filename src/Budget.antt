-- ===== src/Budget.antt =====
-- src/budget.ts: the budget of a job, and the decision on each of its tool calls.
-- `path.resolve` and `String.toLowerCase` are parameters (`Paths`); times are milliseconds, and the
-- limits are those of a valid specification, so natural numbers.
pub mod Calls
pub mod Accounting
pub mod Verdict
mod Examples
use codex_job_orchestrator.Common.{
  ℕ, ◌+◌, ◌*◌, min, String, Bool, true, false, not, ◌&&◌, ◌||◌, Option, none, some, List, [], ◌∷◌,
  str_eq, length, any, all, ltb, leb, ◌==◌, if◌then◌else◌, or_default, codes, is_empty, is_letter,
  insert_text,
}

pub data BudgetMode : Type 0 where
  active report_only failed : BudgetMode

pub data OnExceeded : Type 0 where
  report_partial fail : OnExceeded

pub record BudgetSpec : Type 0 where
  pub max_runtime_minutes : ℕ
  pub report_only_after_minutes : Option ℕ
  pub max_files_read : Option ℕ
  pub max_source_lines : Option ℕ
  pub max_tool_calls : Option ℕ
  pub max_bash_commands : Option ℕ
  pub exploration_minutes : Option ℕ
  pub max_transcript_bytes : Option ℕ
  pub on_exceeded : Option OnExceeded

pub record ResolvedBudget : Type 0 where
  pub max_runtime_minutes : ℕ
  pub report_only_after_minutes : ℕ
  pub max_files_read : ℕ
  pub max_source_lines : ℕ
  pub max_tool_calls : ℕ
  pub max_bash_commands : ℕ
  pub exploration_minutes : ℕ
  pub max_transcript_bytes : ℕ
  pub on_exceeded : OnExceeded

pub data BudgetViolationCode : Type 0 where
  tool_calls_exceeded bash_commands_exceeded source_lines_exceeded : BudgetViolationCode
  files_read_exceeded report_only_window : BudgetViolationCode

pub record BudgetState : Type 0 where
  pub started_at_ms : ℕ
  pub last_updated_at_ms : ℕ
  pub mode : BudgetMode
  pub tool_calls : ℕ
  pub bash_commands : ℕ
  pub source_lines : ℕ
  pub unique_read_files : List String
  pub violation_code : Option BudgetViolationCode

pub record BudgetToolEvent : Type 0 where
  pub tool_name : String
  pub file_path : Option String
  pub source_lines : Option ℕ
  pub is_report_write : Option Bool
  pub now_ms : ℕ

pub data BudgetDecisionCode : Type 0 where
  ok report_write_allowed denied_report_only denied_failed : BudgetDecisionCode
  window_reached budget_exceeded_report_only budget_exceeded_failed : BudgetDecisionCode

pub record BudgetDecision : Type 0 where
  pub allow : Bool
  pub mode : BudgetMode
  pub code : BudgetDecisionCode
  pub reason : String
  pub next_state : BudgetState

pub record Paths : Type 0 where
  pub resolve : String → String
  pub lower : String → String

unfoldable pub normalize_budget_spec : BudgetSpec → ResolvedBudget
normalize_budget_spec s = record {
  max_runtime_minutes = s.max_runtime_minutes;
  report_only_after_minutes =
      min (or_default s.report_only_after_minutes s.max_runtime_minutes) s.max_runtime_minutes;
  max_files_read = or_default s.max_files_read 200;
  max_source_lines = or_default s.max_source_lines 50000;
  max_tool_calls = or_default s.max_tool_calls 500;
  max_bash_commands = or_default s.max_bash_commands 100;
  exploration_minutes = min (or_default s.exploration_minutes 15) s.max_runtime_minutes;
  max_transcript_bytes = or_default s.max_transcript_bytes 4194304;
  on_exceeded = or_default s.on_exceeded report_partial;
}

unfoldable pub create_budget_state : ℕ → BudgetState
create_budget_state started = record {
  started_at_ms = started;
  last_updated_at_ms = started;
  mode = active;
  tool_calls = 0;
  bash_commands = 0;
  source_lines = 0;
  unique_read_files = [];
  violation_code = none;
}

-- `/^[A-Za-z]:[\\/]/`: the colon is 58, the slash 47 and the backslash 92.
abbrev pub has_drive : List ℕ → Bool
has_drive (a ∷ b ∷ c ∷ rest) = is_letter a && b == 58 && (c == 92 || c == 47)
has_drive _ = false

unfoldable pub canonical_read_path : Paths → String → String
canonical_read_path h p =
    let r = h.resolve p in
    if has_drive (codes r) || any (λ c. c == 92) (codes r) then h.lower r else r

abbrev pub add_sorted : String → List String → List String
add_sorted c files = if any (str_eq c) files then files else insert_text c files

abbrev pub add_path : Paths → Option String → List String → List String
add_path h none files = files
add_path h (some p) files = if is_empty p then files else add_sorted (canonical_read_path h p) files

unfoldable pub add_unique_read_file : Paths → List String → String → Option String → List String
unfolding canonical_read_path
add_unique_read_file h files tool path = if str_eq tool "Read" then add_path h path files else files

unfoldable pub is_report : BudgetToolEvent → Bool
is_report e =
    or_default e.is_report_write false && (str_eq e.tool_name "Write" || str_eq e.tool_name "Edit")

pub record Over : Type 0 where
  pub tool_calls : Bool
  pub bash_commands : Bool
  pub source_lines : Bool
  pub files_read : Bool

unfoldable pub violation_code_of : Over → BudgetViolationCode
violation_code_of o =
    if o.tool_calls
    then tool_calls_exceeded
    else if o.bash_commands
    then bash_commands_exceeded
    else if o.source_lines
    then source_lines_exceeded
    else if o.files_read
    then files_read_exceeded
    else report_only_window

-- The counts that a call would produce.
unfoldable pub counted : Paths → BudgetState → BudgetToolEvent → BudgetState
unfolding is_report add_unique_read_file
counted h s e = record s {
  last_updated_at_ms = e.now_ms;
  tool_calls = s.tool_calls + (if is_report e then 0 else 1);
  bash_commands = s.bash_commands + (if str_eq e.tool_name "Bash" then 1 else 0);
  source_lines = s.source_lines + (if is_report e then 0 else or_default e.source_lines 0);
  unique_read_files =
      if is_report e
      then s.unique_read_files
      else add_unique_read_file h s.unique_read_files e.tool_name e.file_path;
}

unfoldable pub over_caps : BudgetState → ResolvedBudget → Over
over_caps s b = record {
  tool_calls = ltb b.max_tool_calls s.tool_calls;
  bash_commands = ltb b.max_bash_commands s.bash_commands;
  source_lines = ltb b.max_source_lines s.source_lines;
  files_read = ltb b.max_files_read (length s.unique_read_files);
}

abbrev pub exceeded : Over → Bool
exceeded o = o.tool_calls || o.bash_commands || o.source_lines || o.files_read

-- `now - startedAt >= reportOnlyAfterMinutes * 60_000`, which a clock before the start is not when
-- the window is longer than nothing; a window of nothing is reached from the start on.
abbrev pub is_window_reached : BudgetState → BudgetToolEvent → ResolvedBudget → Bool
is_window_reached s e b = leb (s.started_at_ms + b.report_only_after_minutes * 60000) e.now_ms

abbrev pub touch : BudgetState → BudgetToolEvent → BudgetState
touch s e = record s { last_updated_at_ms = e.now_ms }

abbrev pub leave : BudgetMode → BudgetState → BudgetToolEvent → Over → BudgetState
leave m s e o = record s {
  last_updated_at_ms = e.now_ms;
  mode = m;
  violation_code = some (violation_code_of o);
}

-- `{ allow, mode: nextState.mode, code, reason, nextState }`.
abbrev pub verdict : Bool → BudgetDecisionCode → String → BudgetState → BudgetDecision
verdict a c r s = record { allow = a; mode = s.mode; code = c; reason = r; next_state = s }

abbrev pub cross : OnExceeded → BudgetState → BudgetToolEvent → Over → BudgetDecision
cross fail s e o =
    verdict false budget_exceeded_failed "budget limit exceeded: job failed" (leave failed s e o)
cross report_partial s e o =
    if is_report e
    then verdict true report_write_allowed "report write allowed" (leave report_only s e o)
    else if exceeded o
    then verdict false budget_exceeded_report_only "budget limit exceeded: switched to report_only"
        (leave report_only s e o)
    else verdict false window_reached "report-only window reached" (leave report_only s e o)

abbrev pub evaluate_in :
    BudgetMode → Paths → BudgetState → BudgetToolEvent → ResolvedBudget → BudgetDecision
evaluate_in failed h s e b =
    verdict false denied_failed "budget failed: all calls denied" (touch s e)
evaluate_in report_only h s e b =
    if is_report e
    then verdict true report_write_allowed "report write allowed" (touch s e)
    else verdict false denied_report_only "report_only mode: only report writes allowed" (touch s e)
evaluate_in active h s e b =
    let o = over_caps (counted h s e) b in
    if not (exceeded o) && not (is_window_reached s e b)
    then verdict true ok "within budget" (counted h s e)
    else cross b.on_exceeded s e o

unfoldable pub evaluate_budget_tool_call :
    Paths → BudgetState → BudgetToolEvent → ResolvedBudget → BudgetDecision
unfolding is_report counted over_caps violation_code_of
evaluate_budget_tool_call h s e b = evaluate_in s.mode h s e b
