-- ===== src/Contracts/Limits.antt =====
-- src/contracts-v2.ts: the limits of a budget, read as the specification that src/budget.ts takes.
use codex_job_orchestrator.Common.{
  ℕ, ◌≤◌, String, ◌≡◌, refl, subst, Bool, true, false, not, ◌&&◌, ◌||◌, Option, none, some, [], ◌∷◌,
  arith, str_eq, ltb, if◌then◌else◌, Number, Json, Fields, get, ◌>>=◌, int, neg_int, non_int, null,
  bool, number, string, array, object,
}
use codex_job_orchestrator.Budget.{OnExceeded, BudgetSpec, report_partial, fail}
use codex_job_orchestrator.Contracts.Budgets.{
  number_of, is_positive_integer, is_non_negative_integer, above, error_if, is_there,
  runtime_errors, report_only_errors, cap_errors, exploration_errors, is_on_exceeded,
}

-- The limit that a property sets, if it sets one; `none` refuses.
abbrev optional_nat : Option Json → Option (Option ℕ)
optional_nat none = some none
optional_nat (some (number (int n))) = some (some n)
optional_nat _ = none

abbrev pub required_nat : Option Json → Option ℕ
required_nat (some (number (int n))) = some n
required_nat _ = none

abbrev on_exceeded_of : Option Json → Option (Option OnExceeded)
on_exceeded_of none = some none
on_exceeded_of (some (string s)) =
    if str_eq s "report_partial"
    then some (some report_partial)
    else if str_eq s "fail"
    then some (some fail)
    else none
on_exceeded_of _ = none

-- The specification that the fields hold.
unfoldable pub read_budget : Fields → Option BudgetSpec
read_budget o = do
  m ← required_nat (get "maxRuntimeMinutes" o)
  r ← optional_nat (get "reportOnlyAfterMinutes" o)
  f ← optional_nat (get "maxFilesRead" o)
  l ← optional_nat (get "maxSourceLines" o)
  t ← optional_nat (get "maxToolCalls" o)
  b ← optional_nat (get "maxBashCommands" o)
  x ← optional_nat (get "explorationMinutes" o)
  y ← optional_nat (get "maxTranscriptBytes" o)
  e ← on_exceeded_of (get "onExceeded" o)
  some (record {
    max_runtime_minutes = m;
    report_only_after_minutes = r;
    max_files_read = f;
    max_source_lines = l;
    max_tool_calls = t;
    max_bash_commands = b;
    exploration_minutes = x;
    max_transcript_bytes = y;
    on_exceeded = e;
  })

abbrev AtMost : ℕ → Option ℕ → Type 0
AtMost m none = Unit
AtMost m (some n) = n ≤ m

abbrev pub AtLeastOne : Option ℕ → Type 0
AtLeastOne none = Unit
AtLeastOne (some n) = 1 ≤ n

abbrev NotAfter : Option ℕ → Option ℕ → Type 0
NotAfter none x = Unit
NotAfter (some r) x = AtMost r x

pub record IsWithin (s : BudgetSpec) : Type 0 where
  pub runs : 1 ≤ s.max_runtime_minutes
  pub reports : AtMost s.max_runtime_minutes s.report_only_after_minutes
  pub explores : AtMost s.max_runtime_minutes s.exploration_minutes
  pub explores_first : NotAfter s.report_only_after_minutes s.exploration_minutes
  pub files : AtLeastOne s.max_files_read
  pub lines : AtLeastOne s.max_source_lines
  pub calls : AtLeastOne s.max_tool_calls
  pub commands : AtLeastOne s.max_bash_commands
  pub bytes : AtLeastOne s.max_transcript_bytes

pub runtime_errors_sound :
    (v : Option Json) → runtime_errors v ≡ [] → (m : ℕ) × (v ≡ some (number (int m))) × (1 ≤ m)
unfolding runtime_errors is_positive_integer
runtime_errors_sound none e = cc
runtime_errors_sound (some null) e = cc
runtime_errors_sound (some (bool b)) e = cc
runtime_errors_sound (some (number (int n))) e = (n, refl, ground arith)
runtime_errors_sound (some (number (neg_int n))) e = cc
runtime_errors_sound (some (number non_int)) e = cc
runtime_errors_sound (some (string s)) e = cc
runtime_errors_sound (some (array s)) e = cc
runtime_errors_sound (some (object s)) e = cc

pub cap_errors_sound :
    (f : String) (v : Option Json)
    → cap_errors f v ≡ []
    → (c : Option ℕ) × (optional_nat v ≡ some c) × AtLeastOne c
unfolding cap_errors is_positive_integer
cap_errors_sound f none e = (none, refl, tt)
cap_errors_sound f (some null) e = cc
cap_errors_sound f (some (bool b)) e = cc
cap_errors_sound f (some (number (int n))) e = (some n, refl, ground arith)
cap_errors_sound f (some (number (neg_int n))) e = cc
cap_errors_sound f (some (number non_int)) e = cc
cap_errors_sound f (some (string s)) e = cc
cap_errors_sound f (some (array s)) e = cc
cap_errors_sound f (some (object s)) e = cc

pub report_only_errors_sound :
    (m : ℕ) (v : Option Json)
    → report_only_errors (some (number (int m))) v ≡ []
    → (r : Option ℕ) × (optional_nat v ≡ some r) × AtMost m r
unfolding report_only_errors is_non_negative_integer
report_only_errors_sound m none e = (none, refl, tt)
report_only_errors_sound m (some null) e = cc
report_only_errors_sound m (some (bool b)) e = cc
report_only_errors_sound m (some (number (int n))) e = (some n, refl, ground arith)
report_only_errors_sound m (some (number (neg_int n))) e = cc
report_only_errors_sound m (some (number non_int)) e = cc
report_only_errors_sound m (some (string s)) e = cc
report_only_errors_sound m (some (array s)) e = cc
report_only_errors_sound m (some (object s)) e = cc

abbrev as_integer : Option ℕ → Option Number
as_integer none = none
as_integer (some n) = some (int n)

-- The number that a limit was read from.
pub read_back :
    (v : Option Json) (r : Option ℕ) → optional_nat v ≡ some r → number_of v ≡ as_integer r
read_back none none e = refl
read_back none (some n) e = cc
read_back (some (number (int n))) (some k) e = cc
read_back (some (number (int n))) none e = cc
read_back (some null) r e = cc
read_back (some (bool b)) r e = cc
read_back (some (number (neg_int n))) r e = cc
read_back (some (number non_int)) r e = cc
read_back (some (string s)) r e = cc
read_back (some (array s)) r e = cc
read_back (some (object s)) r e = cc

explored_sound :
    (m n : ℕ) (r : Option ℕ) (ro : Option Number) (a b : String)
    → ro ≡ as_integer r
    → (if ltb m n then a ∷ [] else error_if (above n ro) b) ≡ []
    → (n ≤ m) × NotAfter r (some n)
explored_sound m n none ro a b h e = (ground arith, tt)
explored_sound m n (some k) ro a b h e =
    let f = subst (λ z. (if ltb m n then a ∷ [] else error_if (above n z) b) ≡ []) h e in
    (ground arith, ground arith)

pub exploration_errors_sound :
    (m : ℕ) (r : Option ℕ) (ro v : Option Json)
    → number_of ro ≡ as_integer r
    → exploration_errors (some (number (int m))) ro v ≡ []
    → (x : Option ℕ) × (optional_nat v ≡ some x) × AtMost m x × NotAfter r x
unfolding exploration_errors is_non_negative_integer
exploration_errors_sound m none ro none h e = (none, refl, tt, tt)
exploration_errors_sound m (some k) ro none h e = (none, refl, tt, tt)
exploration_errors_sound m r ro (some (number (int n))) h e =
    let (a, b) =
      explored_sound m n r (number_of ro)
        "budget.explorationMinutes must not exceed budget.maxRuntimeMinutes"
        "budget.explorationMinutes must not exceed budget.reportOnlyAfterMinutes" h e in
    (some n, refl, a, b)
exploration_errors_sound m r ro (some null) h e = cc
exploration_errors_sound m r ro (some (bool b)) h e = cc
exploration_errors_sound m r ro (some (number (neg_int n))) h e = cc
exploration_errors_sound m r ro (some (number non_int)) h e = cc
exploration_errors_sound m r ro (some (string s)) h e = cc
exploration_errors_sound m r ro (some (array s)) h e = cc
exploration_errors_sound m r ro (some (object s)) h e = cc

pub on_exceeded_sound :
    (v : Option Json)
    → (is_there v && not (is_on_exceeded v)) ≡ false
    → (x : Option OnExceeded) × (on_exceeded_of v ≡ some x)
on_exceeded_sound none e = (none, refl)
on_exceeded_sound (some (string s)) e = by_tests (str_eq s "report_partial") (str_eq s "fail") e
  where
    by_tests :
        (a b : Bool)
        → (not (a || b)) ≡ false
        → (x : Option OnExceeded) × ((if a
              then some (some report_partial)
              else if b
              then some (some fail)
              else none)
            ≡ some x)
    by_tests true b h = (some report_partial, refl)
    by_tests false true h = (some fail, refl)
    by_tests false false h = cc
on_exceeded_sound (some null) e = cc
on_exceeded_sound (some (bool b)) e = cc
on_exceeded_sound (some (number n)) e = cc
on_exceeded_sound (some (array s)) e = cc
on_exceeded_sound (some (object s)) e = cc

pub read_budget_of :
    (o : Fields) (m : ℕ) (r f l t b x y : Option ℕ) (w : Option OnExceeded)
    → required_nat (get "maxRuntimeMinutes" o) ≡ some m
    → optional_nat (get "reportOnlyAfterMinutes" o) ≡ some r
    → optional_nat (get "maxFilesRead" o) ≡ some f
    → optional_nat (get "maxSourceLines" o) ≡ some l
    → optional_nat (get "maxToolCalls" o) ≡ some t
    → optional_nat (get "maxBashCommands" o) ≡ some b
    → optional_nat (get "explorationMinutes" o) ≡ some x
    → optional_nat (get "maxTranscriptBytes" o) ≡ some y
    → on_exceeded_of (get "onExceeded" o) ≡ some w
    → read_budget o
      ≡ some (record {
        max_runtime_minutes = m;
        report_only_after_minutes = r;
        max_files_read = f;
        max_source_lines = l;
        max_tool_calls = t;
        max_bash_commands = b;
        exploration_minutes = x;
        max_transcript_bytes = y;
        on_exceeded = w;
      })
unfolding read_budget
read_budget_of o m r f l t b x y w e1 e2 e3 e4 e5 e6 e7 e8 e9 =
    rw (e1, e2, e3, e4, e5, e6, e7, e8, e9) refl
