-- ===== src/Retention/Scan.antt =====
-- src/retention.ts: one item of the plan for one file.
-- `path` and `Date.parse`. `relative root file` is `path.relative`, and `slashes` writes a path with
-- forward slashes.
use codex_job_orchestrator.Common.{
  text_field, non_empty_field, ℕ, ◌-◌, max, String, Bool, false, not, ◌&&◌, Option, none, some,
  List, ◌∷◌, leb, ◌==◌, if◌then◌else◌, or_default, codes, is_empty, Json, Fields, get, ◌>>=◌, null,
  string, object,
}
use codex_job_orchestrator.JobStore.Status.{JobStatus, is_terminal, status_of_name}
use codex_job_orchestrator.Retention.Policy.{
  RetentionAction, PlanItemKind, RetentionFixedReason, RetentionPolicy, JobLogClass, log_class_of,
  ttl_for, fixed_for_terminal, fixed_for_log, truncate_log_candidate, archive_claim_candidate,
  archive_settings_candidate, keep, skip, log, stderr_log, settings, claim, registry, not_terminal,
  unknown_job, not_a_regular_file, path_unsafe, out_of_scope,
}

pub record Host : Type 0 where
  pub relative : String → String → String
  pub is_absolute : String → Bool
  pub slashes : String → String
  pub parse_date : String → Option ℕ

abbrev pub starts_dots : List ℕ → Bool
starts_dots (a ∷ b ∷ rest) = a == 46 && b == 46
starts_dots _ = false

unfoldable pub is_inside : Host → String → String → Bool
is_inside h inner outer =
    let rel = h.relative outer inner in
    not (is_empty rel) && not (starts_dots (codes rel)) && not (h.is_absolute rel)

unfoldable pub relative_key : Host → String → String → Option String
unfolding is_inside
relative_key h inner root =
    if is_inside h inner root then some (h.slashes (h.relative root inner)) else none

-- The answer of `lstat`; a symbolic link is no file.
pub record Stats : Type 0 where
  pub is_symbolic_link : Bool
  pub is_file : Bool
  pub mtime_ms : ℕ
  pub size : ℕ

pub record JobView : Type 0 where
  pub job_id : String
  pub status : JobStatus
  pub ended_at : Option String

abbrev pub ended_field : Option Json → Option (Option String)
ended_field none = some none
ended_field (some null) = some none
ended_field (some (string s)) = some (some s)
ended_field (some _) = none

unfoldable pub read_fields : Fields → Option JobView
unfolding status_of_name
read_fields o = do
  i ← non_empty_field "jobId" o
  n ← text_field "status" o
  s ← status_of_name n
  b ← non_empty_field "startedAt" o
  e ← ended_field (get "endedAt" o)
  some (record { job_id = i; status = s; ended_at = e })

-- `none` is a file that cannot be read or parsed.
unfoldable pub read_job_view : Option Json → Option JobView
unfolding read_fields
read_job_view (some (object o)) = read_fields o
read_job_view _ = none

pub record RetentionPlanItem : Type 0 where
  pub relative_path : String
  pub kind : PlanItemKind
  pub action : RetentionAction
  pub fixed_reason : RetentionFixedReason
  pub age_ms : Option ℕ
  pub bytes : ℕ
  pub job_id : Option String

pub record ScanCtx : Type 0 where
  pub host : Host
  pub root : String
  pub now : ℕ
  pub policy : RetentionPolicy ℕ

abbrev pub end_of : Host → Option JobView → Option ℕ
end_of h none = none
end_of h (some j) = j.ended_at >>= h.parse_date

-- The newer of the job's end and the file's time.
unfoldable pub reference_ms : Host → Option JobView → Stats → ℕ
reference_ms h j st = max (or_default (end_of h j) st.mtime_ms) st.mtime_ms

unfoldable pub age_of : ScanCtx → Option JobView → Stats → ℕ
unfolding reference_ms
age_of c j st = c.now - reference_ms c.host j st

abbrev pub id_of : Option JobView → Option String
id_of none = none
id_of (some j) = some j.job_id

abbrev pub Verdict : Type 0
Verdict = RetentionAction × RetentionFixedReason

abbrev pub aged : ℕ → ℕ → RetentionAction → RetentionFixedReason → Verdict
aged age ttl act r = if leb ttl age then (act, r) else (keep, r)

abbrev pub log_verdict : ScanCtx → ℕ → Option JobLogClass → Verdict
log_verdict c age none = (keep, not_terminal)
log_verdict c age (some l) = aged age (ttl_for l c.policy) truncate_log_candidate (fixed_for_log l)

abbrev pub terminal_verdict : ScanCtx → ℕ → RetentionAction → JobStatus → Verdict
terminal_verdict c age act s =
    if not (is_terminal s)
    then (keep, not_terminal)
    else aged age c.policy.terminal_claim_settings_ttl act (fixed_for_terminal s)

-- The kinds of files, against the job that a file belongs to.
unfoldable pub verdict_of : ScanCtx → ℕ → PlanItemKind → Option JobView → Verdict
unfolding log_class_of ttl_for fixed_for_log fixed_for_terminal is_terminal
verdict_of c age registry j = (keep, out_of_scope)
verdict_of c age log none = (keep, unknown_job)
verdict_of c age log (some j) = log_verdict c age (log_class_of j.status)
verdict_of c age stderr_log none = (keep, unknown_job)
verdict_of c age stderr_log (some j) = log_verdict c age (log_class_of j.status)
verdict_of c age settings none = (keep, unknown_job)
verdict_of c age settings (some j) = terminal_verdict c age archive_settings_candidate j.status
verdict_of c age claim none = (keep, unknown_job)
verdict_of c age claim (some j) = terminal_verdict c age archive_claim_candidate j.status

abbrev pub skipped : String → PlanItemKind → RetentionFixedReason → RetentionPlanItem
skipped rel k r = record {
  relative_path = rel;
  kind = k;
  action = skip;
  fixed_reason = r;
  age_ms = none;
  bytes = 0;
  job_id = none;
}

abbrev pub planned :
    ScanCtx → String → PlanItemKind → Option JobView → Stats → Verdict → RetentionPlanItem
planned c rel k j st v = record {
  relative_path = rel;
  kind = k;
  action = v.0;
  fixed_reason = v.1;
  age_ms = some (age_of c j st);
  bytes = st.size;
  job_id = id_of j;
}

abbrev pub scan_stats :
    ScanCtx → String → PlanItemKind → Option JobView → Option Stats → Option RetentionPlanItem
scan_stats c rel k j none = none
scan_stats c rel k j (some st) =
    if st.is_symbolic_link
    then some (skipped rel k not_a_regular_file)
    else if not st.is_file
    then some (skipped rel k not_a_regular_file)
    else some (planned c rel k j st (verdict_of c (age_of c j st) k j))

abbrev pub scan_key :
    ScanCtx
    → Option String
    → PlanItemKind
    → Option JobView
    → Option Stats
    → Option RetentionPlanItem
scan_key c none k j st = some (skipped "" k path_unsafe)
scan_key c (some rel) k j st =
    if is_empty rel then some (skipped "" k path_unsafe) else scan_stats c rel k j st

-- The stats are those that `lstat` answers for the file, `none` when it throws.
unfoldable pub scan_file :
    ScanCtx → String → PlanItemKind → Option JobView → Option Stats → Option RetentionPlanItem
unfolding relative_key
scan_file c abs k j st = scan_key c (relative_key c.host abs c.root) k j st
