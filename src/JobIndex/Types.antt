-- ===== src/JobIndex/Types.antt =====
-- src/job-index.ts: the records of the index.
use codex_job_orchestrator.Common.{
  text_field, ℕ, String, Bool, true, false, Option, none, some, List, [], str_eq, Dict, ◌==◌,
  if◌then◌else◌, Json, get, ◌>>=◌, null, string, object,
}
use codex_job_orchestrator.JobStore.Status.{
  JobStatus, status_of_name, queued, running, needs_attention, succeeded, failed, cancelled,
}

pub data JobKind : Type 0 where
  start reply : JobKind

pub record IndexedJob : Type 0 where
  pub job_id : String
  pub session_id : String
  pub status : JobStatus
  pub kind : JobKind
  pub reply_to_job_id : Option String
  pub started_at : String
  pub ended_at : Option String

-- A delta, once its fields have been found to have their types; a field that is null or missing is
-- `none`.
pub record IndexedJobInput : Type 0 where
  pub job_id : String
  pub session_id : String
  pub status : JobStatus
  pub kind : JobKind
  pub reply_to_job_id : Option String
  pub started_at : Option String
  pub ended_at : Option String

pub record JobIndex : Type 0 where
  pub by_id : Dict IndexedJob
  pub session_order : Dict (List String)
  pub status_counts : JobStatus → ℕ
  pub reply_children : Dict (List String)

unfoldable pub empty_job_index : JobIndex
empty_job_index = record {
  by_id = [];
  session_order = [];
  status_counts = λ s. 0;
  reply_children = [];
}

abbrev status_rank : JobStatus → ℕ
status_rank queued = 0
status_rank running = 1
status_rank needs_attention = 2
status_rank succeeded = 3
status_rank failed = 4
status_rank cancelled = 5

abbrev pub same_status : JobStatus → JobStatus → Bool
same_status a b = status_rank a == status_rank b

abbrev pub same_kind : JobKind → JobKind → Bool
same_kind start start = true
same_kind start reply = false
same_kind reply start = false
same_kind reply reply = true

abbrev pub same_text : Option String → Option String → Bool
same_text none none = true
same_text none (some b) = false
same_text (some a) none = false
same_text (some a) (some b) = str_eq a b

unfoldable pub kind_of_name : String → Option JobKind
kind_of_name n =
    if str_eq n "start" then some start else if str_eq n "reply" then some reply else none

-- A field that may be missing, null or text; `none` refuses the row.
abbrev pub optional_text : Option Json → Option (Option String)
optional_text none = some none
optional_text (some null) = some none
optional_text (some (string s)) = some (some s)
optional_text (some _) = none

-- The checks of `applyIndexedJob` on a row of the journal.
unfoldable pub read_input : Json → Option IndexedJobInput
unfolding status_of_name kind_of_name
read_input (object o) = do
  i ← text_field "jobId" o
  s ← text_field "sessionId" o
  n ← text_field "status" o
  st ← status_of_name n
  m ← text_field "kind" o
  k ← kind_of_name m
  r ← optional_text (get "replyToJobId" o)
  a ← optional_text (get "startedAt" o)
  e ← optional_text (get "endedAt" o)
  some (record {
    job_id = i;
    session_id = s;
    status = st;
    kind = k;
    reply_to_job_id = r;
    started_at = a;
    ended_at = e;
  })
read_input _ = none
