-- ===== src/JobIndex/Record.antt =====
-- src/job-index.ts: `recordIndexedJob`, which writes a delta to the journal and to memory, and
-- `rebuildIndex`, which writes both files again.
use codex_job_orchestrator.Common.{
  dict_get, ℕ, String, Bool, true, false, not, ◌&&◌, Option, none, some, [], ◌∷◌, ◌++◌, str_eq,
  length, ltb, if◌then◌else◌, or_default, concat, Json, int, null, number, string, object, end,
  field,
}
use codex_job_orchestrator.JobStore.Status.{
  JobStatus, queued, running, needs_attention, succeeded, failed, cancelled,
}
use codex_job_orchestrator.JobIndex.Types.{
  JobKind, IndexedJob, IndexedJobInput, JobIndex, same_status, same_kind, same_text, start, reply,
}
use codex_job_orchestrator.JobIndex.Apply.{ended_from, apply_indexed_job}
use codex_job_orchestrator.JobIndex.Files.{
  Codec, IndexFiles, Consistency, Diagnostics, load_index, consistent, rebuild_required, missing,
}

abbrev pub status_name : JobStatus → String
status_name queued = "queued"
status_name running = "running"
status_name needs_attention = "needs_attention"
status_name succeeded = "succeeded"
status_name failed = "failed"
status_name cancelled = "cancelled"

abbrev pub kind_name : JobKind → String
kind_name start = "start"
kind_name reply = "reply"

abbrev pub text_or_null : Option String → Json
text_or_null none = null
text_or_null (some s) = string s

-- `input.startedAt ?? ''`.
abbrev pub text_or_empty : Option String → String
text_or_empty none = ""
text_or_empty (some s) = s

unfoldable pub delta_of : IndexedJobInput → Json
delta_of i = object (
    field "schemaVersion" (number (int 1)) (
      field "jobId" (string i.job_id) (
        field "sessionId" (string i.session_id) (
          field "status" (string (status_name i.status)) (
            field "kind" (string (kind_name i.kind)) (
              field "replyToJobId" (text_or_null i.reply_to_job_id) (
                field "startedAt" (string (text_or_empty i.started_at))
                  (field "endedAt" (text_or_null i.ended_at) end))))))))

abbrev pub differs : IndexedJob → IndexedJobInput → Bool
differs b i = not (
    same_status b.status i.status
    && str_eq b.session_id i.session_id
    && same_kind b.kind i.kind
    && same_text b.reply_to_job_id i.reply_to_job_id
    && str_eq b.started_at (or_default i.started_at b.started_at)
    && same_text b.ended_at (ended_from i.ended_at (some b)))

unfoldable pub input_differs_from : Option IndexedJob → IndexedJobInput → Bool
input_differs_from none i = true
input_differs_from (some b) i = differs b i

-- What an append does: `no_folder` for the codes ENOENT and ENOTDIR.
pub data Append : Type 0 where
  written no_folder failing : Append

pub data Answer : Type 0 where
  answered : Bool → Answer
  raised : Answer

pub record Recorded : Type 0 where
  pub answer : Answer
  pub memory : JobIndex
  pub files : IndexFiles

-- The line joins what was left without a line end.
abbrev pub append_line : IndexFiles → String → IndexFiles
append_line f line = record {
  snapshot = f.snapshot;
  lines = f.lines ++ (concat f.unended line ∷ []);
  unended = "";
}

-- The append, tried again when the folder has been made.
abbrev pub appended : Append → Append → JobIndex → IndexFiles → String → Recorded
appended written b y f line = record {
  answer = answered true;
  memory = y;
  files = append_line f line;
}
appended no_folder written y f line = record {
  answer = answered true;
  memory = y;
  files = append_line f line;
}
appended no_folder no_folder y f line = record { answer = raised; memory = y; files = f }
appended no_folder failing y f line = record { answer = raised; memory = y; files = f }
appended failing b y f line = record { answer = raised; memory = y; files = f }

abbrev is_missing : Consistency → Bool
is_missing missing = true
is_missing consistent = false
is_missing rebuild_required = false

abbrev pub index_size : JobIndex → ℕ
index_size x = length x.by_id

-- Whether the files replace the memory.
abbrev pub replaces : JobIndex × Diagnostics → Bool
replaces (x, d) = not (is_missing d.consistency) && ltb 0 (index_size x)

abbrev pub refreshed : JobIndex → JobIndex × Diagnostics → JobIndex
refreshed x (y, d) = if replaces (y, d) then y else x

module _ (k : Codec) (first second : Append) (f : IndexFiles) (i : IndexedJobInput) where
  unfoldable pub record_in : Bool → JobIndex → Option JobIndex → Recorded
  unfolding input_differs_from delta_of
  record_in replaced x none = record { answer = answered false; memory = x; files = f }
  record_in replaced x (some y) =
      if replaced && not (input_differs_from (dict_get i.job_id x.by_id) i)
      then record { answer = answered true; memory = y; files = f }
      else appended first second y f (k.stringify (delta_of i))

  -- The first argument is whether `acquireIndexLock` has answered `acquired`.
  unfoldable pub record_indexed_job : Bool → JobIndex → Recorded
  unfolding apply_indexed_job load_index record_in
  record_indexed_job false x = record { answer = answered false; memory = x; files = f }
  record_indexed_job true x =
      let loaded = load_index k f in
      record_in (replaces loaded) (refreshed x loaded) (apply_indexed_job (refreshed x loaded) i)
