-- ===== src/JobStore/Status.antt =====
-- src/job-store.ts, src/retention.ts: the status of a job.
use codex_job_orchestrator.Common.{
  String, Bool, true, false, Option, none, some, str_eq, if◌then◌else◌,
}

pub data JobStatus : Type 0 where
  queued running needs_attention succeeded failed cancelled : JobStatus

unfoldable pub is_terminal : JobStatus → Bool
is_terminal queued = false
is_terminal running = false
is_terminal needs_attention = false
is_terminal succeeded = true
is_terminal failed = true
is_terminal cancelled = true

-- `isJobStatus`, with the status that the text names.
unfoldable pub status_of_name : String → Option JobStatus
status_of_name n =
    if str_eq n "queued"
    then some queued
    else if str_eq n "running"
    then some running
    else if str_eq n "needs_attention"
    then some needs_attention
    else if str_eq n "succeeded"
    then some succeeded
    else if str_eq n "failed"
    then some failed
    else if str_eq n "cancelled"
    then some cancelled
    else none
