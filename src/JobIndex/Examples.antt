-- ===== src/JobIndex/Examples.antt =====
-- src/job-index.ts: small indexes, their journal and their reply chains.
use codex_job_orchestrator.Common.{
  text_field, dict_get, dict_set, String, ◌≡◌, refl, ◌≢◌, ◌↔◌, true, false, Option, none, some,
  List, [], ◌∷◌, str_eq, if◌then◌else◌, Json, null,
}
use codex_job_orchestrator.JobStore.Status.{JobStatus, status_of_name, queued, running, succeeded}
use codex_job_orchestrator.JobIndex.Types.{
  IndexedJobInput, JobIndex, empty_job_index, kind_of_name, read_input, start,
}
use codex_job_orchestrator.JobIndex.Sessions.{goes_before, find_place, sorted_insert}
use codex_job_orchestrator.JobIndex.Apply.{record_of, create_job, apply_indexed_job, apply_each}
use codex_job_orchestrator.JobIndex.Shape.{jobs_for_session, reply_children_of}
use codex_job_orchestrator.JobIndex.Upsert.{apply_indexed_job-again}
use codex_job_orchestrator.JobIndex.Counted.{IsCounted}
use codex_job_orchestrator.JobIndex.History.{apply_each-counts}
use codex_job_orchestrator.JobIndex.Files.{
  Codec, IndexFiles, parse_snapshot, apply_line, replay, snapshot_rows, load_index, consistent,
  rebuild_required,
}
use codex_job_orchestrator.JobIndex.Record.{
  delta_of, input_differs_from, Recorded, record_in, record_indexed_job, written, answered,
}
use codex_job_orchestrator.JobIndex.Replay.{needs_rebuild}
use codex_job_orchestrator.JobIndex.RoundTrip.{recorded_is_loaded, start_left_out}
use codex_job_orchestrator.JobIndex.Chain.{
  walk, reply_chain, Linked, Distinct, last_of, reply_chain-ends, reply_chain_iff, found,
  out_of_fuel,
}
use codex_job_orchestrator.JobIndex.Rebuild.{
  to_indexed_job, build, snapshot_of, Writes, rebuild_index, rebuilt_is_loaded,
}

abbrev delta : String → JobStatus → Option String → Option String → IndexedJobInput
delta id s parent started = record {
  job_id = id;
  session_id = "s";
  status = s;
  kind = start;
  reply_to_job_id = parent;
  started_at = started;
  ended_at = none;
}

abbrev first : IndexedJobInput
first = delta "a" running none (some "2026-01-01")

abbrev second : IndexedJobInput
second = delta "b" queued (some "a") (some "2026-01-02")

abbrev two_jobs : JobIndex
two_jobs = apply_each empty_job_index (second ∷ first ∷ [])

counts_of_two : (two_jobs.status_counts running) ≡ 1
unfolding apply_each apply_indexed_job record_of create_job empty_job_index dict_get dict_set
counts_of_two = refl

order_of_two : jobs_for_session two_jobs "s" ≡ "a" ∷ "b" ∷ []
unfolding apply_each apply_indexed_job record_of create_job empty_job_index dict_get dict_set
    sorted_insert find_place goes_before
order_of_two = refl

children_of_first : reply_children_of two_jobs "a" ≡ "b" ∷ []
unfolding apply_each apply_indexed_job record_of create_job empty_job_index dict_get dict_set
    sorted_insert find_place goes_before
children_of_first = refl

apply_each-counts_example : IsCounted (apply_each empty_job_index (second ∷ first ∷ second ∷ []))
apply_each-counts_example = apply_each-counts (second ∷ first ∷ second ∷ [])

apply_indexed_job-again_example :
    apply_indexed_job (create_job empty_job_index (record_of first none)) first
    ≡ some (create_job empty_job_index (record_of first none))
unfolding apply_indexed_job record_of empty_job_index dict_get
apply_indexed_job-again_example =
    apply_indexed_job-again empty_job_index first
      (create_job empty_job_index (record_of first none)) refl

chain_of_second : reply_chain two_jobs "b" ≡ found ("a" ∷ "b" ∷ [])
unfolding apply_each apply_indexed_job record_of create_job empty_job_index dict_get dict_set
    sorted_insert find_place goes_before reply_chain walk
chain_of_second = refl

reply_chain_iff_example : (reply_chain two_jobs "b" ≡ found ("a" ∷ "b" ∷ [])) ↔ (
    Linked two_jobs none ("a" ∷ "b" ∷ [])
    × Distinct ("a" ∷ "b" ∷ [])
    × (last_of none ("a" ∷ "b" ∷ []) ≡ some "b"))
reply_chain_iff_example = reply_chain_iff two_jobs "b" ("a" ∷ "b" ∷ [])

reply_chain-ends_example : reply_chain two_jobs "b" ≢ out_of_fuel
reply_chain-ends_example = reply_chain-ends two_jobs "b"

-- A journal of one line, and a codec for it and for the delta to come.
abbrev codec_for : IndexedJobInput → Codec
unfolding delta_of
codec_for i = record {
  parse = λ s.
      if str_eq s "old"
      then some (delta_of first)
      else if str_eq s "new"
      then some (delta_of i)
      else none;
  stringify = λ j. "new";
}

abbrev one_line : IndexFiles
one_line = record { snapshot = ""; lines = "old" ∷ []; unended = "" }

abbrev Round : Codec → Recorded → Type 0
Round k r =
    ((load_index k r.files).0 ≡ r.memory)
    × (needs_rebuild ((load_index k r.files).1).consistency ≡ false)

recorded_is_loaded_example :
    Round
      (codec_for second)
      (record_indexed_job (codec_for second) written written one_line second true empty_job_index)
unfolding codec_for delta_of load_index snapshot_rows parse_snapshot apply_each replay apply_line
    read_input status_of_name kind_of_name text_field apply_indexed_job record_of create_job
    empty_job_index dict_get dict_set sorted_insert find_place goes_before record_indexed_job
    record_in input_differs_from
recorded_is_loaded_example =
    recorded_is_loaded (codec_for second) one_line second "2026-01-02" refl refl refl written
      written empty_job_index refl refl

abbrev finished : IndexedJobInput
finished = delta "a" succeeded none none

abbrev Poisoned : Codec → Recorded → Type 0
Poisoned k r =
    (r.answer ≡ answered true)
    × (dict_get "a" r.memory.by_id ≡ some (record_of finished (some (record_of first none))))
    × ((load_index k r.files).0 ≡ (load_index k one_line).0)
    × (((load_index k r.files).1).consistency ≡ rebuild_required)

start_left_out_example :
    Poisoned (codec_for finished) (
      record_indexed_job
        (codec_for finished)
        written
        written
        one_line
        finished
        true
        empty_job_index)
unfolding codec_for delta_of load_index snapshot_rows parse_snapshot apply_each replay apply_line
    read_input status_of_name kind_of_name text_field apply_indexed_job record_of create_job
    empty_job_index dict_get dict_set sorted_insert find_place goes_before record_indexed_job
    record_in input_differs_from
start_left_out_example =
    start_left_out (codec_for finished) one_line finished (record_of first none) written
      empty_job_index refl refl refl refl refl refl refl refl

abbrev one_job : List Json
unfolding delta_of
one_job = delta_of first ∷ null ∷ []

abbrev snapshot_codec : Codec
snapshot_codec = record {
  parse =
      λ s. if str_eq s "new" then some (snapshot_of (build empty_job_index 0 one_job).0) else none;
  stringify = λ j. "new";
}

abbrev all_well : Writes
all_well = record { archives = true; replaces_snapshot = true; empties = true }

counts_of_rebuild :
    (rebuild_index true snapshot_codec all_well one_job one_line).0
    ≡ some (record { indexed = 1; skipped = 1; archived_journal_files = 1 })
unfolding rebuild_index build to_indexed_job one_job delta_of status_of_name kind_of_name text_field
    apply_indexed_job record_of create_job empty_job_index dict_get dict_set
counts_of_rebuild = refl

rebuilt_is_loaded_example :
    ((load_index snapshot_codec
        (rebuild_index true snapshot_codec all_well one_job one_line).1).0.by_id
      ≡ (build empty_job_index 0 one_job).0.by_id)
    × (((load_index snapshot_codec
            (rebuild_index true snapshot_codec all_well one_job one_line).1).1
          ).consistency
        ≡ consistent)
rebuilt_is_loaded_example =
    rebuilt_is_loaded snapshot_codec all_well one_job one_line refl refl refl refl
