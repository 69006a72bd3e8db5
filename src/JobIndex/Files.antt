-- ===== src/JobIndex/Files.antt =====
-- src/job-index.ts: the snapshot and the journal on disk. `Codec` is `JSON.parse`, with `none` for
-- text that it rejects, and `JSON.stringify`. The journal is its text cut at the line ends, with
-- what follows the last one apart, and is at most the 1 MiB that the source reads at once. Reading a
-- file that is there is taken not to fail; the byte offset `journalPrefixBytes` is left out.
use codex_job_orchestrator.Common.{
  text_field, ℕ, suc, ◌+◌, String, Bool, true, false, not, ◌&&◌, ◌||◌, Option, none, some, List, [],
  ◌∷◌, map, if◌then◌else◌, is_empty, is_int, Json, Items, get, ◌>>=◌, ◌>>◌, guard, as_number, null,
  string, array, object, nil, cons,
}
use codex_job_orchestrator.JobStore.Status.{status_of_name}
use codex_job_orchestrator.JobIndex.Types.{
  IndexedJob, IndexedJobInput, JobIndex, empty_job_index, kind_of_name, read_input,
}
use codex_job_orchestrator.JobIndex.Apply.{apply_indexed_job, apply_each}

pub record Codec : Type 0 where
  pub parse : String → Option Json
  pub stringify : Json → String

-- `snapshot` is empty for a file that is missing or of no bytes.
pub record IndexFiles : Type 0 where
  pub snapshot : String
  pub lines : List String
  pub unended : String

pub data Consistency : Type 0 where
  consistent rebuild_required missing : Consistency

pub record Diagnostics : Type 0 where
  pub consistency : Consistency
  pub snapshot_loaded : Bool
  pub journal_applied : ℕ
  pub journal_lines_read : ℕ
  pub journal_bad_lines : ℕ

-- A field of the snapshot that is null or text, and not missing.
abbrev pub nullable_text : Option Json → Option (Option String)
nullable_text (some null) = some none
nullable_text (some (string s)) = some (some s)
nullable_text _ = none

unfoldable pub read_row : Json → Option IndexedJob
unfolding status_of_name kind_of_name
read_row (object o) = do
  i ← text_field "jobId" o
  s ← text_field "sessionId" o
  n ← text_field "status" o
  st ← status_of_name n
  m ← text_field "kind" o
  k ← kind_of_name m
  r ← nullable_text (get "replyToJobId" o)
  a ← text_field "startedAt" o
  e ← nullable_text (get "endedAt" o)
  some (record {
    job_id = i;
    session_id = s;
    status = st;
    kind = k;
    reply_to_job_id = r;
    started_at = a;
    ended_at = e;
  })
read_row _ = none

unfoldable pub read_rows : Items → Option (List IndexedJob)
unfolding read_row
read_rows nil = some []
read_rows (cons j rest) = do r ← read_row j; rs ← read_rows rest; some (r ∷ rs)

abbrev as_items : Option Json → Option Items
as_items (some (array items)) = some items
as_items _ = none

unfoldable pub parse_snapshot : Json → Option (List IndexedJob)
unfolding read_rows
parse_snapshot (object o) = do
  n ← get "schemaVersion" o >>= as_number
  guard (is_int 1 n)
  items ← as_items (get "jobs" o)
  read_rows items
parse_snapshot _ = none

abbrev pub input_of : IndexedJob → IndexedJobInput
input_of r = record {
  job_id = r.job_id;
  session_id = r.session_id;
  status = r.status;
  kind = r.kind;
  reply_to_job_id = r.reply_to_job_id;
  started_at = some r.started_at;
  ended_at = r.ended_at;
}

-- One line of the journal; `none` stops the replay.
unfoldable pub apply_line : Codec → JobIndex → String → Option JobIndex
unfolding read_input apply_indexed_job
apply_line k x line = do j ← k.parse line; i ← read_input j; apply_indexed_job x i

-- `applied` counts the good lines before the first bad one.
pub record Replay : Type 0 where
  pub index : JobIndex
  pub applied : ℕ
  pub stopped : Bool

abbrev pub next_line : ℕ → JobIndex → Option JobIndex → (JobIndex → Replay) → Replay
next_line n x none go = record { index = x; applied = n; stopped = true }
next_line n x (some y) go = go y

unfoldable pub replay : Codec → ℕ → JobIndex → List String → Replay
unfolding apply_line
replay k n x [] = record { index = x; applied = n; stopped = false }
replay k n x (line ∷ rest) = next_line n x (apply_line k x line) (λ y. replay k (suc n) y rest)

-- The rows of the snapshot; `none` is a snapshot that is no good.
unfoldable pub snapshot_rows : Codec → String → Option (List IndexedJob)
unfolding parse_snapshot
snapshot_rows k s = let rows = k.parse s >>= parse_snapshot in if is_empty s then some [] else rows

abbrev pub none_left : List String → String → Bool
none_left [] rest = is_empty rest
none_left (line ∷ lines) rest = false

abbrev pub no_files : IndexFiles → Bool
no_files f = is_empty f.snapshot && none_left f.lines f.unended

abbrev pub consistency_of : Bool → Consistency
consistency_of true = rebuild_required
consistency_of false = consistent

abbrev count_of : Bool → ℕ
count_of b = if b then 1 else 0

-- After the lines: a bad one stops the replay, else what follows the last line end is one.
abbrev replayed : Bool → Bool → Replay → JobIndex × Diagnostics
replayed loaded tail r = (
  r.index,
  record {
    consistency = consistency_of (r.stopped || tail);
    snapshot_loaded = loaded;
    journal_applied = r.applied;
    journal_lines_read = r.applied + count_of (r.stopped || tail);
    journal_bad_lines = count_of (r.stopped || tail);
  },
)

abbrev pub from_rows : Codec → IndexFiles → Option (List IndexedJob) → JobIndex × Diagnostics
from_rows k f none = (
  empty_job_index,
  record {
    consistency = rebuild_required;
    snapshot_loaded = false;
    journal_applied = 0;
    journal_lines_read = 0;
    journal_bad_lines = 0;
  },
)
from_rows k f (some rows) =
    replayed (not (is_empty f.snapshot)) (not (is_empty f.unended))
      (replay k 0 (apply_each empty_job_index (map input_of rows)) f.lines)

unfoldable pub load_index : Codec → IndexFiles → JobIndex × Diagnostics
unfolding empty_job_index apply_each replay snapshot_rows
load_index k f =
    if no_files f
    then (
      empty_job_index,
      record {
        consistency = missing;
        snapshot_loaded = false;
        journal_applied = 0;
        journal_lines_read = 0;
        journal_bad_lines = 0;
      },
    )
    else from_rows k f (snapshot_rows k f.snapshot)
