-- ===== src/JobIndex/Rebuild.antt =====
-- src/job-index.ts: `rebuildIndex`, with the rows that `writeSnapshot` writes.
use codex_job_orchestrator.Common.{
  text_field, ℕ, suc, String, ◌≡◌, refl, sym, subst, Bool, true, false, Option, none, some, List,
  [], ◌∷◌, Dict, if◌then◌else◌, or_default, is_empty, Json, Items, get, ◌>>=◌, int, number, string,
  array, object, nil, cons, end, field,
}
use codex_job_orchestrator.JobStore.Status.{status_of_name}
use codex_job_orchestrator.JobIndex.Types.{
  IndexedJob, IndexedJobInput, JobIndex, empty_job_index, kind_of_name, optional_text,
}
use codex_job_orchestrator.JobIndex.Apply.{apply_indexed_job, apply_each}
use codex_job_orchestrator.JobIndex.Files.{
  Codec, IndexFiles, nullable_text, read_row, read_rows, parse_snapshot, replay, snapshot_rows,
  load_index, consistent,
}
use codex_job_orchestrator.JobIndex.Record.{status_name, kind_name, text_or_null, index_size}
use codex_job_orchestrator.JobIndex.Keyed.{Keyed, apply_each-Keyed, values, apply_each-values}
use codex_job_orchestrator.JobIndex.Replay.{status_of_name-status_name, kind_of_name-kind_name}

-- The checks of `toIndexedJob` on a job's record, with that of `endedAt`, which `applyIndexedJob`
-- makes at once after them.
unfoldable pub to_indexed_job : Json → Option IndexedJobInput
unfolding status_of_name kind_of_name text_field
to_indexed_job (object o) = do
  i ← text_field "jobId" o
  s ← text_field "sessionId" o
  n ← text_field "status" o
  st ← status_of_name n
  m ← text_field "kind" o
  k ← kind_of_name m
  r ← optional_text (get "replyToJobId" o)
  a ← text_field "startedAt" o
  e ← optional_text (get "endedAt" o)
  some (record {
    job_id = i;
    session_id = s;
    status = st;
    kind = k;
    reply_to_job_id = r;
    started_at = some a;
    ended_at = e;
  })
to_indexed_job _ = none

abbrev counted : JobIndex → ℕ → Option JobIndex → JobIndex × ℕ
counted x skipped none = (x, suc skipped)
counted x skipped (some y) = (y, skipped)

-- The index of the jobs, and how many of them are skipped.
unfoldable pub build : JobIndex → ℕ → List Json → JobIndex × ℕ
unfolding to_indexed_job apply_indexed_job
build x skipped [] = (x, skipped)
build x skipped (j ∷ js) =
    let step = counted x skipped (to_indexed_job j >>= apply_indexed_job x) in
    build step.0 step.1 js

row_of : IndexedJob → Json
row_of r = object (
    field "jobId" (string r.job_id) (
      field "sessionId" (string r.session_id) (
        field "status" (string (status_name r.status)) (
          field "kind" (string (kind_name r.kind)) (
            field "replyToJobId" (text_or_null r.reply_to_job_id) (
              field "startedAt" (string r.started_at)
                (field "endedAt" (text_or_null r.ended_at) end)))))))

rows_of : List IndexedJob → Items
unfolding row_of
rows_of [] = nil
rows_of (r ∷ rs) = cons (row_of r) (rows_of rs)

unfoldable pub snapshot_of : JobIndex → Json
unfolding rows_of values
snapshot_of x =
    object
      (field "schemaVersion" (number (int 1)) (field "jobs" (array (rows_of (values x.by_id))) end))

-- What the file system does: whether there is a journal that is renamed into the archive, whether
-- the snapshot is replaced (the write throws otherwise), and whether the journal is emptied.
pub record Writes : Type 0 where
  pub archives : Bool
  pub replaces_snapshot : Bool
  pub empties : Bool

pub record RebuildStats : Type 0 where
  pub indexed : ℕ
  pub skipped : ℕ
  pub archived_journal_files : ℕ

abbrev without_journal : IndexFiles → IndexFiles
without_journal f = record { snapshot = f.snapshot; lines = []; unended = "" }

abbrev after_archive : Writes → IndexFiles → IndexFiles
after_archive w f = if w.archives then without_journal f else f

abbrev after_snapshot : Codec → Writes → IndexFiles → JobIndex → IndexFiles
unfolding snapshot_of
after_snapshot k w f x =
    let g = after_archive w f in
    record {
      snapshot = k.stringify (snapshot_of x);
      lines = if w.empties then [] else g.lines;
      unended = if w.empties then "" else g.unended;
    }

-- The answer, `none` when it throws, and the files. The first argument is whether the lock was got.
unfoldable pub rebuild_index :
    Bool → Codec → Writes → List Json → IndexFiles → Option RebuildStats × IndexFiles
unfolding build after_snapshot empty_job_index
rebuild_index false k w jobs f =
    (some (record { indexed = 0; skipped = 0; archived_journal_files = 0 }), f)
rebuild_index true k w jobs f =
    let built = build empty_job_index 0 jobs in
    if w.replaces_snapshot
    then (
      some (record {
        indexed = index_size built.0;
        skipped = built.1;
        archived_journal_files = if w.archives then 1 else 0;
      }),
      after_snapshot k w f built.0,
    )
    else (none, after_archive w f)

read_row-row_of : (r : IndexedJob) → read_row (row_of r) ≡ some r
unfolding read_row row_of text_field
read_row-row_of r =
    rw
      (
        status_of_name-status_name r.status,
        kind_of_name-kind_name r.kind,
        nullable_text-text_or_null r.reply_to_job_id,
        nullable_text-text_or_null r.ended_at,
      )
      refl
  where
    nullable_text-text_or_null :
        (o : Option String) → nullable_text (some (text_or_null o)) ≡ some o
    nullable_text-text_or_null none = refl
    nullable_text-text_or_null (some s) = refl

read_rows-rows_of : (rs : List IndexedJob) → read_rows (rows_of rs) ≡ some rs
unfolding read_rows rows_of
read_rows-rows_of [] = refl
read_rows-rows_of (r ∷ rs) = rw (read_row-row_of r, read_rows-rows_of rs) refl

parse_snapshot-snapshot_of : (x : JobIndex) → parse_snapshot (snapshot_of x) ≡ some (values x.by_id)
unfolding parse_snapshot snapshot_of
parse_snapshot-snapshot_of x = rw (read_rows-rows_of (values x.by_id)) refl

counted-Keyed :
    (x : JobIndex) (n : ℕ) (o : Option IndexedJobInput)
    → Keyed x.by_id
    → Keyed (counted x n (o >>= apply_indexed_job x)).0.by_id
unfolding apply_each
counted-Keyed x n none v = v
counted-Keyed x n (some i) v = same (apply_indexed_job x i) (apply_each-Keyed x (i ∷ []) v)
  where
    same : (o : Option JobIndex) → Keyed (or_default o x).by_id → Keyed (counted x n o).0.by_id
    same none w = w
    same (some y) w = w

build-Keyed : (x : JobIndex) (n : ℕ) (js : List Json) → Keyed x.by_id → Keyed (build x n js).0.by_id
unfolding build
build-Keyed x n [] v = v
build-Keyed x n (j ∷ js) v =
    let step = counted x n (to_indexed_job j >>= apply_indexed_job x) in
    build-Keyed step.0 step.1 js (counted-Keyed x n (to_indexed_job j) v)

abbrev only_snapshot : String → IndexFiles
only_snapshot s = record { snapshot = s; lines = []; unended = "" }

load_index-only_snapshot :
    (k : Codec) (s : String) (d : Dict IndexedJob)
    → Keyed d
    → is_empty s ≡ false
    → snapshot_rows k s ≡ some (values d)
    → ((load_index k (only_snapshot s)).0.by_id ≡ d)
      × (((load_index k (only_snapshot s)).1).consistency ≡ consistent)
unfolding load_index replay
load_index-only_snapshot k s d v e r = rw (r, e) (apply_each-values d v, refl)

-- After a rebuild that got the lock, replaced the snapshot and emptied the journal, a load reads the
-- very records that the rebuild has indexed, in their order, and finds nothing bad.
pub rebuilt_is_loaded :
    (k : Codec) (w : Writes) (jobs : List Json) (f : IndexFiles)
    → w.replaces_snapshot ≡ true
    → w.empties ≡ true
    → k.parse (k.stringify (snapshot_of (build empty_job_index 0 jobs).0))
      ≡ some (snapshot_of (build empty_job_index 0 jobs).0)
    → is_empty (k.stringify (snapshot_of (build empty_job_index 0 jobs).0)) ≡ false
    → ((load_index k (rebuild_index true k w jobs f).1).0.by_id
        ≡ (build empty_job_index 0 jobs).0.by_id)
      × (((load_index k (rebuild_index true k w jobs f).1).1).consistency ≡ consistent)
unfolding rebuild_index empty_job_index snapshot_rows
rebuilt_is_loaded k w jobs f r m p n =
    let x = (build empty_job_index 0 jobs).0 in
    let s = k.stringify (snapshot_of x) in
    subst
      (λ (g : IndexFiles).
        ((load_index k g).0.by_id ≡ x.by_id) × (((load_index k g).1).consistency ≡ consistent))
      (sym (files_after r m))
      (load_index-only_snapshot k s x.by_id (build-Keyed empty_job_index 0 jobs nothing_yet) n
        (rows p n))
  where
    nothing_yet : Keyed empty_job_index.by_id
    nothing_yet = tt

    files_after :
        w.replaces_snapshot ≡ true
        → w.empties ≡ true
        → (rebuild_index true k w jobs f).1
          ≡ only_snapshot (k.stringify (snapshot_of (build empty_job_index 0 jobs).0))
    files_after e h = rw (e, h) refl

    rows :
        k.parse (k.stringify (snapshot_of (build empty_job_index 0 jobs).0))
          ≡ some (snapshot_of (build empty_job_index 0 jobs).0)
        → is_empty (k.stringify (snapshot_of (build empty_job_index 0 jobs).0)) ≡ false
        → snapshot_rows k (k.stringify (snapshot_of (build empty_job_index 0 jobs).0))
          ≡ some (values (build empty_job_index 0 jobs).0.by_id)
    rows e h = rw (h, e) (parse_snapshot-snapshot_of (build empty_job_index 0 jobs).0)
