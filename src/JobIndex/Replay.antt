-- ===== src/JobIndex/Replay.antt =====
-- src/job-index.ts: what `loadIndex` reads back of what `recordIndexedJob` has written.
use codex_job_orchestrator.Common.{
  text_field, ℕ, suc, String, ◌≡◌, refl, ap, Bool, true, false, not, ◌&&◌, ◌||◌, Option, none, some,
  List, [], ◌∷◌, ◌++◌, map, arith, or_default, is_some, if_cases, is_empty, concat,
}
use codex_job_orchestrator.JobStore.Status.{
  JobStatus, status_of_name, queued, running, needs_attention, succeeded, failed, cancelled,
}
use codex_job_orchestrator.JobIndex.Types.{
  JobKind, IndexedJob, IndexedJobInput, JobIndex, empty_job_index, kind_of_name, optional_text,
  read_input, start, reply,
}
use codex_job_orchestrator.JobIndex.Apply.{apply_each}
use codex_job_orchestrator.JobIndex.Files.{
  Codec, IndexFiles, Consistency, Diagnostics, input_of, apply_line, Replay, next_line, replay,
  snapshot_rows, none_left, no_files, consistency_of, from_rows, load_index, consistent,
  rebuild_required, missing,
}
use codex_job_orchestrator.JobIndex.Record.{
  status_name, kind_name, text_or_null, text_or_empty, delta_of, append_line,
}
use text.Mathlib.TextLemmas.{nil-append}

-- The delta as it is read back: a missing start is an empty one.
abbrev pub as_read : IndexedJobInput → IndexedJobInput
as_read i = record i { started_at = some (text_or_empty i.started_at) }

pub status_of_name-status_name : (s : JobStatus) → status_of_name (status_name s) ≡ some s
unfolding status_of_name
status_of_name-status_name queued = refl
status_of_name-status_name running = refl
status_of_name-status_name needs_attention = refl
status_of_name-status_name succeeded = refl
status_of_name-status_name failed = refl
status_of_name-status_name cancelled = refl

pub kind_of_name-kind_name : (m : JobKind) → kind_of_name (kind_name m) ≡ some m
unfolding kind_of_name
kind_of_name-kind_name start = refl
kind_of_name-kind_name reply = refl

optional_text-text_or_null : (o : Option String) → optional_text (some (text_or_null o)) ≡ some o
optional_text-text_or_null none = refl
optional_text-text_or_null (some s) = refl

pub read_input-delta_of : (i : IndexedJobInput) → read_input (delta_of i) ≡ some (as_read i)
unfolding read_input delta_of text_field
read_input-delta_of i =
    rw
      (
        status_of_name-status_name i.status,
        kind_of_name-kind_name i.kind,
        optional_text-text_or_null i.reply_to_job_id,
        optional_text-text_or_null i.ended_at,
      )
      refl

abbrev pub needs_rebuild : Consistency → Bool
needs_rebuild consistent = false
needs_rebuild rebuild_required = true
needs_rebuild missing = false

-- What a load that finds nothing bad has read.
pub record Read (k : Codec) (f : IndexFiles) (y : JobIndex) : Type 0 where
  rows : List IndexedJob
  applied : ℕ
  good_rows : snapshot_rows k f.snapshot ≡ some rows
  good_lines :
      replay k 0 (apply_each empty_job_index (map input_of rows)) f.lines
      ≡ record { index = y; applied = applied; stopped = false }
  ended : is_empty f.unended ≡ true

no_files-parts :
    (f : IndexFiles)
    → no_files f ≡ true
    → (is_empty f.snapshot ≡ true) × (f.lines ≡ []) × (is_empty f.unended ≡ true)
no_files-parts f h = (ground arith, no_lines f.lines (ground arith), rest f.lines (ground arith))
  where
    no_lines : (ls : List String) → none_left ls f.unended ≡ true → ls ≡ []
    no_lines [] e = refl
    no_lines (l ∷ ls) e = cc

    rest : (ls : List String) → none_left ls f.unended ≡ true → is_empty f.unended ≡ true
    rest [] e = e
    rest (l ∷ ls) e = cc

Read-from_rows :
    (k : Codec) (f : IndexFiles) (o : Option (List IndexedJob))
    → snapshot_rows k f.snapshot ≡ o
    → needs_rebuild ((from_rows k f o).1).consistency ≡ false
    → Read k f (from_rows k f o).0
Read-from_rows k f none e h = cc
Read-from_rows k f (some rows) e h = record {
  rows = rows;
  applied = r.applied;
  good_rows = e;
  good_lines = whole r (not_stopped r.stopped (is_empty f.unended) h);
  ended = at_end r.stopped (is_empty f.unended) h;
}
  where
    r : Replay
    r = replay k 0 (apply_each empty_job_index (map input_of rows)) f.lines

    not_stopped : (b e : Bool) → needs_rebuild (consistency_of (b || not e)) ≡ false → b ≡ false
    not_stopped b e i = ground arith

    at_end : (b e : Bool) → needs_rebuild (consistency_of (b || not e)) ≡ false → e ≡ true
    at_end b e i = ground arith

    whole :
        (q : Replay)
        → q.stopped ≡ false
        → q ≡ record { index = q.index; applied = q.applied; stopped = false }
    whole q e = ap (λ b. record { index = q.index; applied = q.applied; stopped = b }) e

no_snapshot : (k : Codec) (s : String) → is_empty s ≡ true → snapshot_rows k s ≡ some []
unfolding snapshot_rows
no_snapshot k s e = rw e refl

no_lines :
    (k : Codec) (ls : List String)
    → ls ≡ []
    → replay k 0 (apply_each empty_job_index (map input_of [])) ls
      ≡ record { index = empty_job_index; applied = 0; stopped = false }
unfolding replay apply_each
no_lines k ls l = rw l refl

pub load_index-Read :
    (k : Codec) (f : IndexFiles)
    → needs_rebuild ((load_index k f).1).consistency ≡ false
    → Read k f (load_index k f).0
unfolding load_index
load_index-Read k f h =
    if_cases {A = JobIndex × Diagnostics}
      (λ z. needs_rebuild (z.1).consistency ≡ false → Read k f z.0) (no_files f)
      (λ e i.
        let (s, l, u) = no_files-parts f e in
        record {
          rows = [];
          applied = 0;
          good_rows = no_snapshot k f.snapshot s;
          good_lines = no_lines k f.lines l;
          ended = u;
        })
      (λ e i. Read-from_rows k f (snapshot_rows k f.snapshot) refl i) h

-- The replay after one line more.
abbrev one_more : ℕ → JobIndex → Option JobIndex → Replay
one_more m y o = next_line m y o (λ w. record { index = w; applied = suc m; stopped = false })

replay-append :
    (k : Codec) (n : ℕ) (x : JobIndex) (lines : List String) (line : String) (m : ℕ) (y : JobIndex)
    → replay k n x lines ≡ record { index = y; applied = m; stopped = false }
    → replay k n x (lines ++ (line ∷ [])) ≡ one_more m y (apply_line k y line)
unfolding replay
replay-append k n x [] line m y h =
    ap (λ (r : Replay). one_more r.applied r.index (apply_line k r.index line)) h
replay-append k n x (l ∷ lines) line m y h =
    by_first (λ w g. replay-append k (suc n) w lines line m y g) (apply_line k x l) h
  where
    by_first :
        ((w : JobIndex)
          → replay k (suc n) w lines ≡ record { index = y; applied = m; stopped = false }
          → replay k (suc n) w (lines ++ (line ∷ [])) ≡ one_more m y (apply_line k y line))
        → (o : Option JobIndex)
        → next_line n x o (λ w. replay k (suc n) w lines)
          ≡ record { index = y; applied = m; stopped = false }
        → next_line n x o (λ w. replay k (suc n) w (lines ++ (line ∷ [])))
          ≡ one_more m y (apply_line k y line)
    by_first next none h = let c = ap (λ (r : Replay). r.stopped) h in cc
    by_first next (some w) h = next w h

pub append_line-load :
    (k : Codec) (f : IndexFiles) (line : String) (y : JobIndex) (o : Option JobIndex)
    → Read k f y
    → apply_line k y line ≡ o
    → ((load_index k (append_line f line)).0 ≡ or_default o y)
      × (((load_index k (append_line f line)).1).consistency ≡ consistency_of (not (is_some o)))
unfolding load_index
append_line-load k f line y o r e =
    rw
      (
        not_missing f.lines (is_empty f.snapshot) (concat f.unended line),
        unended_nothing f.unended r.ended,
        r.good_rows,
        replay-append k 0 (apply_each empty_job_index (map input_of r.rows)) f.lines line r.applied
            y r.good_lines,
        e,
      )
      (by_line o)
  where
    not_missing :
        (ls : List String) (b : Bool) (s : String) → (b && none_left (ls ++ (s ∷ [])) "") ≡ false
    not_missing [] b s = ground arith
    not_missing (l ∷ ls) b s = ground arith

    unended_nothing : (s : String) → is_empty s ≡ true → (t : String) → concat s t ≡ t
    unended_nothing String.[] e t = nil-append t
    unended_nothing (String.◌∷◌ c s) e t = cc

    by_line :
        (p : Option JobIndex)
        → ((one_more r.applied y p).index ≡ or_default p y)
          × (consistency_of ((one_more r.applied y p).stopped || false)
              ≡ consistency_of (not (is_some p)))
    by_line none = (refl, refl)
    by_line (some z) = (refl, refl)
