-- ===== src/JobIndex/RoundTrip.antt =====
-- src/job-index.ts: an index read from the files agrees with the memory that wrote them.
use codex_job_orchestrator.Common.{
  dict_get, dict_get-dict_set, eq_refl, String, ◌≡◌, refl, sym, ap, ◌∙◌, subst, Bool, true, false,
  not, ◌&&◌, Option, none, some, arith, or_default, if_cases, is_empty,
}
use codex_job_orchestrator.JobIndex.Types.{IndexedJob, IndexedJobInput, JobIndex}
use codex_job_orchestrator.JobIndex.Apply.{
  started_from, record_of, same_record, change_job, upsert, apply_indexed_job,
}
use codex_job_orchestrator.JobIndex.Upsert.{apply_indexed_job-eq-some, apply_indexed_job-some}
use codex_job_orchestrator.JobIndex.Files.{
  Codec, IndexFiles, apply_line, load_index, rebuild_required,
}
use codex_job_orchestrator.JobIndex.Record.{
  text_or_empty, delta_of, differs, input_differs_from, Append, Recorded, append_line, appended,
  replaces, refreshed, record_in, record_indexed_job, written, no_folder, failing, answered,
}
use codex_job_orchestrator.JobIndex.Replay.{
  as_read, read_input-delta_of, needs_rebuild, load_index-Read, append_line-load,
}

as_read-started : (i : IndexedJobInput) (t : String) → i.started_at ≡ some t → as_read i ≡ i
as_read-started i t e =
    ap (λ o. record i { started_at = some (text_or_empty o) }) e
    ∙ sym (ap (λ o. record i { started_at = o }) e)

-- A duplicate changes nothing in memory.
differs-same_record :
    (p : IndexedJob) (i : IndexedJobInput)
    → differs p i ≡ not (same_record p (record_of i (some p)))
unfolding same_record record_of
differs-same_record p i = rw (same_started i.started_at) refl
  where
    same_started : (a : Option String) → or_default a p.started_at ≡ started_from a (some p)
    same_started none = refl
    same_started (some t) = refl

upsert-duplicate :
    (x : JobIndex) (i : IndexedJobInput) (o : Option IndexedJob)
    → input_differs_from o i ≡ false
    → upsert x o (record_of i o) ≡ x
unfolding input_differs_from
upsert-duplicate x i none h = cc
upsert-duplicate x i (some p) h =
    if_cases (λ y. y ≡ x) (same_record p (record_of i (some p))) (λ t. refl)
      (λ f. let g = differs-same_record p i in let g2 = ap not f in cc)

duplicate-same :
    (x : JobIndex) (i : IndexedJobInput) (y : JobIndex)
    → input_differs_from (dict_get i.job_id x.by_id) i ≡ false
    → apply_indexed_job x i ≡ some y
    → y ≡ x
duplicate-same x i y h e =
    let (named, started, u) = apply_indexed_job-eq-some x i y e in
    u ∙ upsert-duplicate x i (dict_get i.job_id x.by_id) h

-- What a load of the files gives: an index, and nothing bad.
Loads : Codec → IndexFiles → JobIndex → Type 0
Loads k f y = ((load_index k f).0 ≡ y) × (needs_rebuild ((load_index k f).1).consistency ≡ false)

module _ (k : Codec) (f : IndexFiles) (i : IndexedJobInput) (t : String)
    (sound : needs_rebuild ((load_index k f).1).consistency ≡ false) (given : i.started_at ≡ some t)
    (read_back : k.parse (k.stringify (delta_of i)) ≡ some (delta_of i)) where
  apply_line-delta :
      (y z : JobIndex)
      → apply_indexed_job y i ≡ some z
      → apply_line k y (k.stringify (delta_of i)) ≡ some z
  unfolding apply_line
  apply_line-delta y z e =
      rw (read_back, read_input-delta_of i)
        (subst (λ j. apply_indexed_job y j ≡ some z) (sym (as_read-started i t given)) e)

  append_line-Loads :
      (z : JobIndex)
      → apply_indexed_job (load_index k f).0 i ≡ some z
      → Loads k (append_line f (k.stringify (delta_of i))) z
  unfolding Loads
  append_line-Loads z e =
      let (l, c) =
        append_line-load k f (k.stringify (delta_of i)) (load_index k f).0 (some z)
          (load_index-Read k f sound) (apply_line-delta (load_index k f).0 z e) in
      (l, ap needs_rebuild c)

  appended-Loads :
      (a b : Append) (z : JobIndex)
      → apply_indexed_job (load_index k f).0 i ≡ some z
      → (appended a b z f (k.stringify (delta_of i))).answer ≡ answered true
      → Loads k
          (appended a b z f (k.stringify (delta_of i))).files
          (appended a b z f (k.stringify (delta_of i))).memory
  unfolding Loads
  appended-Loads written b z e h = append_line-Loads z e
  appended-Loads no_folder written z e h = append_line-Loads z e
  appended-Loads no_folder no_folder z e h = cc
  appended-Loads no_folder failing z e h = cc
  appended-Loads failing b z e h = cc

  unchanged : (z : JobIndex) → z ≡ (load_index k f).0 → Loads k f z
  unfolding Loads
  unchanged z e = (sym e, sound)

  record_in-Loads :
      (a b : Append) (replaced : Bool) (o : Option JobIndex)
      → apply_indexed_job (load_index k f).0 i ≡ o
      → (record_in k a b f i replaced (load_index k f).0 o).answer ≡ answered true
      → Loads k
          (record_in k a b f i replaced (load_index k f).0 o).files
          (record_in k a b f i replaced (load_index k f).0 o).memory
  unfolding record_in
  record_in-Loads a b replaced none e h = cc
  record_in-Loads a b replaced (some z) e h =
      if_cases (λ (r : Recorded). r.answer ≡ answered true → Loads k r.files r.memory)
        (replaced && not (input_differs_from (dict_get i.job_id (load_index k f).0.by_id) i))
        (λ d q. unchanged z (duplicate-same (load_index k f).0 i z (second d) e))
        (λ d q. appended-Loads a b z e q) h
    where
      second :
          (replaced && not (input_differs_from (dict_get i.job_id (load_index k f).0.by_id) i))
            ≡ true
          → input_differs_from (dict_get i.job_id (load_index k f).0.by_id) i ≡ false
      second d = ground arith

  -- A delta that gives its start and is answered true leaves in memory just what the next load
  -- reads from the files, when nothing bad was read before and the memory was what the files hold or
  -- is replaced by it; and that load finds nothing bad either.
  pub recorded_is_loaded :
      (a b : Append) (x : JobIndex)
      → refreshed x (load_index k f) ≡ (load_index k f).0
      → (record_indexed_job k a b f i true x).answer ≡ answered true
      → ((load_index k (record_indexed_job k a b f i true x).files).0
          ≡ (record_indexed_job k a b f i true x).memory)
        × (needs_rebuild ((load_index k (record_indexed_job k a b f i true x).files).1).consistency
            ≡ false)
  unfolding record_indexed_job Loads
  recorded_is_loaded a b x e h = by_refreshed (refreshed x (load_index k f)) e h
    where
      r : JobIndex → Recorded
      r y = record_in k a b f i (replaces (load_index k f)) y (apply_indexed_job y i)

      by_refreshed :
          (y : JobIndex)
          → y ≡ (load_index k f).0
          → (r y).answer ≡ answered true
          → Loads k (r y).files (r y).memory
      by_refreshed y e =
          subst (λ z. (r z).answer ≡ answered true → Loads k (r z).files (r z).memory) (sym e)
            (λ h.
              record_in-Loads a b (replaces (load_index k f))
                (apply_indexed_job (load_index k f).0 i) refl h)

module _ (k : Codec) (b : Append) (f : IndexFiles) (i : IndexedJobInput) where
  record_in-written :
      (replaced : Bool) (y z : JobIndex)
      → input_differs_from (dict_get i.job_id y.by_id) i ≡ true
      → record_in k written b f i replaced y (some z) ≡ record {
        answer = answered true;
        memory = z;
        files = append_line f (k.stringify (delta_of i));
      }
  unfolding record_in
  record_in-written replaced y z d = rw d (
      if_cases
        (λ r. r ≡ record {
          answer = answered true;
          memory = z;
          files = append_line f (k.stringify (delta_of i));
        })
        (replaced && false) (λ e. off replaced e) (λ e. refl))
    where
      off : (c : Bool) {A : Type 0} → (c && false) ≡ true → A
      off true e = cc
      off false e = cc

  record_indexed_job-written :
      (x z : JobIndex)
      → replaces (load_index k f) ≡ true
      → apply_indexed_job (load_index k f).0 i ≡ some z
      → input_differs_from (dict_get i.job_id (load_index k f).0.by_id) i ≡ true
      → record_indexed_job k written b f i true x ≡ record {
        answer = answered true;
        memory = z;
        files = append_line f (k.stringify (delta_of i));
      }
  unfolding record_indexed_job
  record_indexed_job-written x z e h d = rw (e, h) (record_in-written true (load_index k f).0 z d)

empty_start :
    (y : JobIndex) (i : IndexedJobInput)
    → i.started_at ≡ none
    → apply_indexed_job y (as_read i) ≡ none
unfolding apply_indexed_job record_of
empty_start y i e = rw e (if_cases (λ o. o ≡ none) (is_empty i.job_id) (λ t. refl) (λ f. refl))

upsert-changed :
    (y : JobIndex) (i : IndexedJobInput) (o : Option IndexedJob) (p : IndexedJob)
    → o ≡ some p
    → differs p i ≡ true
    → dict_get i.job_id (upsert y o (record_of i o)).by_id ≡ some (record_of i (some p))
unfolding record_of change_job
upsert-changed y i o p e d =
    subst (λ q. dict_get i.job_id (upsert y q (record_of i q)).by_id ≡ some (record_of i (some p)))
      (sym e) (rw (unlike (differs-same_record p i), dict_get-dict_set, eq_refl i.job_id) refl)
  where
    unlike :
        differs p i ≡ not (same_record p (record_of i (some p)))
        → same_record p (record_of i (some p)) ≡ false
    unlike h = ground arith

-- A change that leaves out its start, to a job with an id and with a start on record, is answered
-- true, and memory then holds the changed record; but the line that is written is a bad one: the
-- next load keeps the index as it was and asks for a rebuild. The index was read without a bad line
-- and replaces the memory, the append works, and the line reads back as what was written.
pub start_left_out :
    (k : Codec) (f : IndexFiles) (i : IndexedJobInput) (p : IndexedJob) (b : Append) (x : JobIndex)
    → needs_rebuild ((load_index k f).1).consistency ≡ false
    → replaces (load_index k f) ≡ true
    → i.started_at ≡ none
    → k.parse (k.stringify (delta_of i)) ≡ some (delta_of i)
    → dict_get i.job_id (load_index k f).0.by_id ≡ some p
    → is_empty i.job_id ≡ false
    → is_empty p.started_at ≡ false
    → differs p i ≡ true
    → ((record_indexed_job k written b f i true x).answer ≡ answered true)
      × (dict_get i.job_id (record_indexed_job k written b f i true x).memory.by_id
          ≡ some (record_of i (some p)))
      × ((load_index k (record_indexed_job k written b f i true x).files).0 ≡ (load_index k f).0)
      × (((load_index k (record_indexed_job k written b f i true x).files).1).consistency
          ≡ rebuild_required)
unfolding record_of apply_line input_differs_from
start_left_out k f i p b x sound replaced omitted read_back there named started d =
    let (l, c) =
      append_line-load k f (k.stringify (delta_of i)) (load_index k f).0 none
        (load_index-Read k f sound) refused in
    let e =
      record_indexed_job-written k b f i x
        (upsert (load_index k f).0 (dict_get i.job_id (load_index k f).0.by_id)
          (record_of i (dict_get i.job_id (load_index k f).0.by_id)))
        replaced (apply_indexed_job-some (load_index k f).0 i named (rw (there, omitted) started))
        (rw there d) in
    (
      ap (λ (r : Recorded). r.answer) e,
      ap (λ (r : Recorded). dict_get i.job_id r.memory.by_id) e
          ∙ upsert-changed (load_index k f).0 i (dict_get i.job_id (load_index k f).0.by_id) p there
              d,
      ap (λ (r : Recorded). (load_index k r.files).0) e ∙ l,
      ap (λ (r : Recorded). ((load_index k r.files).1).consistency) e ∙ c,
    )
  where
    refused : apply_line k (load_index k f).0 (k.stringify (delta_of i)) ≡ none
    refused = rw (read_back, read_input-delta_of i) (empty_start (load_index k f).0 i omitted)
