-- ===== src/JobIndex/Apply.antt =====
-- src/job-index.ts: `applyIndexedJob`. The source changes the index in place; here the new index is
-- the result, and `none` stands for the answer false, with which nothing has been changed.
use codex_job_orchestrator.Common.{
  dict_get, dict_set, ℕ, suc, ◌-◌, String, Bool, true, false, not, ◌&&◌, Option, none, some, List,
  [], ◌∷◌, ◌++◌, str_eq, Dict, if◌then◌else◌, or_default, is_empty,
}
use codex_job_orchestrator.JobStore.Status.{JobStatus}
use codex_job_orchestrator.JobIndex.Types.{
  IndexedJob, IndexedJobInput, JobIndex, same_status, same_kind, same_text,
}
use codex_job_orchestrator.JobIndex.Sessions.{
  contains, remove_first, sorted_insert, inserted, inserted_trimmed, without, moved,
}

abbrev pub add_to : String → String → Option (List String) → Dict (List String) → Dict (List String)
add_to parent id none d = dict_set parent (id ∷ []) d
add_to parent id (some cs) d = if contains id cs then d else dict_set parent (cs ++ (id ∷ [])) d

abbrev pub add_child : Option String → String → Dict (List String) → Dict (List String)
add_child none id d = d
add_child (some parent) id d = add_to parent id (dict_get parent d) d

abbrev pub drop_child : Option String → String → Dict (List String) → Dict (List String)
drop_child none id d = d
drop_child (some parent) id d = without parent id (dict_get parent d) d

-- `input.startedAt ?? prev?.startedAt ?? ''`, and the same of `endedAt` with null.
abbrev pub started_from : Option String → Option IndexedJob → String
started_from (some s) prev = s
started_from none none = ""
started_from none (some p) = p.started_at

abbrev pub ended_from : Option String → Option IndexedJob → Option String
ended_from (some s) prev = some s
ended_from none none = none
ended_from none (some p) = p.ended_at

unfoldable pub record_of : IndexedJobInput → Option IndexedJob → IndexedJob
record_of i prev = record {
  job_id = i.job_id;
  session_id = i.session_id;
  status = i.status;
  kind = i.kind;
  reply_to_job_id = i.reply_to_job_id;
  started_at = started_from i.started_at prev;
  ended_at = ended_from i.ended_at prev;
}

unfoldable pub same_record : IndexedJob → IndexedJob → Bool
same_record p r =
    same_status p.status r.status
    && str_eq p.session_id r.session_id
    && same_kind p.kind r.kind
    && same_text p.reply_to_job_id r.reply_to_job_id
    && str_eq p.started_at r.started_at
    && same_text p.ended_at r.ended_at

abbrev pub bump : JobStatus → (JobStatus → ℕ) → JobStatus → ℕ
bump s c t = if same_status s t then suc (c t) else c t

abbrev pub unbump : JobStatus → (JobStatus → ℕ) → JobStatus → ℕ
unbump s c t = if same_status s t then c t - 1 else c t

-- The job's place in its session when it has a record already.
unfoldable pub update_session :
    Dict IndexedJob → IndexedJob → IndexedJob → Dict (List String) → Dict (List String)
unfolding sorted_insert remove_first
update_session by_id prev rec d =
    let first =
      dict_set rec.session_id (inserted_trimmed (dict_get rec.session_id d) rec by_id false) d in
    if not (str_eq prev.session_id rec.session_id)
    then (let left = without prev.session_id rec.job_id (dict_get prev.session_id first) first in
        dict_set rec.session_id (inserted (dict_get rec.session_id left) rec by_id false) left)
    else if not (str_eq prev.started_at rec.started_at)
    then moved rec (dict_get rec.session_id first) by_id first
    else first

-- Its place among the replies.
unfoldable pub update_children : IndexedJob → IndexedJob → Dict (List String) → Dict (List String)
update_children prev rec d =
    let first = add_child rec.reply_to_job_id rec.job_id d in
    if same_text prev.reply_to_job_id rec.reply_to_job_id
    then first
    else add_child rec.reply_to_job_id rec.job_id (drop_child prev.reply_to_job_id rec.job_id first)

unfoldable pub change_job : JobIndex → IndexedJob → IndexedJob → JobIndex
unfolding update_session update_children
change_job x prev rec = record {
  by_id = dict_set rec.job_id rec x.by_id;
  session_order = update_session x.by_id prev rec x.session_order;
  status_counts = bump rec.status (unbump prev.status x.status_counts);
  reply_children = update_children prev rec x.reply_children;
}

unfoldable pub create_job : JobIndex → IndexedJob → JobIndex
unfolding sorted_insert
create_job x rec = record {
  by_id = dict_set rec.job_id rec x.by_id;
  session_order =
      dict_set rec.session_id
        (inserted_trimmed (dict_get rec.session_id x.session_order) rec x.by_id true)
        x.session_order;
  status_counts = bump rec.status x.status_counts;
  reply_children = add_child rec.reply_to_job_id rec.job_id x.reply_children;
}

abbrev pub upsert : JobIndex → Option IndexedJob → IndexedJob → JobIndex
upsert x none rec = create_job x rec
upsert x (some prev) rec = if same_record prev rec then x else change_job x prev rec

unfoldable pub apply_indexed_job : JobIndex → IndexedJobInput → Option JobIndex
unfolding record_of same_record change_job create_job
apply_indexed_job x i =
    if is_empty i.job_id
    then none
    else (let prev = dict_get i.job_id x.by_id in
        if is_empty (record_of i prev).started_at
        then none
        else some (upsert x prev (record_of i prev)))

-- The loop of `rebuildIndex` and `replayJournal` on deltas that have been read.
unfoldable pub apply_each : JobIndex → List IndexedJobInput → JobIndex
unfolding apply_indexed_job
apply_each x [] = x
apply_each x (i ∷ is) = apply_each (or_default (apply_indexed_job x i) x) is
