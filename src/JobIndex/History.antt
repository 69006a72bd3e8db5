-- ===== src/JobIndex/History.antt =====
-- src/job-index.ts: what holds of every index that `applyIndexedJob` has built from the empty one.
use codex_job_orchestrator.Common.{
  dict_get, ◌≡◌, refl, ap, subst, Option, none, some, List, [], ◌∷◌, arith, or_default, if_cases,
  is_empty,
}
use codex_job_orchestrator.JobIndex.Types.{IndexedJob, IndexedJobInput, JobIndex, empty_job_index}
use codex_job_orchestrator.JobIndex.Apply.{
  record_of, same_record, upsert, apply_indexed_job, apply_each,
}
use codex_job_orchestrator.JobIndex.Counted.{IsCounted, change_job-IsCounted, create_job-IsCounted}

record_of-job_id :
    (i : IndexedJobInput) (prev : Option IndexedJob) → (record_of i prev).job_id ≡ i.job_id
unfolding record_of
record_of-job_id i prev = refl

upsert-IsCounted :
    (x : JobIndex) (rec : IndexedJob)
    → IsCounted x
    → (o : Option IndexedJob) → dict_get rec.job_id x.by_id ≡ o
    → IsCounted (upsert x o rec)
upsert-IsCounted x rec v none e = create_job-IsCounted x v rec e
upsert-IsCounted x rec v (some prev) e =
    if_cases IsCounted (same_record prev rec) (λ t. v) (λ f. change_job-IsCounted x v rec prev e)

apply_indexed_job-IsCounted :
    (x : JobIndex) (i : IndexedJobInput)
    → IsCounted x
    → (y : JobIndex) → apply_indexed_job x i ≡ some y
    → IsCounted y
unfolding apply_indexed_job
apply_indexed_job-IsCounted x i v y e =
    if_cases (λ o. o ≡ some y → IsCounted y) (is_empty i.job_id) (λ t h. absurd_none h)
      (λ f.
        if_cases (λ o. o ≡ some y → IsCounted y)
          (is_empty (record_of i (dict_get i.job_id x.by_id)).started_at) (λ t h. absurd_none h)
          (λ g h.
            subst (λ o. holds_of o) h
              (upsert-IsCounted x (record_of i (dict_get i.job_id x.by_id)) v
                (dict_get i.job_id x.by_id)
                (ap (λ k. dict_get k x.by_id) (record_of-job_id i (dict_get i.job_id x.by_id))))))
      e
  where
    absurd_none : none ≡ some y → IsCounted y
    absurd_none h = cc

    holds_of : Option JobIndex → Type 0
    holds_of none = Unit
    holds_of (some z) = IsCounted z

empty_job_index-IsCounted : IsCounted empty_job_index
unfolding empty_job_index dict_get
empty_job_index-IsCounted = record {
  counts = λ s. refl;
  replies = λ p c. refl;
  sessions = λ s c. omega arith;
  capped = λ s. omega arith;
}

kept-IsCounted :
    (x : JobIndex) (i : IndexedJobInput)
    → IsCounted x
    → (o : Option JobIndex) → apply_indexed_job x i ≡ o
    → IsCounted (or_default o x)
kept-IsCounted x i v none e = v
kept-IsCounted x i v (some y) e = apply_indexed_job-IsCounted x i v y e

apply_each-IsCounted :
    (x : JobIndex) (is : List IndexedJobInput) → IsCounted x → IsCounted (apply_each x is)
unfolding apply_each
apply_each-IsCounted x [] v = v
apply_each-IsCounted x (i ∷ is) v =
    apply_each-IsCounted (or_default (apply_indexed_job x i) x) is
      (kept-IsCounted x i v (apply_indexed_job x i) refl)

-- In an index built from the empty one by any deltas, refused ones among them, every status count
-- is the number of records with that status; a job stands once in the list of replies of the job
-- that it answers and in no other; it stands at most once in the list of its session and in no
-- other; and no list of a session is more than one entry longer than the cap.
pub apply_each-counts : (is : List IndexedJobInput) → IsCounted (apply_each empty_job_index is)
apply_each-counts is = apply_each-IsCounted empty_job_index is empty_job_index-IsCounted
