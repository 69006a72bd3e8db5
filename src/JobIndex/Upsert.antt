-- ===== src/JobIndex/Upsert.antt =====
-- src/job-index.ts: the record that `applyIndexedJob` leaves under the job's id.
use codex_job_orchestrator.Common.{
  dict_get, String, ◌≡◌, refl, sym, ap, ap₂, ◌∙◌, subst, ◌⊎◌, inl, inr, Bool, true, false, Option,
  none, some, arith, eq_refl, dict_get-dict_set, if◌then◌else◌, Bool-cases, is_empty,
}
use codex_job_orchestrator.JobStore.Status.{JobStatus}
use codex_job_orchestrator.JobIndex.Types.{
  JobKind, IndexedJob, IndexedJobInput, JobIndex, same_status, same_kind, same_text, start, reply,
}
use codex_job_orchestrator.JobIndex.Apply.{
  record_of, same_record, change_job, create_job, upsert, apply_indexed_job,
}

pub apply_indexed_job-eq-some :
    (x : JobIndex) (i : IndexedJobInput) (y : JobIndex)
    → apply_indexed_job x i ≡ some y
    → (is_empty i.job_id ≡ false)
      × (is_empty (record_of i (dict_get i.job_id x.by_id)).started_at ≡ false)
      × (y ≡ upsert x (dict_get i.job_id x.by_id) (record_of i (dict_get i.job_id x.by_id)))
unfolding apply_indexed_job
apply_indexed_job-eq-some x i y h =
    both (is_empty i.job_id) (is_empty (record_of i (dict_get i.job_id x.by_id)).started_at) h
  where
    both :
        (b c : Bool) {z : JobIndex}
        → (if b then none else (if c then none else some z)) ≡ some y
        → (b ≡ false) × (c ≡ false) × (y ≡ z)
    both true c e = cc
    both false true e = cc
    both false false e = (refl, refl, cc)

pub apply_indexed_job-some :
    (x : JobIndex) (i : IndexedJobInput)
    → is_empty i.job_id ≡ false
    → is_empty (record_of i (dict_get i.job_id x.by_id)).started_at ≡ false
    → apply_indexed_job x i
      ≡ some (upsert x (dict_get i.job_id x.by_id) (record_of i (dict_get i.job_id x.by_id)))
unfolding apply_indexed_job
apply_indexed_job-some x i e f = rw (e, f) refl

same_status_refl : (s : JobStatus) → same_status s s ≡ true
same_status_refl s = ground arith

same_kind_refl : (m : JobKind) → same_kind m m ≡ true
same_kind_refl start = refl
same_kind_refl reply = refl

same_text_refl : (o : Option String) → same_text o o ≡ true
same_text_refl none = refl
same_text_refl (some s) = eq_refl s

same_record_refl : (r : IndexedJob) → same_record r r ≡ true
unfolding same_record
same_record_refl r =
    rw
      (
        same_status_refl r.status,
        eq_refl r.session_id,
        same_kind_refl r.kind,
        same_text_refl r.reply_to_job_id,
        eq_refl r.started_at,
        same_text_refl r.ended_at,
      )
      refl

-- A record filled in from a record that was itself filled in is the same again.
record_of-record_of :
    (i : IndexedJobInput) (o : Option IndexedJob)
    → record_of i (some (record_of i o)) ≡ record_of i o
unfolding record_of
record_of-record_of i o = by_fields i.started_at i.ended_at
  where
    by_fields :
        (a e : Option String)
        → record_of
            (record i { started_at = a; ended_at = e })
            (some (record_of (record i { started_at = a; ended_at = e }) o))
          ≡ record_of (record i { started_at = a; ended_at = e }) o
    by_fields none none = refl
    by_fields none (some s) = refl
    by_fields (some s) none = refl
    by_fields (some s) (some e) = refl

upsert-get :
    (x : JobIndex) (o : Option IndexedJob) (rec : IndexedJob)
    → dict_get rec.job_id x.by_id ≡ o
    → (upsert x o rec ≡ x) ⊎ (dict_get rec.job_id (upsert x o rec).by_id ≡ some rec)
unfolding create_job change_job
upsert-get x none rec e = inr (rw (dict_get-dict_set, eq_refl rec.job_id) refl)
upsert-get x (some p) rec e = elim (Bool-cases (same_record p rec)) [
  | inl s ↦ inl (rw s refl)
  | inr d ↦ inr (rw (d, dict_get-dict_set, eq_refl rec.job_id) refl)
]

pub record_of-job_id :
    (i : IndexedJobInput) (o : Option IndexedJob) → (record_of i o).job_id ≡ i.job_id
unfolding record_of
record_of-job_id i o = refl

-- Once the record stands in the index, the delta is a duplicate of it.
duplicate :
    (y : JobIndex) (i : IndexedJobInput) (o : Option IndexedJob)
    → is_empty i.job_id ≡ false
    → is_empty (record_of i o).started_at ≡ false
    → dict_get i.job_id y.by_id ≡ some (record_of i o)
    → apply_indexed_job y i ≡ some y
duplicate y i o named started g =
    let same = ap (record_of i) g ∙ record_of-record_of i o in
    apply_indexed_job-some y i named (ap (λ (r : IndexedJob). is_empty r.started_at) same ∙ started)
    ∙ ap some (ap₂ (upsert y) g same ∙ upsert-same y (record_of i o))
  where
    upsert-same : (y : JobIndex) (r : IndexedJob) → upsert y (some r) r ≡ y
    upsert-same y r = rw (same_record_refl r) refl

-- A delta that has been applied changes nothing when it is applied again.
pub apply_indexed_job-again :
    (x : JobIndex) (i : IndexedJobInput) (y : JobIndex)
    → apply_indexed_job x i ≡ some y
    → apply_indexed_job y i ≡ some y
apply_indexed_job-again x i y h =
    let prev = dict_get i.job_id x.by_id in
    let (named, started, e) = apply_indexed_job-eq-some x i y h in
    elim (upsert-get x prev (record_of i prev)
      (ap (λ k. dict_get k x.by_id) (record_of-job_id i prev))) [
        | inl s ↦ subst (λ z. apply_indexed_job z i ≡ some y) (sym (e ∙ s)) h
        | inr s ↦ duplicate y i prev named started (
            ap (λ k. dict_get k y.by_id) (sym (record_of-job_id i prev))
            ∙ ap (λ (z : JobIndex). dict_get (record_of i prev).job_id z.by_id) e
            ∙ s)
      ]
