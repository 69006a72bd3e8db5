-- ===== src/JobIndex/Keyed.antt =====
-- src/job-index.ts: the records of an index by their ids, and an index built again from them.
use codex_job_orchestrator.Common.{
  dict_get, dict_set, String, ◌≡◌, refl, sym, ap, ap₂, ◌∙◌, subst, inl, inr, true, false, Option,
  none, some, List, [], ◌∷◌, ◌++◌, map, str_eq, eq_iff, eq_refl, Dict, str_eq_sym,
  dict_get-dict_set, if◌then◌else◌, Bool-cases, or_default, is_some, if_cases, is_empty,
}
use codex_job_orchestrator.JobIndex.Types.{IndexedJob, IndexedJobInput, JobIndex, empty_job_index}
use codex_job_orchestrator.JobIndex.Apply.{
  record_of, same_record, change_job, create_job, upsert, apply_indexed_job, apply_each,
}
use codex_job_orchestrator.JobIndex.Upsert.{
  apply_indexed_job-eq-some, apply_indexed_job-some, record_of-job_id,
}
use codex_job_orchestrator.JobIndex.Files.{input_of}

-- Each record stands under its own id, once, with an id and a start that are not empty.
abbrev pub Keyed : Dict IndexedJob → Type 0
Keyed [] = Unit
Keyed ((k, r) ∷ d) =
    (k ≡ r.job_id)
    × (is_empty k ≡ false)
    × (is_empty r.started_at ≡ false)
    × (dict_get k d ≡ none)
    × Keyed d

Keyed-dict_set :
    (r : IndexedJob) (d : Dict IndexedJob)
    → is_empty r.job_id ≡ false
    → is_empty r.started_at ≡ false
    → Keyed d
    → Keyed (dict_set r.job_id r d)
unfolding dict_set dict_get
Keyed-dict_set r [] e s v = (refl, e, s, refl, tt)
Keyed-dict_set r ((j, w) ∷ d) e s (a, b, c, f, v) =
    if_cases {A = Dict IndexedJob} Keyed (str_eq j r.job_id)
      (λ t. ((eq_iff j r.job_id).0 t, b, s, f, v))
      (λ g. (
        a,
        b,
        c,
        rw (dict_get-dict_set r.job_id j r d, str_eq_sym j r.job_id g) f,
        Keyed-dict_set r d e s v,
      ))

upsert-Keyed :
    (x : JobIndex) (o : Option IndexedJob) (r : IndexedJob)
    → is_empty r.job_id ≡ false
    → is_empty r.started_at ≡ false
    → Keyed x.by_id
    → Keyed (upsert x o r).by_id
unfolding create_job change_job
upsert-Keyed x none r e s v = Keyed-dict_set r x.by_id e s v
upsert-Keyed x (some p) r e s v =
    if_cases (λ (y : JobIndex). Keyed y.by_id) (same_record p r) (λ t. v)
      (λ f. Keyed-dict_set r x.by_id e s v)

pub apply_each-Keyed :
    (x : JobIndex) (is : List IndexedJobInput) → Keyed x.by_id → Keyed (apply_each x is).by_id
unfolding apply_each
apply_each-Keyed x [] v = v
apply_each-Keyed x (i ∷ is) v =
    apply_each-Keyed (or_default (apply_indexed_job x i) x) is (kept (apply_indexed_job x i) refl)
  where
    kept : (o : Option JobIndex) → apply_indexed_job x i ≡ o → Keyed (or_default o x).by_id
    kept none e = v
    kept (some y) e =
        let prev = dict_get i.job_id x.by_id in
        let (named, started, u) = apply_indexed_job-eq-some x i y e in
        subst (λ (z : JobIndex). Keyed z.by_id) (sym u)
          (upsert-Keyed x prev (record_of i prev)
            (subst (λ k. is_empty k ≡ false) (sym (record_of-job_id i prev)) named) started v)

unfoldable pub values : Dict IndexedJob → List IndexedJob
values d = map (λ e. e.1) d

dict_set-absent :
    (k : String) (r : IndexedJob) (d : Dict IndexedJob)
    → dict_get k d ≡ none
    → dict_set k r d ≡ d ++ ((k, r) ∷ [])
unfolding dict_get dict_set
dict_set-absent k r [] e = refl
dict_set-absent k r ((j, w) ∷ d) e = elim (Bool-cases (str_eq j k)) [
  | inl t ↦ let g = subst (λ b. (if b then some w else dict_get k d) ≡ none) t e in cc
  | inr f ↦
      let g = subst (λ b. (if b then some w else dict_get k d) ≡ none) f e in
      rw (f, dict_set-absent k r d g) refl
]

record_of-input_of : (r : IndexedJob) → record_of (input_of r) none ≡ r
unfolding record_of
record_of-input_of r = by_end r.ended_at
  where
    by_end :
        (e : Option String)
        → record_of (input_of (record r { ended_at = e })) none ≡ record r { ended_at = e }
    by_end none = refl
    by_end (some s) = refl

-- No record of d stands in another dictionary.
Apart : Dict IndexedJob → Dict IndexedJob → Type 0
Apart before d = (k : String) → is_some (dict_get k d) ≡ true → dict_get k before ≡ none

fresh-apply :
    (y : JobIndex) (k : String) (r : IndexedJob)
    → k ≡ r.job_id
    → is_empty k ≡ false
    → is_empty r.started_at ≡ false
    → dict_get k y.by_id ≡ none
    → apply_indexed_job y (input_of r) ≡ some (create_job y r)
fresh-apply y k r e n s a =
    let absent = subst (λ z. dict_get z y.by_id ≡ none) e a in
    let same = ap (record_of (input_of r)) absent ∙ record_of-input_of r in
    apply_indexed_job-some y (input_of r) (subst (λ z. is_empty z ≡ false) e n)
      (ap (λ (q : IndexedJob). is_empty q.started_at) same ∙ s)
    ∙ ap some (ap₂ (upsert y) absent same)

append-one :
    (before : Dict IndexedJob) (e : String × IndexedJob) (d : Dict IndexedJob)
    → (before ++ (e ∷ [])) ++ d ≡ before ++ (e ∷ d)
append-one [] e d = refl
append-one (x ∷ before) e d = ap (λ z. x ∷ z) (append-one before e d)

Apart-rest :
    (before d : Dict IndexedJob) (k : String) (r : IndexedJob)
    → dict_get k d ≡ none
    → Apart before ((k, r) ∷ d)
    → Apart (dict_set k r before) d
unfolding Apart dict_get
Apart-rest before d k r f a i h = elim (Bool-cases (str_eq k i)) [
  | inl t ↦
      let g = subst (λ z. dict_get z d ≡ none) ((eq_iff k i).0 t) f in
      let c = subst (λ o. is_some o ≡ true) g h in cc
  | inr n ↦
      rw (dict_get-dict_set k i r before, n)
        (a i (subst (λ b. is_some (if b then some r else dict_get i d) ≡ true) (sym n) h))
]

apply_values :
    (y : JobIndex) (d : Dict IndexedJob)
    → Keyed d
    → Apart y.by_id d
    → (apply_each y (map input_of (values d))).by_id ≡ y.by_id ++ d
unfolding apply_each values Apart create_job dict_get
apply_values y [] v a = sym (append-none y.by_id)
  where
    append-none : (xs : Dict IndexedJob) → xs ++ [] ≡ xs
    append-none [] = refl
    append-none (x ∷ xs) = ap (λ z. x ∷ z) (append-none xs)
apply_values y ((k, r) ∷ d) (e, n, s, f, v) a =
    let absent =
      a k
        (subst (λ b. is_some (if b then some r else dict_get k d) ≡ true) (sym (eq_refl k)) refl) in
    let rest =
      apply_values (create_job y r) d v
        (subst (λ z. Apart (dict_set z r y.by_id) d) e (Apart-rest y.by_id d k r f a)) in
    ap (λ (o : Option JobIndex). (apply_each (or_default o y) (map input_of (values d))).by_id)
      (fresh-apply y k r e n s absent)
    ∙ (rest
        ∙ ap (λ z. dict_set z r y.by_id ++ d) (sym e)
        ∙ ap (λ z. z ++ d) (dict_set-absent k r y.by_id absent)
        ∙ append-one y.by_id (k, r) d)

-- An index built from the records of another, one after the other, has the same records in the same
-- order.
pub apply_each-values :
    (d : Dict IndexedJob)
    → Keyed d
    → (apply_each empty_job_index (map input_of (values d))).by_id ≡ d
unfolding empty_job_index Apart dict_get
apply_each-values d v = apply_values empty_job_index d v (λ k h. refl)
