-- ===== src/JobStore/Monotone.antt =====
-- src/job-store.ts: an update under the lock moves a status forward only.
use codex_job_orchestrator.Common.{
  String, ◌≡◌, refl, sym, ◌∙◌, subst, inl, inr, Bool, true, false, not, Option, none, some, List,
  [], ◌∷◌, arith, str_eq, eq_iff, if◌then◌else◌, Bool-cases, or_default, if_cases,
}
use codex_job_orchestrator.JobStore.Status.{
  JobStatus, queued, running, needs_attention, succeeded, failed, cancelled,
}
use codex_job_orchestrator.JobStore.{
  Job, Store, LockAnswer, Answer, is_allowed_status_transition, is_valid_job_record, checked,
  read_job, write_file, commit, mutated, found, attempts, acquired, held, lock_throws,
}
use text.Mathlib.TextPositions.{eq_refl}

-- The order of the transitions is a preorder.
pub allowed_trans :
    (a b c : JobStatus)
    → is_allowed_status_transition a b ≡ true
    → is_allowed_status_transition b c ≡ true
    → is_allowed_status_transition a c ≡ true
unfolding is_allowed_status_transition
allowed_trans queued b c h i = refl
allowed_trans running queued c h i = cc
allowed_trans running running c h i = i
allowed_trans running needs_attention c h i = ground arith
allowed_trans running succeeded c h i = ground arith
allowed_trans running failed c h i = ground arith
allowed_trans running cancelled c h i = ground arith
allowed_trans needs_attention b c h i = ground arith
allowed_trans succeeded b c h i = ground arith
allowed_trans failed b c h i = ground arith
allowed_trans cancelled b c h i = ground arith

pub allowed_refl : (a : JobStatus) → is_allowed_status_transition a a ≡ true
unfolding is_allowed_status_transition
allowed_refl queued = refl
allowed_refl running = refl
allowed_refl needs_attention = refl
allowed_refl succeeded = refl
allowed_refl failed = refl
allowed_refl cancelled = refl

swap : (n k : String) → str_eq n k ≡ false → str_eq k n ≡ false
swap n k e = elim (Bool-cases (str_eq k n)) [
  | inl t ↦
      let x = subst (λ y. str_eq y k ≡ false) (sym ((eq_iff k n).0 t)) e in let r = eq_refl k in cc
  | inr f ↦ f
]

apart : (n k id : String) → str_eq n k ≡ false → str_eq n id ≡ true → str_eq k id ≡ false
apart n k id e h = subst (λ x. str_eq k x ≡ false) ((eq_iff n id).0 h) (swap n k e)

abbrev pub Files {ℓ} : Type ℓ → Type ℓ
Files A = List (String × Option (Job A))

module _ {ℓ} {A : Type ℓ} (ok : A → Bool) where
  pub checked-eq : (v : Option (Job A)) (cur : Job A) → checked ok v ≡ some cur → v ≡ some cur
  checked-eq none cur e = cc
  checked-eq (some j) cur e =
      if_cases {A = Option (Job A)} (λ o. o ≡ some cur → some j ≡ some cur)
        (is_valid_job_record ok j) (λ t e. e) (λ f e. cc) e

  checked-IsValid :
      (v : Option (Job A)) (cur : Job A)
      → checked ok v ≡ some cur
      → is_valid_job_record ok cur ≡ true
  checked-IsValid none cur e = cc
  checked-IsValid (some j) cur e =
      if_cases {A = Option (Job A)} (λ o. o ≡ some cur → is_valid_job_record ok cur ≡ true)
        (is_valid_job_record ok j)
        (λ t e. subst (λ o. is_valid_job_record ok (or_default o j) ≡ true) e t) (λ f e. cc) e

  same :
      (id k : String) (j : Job A) (v : Option (Job A)) (fs : Files A)
      → read_job ok id (write_file k j ((k, v) ∷ fs))
        ≡ (if str_eq k id then checked ok (some j) else read_job ok id ((k, v) ∷ fs))
  unfolding read_job write_file
  same id k j v fs = elim (Bool-cases (str_eq k id)) [
    | inl e ↦ rw (eq_refl k, e)
    | inr e ↦ rw (eq_refl k, e)
  ]

  other :
      (id k n : String) (j : Job A) (v : Option (Job A)) (fs : Files A)
      → str_eq n k ≡ false
      → read_job ok id (write_file k j fs)
        ≡ (if str_eq k id then checked ok (some j) else read_job ok id fs)
      → read_job ok id (write_file k j ((n, v) ∷ fs))
        ≡ (if str_eq k id then checked ok (some j) else read_job ok id ((n, v) ∷ fs))
  unfolding read_job write_file
  other id k n j v fs e rest = elim (Bool-cases (str_eq n id)) [
    | inl h ↦ rw (e, h, apart n k id e h)
    | inr h ↦ rw (e, h) rest
  ]

  pub read_job-write_file :
      (id k : String) (j : Job A) (fs : Files A)
      → read_job ok id (write_file k j fs)
        ≡ (if str_eq k id then checked ok (some j) else read_job ok id fs)
  unfolding read_job write_file
  read_job-write_file id k j [] = refl
  read_job-write_file id k j ((n, v) ∷ fs) = elim (Bool-cases (str_eq n k)) [
    | inl e ↦
        subst
          (λ m.
            read_job ok id (write_file k j ((m, v) ∷ fs))
            ≡ (if str_eq k id then checked ok (some j) else read_job ok id ((m, v) ∷ fs)))
          (sym ((eq_iff n k).0 e)) (same id k j v fs)
    | inr e ↦ other id k n j v fs e (read_job-write_file id k j fs)
  ]

  pub read_job-IsValid :
      (id : String) (fs : Files A) (cur : Job A)
      → read_job ok id fs ≡ some cur
      → is_valid_job_record ok cur ≡ true
  unfolding read_job
  read_job-IsValid id [] cur e = cc
  read_job-IsValid id ((n, v) ∷ fs) cur e =
      if_cases {A = Option (Job A)} (λ o. o ≡ some cur → is_valid_job_record ok cur ≡ true)
        (str_eq n id) (λ t e. checked-IsValid v cur e) (λ f e. read_job-IsValid id fs cur e) e

  -- Every valid record stands in the file of its own id.
  abbrev pub IsNamed : Files A → Type ℓ
  IsNamed fs = (id : String) (cur : Job A) → read_job ok id fs ≡ some cur → cur.job_id ≡ id

  -- A valid record of fs is still one in gs, and its status is the same or has moved forward.
  abbrev pub Forward : Files A → Files A → Type ℓ
  Forward fs gs =
      (id : String) (cur : Job A)
      → read_job ok id fs ≡ some cur
      → (next : Job A) × (read_job ok id gs ≡ some next)
        × (is_allowed_status_transition cur.status next.status ≡ true)

  -- What f makes of a valid record is a valid one with the same id.
  abbrev pub Keeps : (Job A → Option (Job A)) → Type ℓ
  Keeps f =
      (cur next : Job A)
      → is_valid_job_record ok cur ≡ true
      → f cur ≡ some next
      → (next.job_id ≡ cur.job_id) × (is_valid_job_record ok next ≡ true)

  abbrev pub Good : Files A → Answer (Option (Job A)) × Store A → Type ℓ
  Good fs r = IsNamed r.1.files × Forward fs r.1.files

  pub Forward-refl : (fs : Files A) → Forward fs fs
  Forward-refl fs id cur e = (cur, e, allowed_refl cur.status)

  pub Forward-trans : (fs gs hs : Files A) → Forward fs gs → Forward gs hs → Forward fs hs
  Forward-trans fs gs hs f g id cur e =
      let (next, e2, a) = f id cur e in
      let (last, e3, b) = g id next e2 in
      (last, e3, allowed_trans cur.status next.status last.status a b)

  same_record :
      (fs : Files A) (id i : String) (cur next c : Job A)
      → read_job ok id fs ≡ some cur
      → is_allowed_status_transition cur.status next.status ≡ true
      → i ≡ id
      → read_job ok i fs ≡ some c
      → is_allowed_status_transition c.status next.status ≡ true
  same_record fs id i cur next c e a p f =
      subst (λ o. is_allowed_status_transition (or_default o cur).status next.status ≡ true)
        (sym e ∙ subst (λ x. read_job ok x fs ≡ some c) p f) a

  write_file-Forward :
      (fs : Files A) (id : String) (cur next : Job A)
      → IsNamed fs
      → read_job ok id fs ≡ some cur
      → (next.job_id ≡ cur.job_id) × (is_valid_job_record ok next ≡ true)
      → is_allowed_status_transition cur.status next.status ≡ true
      → IsNamed (write_file next.job_id next fs) × Forward fs (write_file next.job_id next fs)
  write_file-Forward fs id cur next n e (k, v) a = (
    λ i c f.
        if_cases {A = Option (Job A)} (λ o. o ≡ some c → c.job_id ≡ i) (str_eq next.job_id i)
          (λ t eq.
            subst (λ o. (or_default o next).job_id ≡ i) (checked-eq (some next) c eq)
              ((eq_iff next.job_id i).0 t))
          (λ x eq. n i c eq) (sym (read_job-write_file i next.job_id next fs) ∙ f),
    λ i c f. elim (Bool-cases (str_eq next.job_id i)) [
      | inl t ↦ (
        next,
        read_job-write_file i next.job_id next fs ∙ rw (t, v) refl,
        same_record fs id i cur next c e a (sym ((eq_iff next.job_id i).0 t) ∙ k ∙ n id cur e) f,
      )
      | inr x ↦ (c, read_job-write_file i next.job_id next fs ∙ rw x f, allowed_refl c.status)
    ],
  )

  commit-Good :
      (w : Bool) (s : Store A) (id : String) (cur next : Job A)
      → IsNamed s.files
      → read_job ok id s.files ≡ some cur
      → (next.job_id ≡ cur.job_id) × (is_valid_job_record ok next ≡ true)
      → Good s.files (commit w cur next s)
  unfolding commit
  commit-Good w s id cur next n e k =
      if_cases {A = Answer (Option (Job A)) × Store A} (Good s.files)
        (not (is_allowed_status_transition cur.status next.status)) (λ t. (n, Forward-refl s.files))
        (λ f.
          if_cases {A = Answer (Option (Job A)) × Store A} (Good s.files) w
            (λ t. write_file-Forward s.files id cur next n e k (ground arith))
            (λ x. (n, Forward-refl s.files)))

  mutated-Good :
      (w : Bool) (s : Store A) (id : String) (cur : Job A) (o : Option (Job A))
      → IsNamed s.files
      → read_job ok id s.files ≡ some cur
      → ((next : Job A)
          → o ≡ some next
          → (next.job_id ≡ cur.job_id) × (is_valid_job_record ok next ≡ true))
      → Good s.files (mutated w cur o s)
  mutated-Good w s id cur none n e k = (n, Forward-refl s.files)
  mutated-Good w s id cur (some next) n e k = commit-Good w s id cur next n e (k next refl)

  found-Good :
      (w : Bool) (s : Store A) (id : String) (f : Job A → Option (Job A)) (o : Option (Job A))
      → IsNamed s.files
      → read_job ok id s.files ≡ o
      → Keeps f
      → Good s.files (found w f o s)
  found-Good w s id f none n e k = (n, Forward-refl s.files)
  found-Good w s id f (some cur) n e k =
      mutated-Good w s id cur (f cur) n e (λ next. k cur next (read_job-IsValid id s.files cur e))

  pub attempts-Good :
      (ls : List LockAnswer) (w : Bool) (s : Store A) (id : String) (f : Job A → Option (Job A))
      → IsNamed s.files
      → Keeps f
      → Good s.files (attempts ok ls w id f s)
  unfolding attempts
  attempts-Good [] w s id f n k = (n, Forward-refl s.files)
  attempts-Good (acquired ∷ ls) w s id f n k = found-Good w s id f (read_job ok id s.files) n refl k
  attempts-Good (held ∷ ls) w s id f n k = attempts-Good ls w s id f n k
  attempts-Good (lock_throws ∷ ls) w s id f n k = (n, Forward-refl s.files)
