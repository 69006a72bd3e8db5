-- ===== src/JobStore.antt =====
-- src/job-store.ts: a job's record, its lock, and the one writer of it.
-- A job is its id, its status and the rest of its fields (`body`), of which only `isValidJobRecord`
-- reads something. An update writes its record as it is, and each read tests the file again. The store is that of the moment when the lock is acquired; `mirrored` are the records
-- handed to `recordIndexedJobBestEffort`, newest first.
pub mod Status
pub mod Monotone
pub mod History
pub mod Replace
pub mod StateLock
pub mod LockBound
pub mod LockSafety
mod Examples
use codex_job_orchestrator.Common.{
  String, Bool, true, false, not, ◌&&◌, is_empty, Option, none, some, List, [], ◌∷◌, str_eq,
  if◌then◌else◌, or_default,
}
use codex_job_orchestrator.JobStore.Status.{
  JobStatus, queued, running, needs_attention, succeeded, failed, cancelled,
}

pub record Job {ℓ} (A : Type ℓ) : Type ℓ where
  pub job_id : String
  pub status : JobStatus
  pub body : A

pub record JobPatch {ℓ} (A : Type ℓ) : Type ℓ where
  pub job_id : Option String
  pub status : Option JobStatus
  pub body : A → A

-- The files of the jobs directory by job id; `none` is a file that does not parse as a record.
pub record Store {ℓ} (A : Type ℓ) : Type ℓ where
  pub files : List (String × Option (Job A))
  pub mirrored : List (Job A)

pub data LockAnswer : Type 0 where
  acquired held lock_throws : LockAnswer

pub data Answer {ℓ} (A : Type ℓ) : Type ℓ where
  returned : A → Answer A
  thrown : Answer A

-- What is placed above or level in the order queued, running, needs_attention, terminal.
unfoldable pub is_allowed_status_transition : JobStatus → JobStatus → Bool
is_allowed_status_transition queued to = true
is_allowed_status_transition running queued = false
is_allowed_status_transition running running = true
is_allowed_status_transition running needs_attention = true
is_allowed_status_transition running succeeded = true
is_allowed_status_transition running failed = true
is_allowed_status_transition running cancelled = true
is_allowed_status_transition needs_attention queued = false
is_allowed_status_transition needs_attention running = false
is_allowed_status_transition needs_attention needs_attention = true
is_allowed_status_transition needs_attention succeeded = true
is_allowed_status_transition needs_attention failed = true
is_allowed_status_transition needs_attention cancelled = true
is_allowed_status_transition succeeded succeeded = true
is_allowed_status_transition succeeded _ = false
is_allowed_status_transition failed failed = true
is_allowed_status_transition failed _ = false
is_allowed_status_transition cancelled cancelled = true
is_allowed_status_transition cancelled _ = false

module _ {ℓ} {A : Type ℓ} where
  unfoldable pub apply_patch : Job A → JobPatch A → Job A
  apply_patch cur p = record {
    job_id = or_default p.job_id cur.job_id;
    status = or_default p.status cur.status;
    body = p.body cur.body;
  }

  unfoldable pub write_file :
      String → Job A → List (String × Option (Job A)) → List (String × Option (Job A))
  write_file id j [] = (id, some j) ∷ []
  write_file id j ((k, v) ∷ rest) =
      let others = write_file id j rest in
      if str_eq k id then (id, some j) ∷ rest else (k, v) ∷ others

  abbrev pub write_job : Job A → Store A → Store A
  write_job j s = record s { files = write_file j.job_id j s.files }

  abbrev pub mirror : Job A → Store A → Store A
  mirror j s = record s { mirrored = j ∷ s.mirrored }

  -- The write throws if the file cannot be replaced. `next` is not reset when the transition is
  -- refused or the write throws, so the `finally` mirrors it then too.
  unfoldable pub commit : Bool → Job A → Job A → Store A → Answer (Option (Job A)) × Store A
  commit writable cur next s =
      if not (is_allowed_status_transition cur.status next.status)
      then (returned none, mirror next s)
      else if writable
      then (returned (some next), mirror next (write_job next s))
      else (thrown, mirror next s)

  abbrev pub mutated : Bool → Job A → Option (Job A) → Store A → Answer (Option (Job A)) × Store A
  mutated writable cur none s = (returned none, s)
  mutated writable cur (some next) s = commit writable cur next s

  abbrev pub found :
      Bool → (Job A → Option (Job A)) → Option (Job A) → Store A → Answer (Option (Job A)) × Store A
  found writable f none s = (returned none, s)
  found writable f (some cur) s = mutated writable cur (f cur) s

  abbrev pub patch_if : (Job A → Bool) → JobPatch A → Job A → Option (Job A)
  patch_if g p cur = if g cur then some (apply_patch cur p) else none

  abbrev pub create_under_lock :
      Bool → Job A → Option (Job A) → Store A → Answer (Option (Job A)) × Store A
  create_under_lock writable j (some cur) s = (returned none, s)
  create_under_lock writable j none s =
      if writable then (returned (some j), mirror j (write_job j s)) else (thrown, s)

-- `body_ok` is the outcome of the tests of `isValidJobRecord` on the fields that are no part of the
-- model; the status is one of the six by its type.
module _ {ℓ} {A : Type ℓ} (body_ok : A → Bool) where
  abbrev pub is_valid_job_record : Job A → Bool
  is_valid_job_record j = not (is_empty j.job_id) && body_ok j.body

  -- A file that does not parse, or whose record is not valid, counts as absent.
  abbrev pub checked : Option (Job A) → Option (Job A)
  checked none = none
  checked (some j) = if is_valid_job_record j then some j else none

  unfoldable pub read_job : String → List (String × Option (Job A)) → Option (Job A)
  read_job id [] = none
  read_job id ((k, v) ∷ rest) = if str_eq k id then checked v else read_job id rest

  -- The loop over the attempts, each with what `acquireJobStateLock` answers.
  unfoldable pub attempts :
      List LockAnswer
      → Bool
      → String
      → (Job A → Option (Job A))
      → Store A
      → Answer (Option (Job A)) × Store A
  unfolding read_job commit
  attempts [] writable id f s = (returned none, s)
  attempts (lock_throws ∷ rest) writable id f s = (thrown, s)
  attempts (acquired ∷ rest) writable id f s = found writable f (read_job id s.files) s
  attempts (held ∷ rest) writable id f s = attempts rest writable id f s

  unfoldable pub update_job_under_lock :
      (LockAnswer × LockAnswer × LockAnswer)
      → Bool
      → String
      → (Job A → Option (Job A))
      → Store A
      → Answer (Option (Job A)) × Store A
  unfolding attempts
  update_job_under_lock (a, b, c) writable id f s = attempts (a ∷ b ∷ c ∷ []) writable id f s

  unfoldable pub update_job :
      (LockAnswer × LockAnswer × LockAnswer)
      → Bool
      → String
      → JobPatch A
      → Store A
      → Answer (Option (Job A)) × Store A
  unfolding update_job_under_lock apply_patch
  update_job l writable id p s =
      update_job_under_lock l writable id (λ cur. some (apply_patch cur p)) s

  unfoldable pub update_job_if :
      (LockAnswer × LockAnswer × LockAnswer)
      → Bool
      → String
      → (Job A → Bool)
      → JobPatch A
      → Store A
      → Answer (Option (Job A)) × Store A
  unfolding update_job_under_lock apply_patch
  update_job_if l writable id g p s = update_job_under_lock l writable id (patch_if g p) s

  unfoldable pub create_job_record :
      LockAnswer → Bool → Job A → Store A → Answer (Option (Job A)) × Store A
  unfolding read_job
  create_job_record held writable j s = (returned none, s)
  create_job_record lock_throws writable j s = (thrown, s)
  create_job_record acquired writable j s =
      create_under_lock writable j (read_job j.job_id s.files) s
