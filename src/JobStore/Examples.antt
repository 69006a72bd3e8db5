-- ===== src/JobStore/Examples.antt =====
-- src/job-store.ts: a job from its creation on, and the theorems at concrete inputs.
use codex_job_orchestrator.Common.{
  ℕ, ◌*◌, ◌≡◌, refl, true, false, none, some, List, [], ◌∷◌, map, arith, str_eq, All, leb, ltb,
  ◌==◌, subst, or_default, eq_iff, if_cases, Bool, Option, if◌then◌else◌,
}
use codex_job_orchestrator.Proc.{PidIdentityQuery, pid_identity_status, verified_live}
use codex_job_orchestrator.JobStore.Status.{JobStatus, queued, running, succeeded}
use codex_job_orchestrator.JobStore.{
  Job, JobPatch, Store, LockAnswer, is_allowed_status_transition, apply_patch, read_job, write_file,
  commit, attempts, update_job_under_lock, update_job, update_job_if, create_job_record, acquired,
  held, returned,
}
use codex_job_orchestrator.JobStore.Monotone.{IsNamed, Forward}
use codex_job_orchestrator.JobStore.History.{Operation, perform, run, run-Forward, creates, updates}
use codex_job_orchestrator.JobStore.Replace.{
  RenameOutcome, atomic_write_json, IsAtomic, atomic_write_json-IsAtomic, renamed, transient,
  complete,
}
use codex_job_orchestrator.JobStore.StateLock.{
  JobStateLockRecord, LockOptions, LockPass, acquire_job_state_lock, renames, gone, steal_fails,
  lock_acquired, status_of,
}
use codex_job_orchestrator.JobStore.LockBound.{is_ended, acquire_job_state_lock-ends}
use codex_job_orchestrator.JobStore.LockSafety.{
  IsUndisturbed, IsUnproven, acquire_job_state_lock-spares,
}

abbrev job : JobStatus → Job ℕ
job s = record { job_id = "a1"; status = s; body = 0 }

abbrev to_status : JobStatus → JobPatch ℕ
to_status s = record { job_id = none; status = some s; body = λ n. n }

abbrev free_lock : LockAnswer × LockAnswer × LockAnswer
free_lock = (acquired, acquired, acquired)

abbrev story : List (Operation ℕ)
story =
    creates acquired true (job queued)
    ∷ updates (held, acquired, acquired) true "a1" (to_status running)
    ∷ Operation.updates_if free_lock true "a1" (λ j. true) (to_status succeeded)
    ∷ updates free_lock true "a2" (to_status succeeded)
    ∷ updates free_lock true "a1" (to_status running)
    ∷ []

-- The fields that the model leaves out are valid below 9.
abbrev body_ok : ℕ → Bool
body_ok n = ltb n 9

-- Job a2 is there at the start; a1 is created, run and finished.
abbrev start_store : Store ℕ
start_store = record {
  files = ("a2", some (record { job_id = "a2"; status = running; body = 3 })) ∷ [];
  mirrored = [];
}

-- The last update is refused; the file stays as it was and the index is told otherwise.
story_ends :
    (read_job body_ok "a1" (run body_ok story start_store).files ≡ some (job succeeded))
    × (map (λ j. j.status) (run body_ok story start_store).mirrored
        ≡ running ∷ succeeded ∷ succeeded ∷ running ∷ queued ∷ [])
unfolding run perform create_job_record update_job update_job_if update_job_under_lock attempts
    commit read_job write_file apply_patch is_allowed_status_transition
story_ends = (refl, refl)

abbrev spoiling : JobPatch ℕ
spoiling = record { job_id = none; status = none; body = λ n. 9 }

-- An update that writes an invalid record succeeds, and the job is absent from then on.
spoiled_is_absent :
    ((update_job body_ok free_lock true "a2" spoiling start_store).0
      ≡ returned (some (record { job_id = "a2"; status = running; body = 9 })))
    × (read_job body_ok "a2" (update_job body_ok free_lock true "a2" spoiling start_store).1.files
        ≡ none)
unfolding update_job update_job_under_lock attempts commit read_job write_file apply_patch
    is_allowed_status_transition
spoiled_is_absent = (refl, refl)

start-IsNamed : IsNamed body_ok start_store.files
unfolding read_job
start-IsNamed id cur =
    if_cases {A = Option (Job ℕ)} (λ o. o ≡ some cur → cur.job_id ≡ id) (str_eq "a2" id)
      (λ t e. subst (λ o. (or_default o (job queued)).job_id ≡ id) e ((eq_iff "a2" id).0 t))
      (λ f e. cc)

run-Forward_example :
    IsNamed body_ok (run body_ok story start_store).files
    × Forward body_ok start_store.files (run body_ok story start_store).files
run-Forward_example =
    run-Forward body_ok story start_store
      (tt, ((refl, λ b e. e), ((refl, λ b e. e), ((refl, λ b e. e), ((refl, λ b e. e), tt)))))
      start-IsNamed

abbrev bumpy : ℕ → RenameOutcome
bumpy n = if leb n 2 then transient (10 * n) else renamed

atomic_write_json-IsAtomic_example :
    IsAtomic {A = ℕ} complete bumpy true 5
      (record { content = some 4; tmp_left = false })
      (atomic_write_json {A = ℕ} complete bumpy true 5
        (record { content = some 4; tmp_left = false }))
atomic_write_json-IsAtomic_example =
    atomic_write_json-IsAtomic complete bumpy true 5 (record { content = some 4; tmp_left = false })

abbrev query : PidIdentityQuery
query = record {
  exists = λ p. some (p == 7);
  start_time = λ p. some (some 1000);
  parse_date = λ s. if str_eq s "then" then some 1000 else none;
}

abbrev options : LockOptions
options = record { query = query; tolerance = 50; mtime_grace_ms = 5000; max_attempts = 6 }

abbrev crashed : JobStateLockRecord
crashed = record { owner_id = "a"; owner_pid = 5; owner_started_at = "then"; expires_at = "then" }

abbrev meets : ℕ → LockPass
meets n =
    if n == 1
    then LockPass.finds 2000 crashed (renames (some crashed))
    else LockPass.finds_partial (some 10) gone

undisturbed : (n : ℕ) → IsUndisturbed (meets n)
undisturbed n = if_cases {A = LockPass} IsUndisturbed (n == 1) (λ t. refl) (λ f. tt)

acquire_job_state_lock-spares_example :
    All (IsUnproven options) (acquire_job_state_lock options meets 9 1).1
acquire_job_state_lock-spares_example = acquire_job_state_lock-spares options meets 9 1 undisturbed

abbrev alive : JobStateLockRecord
alive = record { owner_id = "b"; owner_pid = 7; owner_started_at = "then"; expires_at = "then" }

-- Between the read of the crashed owner's record and the rename, a live process takes the lock.
abbrev meets_late : ℕ → LockPass
meets_late n =
    if n == 1 then LockPass.finds 2000 crashed (renames (some alive)) else LockPass.opened

live_lock_taken :
    (acquire_job_state_lock options meets_late 9 1 ≡ (lock_acquired, some alive ∷ []))
    × (status_of options alive ≡ verified_live)
unfolding acquire_job_state_lock pid_identity_status
live_lock_taken = (refl, refl)

abbrev blocked : ℕ → LockPass
blocked n = LockPass.finds_partial (some 10) steal_fails

acquire_job_state_lock-ends_example : is_ended (acquire_job_state_lock options blocked 6 1).0 ≡ true
acquire_job_state_lock-ends_example =
    acquire_job_state_lock-ends options blocked 5 1 (omega arith) refl
