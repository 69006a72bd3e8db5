-- ===== src/JobStore/LockSafety.antt =====
-- src/job-store.ts: which lock files are displaced.
use codex_job_orchestrator.Common.{
  ℕ, zero, suc, ◌≢◌, ◌&&◌, Option, none, some, All, ltb, leb, if_cases, ◌≡◌, subst, sym,
}
use codex_job_orchestrator.Proc.{
  PidIdentityStatus, no_identity, verified_live, verified_dead, identity_mismatch, unverifiable,
}
use codex_job_orchestrator.JobStore.StateLock.{
  JobStateLockRecord, LockOptions, LockSteal, LockPass, LockRun, renames, gone, steal_fails, retry,
  displace, unverifiable_until, by_identity, status_of, partial_file, lock_pass,
  acquire_job_state_lock, opened, open_transient, open_fails, finds, finds_partial,
}

-- Nothing is known of the owner of a file that is no record.
abbrev pub IsUnproven : LockOptions → Option JobStateLockRecord → Type 0
IsUnproven o none = Unit
IsUnproven o (some r) = status_of o r ≢ verified_live

abbrev Spares : LockOptions → LockRun → Type 0
Spares o x = All (IsUnproven o) x.1

-- A steal that moves a file moves the one that the pass read.
abbrev pub IsStill : Option JobStateLockRecord → LockSteal → Type 0
IsStill e (renames y) = y ≡ e
IsStill e gone = Unit
IsStill e steal_fails = Unit

abbrev pub IsUndisturbed : LockPass → Type 0
IsUndisturbed (finds now r s) = IsStill (some r) s
IsUndisturbed (finds_partial age s) = IsStill none s
IsUndisturbed opened = Unit
IsUndisturbed (open_transient e) = Unit
IsUndisturbed open_fails = Unit

retry-Spares :
    (o : LockOptions) (n : ℕ) (next : LockRun) → Spares o next → Spares o (retry o n next)
retry-Spares o n next s =
    if_cases {A = LockRun} (Spares o) (leb o.max_attempts n) (λ t. tt) (λ f. s)

displace-Spares :
    (o : LockOptions) (n : ℕ) (s : LockSteal) (e : Option JobStateLockRecord) (next : LockRun)
    → IsUnproven o e
    → IsStill e s
    → Spares o next
    → Spares o (displace o n s next)
displace-Spares o n (renames y) e next u same x = (subst (IsUnproven o) (sym same) u, x)
displace-Spares o n gone e next u same x = x
displace-Spares o n steal_fails e next u same x = retry-Spares o n next x

until-Spares :
    (o : LockOptions) (n now : ℕ) (r : JobStateLockRecord) (s : LockSteal) (exp : Option ℕ)
    (next : LockRun)
    → IsUnproven o (some r)
    → IsStill (some r) s
    → Spares o next
    → Spares o (unverifiable_until o n now r s exp next)
until-Spares o n now r s none next u same x = displace-Spares o n s (some r) next u same x
until-Spares o n now r s (some e) next u same x =
    if_cases {A = LockRun} (Spares o) (leb now e) (λ t. tt)
      (λ f. displace-Spares o n s (some r) next u same x)

identity-Spares :
    (q : PidIdentityStatus) (o : LockOptions) (n now : ℕ) (r : JobStateLockRecord) (s : LockSteal)
    (next : LockRun)
    → (q ≢ verified_live → IsUnproven o (some r))
    → IsStill (some r) s
    → Spares o next
    → Spares o (by_identity q o n now r s next)
identity-Spares verified_live o n now r s next u same x = tt
identity-Spares verified_dead o n now r s next u same x =
    displace-Spares o n s (some r) next (u (λ e. cc)) same x
identity-Spares identity_mismatch o n now r s next u same x =
    displace-Spares o n s (some r) next (u (λ e. cc)) same x
identity-Spares unverifiable o n now r s next u same x =
    until-Spares o n now r s (o.query.parse_date r.expires_at) next (u (λ e. cc)) same x
identity-Spares no_identity o n now r s next u same x =
    until-Spares o n now r s (o.query.parse_date r.expires_at) next (u (λ e. cc)) same x

partial_file-Spares :
    (o : LockOptions) (n : ℕ) (age : Option ℕ) (s : LockSteal) (next : LockRun)
    → IsStill none s
    → Spares o next
    → Spares o (partial_file o n age s next)
partial_file-Spares o n none s next same x = x
partial_file-Spares o n (some a) s next same x =
    if_cases {A = LockRun} (Spares o) (ltb a o.mtime_grace_ms) (λ t. retry-Spares o n next x)
      (λ f. displace-Spares o n s none next tt same x)

lock_pass-Spares :
    (o : LockOptions) (p : LockPass) (n : ℕ) (next : LockRun)
    → IsUndisturbed p
    → Spares o next
    → Spares o (lock_pass o p n next)
lock_pass-Spares o opened n next u x = tt
lock_pass-Spares o (open_transient e) n next u x =
    if_cases {A = LockRun} (Spares o) (ltb n o.max_attempts && ltb e 300) (λ t. x) (λ f. tt)
lock_pass-Spares o open_fails n next u x = tt
lock_pass-Spares o (finds now r s) n next u x =
    identity-Spares (status_of o r) o n now r s next (λ v. v) u x
lock_pass-Spares o (finds_partial age s) n next u x = partial_file-Spares o n age s next u x

-- As long as no other process replaces the lock file between its reading and its rename, which the
-- code does not check: whatever else the passes of the loop meet, and however often it steals, a
-- lock record that it renames away names an owner that is not verified to be alive.
pub acquire_job_state_lock-spares :
    (o : LockOptions) (meets : ℕ → LockPass) (fuel n : ℕ)
    → ((m : ℕ) → IsUndisturbed (meets m))
    → All (IsUnproven o) (acquire_job_state_lock o meets fuel n).1
unfolding acquire_job_state_lock
acquire_job_state_lock-spares o meets zero n u = tt
acquire_job_state_lock-spares o meets (suc fuel) n u =
    lock_pass-Spares o (meets n) n (acquire_job_state_lock o meets fuel (suc n)) (u n)
      (acquire_job_state_lock-spares o meets fuel (suc n) u)
