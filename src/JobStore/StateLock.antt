-- ===== src/JobStore/StateLock.antt =====
-- src/job-store.ts: the lock on a job's record, `acquireJobStateLock` and `releaseJobStateLock`.
-- The world is given by what each pass of the loop meets; `unfinished` is a loop out of fuel.
use codex_job_orchestrator.Common.{
  ℕ, zero, suc, String, Bool, false, ◌&&◌, Option, none, some, List, [], ◌∷◌, ◌++◌, true, str_eq,
  ltb, leb, ◌==◌, if◌then◌else◌, int,
}
use codex_job_orchestrator.Proc.{
  PidIdentityStatus, PidIdentityQuery, pid_identity_status, no_identity, verified_live,
  verified_dead, identity_mismatch, unverifiable,
}

pub record JobStateLockRecord : Type 0 where
  pub owner_id : String
  pub owner_pid : ℕ
  pub owner_started_at : String
  pub expires_at : String

pub record LockOptions : Type 0 where
  pub query : PidIdentityQuery
  pub tolerance : ℕ
  pub mtime_grace_ms : ℕ
  pub max_attempts : ℕ

-- What the rename of `tryStealStateLock` meets: it goes by name, so it moves what stands there then
-- (`none` is a file that is no record), whatever was read before.
pub data LockSteal : Type 0 where
  renames : Option JobStateLockRecord → LockSteal
  gone steal_fails : LockSteal

abbrev pub try_steal_state_lock : LockSteal → Bool
try_steal_state_lock (renames y) = true
try_steal_state_lock gone = true
try_steal_state_lock steal_fails = false

-- The file that is moved away, if one is.
abbrev pub renamed_by : LockSteal → List (Option JobStateLockRecord)
renamed_by (renames y) = y ∷ []
renamed_by gone = []
renamed_by steal_fails = []

-- A pass: the open works or fails; after `EEXIST`, a valid record at a time, or a file that is no
-- record, with its age (`none` when it vanished); and what a steal meets.
pub data LockPass : Type 0 where
  opened : LockPass
  open_transient : ℕ → LockPass
  open_fails : LockPass
  finds : ℕ → JobStateLockRecord → LockSteal → LockPass
  finds_partial : Option ℕ → LockSteal → LockPass

pub data LockResult : Type 0 where
  lock_acquired lock_held lock_raised unfinished : LockResult

-- The result, and the files that were renamed away.
abbrev pub LockRun : Type 0
LockRun = LockResult × List (Option JobStateLockRecord)

abbrev pub stop : LockResult → LockRun
stop r = (r, [])

-- `if (attempt >= maxAttempts) return null; sleep; continue`.
abbrev pub retry : LockOptions → ℕ → LockRun → LockRun
retry o n next = if leb o.max_attempts n then stop lock_held else next

abbrev pub displace : LockOptions → ℕ → LockSteal → LockRun → LockRun
displace o n s next =
    if try_steal_state_lock s then (next.0, renamed_by s ++ next.1) else retry o n next

abbrev pub unverifiable_until :
    LockOptions → ℕ → ℕ → JobStateLockRecord → LockSteal → Option ℕ → LockRun → LockRun
unverifiable_until o n now r s none next = displace o n s next
unverifiable_until o n now r s (some exp) next =
    if leb now exp then stop lock_held else displace o n s next

abbrev pub by_identity :
    PidIdentityStatus → LockOptions → ℕ → ℕ → JobStateLockRecord → LockSteal → LockRun → LockRun
by_identity verified_live o n now r s next = stop lock_held
by_identity verified_dead o n now r s next = displace o n s next
by_identity identity_mismatch o n now r s next = displace o n s next
by_identity unverifiable o n now r s next =
    unverifiable_until o n now r s (o.query.parse_date r.expires_at) next
by_identity no_identity o n now r s next =
    unverifiable_until o n now r s (o.query.parse_date r.expires_at) next

abbrev pub status_of : LockOptions → JobStateLockRecord → PidIdentityStatus
status_of o r =
    pid_identity_status o.query (some (int r.owner_pid)) (some r.owner_started_at) o.tolerance

abbrev pub partial_file : LockOptions → ℕ → Option ℕ → LockSteal → LockRun → LockRun
partial_file o n none s next = next
partial_file o n (some age) s next =
    if ltb age o.mtime_grace_ms then retry o n next else displace o n s next

abbrev pub lock_pass : LockOptions → LockPass → ℕ → LockRun → LockRun
lock_pass o opened n next = stop lock_acquired
lock_pass o (open_transient elapsed) n next =
    if ltb n o.max_attempts && ltb elapsed 300 then next else stop lock_raised
lock_pass o open_fails n next = stop lock_raised
lock_pass o (finds now r s) n next = by_identity (status_of o r) o n now r s next
lock_pass o (finds_partial age s) n next = partial_file o n age s next

unfoldable pub acquire_job_state_lock : LockOptions → (ℕ → LockPass) → ℕ → ℕ → LockRun
acquire_job_state_lock o meets zero n = stop unfinished
acquire_job_state_lock o meets (suc fuel) n =
    lock_pass o (meets n) n (acquire_job_state_lock o meets fuel (suc n))

-- The answer of `releaseJobStateLock` to a holder, given what a read of the file finds (`none` is
-- no valid record), and whether the unlink works; true when the file is removed.
unfoldable pub release_job_state_lock : JobStateLockRecord → Option JobStateLockRecord → Bool → Bool
release_job_state_lock h none unlinks = unlinks
release_job_state_lock h (some c) unlinks =
    if str_eq c.owner_id h.owner_id
      && c.owner_pid == h.owner_pid
      && str_eq c.owner_started_at h.owner_started_at
    then unlinks
    else false
