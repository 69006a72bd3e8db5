-- ===== src/JobStore/LockBound.antt =====
-- src/job-store.ts: the loop that acquires the lock on a job's record ends.
-- A pass after which the loop may go on whatever the number of attempts.
use codex_job_orchestrator.Common.{
  ℕ, zero, suc, ◌+◌, ◌≤◌, ◌≡◌, refl, subst, ◌⊎◌, inl, inr, Bool, true, false, ◌&&◌, Option, none,
  some, arith, ltb, leb, if_cases, Bool-cases,
}
use codex_job_orchestrator.Proc.{
  PidIdentityStatus, no_identity, verified_live, verified_dead, identity_mismatch, unverifiable,
}
use codex_job_orchestrator.JobStore.StateLock.{
  JobStateLockRecord, LockOptions, LockSteal, try_steal_state_lock, LockPass, LockResult, LockRun,
  stop, retry, displace, unverifiable_until, by_identity, status_of, lock_pass,
  acquire_job_state_lock, opened, open_transient, open_fails, finds, finds_partial, lock_acquired,
  lock_held, lock_raised, unfinished,
}

abbrev pub clears : LockPass → Bool
clears opened = false
clears (open_transient e) = false
clears open_fails = false
clears (finds now r s) = try_steal_state_lock s
clears (finds_partial none s) = true
clears (finds_partial (some age) s) = try_steal_state_lock s

abbrev pub is_ended : LockResult → Bool
is_ended unfinished = false
is_ended lock_acquired = true
is_ended lock_held = true
is_ended lock_raised = true

abbrev Ended : LockRun → Type 0
Ended r = is_ended r.0 ≡ true

retry-Ended :
    (o : LockOptions) (n : ℕ) (next : LockRun)
    → (o.max_attempts ≤ n) ⊎ Ended next
    → Ended (retry o n next)
retry-Ended o n next x =
    if_cases {A = LockRun} Ended (leb o.max_attempts n) (λ t. refl)
      (λ f. elim x [ inl h ↦ ground arith | inr e ↦ e ])

-- The pass ends the loop, unless it may go on and the rest does not end.
abbrev Stops : LockOptions → ℕ → Bool → LockRun → Type 0
Stops o n c next = ((o.max_attempts ≤ n) × (c ≡ false)) ⊎ Ended next

displace-Ended :
    (o : LockOptions) (n : ℕ) (s : LockSteal) (next : LockRun)
    → Stops o n (try_steal_state_lock s) next
    → Ended (displace o n s next)
displace-Ended o n s next x = elim (Bool-cases (try_steal_state_lock s)) [
  | inl t ↦ rw t (elim x [ inl (h, c) ↦ cc | inr e ↦ e ])
  | inr f ↦ rw f (retry-Ended o n next (elim x [ inl (h, c) ↦ inl h | inr e ↦ inr e ]))
]

until-Ended :
    (o : LockOptions) (n now : ℕ) (r : JobStateLockRecord) (s : LockSteal) (exp : Option ℕ)
    (next : LockRun)
    → Stops o n (try_steal_state_lock s) next
    → Ended (unverifiable_until o n now r s exp next)
until-Ended o n now r s none next x = displace-Ended o n s next x
until-Ended o n now r s (some e) next x =
    if_cases {A = LockRun} Ended (leb now e) (λ t. refl) (λ f. displace-Ended o n s next x)

identity-Ended :
    (q : PidIdentityStatus) (o : LockOptions) (n now : ℕ) (r : JobStateLockRecord) (s : LockSteal)
    (next : LockRun)
    → Stops o n (try_steal_state_lock s) next
    → Ended (by_identity q o n now r s next)
identity-Ended verified_live o n now r s next x = refl
identity-Ended verified_dead o n now r s next x = displace-Ended o n s next x
identity-Ended identity_mismatch o n now r s next x = displace-Ended o n s next x
identity-Ended unverifiable o n now r s next x =
    until-Ended o n now r s (o.query.parse_date r.expires_at) next x
identity-Ended no_identity o n now r s next x =
    until-Ended o n now r s (o.query.parse_date r.expires_at) next x

lock_pass-Ended :
    (o : LockOptions) (p : LockPass) (n : ℕ) (next : LockRun)
    → Stops o n (clears p) next
    → Ended (lock_pass o p n next)
lock_pass-Ended o opened n next x = refl
lock_pass-Ended o (open_transient e) n next x =
    if_cases {A = LockRun} Ended (ltb n o.max_attempts && ltb e 300)
      (λ t. elim x [ inl (h, c) ↦ ground arith | inr y ↦ y ]) (λ f. refl)
lock_pass-Ended o open_fails n next x = refl
lock_pass-Ended o (finds now r s) n next x = identity-Ended (status_of o r) o n now r s next x
lock_pass-Ended o (finds_partial none s) n next (inl (h, c)) = cc
lock_pass-Ended o (finds_partial none s) n next (inr e) = e
lock_pass-Ended o (finds_partial (some age) s) n next x =
    if_cases {A = LockRun} Ended (ltb age o.mtime_grace_ms)
      (λ t. elim x [
        | inl (h, c) ↦ retry-Ended o n next (inl h)
        | inr e ↦ retry-Ended o n next (inr e)
      ])
      (λ f. displace-Ended o n s next x)

-- The loop ends at the latest with the first pass, from the one of the last attempt on, that does
-- not clear the lock file away: k + 1 passes from the n-th are enough when that is the (n + k)-th.
pub acquire_job_state_lock-ends :
    (o : LockOptions) (meets : ℕ → LockPass) (k n : ℕ)
    → o.max_attempts ≤ n + k
    → clears (meets (n + k)) ≡ false
    → is_ended (acquire_job_state_lock o meets (suc k) n).0 ≡ true
unfolding acquire_job_state_lock
acquire_job_state_lock-ends o meets zero n b c =
    lock_pass-Ended o (meets n) n (stop unfinished)
      (inl (omega arith, subst (λ m. clears (meets m) ≡ false) (omega arith) c))
acquire_job_state_lock-ends o meets (suc k) n b c =
    lock_pass-Ended o (meets n) n (acquire_job_state_lock o meets (suc k) (suc n)) (
      inr (
        acquire_job_state_lock-ends o meets k (suc n) (omega arith)
          (subst (λ m. clears (meets m) ≡ false) (omega arith) c)))
