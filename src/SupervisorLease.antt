-- ===== src/SupervisorLease.antt =====
-- src/admission-supervisor-lease.ts: `AdmissionSupervisorLease`, the lease of a job as its
-- supervisor holds it. A call of the manager is an operation of Admission/Owner on the area as the
-- call finds it; a manager that cannot be made throws like any other failing call.
pub mod Wait
pub mod Timer
pub mod Release
mod Examples
use codex_job_orchestrator.Common.{
  ℕ, zero, suc, ◌+◌, Bool, true, false, not, ◌||◌, Option, none, some, leb, if◌then◌else◌,
  or_default,
}
use codex_job_orchestrator.Admission.Types.{Host, lock_busy}
use codex_job_orchestrator.Admission.Files.{Area, Disk}
use codex_job_orchestrator.Admission.Manager.{Outcome, returned, thrown, lock_busy, invalid_job_id}
use codex_job_orchestrator.Admission.Owner.{
  LeaseOwnerRef, OwnerOpReason, OwnerResult, Step, heartbeat_lease, release_lease, lock_busy,
  invalid_job_id, invalid_next_owner, lease_not_found, owner_mismatch, bad_lease_file, ok, refused,
}

pub data LifecycleState : Type 0 where
  uninitialized acquiring owned stopped failed : LifecycleState

pub data FixedFailure : Type 0 where
  op : OwnerOpReason → FixedFailure
  ownership_timeout heartbeat_error release_error released already_stopped : FixedFailure

-- The job's id, which every result repeats, is left out.
pub record LifecycleResult : Type 0 where
  pub is_ok : Bool
  pub state : LifecycleState
  pub reason : Option FixedFailure
  pub heartbeat_at : Option ℕ
  pub expires_at : Option ℕ

-- The fields of an object that change.
pub record Lifecycle : Type 0 where
  pub state : LifecycleState
  pub timer : Bool
  pub last_heartbeat_error : Option FixedFailure
  pub failed_reason : Option FixedFailure

unfoldable pub new_lifecycle : Lifecycle
new_lifecycle = record {
  state = uninitialized;
  timer = false;
  last_heartbeat_error = none;
  failed_reason = none;
}

-- What a call of the manager finds: the area, the disk, whether it gets the lock, the manager's
-- time to live and its clock.
pub record Meets : Type 0 where
  pub area : Area
  pub disk : Disk
  pub locked : Bool
  pub ttl : ℕ
  pub now : ℕ

abbrev pub heartbeat : Meets → LeaseOwnerRef → Step
unfolding heartbeat_lease
heartbeat m o = heartbeat_lease m.disk m.locked m.ttl m.now o m.area

abbrev result_of : LifecycleState → Bool → Option FixedFailure → LifecycleResult
result_of st b why = record {
  is_ok = b;
  state = st;
  reason = why;
  heartbeat_at = none;
  expires_at = none;
}

abbrev mark_failed : FixedFailure → Lifecycle → Lifecycle
mark_failed why s = record s { state = failed; timer = false; failed_reason = some why }

-- `OWNERSHIP_FIXED_REASONS` and the reasons that are not among `OWNERSHIP_RETRYABLE_REASONS`.
abbrev pub is_fixed : OwnerOpReason → Bool
is_fixed bad_lease_file = true
is_fixed invalid_job_id = true
is_fixed invalid_next_owner = true
is_fixed owner_mismatch = false
is_fixed lease_not_found = false
is_fixed lock_busy = false

-- A round of the loop in `waitForOwnership`: the clock at its head, what its call finds, and the
-- clock after a call that has not won.
pub record Poll : Type 0 where
  pub head : ℕ
  pub meets : Meets
  pub tail : ℕ

-- The wait goes on after a sleep, or returns.
pub data Waited : Type 0 where
  sleeps : Lifecycle → Waited
  returns : Lifecycle → LifecycleResult → Waited

abbrev fails : FixedFailure → Lifecycle → Waited
fails why s = returns (mark_failed why s) (result_of failed false (some why))

abbrev pub sleep_until : ℕ → Poll → Lifecycle → Waited
sleep_until deadline p s = if leb deadline p.tail then fails ownership_timeout s else sleeps s

abbrev pub after_heartbeat : ℕ → Poll → Lifecycle → Outcome OwnerResult → Waited
after_heartbeat deadline p s thrown =
    sleep_until deadline p (record s { last_heartbeat_error = some heartbeat_error })
after_heartbeat deadline p s (returned (ok l)) =
    returns (record s { state = owned })
      (record {
        is_ok = true;
        state = owned;
        reason = none;
        heartbeat_at = some l.heartbeat_at;
        expires_at = some l.expires_at;
      })
after_heartbeat deadline p s (returned (refused why)) =
    if is_fixed why
    then fails (op why) s
    else sleep_until deadline p (record s { last_heartbeat_error = some (op why) })

-- The round, with the area that it leaves.
unfoldable pub poll_once : LeaseOwnerRef → ℕ → Poll → Lifecycle → Waited × Area
unfolding heartbeat
poll_once o deadline p s =
    let call = heartbeat p.meets o in
    if leb deadline p.head
    then (fails ownership_timeout s, p.meets.area)
    else (after_heartbeat deadline p s call.1, call.0)

abbrev pub Done : Type 0
Done = Lifecycle × LifecycleResult × Area

abbrev pub next_round : Waited × Area → (Lifecycle → Option Done) → Option Done
next_round (sleeps s, a) further = further s
next_round (returns s r, a) further = some (s, r, a)

-- The loop, on the rounds it meets; `none` is a loop out of fuel.
unfoldable pub wait_loop : LeaseOwnerRef → (ℕ → Poll) → ℕ → ℕ → ℕ → Lifecycle → Option Done
unfolding poll_once
wait_loop o polls deadline zero n s = none
wait_loop o polls deadline (suc fuel) n s =
    next_round (poll_once o deadline (polls n) s) (λ t. wait_loop o polls deadline fuel (suc n) t)

-- `waitForOwnership`, with the loop it may enter and the area where no call is made.
abbrev pub wait_in : LifecycleState → Lifecycle → Area → Option Done → Option Done
wait_in owned s a loop = some (s, result_of owned true none, a)
wait_in stopped s a loop = some (s, result_of stopped false (some already_stopped), a)
wait_in failed s a loop =
    some (s, result_of failed false (some (or_default s.failed_reason (op bad_lease_file))), a)
wait_in uninitialized s a loop = loop
wait_in acquiring s a loop = loop

unfoldable pub wait_for_ownership :
    LeaseOwnerRef → (ℕ → Poll) → ℕ → ℕ → ℕ → Area → Lifecycle → Option Done
unfolding wait_loop
wait_for_ownership o polls fuel now timeout a s =
    wait_in s.state s a (wait_loop o polls (now + timeout) fuel 0 (record s { state = acquiring }))

abbrev pub is_owned : LifecycleState → Bool
is_owned owned = true
is_owned uninitialized = false
is_owned acquiring = false
is_owned stopped = false
is_owned failed = false

unfoldable pub start_heartbeat : Lifecycle → Lifecycle × Bool
start_heartbeat s =
    if not (is_owned s.state) || s.timer then (s, false) else (record s { timer = true }, true)

abbrev pub noted : Outcome OwnerResult → Lifecycle → Lifecycle
noted thrown s = record s { last_heartbeat_error = some heartbeat_error }
noted (returned (ok l)) s = s
noted (returned (refused why)) s = record s { last_heartbeat_error = some (op why) }

-- The timer's callback, with `heartbeatOnce`.
unfoldable pub tick : LeaseOwnerRef → Meets → Lifecycle → Lifecycle × Area
unfolding heartbeat
tick o m s =
    let call = heartbeat m o in
    if not (is_owned s.state) then (s, m.area) else (noted call.1 s, call.0)

abbrev release_reason : Outcome OwnerResult → FixedFailure
release_reason thrown = release_error
release_reason (returned (ok l)) = released
release_reason (returned (refused why)) = op why

abbrev stopped_with : FixedFailure → Lifecycle → Area → Done
stopped_with why s a =
    (record s { state = stopped; timer = false }, result_of stopped false (some why), a)

abbrev pub release_in : LifecycleState → Lifecycle → Area → Area × Outcome OwnerResult → Done
release_in stopped s a call = (s, result_of stopped false (some already_stopped), a)
release_in failed s a call = stopped_with already_stopped s a
release_in owned s a call = stopped_with (release_reason call.1) s call.0
release_in acquiring s a call = stopped_with (release_reason call.1) s call.0
release_in uninitialized s a call = stopped_with (release_reason call.1) s call.0

unfoldable pub stop_and_release : Host → LeaseOwnerRef → Meets → Lifecycle → Done
unfolding release_lease
stop_and_release h o m s =
    release_in s.state s m.area (release_lease h m.disk m.locked m.now o m.area)
