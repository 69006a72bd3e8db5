-- ===== src/Controller.antt =====
-- src/admission-controller.ts: the decision on a candidate, and the handoff to a supervisor.
-- `Date.parse` of `queuedAt` is part of the candidate (`none` is NaN). Job ids are compared as
-- code points, which for the ids that a request may have is the order of the source's strings.
pub mod Acquisition
pub mod Slot
pub mod Handoff
pub mod Leak
pub mod Pass
pub mod Order
pub mod Ranking
mod Examples
use codex_job_orchestrator.Common.{
  ℕ, String, Bool, true, false, ◌&&◌, Option, none, some, if◌then◌else◌, or_default, Number,
  is_pos_int,
}
use codex_job_orchestrator.Admission.Types.{
  ResourceClass, DenyReason, AdmissionPolicy, hard_safety_ceiling, AdmissionRequest,
  AdmissionEvaluation, Host, desired_limit, lock_busy, queue,
}
use codex_job_orchestrator.Admission.Files.{Area, PidInspector, Disk}
use codex_job_orchestrator.Admission.Manager.{
  clamp_ttl, Outcome, AcquireDenyReason, AcquireAdmissionResult, acquire_admission_lease, returned,
  thrown, lock_busy, denied,
}
use codex_job_orchestrator.Admission.Owner.{
  LeaseOwnerRef, Step, release_lease, transfer_lease_owner, ok, refused,
}

pub record AdmissionCandidate : Type 0 where
  pub job_id : String
  pub desired_worker_concurrency : Option Number
  pub resource_class : ResourceClass
  pub priority : ℕ
  pub backend : String
  pub profile : String
  pub work_folder : String
  pub queued_at : Option ℕ

-- What the launch callback does: it throws, or answers with an identity of any quality.
pub data Launch : Type 0 where
  throws : Launch
  supervisor : Number → Number → Launch

pub data DecisionState : Type 0 where
  active queued failed : DecisionState

pub data DecisionReason : Type 0 where
  denied_for : DenyReason → DecisionReason
  blocked_by : AcquireDenyReason → DecisionReason
  supervisor_spawn_failed lease_transfer_failed : DecisionReason

pub record AdmissionDecision : Type 0 where
  pub job_id : String
  pub state : DecisionState
  pub admitted_at : Option ℕ
  pub active_count : ℕ
  pub queued_count : ℕ
  pub desired : ℕ
  pub resource_limit : ℕ
  pub reason : Option DecisionReason

-- The surroundings of one call of the manager.
pub record Env : Type 0 where
  pub disk : Disk
  pub locked : Bool
  pub now : ℕ

-- What one candidate's turn meets.
pub record Turn : Type 0 where
  pub candidate : AdmissionCandidate
  pub acquiring : Env
  pub transferring : Env
  pub releasing : Env
  pub inspector : PidInspector
  pub free : Option ℕ
  pub launch : Launch

pub record Controller : Type 0 where
  pub policy : AdmissionPolicy
  pub owner_pid : Number
  pub owner_pid_started_at : Number

-- The controller's manager is made with the default TTL.
abbrev pub controller_ttl : ℕ
controller_ttl = (clamp_ttl none).whole

-- The state after a turn, whether `terminate` was called, and the decision, unless it threw.
pub record TurnResult : Type 0 where
  pub area : Area
  pub terminated : Bool
  pub decision : Outcome AdmissionDecision

unfoldable pub decision :
    AdmissionCandidate
    → DecisionState
    → Option ℕ
    → Option DecisionReason
    → Option AdmissionEvaluation
    → AdmissionDecision
decision c st at why none = record {
  job_id = c.job_id;
  state = st;
  admitted_at = at;
  active_count = 0;
  queued_count = 0;
  desired = 0;
  resource_limit = 0;
  reason = why;
}
decision c st at why (some e) = record {
  job_id = c.job_id;
  state = st;
  admitted_at = at;
  active_count = e.active;
  queued_count = e.queued;
  desired = e.desired;
  resource_limit = e.resource_limit;
  reason = why;
}

abbrev pub owner_ref : Controller → AdmissionCandidate → LeaseOwnerRef
owner_ref k c = record {
  job_id = c.job_id;
  pid = k.owner_pid;
  pid_started_at = k.owner_pid_started_at;
}

-- Best effort: what the release returns or throws is dropped.
unfoldable pub release_by_current_owner : Host → Controller → Turn → Area → Area
release_by_current_owner h k t a =
    (release_lease h t.releasing.disk t.releasing.locked t.releasing.now (owner_ref k t.candidate)
      a).0

abbrev pub failed_turn :
    Host
    → Controller
    → Turn
    → Bool
    → DecisionReason
    → Option AdmissionEvaluation
    → Area
    → TurnResult
failed_turn h k t killed why e a = record {
  area = release_by_current_owner h k t a;
  terminated = killed;
  decision = returned (decision t.candidate failed none (some why) e);
}

-- What follows the transfer. One that throws is caught by nobody.
unfoldable pub after_transfer :
    Host → Controller → Turn → Option AdmissionEvaluation → Step → TurnResult
after_transfer h k t e (a, thrown) = record { area = a; terminated = false; decision = thrown }
after_transfer h k t e (a, returned (refused why)) =
    failed_turn h k t true lease_transfer_failed e a
after_transfer h k t e (a, returned (ok l)) = record {
  area = a;
  terminated = false;
  decision = returned (decision t.candidate active (some t.transferring.now) none e);
}

unfoldable pub handoff :
    Host → Controller → Turn → Option AdmissionEvaluation → Area → Launch → TurnResult
unfolding after_transfer
handoff h k t e a throws = failed_turn h k t false supervisor_spawn_failed e a
handoff h k t e a (supervisor pid started) =
    if is_pos_int pid && is_pos_int started
    then after_transfer h k t e (
        transfer_lease_owner t.transferring.disk t.transferring.locked controller_ttl
          t.transferring.now (owner_ref k t.candidate)
          (some (record { job_id = t.candidate.job_id; pid = pid; pid_started_at = started })) a)
    else failed_turn h k t false supervisor_spawn_failed e a

abbrev fallback : Option AcquireDenyReason → DecisionReason
fallback none = blocked_by lock_busy
fallback (some denied) = denied_for (queue desired_limit)
fallback (some why) = blocked_by why

abbrev evaluated : Option DenyReason → Option AcquireDenyReason → DecisionReason
evaluated none why = fallback why
evaluated (some d) why = denied_for d

abbrev pub queue_reason : Option AdmissionEvaluation → Option AcquireDenyReason → DecisionReason
queue_reason none why = fallback why
queue_reason (some e) why = evaluated e.reason why

-- What follows the acquisition: the handoff where it succeeded.
unfoldable pub after_acquire :
    Host
    → Controller
    → Turn
    → Area
    → Option AdmissionEvaluation
    → Option AcquireDenyReason
    → TurnResult
unfolding handoff
after_acquire h k t a e none = handoff h k t e a t.launch
after_acquire h k t a e (some why) = record {
  area = a;
  terminated = false;
  decision = returned (decision t.candidate queued none (some (queue_reason e (some why))) e);
}

unfoldable pub after_call :
    Host → Controller → Turn → Area × Outcome AcquireAdmissionResult → TurnResult
unfolding after_acquire
after_call h k t (a, thrown) = record { area = a; terminated = false; decision = thrown }
after_call h k t (a, returned res) = after_acquire h k t a res.evaluation res.reason

-- The candidate's own desired concurrency wins over the policy's.
unfoldable pub candidate_policy : Controller → AdmissionCandidate → AdmissionPolicy
candidate_policy k c = record {
  desired_worker_concurrency =
      or_default c.desired_worker_concurrency k.policy.desired_worker_concurrency;
  hard_safety_ceiling = k.policy.hard_safety_ceiling;
  max_heavy_workers = k.policy.max_heavy_workers;
  memory_reserve_mb = k.policy.memory_reserve_mb;
  backend_profile_limits = k.policy.backend_profile_limits;
}

unfoldable pub candidate_request : Controller → AdmissionCandidate → AdmissionRequest
candidate_request k c = record {
  job_id = c.job_id;
  resource_class = c.resource_class;
  backend = c.backend;
  profile = c.profile;
  work_folder = c.work_folder;
  pid = k.owner_pid;
  pid_started_at = k.owner_pid_started_at;
}

unfoldable pub decide : Host → Controller → Turn → Area → TurnResult
unfolding after_call candidate_policy candidate_request
decide h k t a = after_call h k t (
    acquire_admission_lease h t.inspector t.acquiring.disk t.acquiring.locked controller_ttl
      t.acquiring.now t.free (candidate_policy k t.candidate) (candidate_request k t.candidate) a)
