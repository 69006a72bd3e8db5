-- ===== src/Controller/Examples.antt =====
-- src/admission-controller.ts: a pass over two candidates, and the theorems at concrete inputs.
use codex_job_orchestrator.Common.{
  List, text_field, non_empty_field, pos_int_field, String, ◌≡◌, refl, Bool, true, false, none,
  some, [], ◌∷◌, map, arith, int,
}
use codex_job_orchestrator.Admission.Types.{Host, light}
use codex_job_orchestrator.Admission.Validate.{
  is_job_id, bad_limits, invalid_policy_field, invalid_request_field,
}
use codex_job_orchestrator.Admission.Evaluate.{
  canonical_work_folder, limit_at, scope_limit_for, active_count, memory_short, heavy_full,
  space_taken, resource_limit_of, gate, evaluate_admission,
}
use codex_job_orchestrator.Admission.Lease.{
  class_of_name, job_id_field, schema_field, parse_fields, parse_lease, encode_lease,
  to_public_lease,
}
use codex_job_orchestrator.Admission.Files.{
  Area, PidInspector, Disk, find_file, put_file, remove_file, archive_name, archive_file, is_live,
  live_lease, sweep_leases,
}
use codex_job_orchestrator.Admission.Manager.{
  clamp_ttl, AcquireAdmissionResult, new_lease, acquire_admission_lease, returned, thrown,
}
use codex_job_orchestrator.Admission.Owner.{
  with_own_lease, replace_lease, move_released, release_lease, transfer_checked,
  transfer_lease_owner, failed,
}
use codex_job_orchestrator.Controller.{
  Launch, AdmissionDecision, Env, Turn, Controller, controller_ttl, decision,
  release_by_current_owner, after_transfer, handoff, after_acquire, after_call, candidate_policy,
  candidate_request, decide, throws, supervisor, active, failed, supervisor_spawn_failed,
}
use codex_job_orchestrator.Controller.Handoff.{decide_failed_restores}
use codex_job_orchestrator.Controller.Order.{turn_id, decision_id}
use codex_job_orchestrator.Controller.Ranking.{IsInOrder, pump-IsInOrder}
use codex_job_orchestrator.Controller.Slot.{turn_lease, turn_kept, CanRelease}
use codex_job_orchestrator.Controller.Leak.{decide_transfer_throws}
use codex_job_orchestrator.Controller.Pass.{
  id_lt, before, insert_turn, sort_turns, decide_all, pump,
}
use mathlib.Core.List.{Perm}

abbrev posix : Host
posix = record { resolve = λ p. p; lower = λ p. p; win32 = false; show = λ n. "0" }

abbrev disk : Bool → Disk
disk stuck = record {
  listing_fails = false;
  read_fails = λ _. false;
  move_fails = λ _. false;
  create_error = none;
  replace_fails = stuck;
}

abbrev env : Bool → Env
env stuck = record { disk = disk stuck; locked = true; now = 100 }

abbrev unknown : PidInspector
unknown = record { is_alive = λ _. none; started_at_matches = λ _ _. none }

abbrev controller : Controller
controller = record {
  policy = record {
    desired_worker_concurrency = int 3;
    hard_safety_ceiling = int 3;
    max_heavy_workers = int 1;
    memory_reserve_mb = int 0;
    backend_profile_limits = none;
  };
  owner_pid = int 41;
  owner_pid_started_at = int 7;
}

abbrev turn : String → Bool → Launch → Turn
turn id stuck launch = record {
  candidate = record {
    job_id = id;
    desired_worker_concurrency = none;
    resource_class = light;
    priority = 0;
    backend = "claude";
    profile = "auto";
    work_folder = "/w";
    queued_at = some 5;
  };
  acquiring = env false;
  transferring = env stuck;
  releasing = env false;
  inspector = unknown;
  free = none;
  launch = launch;
}

abbrev nothing : Area
nothing = record { leases = []; stale = []; released = [] }

abbrev healthy : Turn
healthy = turn "a1" false (supervisor (int 55) (int 9))

abbrev broken_launch : Turn
broken_launch = turn "b2" false throws

abbrev stuck_transfer : Turn
stuck_transfer = turn "c3" true (supervisor (int 55) (int 9))

can_release : (id : String) → CanRelease (env false) id
can_release id = record { lock = refl; reads = refl; moves = refl }

-- One candidate starts, the launch of the other fails and its lease is gone.
pass_ends :
    (map (λ d. d.state) (pump posix controller (broken_launch ∷ healthy ∷ []) nothing).decisions
      ≡ active ∷ failed ∷ [])
    × ((pump posix controller (broken_launch ∷ healthy ∷ []) nothing).threw ≡ false)
unfolding pump decide_all decide after_call after_acquire handoff after_transfer decision
    release_by_current_owner candidate_policy candidate_request sort_turns insert_turn before id_lt
    acquire_admission_lease sweep_leases live_lease is_live parse_lease parse_fields schema_field
    class_of_name job_id_field text_field non_empty_field pos_int_field encode_lease new_lease
    find_file put_file remove_file archive_file archive_name evaluate_admission gate memory_short
    heavy_full space_taken canonical_work_folder resource_limit_of scope_limit_for limit_at
    active_count invalid_policy_field bad_limits invalid_request_field is_job_id release_lease
    transfer_lease_owner with_own_lease replace_lease move_released transfer_checked clamp_ttl
    to_public_lease
pass_ends = (refl, refl)

pump-IsInOrder_example :
    (us : List Turn) × Perm us (broken_launch ∷ healthy ∷ [])
    × IsInOrder us
    × (map decision_id (pump posix controller (broken_launch ∷ healthy ∷ []) nothing).decisions
        ≡ map turn_id us)
pump-IsInOrder_example =
    pump-IsInOrder posix controller (broken_launch ∷ healthy ∷ []) nothing (refl, (refl, tt))
      pass_ends.1

abbrev launch_failed : AdmissionDecision
launch_failed = record {
  job_id = "b2";
  state = failed;
  admitted_at = none;
  active_count = 0;
  queued_count = 0;
  desired = 3;
  resource_limit = 3;
  reason = some supervisor_spawn_failed;
}

launch_fails : (decide posix controller broken_launch nothing).decision ≡ returned launch_failed
unfolding pump decide_all decide after_call after_acquire handoff after_transfer decision
    release_by_current_owner candidate_policy candidate_request sort_turns insert_turn before id_lt
    acquire_admission_lease sweep_leases live_lease is_live parse_lease parse_fields schema_field
    class_of_name job_id_field text_field non_empty_field pos_int_field encode_lease new_lease
    find_file put_file remove_file archive_file archive_name evaluate_admission gate memory_short
    heavy_full space_taken canonical_work_folder resource_limit_of scope_limit_for limit_at
    active_count invalid_policy_field bad_limits invalid_request_field is_job_id release_lease
    transfer_lease_owner with_own_lease replace_lease move_released transfer_checked clamp_ttl
    to_public_lease
launch_fails = refl

decide_failed_restores_example :
    (decide posix controller broken_launch nothing).area.leases
    ≡ turn_kept posix broken_launch nothing
decide_failed_restores_example =
    decide_failed_restores posix controller broken_launch nothing (omega arith) (can_release "b2")
      launch_failed launch_fails refl

abbrev occupied : Area
occupied = record {
  leases = ("c3", some (encode_lease (turn_lease controller stuck_transfer))) ∷ [];
  stale = [];
  released = [];
}

abbrev acquisition : AcquireAdmissionResult
acquisition = record {
  reason = none;
  lease = some (record {
    job_id = "c3";
    resource_class = light;
    backend = "claude";
    profile = "auto";
    pid = 41;
    acquired_at = 100;
    heartbeat_at = 100;
    expires_at = 60100;
  });
  stale_archived = [];
  evaluation = some (record {
    admitted = true;
    active = 0;
    queued = 0;
    desired = 3;
    resource_limit = 3;
    reason = none;
  });
}

acquires_slot :
    acquire_admission_lease posix unknown
      (disk false)
      true
      controller_ttl
      100
      none
      (candidate_policy controller stuck_transfer.candidate)
      (candidate_request controller stuck_transfer.candidate)
      nothing
    ≡ (occupied, returned acquisition)
unfolding pump decide_all decide after_call after_acquire handoff after_transfer decision
    release_by_current_owner candidate_policy candidate_request sort_turns insert_turn before id_lt
    acquire_admission_lease sweep_leases live_lease is_live parse_lease parse_fields schema_field
    class_of_name job_id_field text_field non_empty_field pos_int_field encode_lease new_lease
    find_file put_file remove_file archive_file archive_name evaluate_admission gate memory_short
    heavy_full space_taken canonical_work_folder resource_limit_of scope_limit_for limit_at
    active_count invalid_policy_field bad_limits invalid_request_field is_job_id release_lease
    transfer_lease_owner with_own_lease replace_lease move_released transfer_checked clamp_ttl
    to_public_lease
acquires_slot = refl

decide_transfer_throws_example :
    (decide posix controller stuck_transfer nothing
      ≡ record { area = occupied; terminated = false; decision = thrown })
    × (find_file "c3" occupied.leases
        ≡ some (some (encode_lease (turn_lease controller stuck_transfer))))
decide_transfer_throws_example =
    decide_transfer_throws posix controller stuck_transfer nothing occupied acquisition (int 55)
      (int 9) (omega arith) acquires_slot refl refl refl refl refl refl refl
