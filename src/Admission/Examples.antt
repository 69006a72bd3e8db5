-- ===== src/Admission/Examples.antt =====
-- src/admission.ts: runs of the manager on concrete leases, and the theorems at concrete inputs.
use codex_job_orchestrator.Common.{
  text_field, non_empty_field, pos_int_field, ℕ, ◌≤◌, String, ◌≡◌, refl, ◌↔◌, true, false, none,
  some, List, [], ◌∷◌, arith, ◌==◌, int, field, end, number, non_int,
}
use codex_job_orchestrator.Admission.Types.{
  ResourceClass, AdmissionPolicy, AdmissionRequest, AdmissionLease, LiveLeaseInfo, Host, build,
  heavy,
}
use codex_job_orchestrator.Admission.Validate.{
  is_job_id, bad_limits, invalid_policy_field, invalid_request_field,
}
use codex_job_orchestrator.Admission.Evaluate.{
  canonical_work_folder, limit_at, scope_limit_for, active_count, memory_short, heavy_full,
  space_taken, resource_limit_of, gate, evaluate_admission,
}
use codex_job_orchestrator.Admission.Decision.{Admissible, admitted_iff}
use codex_job_orchestrator.Admission.Lease.{
  class_of_name, job_id_field, schema_field, parse_fields, parse_lease, encode_lease,
}
use codex_job_orchestrator.Admission.Files.{
  Dir, Area, PidInspector, Disk, find_file, put_file, remove_file, archive_name, archive_file,
  is_live, live_lease, sweep_leases,
}
use codex_job_orchestrator.Admission.Manager.{
  lease_info, new_lease, clamp_ttl, acquire_admission_lease,
}
use codex_job_orchestrator.Admission.Owner.{
  LeaseOwnerRef, with_own_lease, replace_lease, heartbeat_lease, move_released, release_lease,
  transfer_checked, transfer_lease_owner, extend, take_over,
}
use codex_job_orchestrator.Admission.Written.{ReadsBack, written_leases_are_read}
use codex_job_orchestrator.Admission.Table.{IsReadable}
use codex_job_orchestrator.Admission.Sharing.{IsCapped}
use codex_job_orchestrator.Admission.Run.{
  Action, Call, run, Shares, IsFair, run-IsCapped, acquires, heartbeats, releases, transfers,
}
use codex_job_orchestrator.Admission.Lock.{Open, Round, created}
use codex_job_orchestrator.Admission.Race.{
  Shared, at, LockStep, Reach, IsExclusive, exclusive_without_deaths, abandoned,
  two_inside_after_death, outside, inside,
}

abbrev posix : Host
posix = record { resolve = λ p. p; lower = λ p. p; win32 = false; show = λ n. "0" }

abbrev sound_disk : Disk
sound_disk = record {
  listing_fails = false;
  read_fails = λ _. false;
  move_fails = λ _. false;
  create_error = none;
  replace_fails = false;
}

abbrev unknown : PidInspector
unknown = record { is_alive = λ _. none; started_at_matches = λ _ _. none }

abbrev small : AdmissionPolicy
small = record {
  desired_worker_concurrency = int 3;
  hard_safety_ceiling = int 2;
  max_heavy_workers = int 1;
  memory_reserve_mb = int 0;
  backend_profile_limits = some (("claude", int 2) ∷ []);
}

abbrev request : String → String → ResourceClass → AdmissionRequest
request id folder class = record {
  job_id = id;
  resource_class = class;
  backend = "claude";
  profile = "auto";
  work_folder = folder;
  pid = int 41;
  pid_started_at = int 7;
}

abbrev worker : LeaseOwnerRef
worker = record { job_id = "a1"; pid = int 55; pid_started_at = int 9 }

abbrev controller : LeaseOwnerRef
controller = record { job_id = "a1"; pid = int 41; pid_started_at = int 7 }

abbrev call : ℕ → Action → Call
call now x = record { disk = sound_disk; locked = true; ttl = 60; now = now; action = x }

abbrev day : List Call
day =
    call 100 (acquires unknown none small (request "a1" "/w" build))
    ∷ call 110 (transfers controller (some worker))
    ∷ call 120 (acquires unknown none small (request "b2" "/v" heavy))
    ∷ call 130 (heartbeats worker)
    ∷ call 140 (releases worker)
    ∷ []

abbrev empty_area : Area
empty_area = record { leases = []; stale = []; released = [] }

abbrev ids : Dir → List String
ids [] = []
ids ((id, f) ∷ rest) = id ∷ ids rest

-- One job's lease is handed over, renewed and released; the other's stays.
day_ends :
    (ids (run posix day empty_area).leases ≡ "b2" ∷ [])
    × (ids (run posix day empty_area).released ≡ "a1" ∷ [])
unfolding run acquire_admission_lease sweep_leases live_lease is_live parse_lease parse_fields
    schema_field class_of_name job_id_field text_field non_empty_field pos_int_field encode_lease
    new_lease find_file put_file remove_file archive_file archive_name evaluate_admission gate
    memory_short heavy_full space_taken canonical_work_folder resource_limit_of scope_limit_for
    limit_at active_count invalid_policy_field bad_limits invalid_request_field is_job_id
    heartbeat_lease release_lease transfer_lease_owner with_own_lease replace_lease move_released
    transfer_checked
day_ends = (refl, refl)

readable : IsReadable sound_disk
readable = record { lists = refl; reads = λ _. refl; moves = λ _. refl }

nothing_held : IsCapped 2 1 posix empty_area
nothing_held = record {
  table = [];
  holds = refl;
  sound = tt;
  within = record { bounded = omega arith; heavy_bounded = omega arith; apart = tt; distinct = tt };
}

fair : (now : ℕ) (x : Action) → 1 ≤ now → Shares 2 1 x → IsFair 2 1 (call now x)
fair now x pos s = record { readable = readable; clock = pos; shares = s }

run-IsCapped_example : IsCapped 2 1 posix (run posix day empty_area)
run-IsCapped_example =
    run-IsCapped 2 1 posix day empty_area
      (
        fair 100 _ (omega arith) (refl, refl),
        (
          fair 110 _ (omega arith) tt,
          (
            fair 120 _ (omega arith) (refl, refl),
            (fair 130 _ (omega arith) tt, (fair 140 _ (omega arith) tt, tt)),
          ),
        ),
      )
      nothing_held

abbrev held : AdmissionLease
held = record {
  job_id = "a1";
  resource_class = build;
  backend = "claude";
  profile = "auto";
  work_folder = "/w";
  pid = 41;
  pid_started_at = 7;
  acquired_at = 100;
  heartbeat_at = 100;
  expires_at = 160;
}

held_read : parse_lease (some (encode_lease held)) ≡ some held
unfolding parse_lease encode_lease parse_fields schema_field job_id_field is_job_id class_of_name
    text_field non_empty_field pos_int_field
held_read = refl

written_leases_are_read_example :
    ReadsBack (new_lease 1000 200 (request "a2" "/v" heavy))
    × ReadsBack (extend 1000 200 held)
    × ReadsBack (take_over 1000 200 worker held)
unfolding invalid_request_field is_job_id
written_leases_are_read_example =
    written_leases_are_read 1000 200 (request "a2" "/v" heavy) worker (some (encode_lease held))
      held (omega arith) refl held_read refl

-- A time to live with a fraction is kept.
fraction_kept :
    clamp_ttl (some (record { whole = 1500; fraction = true }))
    ≡ record { whole = 1500; fraction = true }
unfolding clamp_ttl
fraction_kept = refl

-- An expiry with a fraction is refused by the strict parser.
fraction_refused : pos_int_field "expiresAt" (field "expiresAt" (number non_int) end) ≡ none
unfolding pos_int_field
fraction_refused = refl

abbrev rivals : List LiveLeaseInfo
rivals = lease_info held ∷ []

admitted_iff_example :
    ((evaluate_admission posix small (request "b2" "/v" heavy) rivals none).admitted ≡ true)
    ↔ Admissible posix small (request "b2" "/v" heavy) rivals none
admitted_iff_example = admitted_iff posix small (request "b2" "/v" heavy) rivals none

second_is_admitted :
    (evaluate_admission posix small (request "b2" "/v" heavy) rivals none).admitted ≡ true
unfolding evaluate_admission gate memory_short heavy_full space_taken canonical_work_folder
    resource_limit_of scope_limit_for limit_at active_count invalid_policy_field bad_limits
    invalid_request_field is_job_id
second_is_admitted = refl

abbrev busy : Round
busy = record { open_result = Open.held; holder_pid = some 9; holder_alive = some true; clock = 40 }

abbrev late : Round
late = record { open_result = Open.held; holder_pid = none; holder_alive = none; clock = 101 }

abbrev free_round : Round
free_round = record { open_result = created; holder_pid = none; holder_alive = none; clock = 60 }

abbrev orphaned : Round
orphaned = record {
  open_result = Open.held;
  holder_pid = some 9;
  holder_alive = some false;
  clock = 500;
}

abbrev unlocked : Shared
unlocked = record { lock_file = none; phase = λ _. outside }

abbrev entered : Shared
entered = record { lock_file = some 4; phase = at (λ _. outside) 4 inside }

nobody_inside : IsExclusive unlocked
nobody_inside = record { named = λ p e. cc; calm = λ p e. cc }

abbrev fourth : ℕ
fourth = 4

exclusive_without_deaths_example : fourth ≡ fourth
exclusive_without_deaths_example =
    exclusive_without_deaths unlocked entered 4 4 nobody_inside
      (Reach.next Reach.here (LockStep.create unlocked 4 refl refl)) refl refl

two_inside_after_death_example :
    (t : Shared) × Reach (λ q. q == 9) (abandoned 9) t × (t.phase 4 ≡ inside) × (t.phase 5 ≡ inside)
two_inside_after_death_example = two_inside_after_death (λ q. q == 9) 9 4 5 refl (omega arith)
